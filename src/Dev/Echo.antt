-- ===== src/Dev/Echo.antt =====
-- The echo server of dev/be/iou.c: `tcpecho_read` and `tcpecho_write`. The block of `struct tcpecho` is
-- `ecb`, its buffer is `ebuf`. A callback that calls another one makes the call by `again`.
pub mod Steps
pub mod Serve
pub mod Run
pub mod Start
mod Tests
use iel.Base.{ℕ, zero, suc, ◌^◌, Option, none, some, Bool, true, false, List, [], ◌∷◌, ◌==◌}
use iel.Iou.{Res, value, error, flag_noreg_handle}
use iel.Iou.Files.{RegFd, inval}
use iel.Dev.{
  Holding, block, sock, Op, fr, fw, sr, sw, sa, sc, Part, base, base_write, base_read, base_vfy,
  Request, Call, xreg_sockets, xreg_de_sockets, Env, World, M, pure, ◌>>=◌, ◌>>◌, access, hold,
  let_go, call, request, not_positive,
}

abbrev pub ecb : Holding
ecb = block 2

abbrev pub ebuf : Holding
ebuf = block 3

-- `struct tcpecho`, the fields that change; `accepting` is `rstate == 'A'`.
pub record TcpEcho : Type 0 where
  pub sock : RegFd
  pub accepting : Bool

-- `IEL_BE_REGS` and `IEL_BE_REGS_FLAG`
abbrev pub be_regs : RegFd → ℕ
be_regs s = elim (s.reg == inval) [ true ↦ s.raw | false ↦ s.reg ]

abbrev pub be_regs_flag : RegFd → ℕ
be_regs_flag s = elim (s.reg == inval) [ true ↦ flag_noreg_handle | false ↦ 0 ]

-- `IEL_XREG_DE_SOCKETS` of a socket that may be registered: the program gives the socket away. The kernel is
-- taken to grant the update of the slot; where it refuses, the backend returns before it closes the
-- socket (src/backends/iou.c:186-192).
abbrev pub leave_sock : RegFd → M (Unit {0})
leave_sock s = do
  call (xreg_de_sockets s.raw s.reg (elim (s.reg == inval) [ true ↦ 2 | false ↦ 3 ]))
  let_go (sock s.raw)

-- `IEL_XREG_SOCKETS` of one socket in place: `none` is a hard failure.
abbrev pub register_sock : Env → RegFd → M (Option RegFd)
register_sock env s w =
    let calls = xreg_sockets s.raw ∷ w.calls in
    elim (env.registers calls) [
      | none ↦ some (none, record w { calls = calls })
      | some reg ↦ some (some (record { raw = s.raw; reg = reg }), record w { calls = calls })
    ]

-- The end of the server, as both callbacks have it
pub tcpecho_free : TcpEcho → M TcpEcho
tcpecho_free pcb = do let_go ebuf; leave_sock pcb.sock; let_go ecb; pure pcb

module _ (env : Env) (again : Part → Res → TcpEcho → M TcpEcho) where
  -- The request for what comes next
  pub ask : Request → Part → ℕ → TcpEcho → M TcpEcho
  ask r part len pcb = do
    refused ← request env r (be_regs pcb.sock) len (be_regs_flag pcb.sock)
    elim refused [ none ↦ pure pcb | some errno ↦ again part (error errno) pcb ]

  -- The first connection takes the place of the listening socket.
  pub take_over : ℕ → TcpEcho → M TcpEcho
  take_over fd pcb = do
    leave_sock pcb.sock
    registered ← register_sock env (record { raw = fd; reg = pcb.sock.reg })
    elim registered [
      | none ↦
          tcpecho_free
            (record { sock = record { raw = fd; reg = pcb.sock.reg }; accepting = false })
      | some s ↦
          ask (record { op = sr; part = base_write }) base_write 4096
            (record { sock = s; accepting = false })
    ]

  pub tcpecho_read : Res → TcpEcho → M TcpEcho
  tcpecho_read (error errno) pcb = do access ecb; tcpecho_free pcb
  tcpecho_read (value n) pcb = do
    access ecb
    elim (n == 0) [
      | true ↦ tcpecho_free pcb
      | false ↦ elim pcb.accepting [
        | true ↦ take_over n pcb
        | false ↦ ask (record { op = sr; part = base_write }) base_write 4096 pcb
      ]
    ]

  pub tcpecho_write : Res → TcpEcho → M TcpEcho
  tcpecho_write (error errno) pcb = do access ecb; tcpecho_free pcb
  tcpecho_write (value n) pcb = do
    access ecb
    elim (n == 0) [
      | true ↦ tcpecho_free pcb
      | false ↦ ask (record { op = sw; part = base_read }) base_read n pcb
    ]

-- The callbacks by the base that names them, with at most `depth` calls inside one another
pub echo_callback : Env → ℕ → Part → Res → TcpEcho → M TcpEcho
echo_callback env zero part res pcb = λ w. none
echo_callback env (suc depth) base_read res pcb = tcpecho_read env (echo_callback env depth) res pcb
echo_callback env (suc depth) base_write res pcb =
    tcpecho_write env (echo_callback env depth) res pcb
echo_callback env (suc depth) base res pcb = λ w. none
echo_callback env (suc depth) base_vfy res pcb = λ w. none

-- The socket that an accept_request opens
abbrev pub accepted_socket : Op → Res → List Holding → List Holding
accepted_socket sa (value n) held = sock n ∷ held
accepted_socket sa (error n) held = held
accepted_socket sc res held = held
accepted_socket sr res held = held
accepted_socket sw res held = held
accepted_socket fr res held = held
accepted_socket fw res held = held

-- A completion: the kernel opens the socket that it accepts, and lrun1 calls the callback.
pub serve_one : Env → ℕ → Res → TcpEcho → World → Option (TcpEcho × World)
serve_one env depth res pcb w = elim w.pending [
  | [] ↦ some (pcb, w)
  | r ∷ rest ↦
      echo_callback env depth r.part res pcb
        (record w { pending = rest; held = accepted_socket r.op res w.held })
]
