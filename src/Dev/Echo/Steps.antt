-- ===== src/Dev/Echo/Steps.antt =====
-- What the echo server holds between two completions.
use iel.Base.{
  ℕ, suc, ◌≡◌, refl, Option, none, some, Bool, true, false, List, [], ◌∷◌, Option-cases, inl, inr,
  arith, ◌==◌, eq-true,
}
use iel.Iou.{Res, error}
use iel.Iou.Files.{RegFd, inval}
use iel.Dev.{
  Holding, sock, sr, sw, Part, base_write, base_read, Request, Call, submit, xreg_de_sockets, Note,
  Env, World, M, holding,
}
use iel.Dev.Echo.{
  ecb, ebuf, TcpEcho, be_regs, be_regs_flag, tcpecho_free, ask, tcpecho_read, tcpecho_write,
  echo_callback,
}

abbrev pub connected : ℕ → List Holding
connected fd = sock fd ∷ ebuf ∷ ecb ∷ []

abbrev pub listening : ℕ → List Holding
listening fd = ebuf ∷ ecb ∷ sock fd ∷ []

abbrev pub left_calls : RegFd → List Call → List Call
left_calls s calls =
    xreg_de_sockets s.raw s.reg (elim (s.reg == inval) [ true ↦ 2 | false ↦ 3 ]) ∷ calls

abbrev pub asked : RegFd → Request → ℕ → List Call → List Call
asked s r len calls = submit r (be_regs s) len (be_regs_flag s) ∷ calls

module _ (pcb : TcpEcho) (calls : List Call) (stop : Bool) (bytes : List ℕ)
    (notes : List Note) where
  pub tcpecho_free-connected :
      tcpecho_free pcb (holding (connected pcb.sock.raw) [] calls stop bytes notes)
      ≡ some (pcb, holding [] [] (left_calls pcb.sock calls) stop bytes notes)
  unfolding tcpecho_free
  tcpecho_free-connected = ground (arith, eq-true pcb.sock.raw pcb.sock.raw refl)

  pub tcpecho_free-listening :
      tcpecho_free pcb (holding (listening pcb.sock.raw) [] calls stop bytes notes)
      ≡ some (pcb, holding [] [] (left_calls pcb.sock calls) stop bytes notes)
  unfolding tcpecho_free
  tcpecho_free-listening = ground (arith, eq-true pcb.sock.raw pcb.sock.raw refl)

  ask-accepted :
      (env : Env) (again : Part → Res → TcpEcho → M TcpEcho) (r : Request) (part : Part) (len : ℕ)
      → env.refuses (asked pcb.sock r len calls) ≡ none
      → ask env again r part len pcb (holding (connected pcb.sock.raw) [] calls stop bytes notes)
        ≡ some (
          pcb,
          holding (connected pcb.sock.raw) (r ∷ []) (asked pcb.sock r len calls) stop bytes notes,
        )
  unfolding ask
  ask-accepted env again r part len accepted = ground (arith, accepted)

  ask-refused :
      (env : Env) (again : Part → Res → TcpEcho → M TcpEcho) (r : Request) (part : Part)
      (len errno : ℕ)
      → env.refuses (asked pcb.sock r len calls) ≡ some errno
      → ask env again r part len pcb (holding (connected pcb.sock.raw) [] calls stop bytes notes)
        ≡ again part
            (error errno)
            pcb
            (holding (connected pcb.sock.raw) [] (asked pcb.sock r len calls) stop bytes notes)
  unfolding ask
  ask-refused env again r part len errno refused = ground (arith, refused)

  -- Either callback ends the server on an error.
  pub read-error :
      (env : Env) (again : Part → Res → TcpEcho → M TcpEcho) (errno : ℕ)
      → tcpecho_read env again
          (error errno)
          pcb
          (holding (connected pcb.sock.raw) [] calls stop bytes notes)
        ≡ some (pcb, holding [] [] (left_calls pcb.sock calls) stop bytes notes)
  unfolding tcpecho_read
  read-error env again errno = ground (arith, tcpecho_free-connected)

  pub write-error :
      (env : Env) (again : Part → Res → TcpEcho → M TcpEcho) (errno : ℕ)
      → tcpecho_write env again
          (error errno)
          pcb
          (holding (connected pcb.sock.raw) [] calls stop bytes notes)
        ≡ some (pcb, holding [] [] (left_calls pcb.sock calls) stop bytes notes)
  unfolding tcpecho_write
  write-error env again errno = ground (arith, tcpecho_free-connected)

-- The server has given everything back, or it waits for the request `r` on `len` bytes of its
-- connection.
pub data Served (stop : Bool) (bytes : List ℕ) (notes : List Note) (r : Request) (len : ℕ)
    : Option (TcpEcho × World) → Type 0 where
  gone :
      (pcb : TcpEcho) (calls : List Call)
      → Served stop bytes notes r len (some (pcb, holding [] [] calls stop bytes notes))
  goes_on :
      (pcb : TcpEcho) (calls : List Call)
      → pcb.accepting ≡ false
      → Served stop bytes notes r len (
          some (
            pcb,
            holding (connected pcb.sock.raw) (r ∷ []) (asked pcb.sock r len calls) stop bytes notes,
          ))

abbrev pub next_read : Request
next_read = record { op = sr; part = base_write }

abbrev pub next_write : Request
next_write = record { op = sw; part = base_read }

module _ (env : Env) (depth : ℕ) (pcb : TcpEcho) (calls : List Call) (stop : Bool) (bytes : List ℕ)
    (notes : List Note) where
  pub ask_read-Served :
      pcb.accepting ≡ false
      → Served stop bytes notes next_read 4096 (
          ask env
            (echo_callback env (suc depth))
            next_read
            base_write
            4096
            pcb
            (holding (connected pcb.sock.raw) [] calls stop bytes notes))
  unfolding echo_callback
  ask_read-Served w = elim (Option-cases (env.refuses (asked pcb.sock next_read 4096 calls))) [
    | inl accepted ↦
        rw
          (ask-accepted pcb calls stop bytes notes env (echo_callback env (suc depth)) next_read
            base_write 4096 accepted)
          (goes_on pcb calls w)
    | inr (errno, refused) ↦
        rw
          (
            ask-refused pcb calls stop bytes notes env (echo_callback env (suc depth)) next_read
                base_write 4096 errno refused,
            write-error pcb (asked pcb.sock next_read 4096 calls) stop bytes notes env
                (echo_callback env depth) errno,
          )
          (gone pcb _)
  ]

  pub ask_write-Served :
      (n : ℕ)
      → pcb.accepting ≡ false
      → Served stop bytes notes next_write n (
          ask env
            (echo_callback env (suc depth))
            next_write
            base_read
            n
            pcb
            (holding (connected pcb.sock.raw) [] calls stop bytes notes))
  unfolding echo_callback
  ask_write-Served n w = elim (Option-cases (env.refuses (asked pcb.sock next_write n calls))) [
    | inl accepted ↦
        rw
          (ask-accepted pcb calls stop bytes notes env (echo_callback env (suc depth)) next_write
            base_read n accepted)
          (goes_on pcb calls w)
    | inr (errno, refused) ↦
        rw
          (
            ask-refused pcb calls stop bytes notes env (echo_callback env (suc depth)) next_write
                base_read n errno refused,
            read-error pcb (asked pcb.sock next_write n calls) stop bytes notes env
                (echo_callback env depth) errno,
          )
          (gone pcb _)
  ]
