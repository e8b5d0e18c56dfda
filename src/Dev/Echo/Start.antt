-- ===== src/Dev/Echo/Start.antt =====
-- The part of `amain_s` in dev/be/iou.c that starts the echo server.
use iel.Base.{
  ℕ, suc, ◌≡◌, refl, inl, inr, Option, none, some, Bool, true, false, List, [], ◌∷◌, arith, eq-true,
  Bool-cases, Option-cases,
}
use iel.Iou.{Res, error}
use iel.Iou.Files.{RegFd, inval}
use iel.Dev.{
  sock, sa, Part, base_read, Call, xreg_de_sockets, malloc, submit, xreg_sockets, Note, Env, World,
  M, pure, ◌>>=◌, ◌>>◌, hold, let_go, call, alloc, request, holding,
}
use iel.Dev.Echo.{
  ecb, ebuf, echo_callback, TcpEcho, be_regs, be_regs_flag, register_sock, tcpecho_read,
}
use iel.Dev.Echo.Serve.{accept_request}
use iel.Dev.Echo.Steps.{listening, left_calls, tcpecho_free-listening}

-- `err_closefd`: the result is the 1 of the error
close_fd : ℕ → M ℕ
close_fd fd = do call (xreg_de_sockets fd inval 2); let_go (sock fd); pure 1

-- The request for the first connection, and the callback where it is refused
accept_first : Env → (Part → Res → TcpEcho → M TcpEcho) → RegFd → M ℕ
accept_first env again s = do
  refused ← request env (record { op = sa; part = base_read }) (be_regs s) 0 (be_regs_flag s)
  elim refused [
    | none ↦ pure 0
    | some errno ↦ (do
      ended ← again base_read (error errno) (record { sock = s; accepting = true })
      pure 0)
  ]

-- With the socket bound, from `malloc` of `struct tcpecho`, whose size is `size`
with_listener : Env → (Part → Res → TcpEcho → M TcpEcho) → ℕ → ℕ → M ℕ
unfolding close_fd accept_first
with_listener env again size fd = do
  granted ← alloc env ecb size
  elim granted [
    | false ↦ close_fd fd
    | true ↦ (do
      granted' ← alloc env ebuf 4096
      elim granted' [
        | false ↦ (do let_go ecb; close_fd fd)
        | true ↦ (do
          registered ← register_sock env (record { raw = fd; reg = inval })
          elim registered [
            | none ↦ (do let_go ebuf; let_go ecb; close_fd fd)
            | some s ↦ accept_first env again s
          ])
      ])
  ]

-- All of it: the answers of `socket`, `bind` and `listen` are given.
pub start_server : Env → (Part → Res → TcpEcho → M TcpEcho) → ℕ → Option ℕ → Bool → Bool → M ℕ
unfolding close_fd with_listener
start_server env again size opened bound listens = elim opened [
  | none ↦ pure 1
  | some fd ↦ (do
    hold (sock fd)
    elim bound [
      | false ↦ close_fd fd
      | true ↦ elim listens [ false ↦ close_fd fd | true ↦ with_listener env again size fd ]
    ])
]

module _ (env : Env) (depth size : ℕ) (stop : Bool) (bytes : List ℕ) (notes : List Note) where
  -- What the start may end in: 0 with the server waiting for a connection; 0 where the request for it
  -- is refused and 1 where anything else fails, with nothing held and nothing on the way.
  pub data Begun (opened : Option ℕ) : Option (ℕ × World) → Type 0 where
    waits :
        (fd : ℕ) (calls : List Call)
        → opened ≡ some fd
        → Begun opened
            (some (0, holding (listening fd) (accept_request ∷ []) calls stop bytes notes))
    turned_down :
        (errno : ℕ) (calls : List Call)
        → env.refuses calls ≡ some errno
        → (after : List Call) → Begun opened (some (0, holding [] [] after stop bytes notes))
    failed : (calls : List Call) → Begun opened (some (1, holding [] [] calls stop bytes notes))

  close_fd-only :
      (fd : ℕ) (calls : List Call)
      → close_fd fd (holding (sock fd ∷ []) [] calls stop bytes notes)
        ≡ some (1, holding [] [] (xreg_de_sockets fd inval 2 ∷ calls) stop bytes notes)
  unfolding close_fd
  close_fd-only fd calls = ground (arith, eq-true fd fd refl)

  module _ (fd : ℕ) (calls : List Call) where
    abbrev asked_first : ℕ → List Call
    asked_first reg =
        let s : RegFd = record { raw = fd; reg = reg } in
        submit accept_request (be_regs s) 0 (be_regs_flag s) ∷ calls

    accept_first-accepted :
        (reg : ℕ)
        → env.refuses (asked_first reg) ≡ none
        → accept_first env
            (echo_callback env (suc depth))
            (record { raw = fd; reg = reg })
            (holding (listening fd) [] calls stop bytes notes)
          ≡ some
              (0, holding (listening fd) (accept_request ∷ []) (asked_first reg) stop bytes notes)
    unfolding accept_first
    accept_first-accepted reg accepted = ground (arith, accepted)

    accept_first-refused :
        (reg errno : ℕ)
        → env.refuses (asked_first reg) ≡ some errno
        → accept_first env
            (echo_callback env (suc depth))
            (record { raw = fd; reg = reg })
            (holding (listening fd) [] calls stop bytes notes)
          ≡ some (
            0,
            holding [] []
                (left_calls (record { raw = fd; reg = reg }) (asked_first reg))
                stop
                bytes
                notes,
          )
    unfolding accept_first echo_callback tcpecho_read
    accept_first-refused reg errno refused =
        let freed =
          tcpecho_free-listening
            (record { sock = record { raw = fd; reg = reg }; accepting = true }) (asked_first reg)
            stop bytes notes in
        ground (arith, refused, freed)

    accept_first-Begun :
        (reg : ℕ)
        → Begun (some fd) (
            accept_first env
              (echo_callback env (suc depth))
              (record { raw = fd; reg = reg })
              (holding (listening fd) [] calls stop bytes notes))
    accept_first-Begun reg = elim (Option-cases (env.refuses (asked_first reg))) [
      | inl accepted ↦ rw (accept_first-accepted reg accepted) (waits fd _ refl)
      | inr (errno, refused) ↦
          rw (accept_first-refused reg errno refused) (turned_down errno _ refused _)
    ]

    abbrev asked_block : List Call
    asked_block = malloc size ∷ calls

    abbrev asked_buffer : List Call
    asked_buffer = malloc 4096 ∷ asked_block

    abbrev asked_slot : List Call
    asked_slot = xreg_sockets fd ∷ asked_buffer

    abbrev opened_fd : List Call → World
    opened_fd after = holding (sock fd ∷ []) [] after stop bytes notes

    no_block :
        env.grants asked_block ≡ false
        → with_listener env (echo_callback env (suc depth)) size fd (opened_fd calls)
          ≡ close_fd fd (opened_fd asked_block)
    unfolding with_listener
    no_block refused = ground (arith, refused)

    no_buffer :
        env.grants asked_block ≡ true
        → env.grants asked_buffer ≡ false
        → with_listener env (echo_callback env (suc depth)) size fd (opened_fd calls)
          ≡ close_fd fd (opened_fd asked_buffer)
    unfolding with_listener
    no_buffer granted refused = ground (arith, granted, refused)

    no_slot :
        env.grants asked_block ≡ true
        → env.grants asked_buffer ≡ true
        → env.registers asked_slot ≡ none
        → with_listener env (echo_callback env (suc depth)) size fd (opened_fd calls)
          ≡ close_fd fd (opened_fd asked_slot)
    unfolding with_listener
    no_slot granted granted' refused = ground (arith, granted, granted', refused)

    with_slot :
        (reg : ℕ)
        → env.grants asked_block ≡ true
        → env.grants asked_buffer ≡ true
        → env.registers asked_slot ≡ some reg
        → with_listener env (echo_callback env (suc depth)) size fd (opened_fd calls)
          ≡ accept_first env
              (echo_callback env (suc depth))
              (record { raw = fd; reg = reg })
              (holding (listening fd) [] asked_slot stop bytes notes)
    unfolding with_listener
    with_slot reg granted granted' registered = ground (arith, granted, granted', registered)

  closed : (fd : ℕ) (calls : List Call) → Begun (some fd) (close_fd fd (opened_fd fd calls calls))
  closed fd calls = rw (close_fd-only fd calls) (failed _)

  with_listener-Begun :
      (fd : ℕ) (calls : List Call)
      → Begun (some fd) (
          with_listener env
            (echo_callback env (suc depth))
            size
            fd
            (holding (sock fd ∷ []) [] calls stop bytes notes))
  with_listener-Begun fd calls = elim (Bool-cases (env.grants (asked_block fd calls))) [
    | inr refused ↦ rw (no_block fd calls refused) (closed fd _)
    | inl granted ↦ elim (Bool-cases (env.grants (asked_buffer fd calls))) [
      | inr refused ↦ rw (no_buffer fd calls granted refused) (closed fd _)
      | inl granted' ↦ elim (Option-cases (env.registers (asked_slot fd calls))) [
        | inl refused ↦ rw (no_slot fd calls granted granted' refused) (closed fd _)
        | inr (reg, registered) ↦
            rw (with_slot fd calls reg granted granted' registered)
              (accept_first-Begun fd (asked_slot fd calls) reg)
      ]
    ]
  ]

  -- Starting the echo server returns, whatever the answers are: 0 with its two blocks and its listening
  -- socket held and the request for the first connection on the way, or 0 after that request was
  -- refused, or 1; in these two cases no block and no socket is held and no request is on the way.
  pub start_server-Begun :
      (opened : Option ℕ) (bound listens : Bool) (calls : List Call)
      → Begun opened (
          start_server env
            (echo_callback env (suc depth))
            size
            opened
            bound
            listens
            (holding [] [] calls stop bytes notes))
  unfolding start_server
  start_server-Begun none bound listens calls = failed calls
  start_server-Begun (some fd) false listens calls = rw (close_fd-only fd calls) (failed _)
  start_server-Begun (some fd) true false calls = rw (close_fd-only fd calls) (failed _)
  start_server-Begun (some fd) true true calls = with_listener-Begun fd calls
