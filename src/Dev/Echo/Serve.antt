-- ===== src/Dev/Echo/Serve.antt =====
-- The completions of the echo server's requests.
use iel.Base.{
  ℕ, zero, suc, ◌<◌, ◌≡◌, ◌≢◌, refl, sym, none, some, Bool, true, false, List, [], ◌∷◌,
  Option-cases, inl, inr, arith, eq-true, eq-false,
}
use iel.Iou.{Res, value, error}
use iel.Dev.{
  sock, sa, Part, base_write, base_read, Request, Call, xreg_sockets, Note, holding, Env, M,
}
use iel.Dev.Echo.{TcpEcho, ask, take_over, tcpecho_read, tcpecho_write, echo_callback, serve_one}
use iel.Dev.Echo.Steps.{
  connected, listening, left_calls, Served, gone, next_read, next_write, tcpecho_free-connected,
  tcpecho_free-listening, ask_read-Served, ask_write-Served,
}

-- The server's block once a connection has taken the listening socket's place
abbrev taken_over : ℕ → ℕ → TcpEcho
taken_over fd reg = record { sock = record { raw = fd; reg = reg }; accepting = false }

module _ (env : Env) (again : Part → Res → TcpEcho → M TcpEcho) (pcb : TcpEcho) (fd : ℕ)
    (calls : List Call) (stop : Bool) (bytes : List ℕ) (notes : List Note)
    (new : fd ≢ pcb.sock.raw) where
  abbrev registering : List Call
  registering = xreg_sockets fd ∷ left_calls pcb.sock calls

  take_over-hard :
      env.registers registering ≡ none
      → take_over env again fd pcb
          (holding (sock fd ∷ listening pcb.sock.raw) [] calls stop bytes notes)
        ≡ some (
          taken_over fd pcb.sock.reg,
          holding [] [] (left_calls (taken_over fd pcb.sock.reg).sock registering) stop bytes notes,
        )
  unfolding take_over
  take_over-hard hard = ground (
    arith,
    hard,
    eq-true pcb.sock.raw pcb.sock.raw refl,
    eq-false pcb.sock.raw fd (λ e. new (sym e)),
    tcpecho_free-connected (taken_over fd pcb.sock.reg) registering stop bytes notes,
  )

  take_over-soft :
      (reg : ℕ)
      → env.registers registering ≡ some reg
      → take_over env again fd pcb
          (holding (sock fd ∷ listening pcb.sock.raw) [] calls stop bytes notes)
        ≡ ask env again next_read base_write 4096
            (taken_over fd reg)
            (holding (connected fd) [] registering stop bytes notes)
  unfolding take_over
  take_over-soft reg soft = ground (
    arith,
    soft,
    eq-true pcb.sock.raw pcb.sock.raw refl,
    eq-false pcb.sock.raw fd (λ e. new (sym e)),
  )

-- The request for a connection
abbrev pub accept_request : Request
accept_request = record { op = sa; part = base_read }

-- Counts and descriptors that the kernel answers: a new socket is none of those that are open, and not 0.
abbrev pub Opens : ℕ → Res → Type 0
Opens fd (value n) = (0 < n) × (n ≢ fd)
Opens fd (error errno) = Unit

abbrev pub count : Res → ℕ
count (value n) = n
count (error errno) = 0

module _ (env : Env) (depth : ℕ) (pcb : TcpEcho) (calls : List Call) (stop : Bool) (bytes : List ℕ)
    (notes : List Note) where
  listening_step :
      (n : ℕ)
      → 0 < n
      → pcb.accepting ≡ true
      → serve_one env
          (suc (suc depth))
          (value n)
          pcb
          (holding (listening pcb.sock.raw) (accept_request ∷ []) calls stop bytes notes)
        ≡ take_over env
            (echo_callback env (suc depth))
            n
            pcb
            (holding (sock n ∷ listening pcb.sock.raw) [] calls stop bytes notes)
  unfolding serve_one echo_callback tcpecho_read
  listening_step n positive a = rw (eq-false n 0 (λ e. omega (arith, e))) (simp a)

  accept_fails :
      (errno : ℕ)
      → Served stop bytes notes next_read 4096 (
          serve_one env
            (suc (suc depth))
            (error errno)
            pcb
            (holding (listening pcb.sock.raw) (accept_request ∷ []) calls stop bytes notes))
  unfolding serve_one echo_callback tcpecho_read
  accept_fails errno =
      rw (tcpecho_free-listening pcb calls stop bytes notes) (gone pcb (left_calls pcb.sock calls))

  read_fails :
      (errno : ℕ)
      → serve_one env
          (suc (suc depth))
          (error errno)
          pcb
          (holding (connected pcb.sock.raw) (next_read ∷ []) calls stop bytes notes)
        ≡ some (pcb, holding [] [] (left_calls pcb.sock calls) stop bytes notes)
  unfolding serve_one echo_callback tcpecho_write
  read_fails errno = ground (arith, tcpecho_free-connected pcb calls stop bytes notes)

  read_ends :
      serve_one env
        (suc (suc depth))
        (value 0)
        pcb
        (holding (connected pcb.sock.raw) (next_read ∷ []) calls stop bytes notes)
      ≡ some (pcb, holding [] [] (left_calls pcb.sock calls) stop bytes notes)
  unfolding serve_one echo_callback tcpecho_write
  read_ends = ground (arith, tcpecho_free-connected pcb calls stop bytes notes)

  write_fails :
      (errno : ℕ)
      → serve_one env
          (suc (suc depth))
          (error errno)
          pcb
          (holding (connected pcb.sock.raw) (next_write ∷ []) calls stop bytes notes)
        ≡ some (pcb, holding [] [] (left_calls pcb.sock calls) stop bytes notes)
  unfolding serve_one echo_callback tcpecho_read
  write_fails errno = ground (arith, tcpecho_free-connected pcb calls stop bytes notes)

  write_ends :
      serve_one env
        (suc (suc depth))
        (value 0)
        pcb
        (holding (connected pcb.sock.raw) (next_write ∷ []) calls stop bytes notes)
      ≡ some (pcb, holding [] [] (left_calls pcb.sock calls) stop bytes notes)
  unfolding serve_one echo_callback tcpecho_read
  write_ends = ground (arith, tcpecho_free-connected pcb calls stop bytes notes)

  read_step :
      (n : ℕ)
      → serve_one env
          (suc (suc depth))
          (value (suc n))
          pcb
          (holding (connected pcb.sock.raw) (next_read ∷ []) calls stop bytes notes)
        ≡ ask env
            (echo_callback env (suc depth))
            next_write
            base_read
            (suc n)
            pcb
            (holding (connected pcb.sock.raw) [] calls stop bytes notes)
  unfolding serve_one echo_callback tcpecho_write
  read_step n = rw (eq-false (suc n) 0 (λ e. omega (arith, e))) refl

  write_step :
      (n : ℕ)
      → pcb.accepting ≡ false
      → serve_one env
          (suc (suc depth))
          (value (suc n))
          pcb
          (holding (connected pcb.sock.raw) (next_write ∷ []) calls stop bytes notes)
        ≡ ask env
            (echo_callback env (suc depth))
            next_read
            base_write
            4096
            pcb
            (holding (connected pcb.sock.raw) [] calls stop bytes notes)
  unfolding serve_one echo_callback tcpecho_read
  write_step n w = rw (eq-false (suc n) 0 (λ e. omega (arith, e))) (simp w)

  -- A connection: the server goes on with it in place of the listening socket, and asks for 4096
  -- bytes, or it gives back all that it holds.
  pub accept_request-Served :
      (res : Res)
      → pcb.accepting ≡ true
      → Opens pcb.sock.raw res
      → Served stop bytes notes next_read 4096 (
          serve_one env
            (suc (suc depth))
            res
            pcb
            (holding (listening pcb.sock.raw) (accept_request ∷ []) calls stop bytes notes))
  accept_request-Served (error errno) a new = accept_fails errno
  accept_request-Served (value n) a new =
      elim (Option-cases (env.registers (xreg_sockets n ∷ left_calls pcb.sock calls))) [
        | inl hard ↦
            rw
              (
                listening_step n new.0 a,
                take_over-hard env (echo_callback env (suc depth)) pcb n calls stop bytes notes
                    new.1 hard,
              )
              (gone _ _)
        | inr (reg, soft) ↦
            rw
              (
                listening_step n new.0 a,
                take_over-soft env (echo_callback env (suc depth)) pcb n calls stop bytes notes
                    new.1 reg soft,
              )
              (ask_read-Served env depth (taken_over n reg) _ stop bytes notes refl)
      ]

  -- The bytes that have come: the server asks to write as many, or gives back all that it holds.
  pub read-Served :
      (res : Res)
      → pcb.accepting ≡ false
      → Served stop bytes notes next_write (count res) (
          serve_one env
            (suc (suc depth))
            res
            pcb
            (holding (connected pcb.sock.raw) (next_read ∷ []) calls stop bytes notes))
  read-Served (error errno) w = rw (read_fails errno) (gone _ _)
  read-Served (value zero) w = rw read_ends (gone _ _)
  read-Served (value (suc n)) w =
      rw (read_step n) (ask_write-Served env depth pcb calls stop bytes notes (suc n) w)

  -- The bytes that have been written: the server asks for more, or gives back all that it holds.
  pub write-Served :
      (res : Res)
      → pcb.accepting ≡ false
      → Served stop bytes notes next_read 4096 (
          serve_one env
            (suc (suc depth))
            res
            pcb
            (holding (connected pcb.sock.raw) (next_write ∷ []) calls stop bytes notes))
  write-Served (error errno) w = rw (write_fails errno) (gone _ _)
  write-Served (value zero) w = rw write_ends (gone _ _)
  write-Served (value (suc n)) w =
      rw (write_step n w) (ask_read-Served env depth pcb calls stop bytes notes w)
