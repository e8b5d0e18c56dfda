-- ===== src/Dev/Client/Callbacks.antt =====
-- The client's callbacks, completion by completion.
use iel.Base.{
  ℕ, zero, suc, ◌≤◌, ◌≡◌, none, some, true, false, List, [], ◌∷◌, length, Bool-cases, Option-cases,
  inl, inr, arith,
}
use iel.Iou.{Res, value, error, flag_noreg_handle}
use iel.Iou.Files.{inval}
use iel.Dev.{Request, Call, submit, xreg_de_sockets, Note, failure, Env, negative, not_positive}
use iel.Dev.Client.{onconnect_vfy, onconnect_doread, onconnect_dowrite}
use iel.Dev.Client.Owned.{
  sending, receiving, request_at, working, ended, waiting, closed, Keeps, kept, free_rsrc_lem,
  onconnect_vfy-error, onconnect_vfy-Told, Keeps-Told,
}

abbrev asked : ℕ → List Call → Request → List Call
asked fd calls r = submit r fd 4100 flag_noreg_handle ∷ calls

-- A result that counts at most `limit` bytes
abbrev pub Within : ℕ → Res → Type 0
Within limit (value n) = n ≤ limit
Within limit (error errno) = Unit

module _ (env : Env) (fd : ℕ) (res : Res) (calls : List Call) (bytes : List ℕ)
    (notes : List Note) where
  onconnect_doread-fails :
      not_positive res ≡ true
      → onconnect_doread env fd res (working fd [] calls bytes notes)
        ≡ some (tt, ended (xreg_de_sockets fd inval 2 ∷ calls) bytes (failure res ∷ notes))
  unfolding onconnect_doread
  onconnect_doread-fails fails =
      ground (arith, fails, free_rsrc_lem fd calls bytes (failure res ∷ notes))

  onconnect_doread-accepted :
      not_positive res ≡ false
      → env.refuses (asked fd calls (request_at receiving)) ≡ none
      → onconnect_doread env fd res (working fd [] calls bytes notes)
        ≡ some (
          tt,
          working fd
              (request_at receiving ∷ [])
              (asked fd calls (request_at receiving))
              bytes
              notes,
        )
  unfolding onconnect_doread
  onconnect_doread-accepted on accepts = ground (arith, on, accepts)

  onconnect_doread-refused :
      (errno : ℕ)
      → not_positive res ≡ false
      → env.refuses (asked fd calls (request_at receiving)) ≡ some errno
      → onconnect_doread env fd res (working fd [] calls bytes notes)
        ≡ onconnect_vfy fd
            (error errno)
            (working fd [] (asked fd calls (request_at receiving)) bytes notes)
  unfolding onconnect_doread
  onconnect_doread-refused errno on refuses = ground (arith, on, refuses)

module _ (env : Env) (fd n : ℕ) (res : Res) (calls : List Call) (bytes : List ℕ) (notes : List Note)
    (size : length bytes ≡ 4100) (more : 1 ≤ n) where
  pub onconnect_doread-Keeps :
      Keeps fd n (onconnect_doread env fd res (working fd [] calls bytes notes))
  onconnect_doread-Keeps = elim (Bool-cases (not_positive res)) [
    | inl fails ↦
        rw (onconnect_doread-fails env fd res calls bytes notes fails) (kept _ (closed _ _ _))
    | inr on ↦ elim (Option-cases (env.refuses (asked fd calls (request_at receiving)))) [
      | inl accepts ↦
          rw (onconnect_doread-accepted env fd res calls bytes notes on accepts)
            (kept _ (waiting receiving _ bytes notes (omega arith) size))
      | inr (errno, refuses) ↦
          rw (onconnect_doread-refused env fd res calls bytes notes errno on refuses)
            (onconnect_vfy-error fd n _ bytes notes errno)
    ]
  ]

module _ (env : Env) (fd : ℕ) (res : Res) (calls : List Call) (bytes : List ℕ)
    (notes : List Note) where
  pub onconnect_dowrite-fails :
      negative res ≡ true
      → onconnect_dowrite env fd res (working fd [] calls bytes notes)
        ≡ some (tt, ended (xreg_de_sockets fd inval 2 ∷ calls) bytes (failure res ∷ notes))
  unfolding onconnect_dowrite
  onconnect_dowrite-fails fails =
      ground (arith, fails, free_rsrc_lem fd calls bytes (failure res ∷ notes))

  onconnect_dowrite-accepted :
      negative res ≡ false
      → env.refuses (asked fd calls (request_at sending)) ≡ none
      → onconnect_dowrite env fd res (working fd [] calls bytes notes)
        ≡ some (
          tt,
          working fd (request_at sending ∷ []) (asked fd calls (request_at sending)) bytes notes,
        )
  unfolding onconnect_dowrite
  onconnect_dowrite-accepted on accepts = ground (arith, on, accepts)

  onconnect_dowrite-refused :
      (errno : ℕ)
      → negative res ≡ false
      → env.refuses (asked fd calls (request_at sending)) ≡ some errno
      → onconnect_dowrite env fd res (working fd [] calls bytes notes)
        ≡ onconnect_doread env fd
            (error errno)
            (working fd [] (asked fd calls (request_at sending)) bytes notes)
  unfolding onconnect_dowrite
  onconnect_dowrite-refused errno on refuses = ground (arith, on, refuses)

module _ (env : Env) (fd n : ℕ) (res : Res) (calls : List Call) (bytes : List ℕ) (notes : List Note)
    (size : length bytes ≡ 4100) (more : 2 ≤ n) where
  pub onconnect_dowrite-Keeps :
      Keeps fd n (onconnect_dowrite env fd res (working fd [] calls bytes notes))
  onconnect_dowrite-Keeps = elim (Bool-cases (negative res)) [
    | inl fails ↦
        rw (onconnect_dowrite-fails env fd res calls bytes notes fails) (kept _ (closed _ _ _))
    | inr on ↦ elim (Option-cases (env.refuses (asked fd calls (request_at sending)))) [
      | inl accepts ↦
          rw (onconnect_dowrite-accepted env fd res calls bytes notes on accepts)
            (kept _ (waiting sending _ bytes notes (omega arith) size))
      | inr (errno, refuses) ↦
          rw (onconnect_dowrite-refused env fd res calls bytes notes errno on refuses)
            (onconnect_doread-Keeps env fd n (error errno) _ bytes notes size (omega arith))
    ]
  ]

module _ (fd : ℕ) (calls : List Call) (bytes : List ℕ) (notes : List Note)
    (size : length bytes ≡ 4100) where
  onconnect_vfy-fails :
      onconnect_vfy fd (value 0) (working fd [] calls bytes notes)
      ≡ some (tt, ended (xreg_de_sockets fd inval 2 ∷ calls) bytes (failure (value 0) ∷ notes))
  unfolding onconnect_vfy
  onconnect_vfy-fails = ground (arith, free_rsrc_lem fd calls bytes (failure (value 0) ∷ notes))

  pub onconnect_vfy-Keeps :
      (n : ℕ) (res : Res)
      → Within 4100 res
      → Keeps fd n (onconnect_vfy fd res (working fd [] calls bytes notes))
  onconnect_vfy-Keeps n (error errno) few = onconnect_vfy-error fd n calls bytes notes errno
  onconnect_vfy-Keeps n (value zero) few = rw onconnect_vfy-fails (kept _ (closed _ _ _))
  onconnect_vfy-Keeps n (value (suc m)) few = Keeps-Told fd n (suc m) calls bytes notes (
      onconnect_vfy-Told fd (suc m) calls bytes notes (omega arith) (omega (arith, few, size)) size)
