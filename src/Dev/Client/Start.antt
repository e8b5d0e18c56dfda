-- ===== src/Dev/Client/Start.antt =====
-- The start of the client: `amain_c` of dev/be/iou.c.
use iel.Base.{
  ℕ, ◌≤◌, ◌<◌, ◌≡◌, refl, sym, ◌∙◌, Option, none, some, true, false, List, [], ◌∷◌, length,
  Bool-cases, Option-cases, inl, inr, arith, eq-true, eq-false,
}
use mathlib.Core.Path.{subst}
use iel.Iou.{error, flag_noreg_handle}
use iel.Iou.Files.{inval}
use iel.Dev.{
  Request, Call, malloc, submit, xreg_de_sockets, Note, holding, Env, World, M, pure, ◌>>◌, access,
}
use iel.Dev.Client.{cbp, buf, close_sock, fill, fill_buf, start_client, amain_c, onconnect_dowrite}
use iel.Dev.Client.Owned.{
  Stage, connecting, request_at, left, working, Owned, waiting, closed, Keeps, kept,
}
use iel.Dev.Client.Callbacks.{onconnect_dowrite-Keeps, onconnect_dowrite-fails}
use iel.Dev.Client.Verify.{PatternTo, fill-PatternTo}

-- A program that holds nothing yet, or no longer
abbrev pub idle : List Call → List ℕ → List Note → World
idle calls bytes notes = holding [] [] calls false bytes notes

-- What `amain_c` comes to
pub data Started (env : Env) (fd : ℕ) : Option (ℕ × World) → Type 0 where
  started : (w : World) → Owned fd 3 w → PatternTo 4100 w.bytes → Started env fd (some (0, w))
  failed :
      (calls : List Call) (bytes : List ℕ) (notes : List Note)
      → Started env fd (some (1, idle calls bytes notes))
  use_after_free :
      (calls : List Call) (errno : ℕ) → env.refuses calls ≡ some errno → Started env fd none

-- What `amain_c` does once the request is made
abbrev last_part : M ℕ
last_part = access cbp >> (access buf >> (fill_buf >> pure 0))

last_part_lem :
    (fd : ℕ) (pending : List Request) (calls : List Call) (bytes after : List ℕ) (notes : List Note)
    → fill 4100 0 bytes ≡ some after
    → last_part (working fd pending calls bytes notes)
      ≡ some (0, working fd pending calls after notes)
unfolding fill_buf
last_part_lem fd pending calls bytes after notes e = ground (arith, e)

-- The calls of `amain_c`, up to the first block, the second and the request
abbrev pub with_cbp : ℕ → List Call → List Call
with_cbp size calls = malloc size ∷ calls

abbrev pub with_buf : ℕ → List Call → List Call
with_buf size calls = malloc 4100 ∷ with_cbp size calls

abbrev pub connected : ℕ → ℕ → List Call → List Call
connected size fd calls =
    submit (request_at connecting) fd 16 flag_noreg_handle ∷ with_buf size calls

module _ (env : Env) (size fd : ℕ) (calls : List Call) (bytes : List ℕ) (notes : List Note) where
  amain_c-no_cbp :
      env.grants (with_cbp size calls) ≡ false
      → amain_c env size (some fd) (idle calls bytes notes)
        ≡ some (1, idle (xreg_de_sockets fd inval 2 ∷ with_cbp size calls) bytes notes)
  unfolding amain_c close_sock
  amain_c-no_cbp refused = ground (arith, refused, eq-true fd fd refl)

  amain_c-no_buf :
      env.grants (with_cbp size calls) ≡ true
      → env.grants (with_buf size calls) ≡ false
      → amain_c env size (some fd) (idle calls bytes notes)
        ≡ some (1, idle (xreg_de_sockets fd inval 2 ∷ with_buf size calls) bytes notes)
  unfolding amain_c start_client close_sock
  amain_c-no_buf granted refused = ground (arith, granted, refused, eq-true fd fd refl)

  amain_c-accepted :
      env.grants (with_cbp size calls) ≡ true
      → env.grants (with_buf size calls) ≡ true
      → env.refuses (connected size fd calls) ≡ none
      → amain_c env size (some fd) (idle calls bytes notes)
        ≡ last_part (working fd (request_at connecting ∷ []) (connected size fd calls) bytes notes)
  unfolding amain_c start_client
  amain_c-accepted granted granted' accepted = ground (arith, granted, granted', accepted)

  amain_c-refused :
      (errno : ℕ)
      → env.grants (with_cbp size calls) ≡ true
      → env.grants (with_buf size calls) ≡ true
      → env.refuses (connected size fd calls) ≡ some errno
      → amain_c env size (some fd) (idle calls bytes notes)
        ≡ (onconnect_dowrite env fd (error errno) >> last_part)
            (working fd [] (connected size fd calls) bytes notes)
  unfolding amain_c start_client
  amain_c-refused errno granted granted' refused = ground (arith, granted, granted', refused)

-- The client waits for a request, with the pattern in the buffer.
pub record Connected (fd : ℕ) (r : Option (ℕ × World)) : Type 0 where
  pub after : World
  pub returns : r ≡ some (0, after)
  pub owned : Owned fd 3 after
  pub pattern : PatternTo 4100 after.bytes

last_part-Connected :
    (fd : ℕ) (s : Stage) (calls : List Call) (bytes : List ℕ) (notes : List Note)
    → left s ≤ 3
    → length bytes ≡ 4100
    → Connected fd (last_part (working fd (request_at s ∷ []) calls bytes notes))
last_part-Connected fd s calls bytes notes few size =
    let (after, e, pattern, same_size) =
      fill-PatternTo 4100 0 bytes (omega (arith, size)) (λ k h. absurd (omega arith)) in
    record {
      after = working fd (request_at s ∷ []) calls after notes;
      returns = last_part_lem fd (request_at s ∷ []) calls bytes after notes e;
      owned = waiting s calls after notes few (same_size ∙ size);
      pattern = pattern;
    }

Started-Connected :
    (env : Env) (fd : ℕ) {r : Option (ℕ × World)} → Connected fd r → Started env fd r
Started-Connected env fd c =
    subst (Started env fd) (sym c.returns) (started c.after c.owned c.pattern)

-- The client_callback that a refused request runs may have freed the blocks.
after_refusal :
    (env : Env) (fd : ℕ) (calls : List Call) (errno : ℕ)
    → env.refuses calls ≡ some errno
    → {r : Option (Unit {0} × World)} → Keeps fd 3 r
    → Started env fd (elim r [ none ↦ none | some (_, w) ↦ last_part w ])
after_refusal env fd calls errno e (kept _ (waiting s calls' bytes' notes' few size)) =
    Started-Connected env fd (last_part-Connected fd s calls' bytes' notes' few size)
after_refusal env fd calls errno e (kept _ (closed calls' bytes' notes')) =
    use_after_free calls errno e

-- A call of `amain_c` with a socket and a buffer of 4100 bytes. If a block is refused it returns 1, with
-- the socket closed and nothing held. If the request is accepted it returns 0, holds the
-- socket and both blocks, waits for the request, and the buffer has the pattern. If the request is
-- refused, its client_callback has freed the blocks, or waits for another request that is accepted: in the
-- first case the loop that fills the buffer faults.
pub amain_c-Started :
    (env : Env) (size fd : ℕ) (calls : List Call) (bytes : List ℕ) (notes : List Note)
    → length bytes ≡ 4100
    → Started env fd (amain_c env size (some fd) (idle calls bytes notes))
amain_c-Started env size fd calls bytes notes full =
    elim (Bool-cases (env.grants (with_cbp size calls))) [
      | inr refused ↦ rw (amain_c-no_cbp env size fd calls bytes notes refused) (failed _ _ _)
      | inl granted ↦ elim (Bool-cases (env.grants (with_buf size calls))) [
        | inr refused ↦
            rw (amain_c-no_buf env size fd calls bytes notes granted refused) (failed _ _ _)
        | inl granted' ↦ elim (Option-cases (env.refuses (connected size fd calls))) [
          | inl accepted ↦
              rw (amain_c-accepted env size fd calls bytes notes granted granted' accepted) (
                Started-Connected env fd
                  (last_part-Connected fd connecting _ bytes notes (omega arith) full))
          | inr (errno, refused) ↦
              rw (amain_c-refused env size fd calls bytes notes errno granted granted' refused) (
                after_refusal env fd _ errno refused
                  (onconnect_dowrite-Keeps env fd 3 (error errno) _ bytes notes full (omega arith)))
        ]
      ]
    ]

-- Where all is granted, the client waits for its connection.
pub amain_c-Connected :
    (env : Env) (size fd : ℕ) (calls : List Call) (bytes : List ℕ) (notes : List Note)
    → length bytes ≡ 4100
    → env.grants (with_cbp size calls) ≡ true
    → env.grants (with_buf size calls) ≡ true
    → env.refuses (connected size fd calls) ≡ none
    → Connected fd (amain_c env size (some fd) (idle calls bytes notes))
amain_c-Connected env size fd calls bytes notes full granted granted' accepted =
    rw (amain_c-accepted env size fd calls bytes notes granted granted' accepted)
      (last_part-Connected fd connecting _ bytes notes (omega arith) full)

-- Where both blocks are granted and the connection is refused with an error, `amain_c` writes into the
-- buffer that the client_callback has freed.
amain_c_faults :
    (env : Env) (size fd errno : ℕ) (calls : List Call) (bytes : List ℕ) (notes : List Note)
    → env.grants (with_cbp size calls) ≡ true
    → env.grants (with_buf size calls) ≡ true
    → env.refuses (connected size fd calls) ≡ some errno
    → 0 < errno
    → amain_c env size (some fd) (idle calls bytes notes) ≡ none
amain_c_faults env size fd errno calls bytes notes granted granted' refused real =
    let nonzero = eq-false errno 0 (λ e. omega (arith, e)) in
    let freed =
      onconnect_dowrite-fails env fd (error errno) (connected size fd calls) bytes notes
        (ground (arith, nonzero)) in
    amain_c-refused env size fd calls bytes notes errno granted granted' refused
    ∙ ground (arith, freed)
