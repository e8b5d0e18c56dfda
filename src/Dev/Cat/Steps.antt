-- ===== src/Dev/Cat/Steps.antt =====
-- What the copying program holds after each of its callbacks.
use iel.Base.{ℕ, suc, ◌≡◌, refl, none, some, true, false, List, [], ◌∷◌, arith, eq-false}
use iel.Iou.{Res, value, error, flag_noreg_handle}
use iel.Dev.{Holding, Call, malloc, submit, Note, failure, holding, Env, M}
use iel.Dev.Cat.{
  rcb, rbuf, wcb, Event, onread, onwrite, f_in, f_out, read_request, write_request, stop_copying,
  complete_write, onwrite_comp, onread_comp,
}

abbrev pub reading_held : List Holding
reading_held = rbuf ∷ rcb ∷ []

abbrev pub writing_held : List Holding
writing_held = wcb ∷ rbuf ∷ rcb ∷ []

abbrev pub reading_calls : List Call → List Call
reading_calls calls = submit read_request f_in 4096 flag_noreg_handle ∷ calls

abbrev pub writing_calls : ℕ → ℕ → List Call → List Call
writing_calls size n calls = submit write_request f_out n flag_noreg_handle ∷ malloc size ∷ calls

module _ (env : Env) (size : ℕ) (again : Event → ℕ → Res → M (Unit {0})) (calls : List Call)
    (bytes : List ℕ) (notes : List Note) where
  -- Input that fails or ends
  pub read_fails :
      (errno : ℕ)
      → onread_comp env size again (error errno) (holding reading_held [] calls false bytes notes)
        ≡ some (tt, holding [] [] calls true bytes (failure (error errno) ∷ notes))
  unfolding onread_comp stop_copying
  read_fails errno = refl

  pub read_fails_writing :
      (errno : ℕ)
      → onread_comp env size again (error errno) (holding writing_held [] calls false bytes notes)
        ≡ some (tt, holding (wcb ∷ []) [] calls true bytes (failure (error errno) ∷ notes))
  unfolding onread_comp stop_copying
  read_fails_writing errno = refl

  pub read_ends :
      onread_comp env size again (value 0) (holding reading_held [] calls false bytes notes)
      ≡ some (tt, holding [] [] calls true bytes notes)
  unfolding onread_comp stop_copying
  read_ends = refl

  pub read_no_memory :
      (n : ℕ)
      → env.grants (malloc size ∷ calls) ≡ false
      → onread_comp env size again (value (suc n)) (holding reading_held [] calls false bytes notes)
        ≡ some (tt, holding [] [] (malloc size ∷ calls) true bytes notes)
  unfolding onread_comp stop_copying
  read_no_memory n refused = ground (arith, eq-false (suc n) 0 (λ e. omega (arith, e)), refused)

  pub read_writes :
      (n : ℕ)
      → env.grants (malloc size ∷ calls) ≡ true
      → env.refuses (writing_calls size (suc n) calls) ≡ none
      → onread_comp env size again (value (suc n)) (holding reading_held [] calls false bytes notes)
        ≡ some (
          tt,
          holding writing_held
              (write_request ∷ [])
              (writing_calls size (suc n) calls)
              false
              bytes
              notes,
        )
  unfolding onread_comp
  read_writes n granted accepted =
      ground (arith, eq-false (suc n) 0 (λ e. omega (arith, e)), granted, accepted)

  pub read_refused :
      (n errno : ℕ)
      → env.grants (malloc size ∷ calls) ≡ true
      → env.refuses (writing_calls size (suc n) calls) ≡ some errno
      → onread_comp env size again (value (suc n)) (holding reading_held [] calls false bytes notes)
        ≡ again onwrite
            (suc n)
            (error errno)
            (holding writing_held [] (writing_calls size (suc n) calls) false bytes notes)
  unfolding onread_comp
  read_refused n errno granted refused =
      ground (arith, eq-false (suc n) 0 (λ e. omega (arith, e)), granted, refused)

  -- A write that is not complete
  pub write_fails :
      (sz : ℕ) (res : Res)
      → complete_write res sz ≡ false
      → onwrite_comp env size again sz res (holding writing_held [] calls false bytes notes)
        ≡ some (tt, holding reading_held [] calls false bytes (failure res ∷ notes))
  unfolding onwrite_comp
  write_fails sz res e = ground (arith, e)

  pub write_reads :
      (sz : ℕ) (res : Res)
      → complete_write res sz ≡ true
      → env.refuses (reading_calls calls) ≡ none
      → onwrite_comp env size again sz res (holding writing_held [] calls false bytes notes)
        ≡ some
            (tt, holding reading_held (read_request ∷ []) (reading_calls calls) false bytes notes)
  unfolding onwrite_comp
  write_reads sz res e accepted = ground (arith, e, accepted)

  pub write_refused :
      (sz errno : ℕ) (res : Res)
      → complete_write res sz ≡ true
      → env.refuses (reading_calls calls) ≡ some errno
      → again onread sz
          (error errno)
          (holding writing_held [] (reading_calls calls) false bytes notes)
        ≡ some (
          tt,
          holding (wcb ∷ []) [] (reading_calls calls) true bytes (failure (error errno) ∷ notes),
        )
      → onwrite_comp env size again sz res (holding writing_held [] calls false bytes notes)
        ≡ some (tt, holding [] [] (reading_calls calls) true bytes (failure (error errno) ∷ notes))
  unfolding onwrite_comp
  write_refused sz errno res e refused nested = ground (arith, e, refused, nested)
