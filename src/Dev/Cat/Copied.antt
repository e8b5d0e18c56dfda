-- ===== src/Dev/Cat/Copied.antt =====
-- What the callbacks of the copying program leave, on every branch.
use iel.Base.{ℕ, suc, ◌≡◌, Option, none, some, true, false, List, [], ◌∷◌, Option-cases, inl, inr}
use iel.Iou.{Res, value, error}
use iel.Dev.{malloc, Call, Note, failure, holding, Env, World}
use iel.Dev.Cat.{onwrite, read_request, write_request, complete_write, copy_callback}
use iel.Dev.Cat.Steps.{
  reading_held, writing_held, reading_calls, writing_calls, read_fails_writing, write_fails,
  write_reads, write_refused,
}

-- What a call of `onread_comp` leaves for each result: the program has told of a failed read, or has
-- met the end of its input, or has no memory, and has ended; or it waits for the bytes that came to be
-- written; or that request is refused, and it holds two blocks with no request on the way.
pub data ReadOn (env : Env) (size : ℕ) (calls : List Call) (bytes : List ℕ) (notes : List Note)
    : Res → Option (Unit {0} × World) → Type 0 where
  read_failed :
      (errno : ℕ)
      → ReadOn env size calls bytes notes
          (error errno)
          (some (tt, holding [] [] calls true bytes (failure (error errno) ∷ notes)))
  no_more :
      ReadOn env size calls bytes notes (value 0) (some (tt, holding [] [] calls true bytes notes))
  no_memory :
      (n : ℕ)
      → env.grants (malloc size ∷ calls) ≡ false
      → ReadOn env size calls bytes notes
          (value (suc n))
          (some (tt, holding [] [] (malloc size ∷ calls) true bytes notes))
  writes :
      (n : ℕ)
      → env.grants (malloc size ∷ calls) ≡ true
      → env.refuses (writing_calls size (suc n) calls) ≡ none
      → ReadOn env size calls bytes notes (value (suc n)) (
          some (
            tt,
            holding writing_held
                (write_request ∷ [])
                (writing_calls size (suc n) calls)
                false
                bytes
                notes,
          ))
  hangs :
      (n errno : ℕ)
      → env.grants (malloc size ∷ calls) ≡ true
      → env.refuses (writing_calls size (suc n) calls) ≡ some errno
      → ReadOn env size calls bytes notes (value (suc n)) (
          some (
            tt,
            holding reading_held []
                (writing_calls size (suc n) calls)
                false
                bytes
                (failure (error errno) ∷ notes),
          ))

-- What a call of `onwrite_comp` with a complete write leaves: the program waits to read on, or that
-- request is refused and it has ended.
pub data WrittenOn (env : Env) (calls : List Call) (bytes : List ℕ) (notes : List Note)
    : Option (Unit {0} × World) → Type 0 where
  reads :
      env.refuses (reading_calls calls) ≡ none
      → WrittenOn env calls bytes notes (
          some
            (tt, holding reading_held (read_request ∷ []) (reading_calls calls) false bytes notes))
  refused_read :
      (errno : ℕ)
      → env.refuses (reading_calls calls) ≡ some errno
      → WrittenOn env calls bytes notes (
          some (tt, holding [] [] (reading_calls calls) true bytes (failure (error errno) ∷ notes)))

module _ (env : Env) (size depth sz : ℕ) (calls : List Call) (bytes : List ℕ)
    (notes : List Note) where
  -- A call of `onwrite_comp` with a complete write: it asks to read on, or frees all and stops the loop.
  pub onwrite-WrittenOn :
      (res : Res)
      → complete_write res sz ≡ true
      → WrittenOn env calls bytes notes (
          copy_callback env size
            (suc (suc depth))
            onwrite
            sz
            res
            (holding writing_held [] calls false bytes notes))
  unfolding copy_callback
  onwrite-WrittenOn res e =
      let again = copy_callback env size (suc depth) in
      elim (Option-cases (env.refuses (reading_calls calls))) [
        | inl accepted ↦
            rw (write_reads env size again calls bytes notes sz res e accepted) (reads accepted)
        | inr (errno, refused) ↦
            rw
              (write_refused env size again calls bytes notes sz errno res e refused (
                read_fails_writing env size (copy_callback env size depth) (reading_calls calls)
                  bytes notes errno))
              (refused_read errno refused)
      ]

  -- After a write that fails or is not complete, the program keeps the block and the buffer of its
  -- reads, waits for nothing, and does not stop the loop.
  onwrite_hangs :
      (res : Res)
      → complete_write res sz ≡ false
      → copy_callback env size
          (suc depth)
          onwrite
          sz
          res
          (holding writing_held [] calls false bytes notes)
        ≡ some (tt, holding reading_held [] calls false bytes (failure res ∷ notes))
  unfolding copy_callback
  onwrite_hangs res e =
      write_fails env size (copy_callback env size depth) calls bytes notes sz res e
