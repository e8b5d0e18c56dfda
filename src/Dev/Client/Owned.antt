-- ===== src/Dev/Client/Owned.antt =====
-- What the client holds between two completions, and how its runs end.
use iel.Base.{
  ℕ, ◌%◌, ◌≤◌, ◌<◌, ◌≡◌, ◌≢◌, refl, Option, some, true, false, List, [], ◌∷◌, length, arith,
  eq-true, eq-false, get_elem?, u32, sym,
}
use mathlib.Core.Path.{subst}
use iel.Iou.{value, error}
use iel.Iou.Files.{inval}
use iel.Dev.{
  sock, sr, sw, sc, base_write, base_read, base_vfy, Request, Call, xreg_de_sockets, Note, failure,
  mismatch, correct, holding, World, ◌>>=◌,
}
use iel.Dev.Client.{cbp, buf, close_sock, free_rsrc, verdict, verify, onconnect_vfy}
use iel.Dev.Client.Verify.{Verified, all_equal, differs, verify-Verified}

-- The request that the client waits for
pub data Stage : Type 0 where
  connecting sending receiving : Stage

abbrev pub request_at : Stage → Request
request_at connecting = record { op = sc; part = base_write }
request_at sending = record { op = sw; part = base_read }
request_at receiving = record { op = sr; part = base_vfy }

abbrev pub left : Stage → ℕ
left connecting = 3
left sending = 2
left receiving = 1

abbrev pub working : ℕ → List Request → List Call → List ℕ → List Note → World
working fd pending calls bytes notes =
    holding (buf ∷ cbp ∷ sock fd ∷ []) pending calls false bytes notes

abbrev pub ended : List Call → List ℕ → List Note → World
ended calls bytes notes = holding [] [] calls true bytes notes

-- Either the client waits for one request, with at most `n` completions to come, or it holds nothing
-- and the loop is told to stop.
pub data Owned (fd n : ℕ) : World → Type 0 where
  waiting :
      (s : Stage) (calls : List Call) (bytes : List ℕ) (notes : List Note)
      → left s ≤ n
      → length bytes ≡ 4100
      → Owned fd n (working fd (request_at s ∷ []) calls bytes notes)
  closed :
      (calls : List Call) (bytes : List ℕ) (notes : List Note)
      → Owned fd n (ended calls bytes notes)

-- An operation that returns in such a world
pub data Keeps (fd n : ℕ) : Option (Unit {0} × World) → Type 0 where
  kept : (w : World) → Owned fd n w → Keeps fd n (some (tt, w))

pub free_rsrc_lem :
    (fd : ℕ) (calls : List Call) (bytes : List ℕ) (notes : List Note)
    → free_rsrc fd (working fd [] calls bytes notes)
      ≡ some (tt, ended (xreg_de_sockets fd inval 2 ∷ calls) bytes notes)
unfolding free_rsrc close_sock
free_rsrc_lem fd calls bytes notes = ground (arith, eq-true fd fd refl)

module _ (fd n : ℕ) (calls : List Call) (bytes : List ℕ) (notes : List Note) where
  pub onconnect_vfy-error :
      (errno : ℕ) → Keeps fd n (onconnect_vfy fd (error errno) (working fd [] calls bytes notes))
  unfolding onconnect_vfy
  onconnect_vfy-error errno =
      rw (free_rsrc_lem fd calls bytes (failure (error errno) ∷ notes)) (kept _ (closed _ _ _))

-- What `onconnect_vfy` does with `m` bytes that have come back
pub data Told (fd m : ℕ) (calls : List Call) (bytes : List ℕ) (notes : List Note)
    : Option (Unit {0} × World) → Type 0 where
  echoed :
      ((k : ℕ) → k < m → get_elem? bytes k ≡ some (k % 256))
      → Told fd m calls bytes notes
          (some (tt, ended (xreg_de_sockets fd inval 2 ∷ calls) bytes (correct m ∷ notes)))
  differed :
      (k b : ℕ)
      → k < m
      → get_elem? bytes k ≡ some b
      → b ≢ k % 256
      → ((j : ℕ) → j < k → get_elem? bytes j ≡ some (j % 256))
      → Told fd m calls bytes notes (
          some
            (tt, ended (xreg_de_sockets fd inval 2 ∷ calls) bytes (mismatch k (k % 256) b ∷ notes)))

verdict-free_rsrc :
    (fd m : ℕ) (calls : List Call) (bytes : List ℕ) (notes : List Note) (n : Note)
    → verdict m (working fd [] calls bytes notes) ≡ some (tt, working fd [] calls bytes (n ∷ notes))
    → (verdict m >>= λ _. free_rsrc fd) (working fd [] calls bytes notes)
      ≡ some (tt, ended (xreg_de_sockets fd inval 2 ∷ calls) bytes (n ∷ notes))
verdict-free_rsrc fd m calls bytes notes n e =
    ground (arith, e, free_rsrc_lem fd calls bytes (n ∷ notes))

verdict-Told :
    (fd m : ℕ) (calls : List Call) (bytes : List ℕ) (notes : List Note)
    {r : Option (Option (ℕ × ℕ × ℕ))}
    → verify (u32 m) 0 bytes ≡ r
    → Verified bytes 0 m r
    → Told fd m calls bytes notes
        ((verdict m >>= λ _. free_rsrc fd) (working fd [] calls bytes notes))
unfolding verdict
verdict-Told fd m calls bytes notes e (all_equal equal) =
    rw (verdict-free_rsrc fd m calls bytes notes (correct m) (ground (arith, e)))
      (echoed (λ k h. equal k (omega arith) (omega arith)))
verdict-Told fd m calls bytes notes e (differs k b from upto at ne before) =
    rw (verdict-free_rsrc fd m calls bytes notes (mismatch k (k % 256) b) (ground (arith, e)))
      (differed k b (omega arith) at ne (λ j h. before j (omega arith) h))

-- `onconnect_vfy` with `m` bytes, of a buffer of 4100, tells that the echo is right exactly when each of
-- them is the pattern's, else it tells of the first that differs. Either way it closes
-- the socket, frees both blocks and stops the loop.
pub onconnect_vfy-Told :
    (fd m : ℕ) (calls : List Call) (bytes : List ℕ) (notes : List Note)
    → 0 < m
    → m ≤ length bytes
    → length bytes ≡ 4100
    → Told fd m calls bytes notes (onconnect_vfy fd (value m) (working fd [] calls bytes notes))
unfolding onconnect_vfy
onconnect_vfy-Told fd m calls bytes notes some_bytes inside size =
    let real = eq-false m 0 (λ e. omega (arith, e)) in
    let w : u32 m ≡ m = omega arith in
    rw real (
      verdict-Told fd m calls bytes notes refl (
        subst (λ (n : ℕ). Verified bytes 0 m (verify n 0 bytes)) (sym w)
          (verify-Verified m 0 bytes (omega arith))))

pub Keeps-Told :
    (fd n m : ℕ) (calls : List Call) (bytes : List ℕ) (notes : List Note)
    {r : Option (Unit {0} × World)}
    → Told fd m calls bytes notes r
    → Keeps fd n r
Keeps-Told fd n m calls bytes notes (echoed equal) = kept _ (closed _ _ _)
Keeps-Told fd n m calls bytes notes (differed k b less at ne before) = kept _ (closed _ _ _)
