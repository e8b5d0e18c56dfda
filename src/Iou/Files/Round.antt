-- ===== src/Iou/Files/Round.antt =====
-- The file table's invariant, and a loop over the arguments that ends after one round.
use iel.Base.{
  put_elem?-inside, ℕ, suc, ◌+◌, ◌^◌, ◌≤◌, ◌<◌, ◌≡◌, refl, ◌⊎◌, sym, Option, some, true, false,
  ◌&&◌, ◌>>=◌, List, ◌∷◌,
}
use iel.Base.{
  arith, if◌then◌else◌, ◌==◌, ltb, set, length, get_elem?, sub64, u32, max64, eq-true, eq-false,
  inl, inr,
}
use mathlib.Core.Path.{subst}
use iel.Bitmap.{Scan, npos}
use iel.Bitmap.Free.{Wide, free_at}
use iel.Bitmap.Search.{Scanned, found, none_left, scan_clear-Scanned}
use iel.Iou.{Ctx}
use iel.Iou.Files.{RegFd, Looped, bmsz, take_slot, reg_loop}

-- The table and its bitmap have their lengths, and no slot past the table is free.
pub record Slots (pud : Ctx) : Type 0 where
  pub words : length pud.filetable_bitmap ≡ bmsz pud
  pub wide : Wide pud.filetable_bitmap
  pub entries : length pud.filetable ≡ pud.filetable_len
  pub nonempty : 0 < pud.filetable_len
  pub bounded : pud.filetable_len ≤ 2 ^ 20
  pub inside : (i : ℕ) → free_at pud.filetable_bitmap i ≡ 1 → i < pud.filetable_len

-- The context with `raw` at the slot `idx` and the bitmap `bm`
abbrev pub filled : Ctx → ℕ → ℕ → List ℕ → Ctx
filled pud idx raw bm = record pud { filetable = set pud.filetable idx raw; filetable_bitmap = bm }

-- What the loop over the arguments ends in, where it ends after one round
pub data FirstRound (pud : Ctx) (fd o : RegFd) (rest : List RegFd) : Option Looped → Type 0 where
  got :
      (idx : ℕ) (bm : List ℕ)
      → free_at pud.filetable_bitmap idx ≡ 1
      → ((i : ℕ) → free_at bm i ≡ (if i == idx then 0 else free_at pud.filetable_bitmap i))
      → FirstRound pud fd o rest (
          some (record {
            full = false;
            i = 1;
            pud = filled pud idx fd.raw bm;
            out = record { raw = fd.raw; reg = idx } ∷ rest;
          }))
  gone :
      ((i : ℕ) → free_at pud.filetable_bitmap i ≡ 0)
      → FirstRound pud fd o rest
          (some (record { full = true; i = max64; pud = pud; out = o ∷ rest }))

abbrev pub put_slot : Ctx → List RegFd → ℕ → RegFd → Scan → Looped
put_slot pud out i fd s = record {
  full = false;
  i = i + 1;
  pud = filled pud s.ret fd.raw s.bm;
  out = set out i (record { raw = fd.raw; reg = s.ret });
}

pub take_slot-inside :
    (pud : Ctx) (fd : RegFd) (fds out : List RegFd) (i : ℕ) (s : Scan)
    → get_elem? fds i ≡ some fd
    → s.ret < length pud.filetable
    → s.ret < 2 ^ 32
    → i < length out
    → take_slot pud fds out i s ≡ some (put_slot pud out i fd s)
unfolding take_slot
take_slot-inside pud fd fds out i s given inside small room =
    let w : u32 s.ret ≡ s.ret = omega arith in
    rw
      (
        given,
        put_elem?-inside pud.filetable s.ret fd.raw inside,
        w,
        put_elem?-inside out i (record { raw = fd.raw; reg = s.ret }) room,
      )
      refl

-- The rest of a round, once the bitmap has been scanned
unfoldable pub round_of : ℕ → Ctx → List RegFd → List RegFd → ℕ → ℕ → Option Scan → Option Looped
round_of rounds pud fds out nr_args i scan = scan >>= λ s.
    if s.ret == npos
    then some (record {
      full = true;
      i = sub64 i 1;
      pud = record pud { filetable_bitmap = s.bm };
      out = out;
    })
    else (take_slot pud fds out i s >>= λ r.
        let again = reg_loop rounds r.pud fds r.out nr_args r.i s.it in
        if ltb r.i nr_args && ltb s.it (bmsz pud) then again else some r)

module _ (pud : Ctx) (fd o : RegFd) (fds rest : List RegFd) (nr_args rounds : ℕ)
    (slots : Slots pud) where
  round-FirstRound :
      {scan : Option Scan}
      → (nr_args ≡ 1) ⊎ (bmsz pud ≡ 1)
      → Scanned pud.filetable_bitmap 0 scan
      → FirstRound pud fd o rest (round_of rounds pud (fd ∷ fds) (o ∷ rest) nr_args 0 scan)
  unfolding round_of
  round-FirstRound stops (found s set_now cleared before next below from size wide) =
      let inside = slots.inside s.ret set_now in
      let real = eq-false s.ret npos (omega (arith, slots.bounded)) in
      let last : (ltb 1 nr_args && ltb s.it (bmsz pud)) ≡ false = elim stops [
        | inl e ↦ ground (arith, e)
        | inr e ↦ ground (arith, e, next)
      ] in
      rw
        (
          real,
          take_slot-inside pud fd (fd ∷ fds) (o ∷ rest) 0 s refl (omega (arith, slots.entries))
              (omega (arith, slots.bounded)) (omega arith),
          last,
        )
        (got s.ret s.bm set_now cleared)
  round-FirstRound stops (none_left s e same none_free) = rw (eq-true s.ret npos e) (
      subst
        (λ b. FirstRound pud fd o rest (
          some (record {
            full = true;
            i = max64;
            pud = record pud { filetable_bitmap = b };
            out = o ∷ rest;
          })))
        (sym same) (gone (λ i. none_free i (omega arith))))

  -- The whole loop is that round.
  rounds-FirstRound :
      (nr_args ≡ 1) ⊎ (bmsz pud ≡ 1)
      → FirstRound pud fd o rest (reg_loop (suc rounds) pud (fd ∷ fds) (o ∷ rest) nr_args 0 0)
  unfolding reg_loop round_of
  rounds-FirstRound stops = round-FirstRound stops (
      scan_clear-Scanned pud.filetable_bitmap (bmsz pud) 0 slots.words
        (omega (arith, slots.nonempty)) slots.wide)

pub reg_loop-FirstRound :
    (pud : Ctx) (fd o : RegFd) (fds rest : List RegFd) (nr_args : ℕ)
    → Slots pud
    → (nr_args ≡ 1) ⊎ (bmsz pud ≡ 1)
    → FirstRound pud fd o rest (reg_loop (bmsz pud + 1) pud (fd ∷ fds) (o ∷ rest) nr_args 0 0)
reg_loop-FirstRound pud fd o fds rest nr_args slots stops =
    subst (λ (k : ℕ). FirstRound pud fd o rest (reg_loop k pud (fd ∷ fds) (o ∷ rest) nr_args 0 0))
      {x = suc (bmsz pud)} {y = bmsz pud + 1} (omega arith)
      (rounds-FirstRound pud fd o fds rest nr_args (bmsz pud) slots stops)
