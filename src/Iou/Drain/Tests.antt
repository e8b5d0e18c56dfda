-- ===== src/Iou/Drain/Tests.antt =====
-- The theorems on the drain at an overflow queue of three entries, the last one linked.
use mathlib.Core.List.{map}
use iel.Base.{
  ℕ, zero, suc, ◌+◌, ◌-◌, ◌%◌, ◌<◌, ◌≡◌, refl, none, some, List, [], ◌∷◌, arith, leb, ltb, ◌==◌,
  if◌then◌else◌, length, take, drop, get_elem?, ap, ◌∙◌, is_some, ◌&&◌,
}
use iel.Que.{Map}
use iel.Que.Rep.{Rep, cell, element}
use iel.Que.PopTo.{waste}
use iel.Iou.{Ctx, Sqe, sqofq_chunk_sz_bit}
use iel.Iou.Samples.{no_entry, idle}
use iel.Iou.Submit.Ring.{RingInv, pending, ring_at}
use iel.Iou.Drain.{safe_popsz, drain}
use iel.Iou.Drain.Links.{batch, safe_popsz-batch}
use iel.Iou.Drain.Print.{shown}
use iel.Iou.Drain.Moves.{Moved, drain-Moved, drain_loses, drain_overruns}

abbrev plain : Sqe
plain = record no_entry { opcode = 22; flags = 1; user_data = 77 }

abbrev linked : Sqe
linked = record no_entry { opcode = 22; flags = 69; user_data = 78 }

abbrev entries : List Sqe
entries = plain ∷ plain ∷ linked ∷ []

abbrev one_chunk : Map Sqe
one_chunk zero = some (λ o. if o == 2 then linked else plain)
one_chunk (suc c) = none

abbrev overflowed : Ctx
overflowed = record idle {
  sqofq = record { map = one_chunk; mapcap = 8; chunk_s = 0; chunk_e = 0; os_s = 0; os_e = 3 };
}

overflowed-Rep : Rep sqofq_chunk_sz_bit overflowed.sqofq entries
unfolding cell element
overflowed-Rep = record {
  os_s_in = omega arith;
  os_e_in = omega arith;
  span = refl;
  holds = (refl, (refl, (refl, tt)));
  owned = owned;
  room = omega arith;
  some_room = omega arith;
  fits = omega arith;
}
  where
    owned : (c : ℕ) → is_some (overflowed.sqofq.map c) ≡ (leb 0 c && ltb c 1)
    owned zero = refl
    owned (suc c) = ground arith

overflowed-RingInv : RingInv overflowed
overflowed-RingInv = record {
  mask = refl;
  array_size = refl;
  sqes_size = refl;
  head_in = omega arith;
  tail_in = omega arith;
  bounded = omega arith;
  direct = λ j h. absurd (omega (arith, h));
}

two_safe : batch 4 (take 64 entries) ≡ 2
two_safe = refl

safe_popsz-batch_example : safe_popsz 4 overflowed 3 ≡ some (batch 4 (take 64 entries))
safe_popsz-batch_example =
    safe_popsz-batch 4 overflowed entries overflowed-Rep refl (omega (arith, two_safe))

drain-Moved_example :
    (after : Ctx) × (drain 4 overflowed
      ≡ some (
        map shown entries,
        map shown (
            drop
              (batch 4 (take 64 entries)
                + waste sqofq_chunk_sz_bit overflowed.sqofq (batch 4 (take 64 entries)))
              entries),
        after,
      ))
    × Moved overflowed entries (batch 4 (take 64 entries)) after
drain-Moved_example =
    drain-Moved 4 overflowed entries overflowed-RingInv overflowed-Rep (omega arith) refl
      (omega (arith, two_safe)) (omega (arith, two_safe))

drain_loses_example :
    (after : Ctx) × (before : List (ℕ × ℕ)) × (printed : List (ℕ × ℕ)) × (ys : List Sqe) × (drain 4
        overflowed
      ≡ some (before, printed, after))
    × (pending after ≡ batch 4 (take 64 entries))
    × Rep sqofq_chunk_sz_bit after.sqofq ys
    × (length ys + batch 4 (take 64 entries) < 3)
drain_loses_example =
    drain_loses 4 overflowed entries overflowed-RingInv overflowed-Rep (omega arith) refl
      (omega (arith, two_safe)) (omega (arith, two_safe)) (omega (arith, two_safe))
      (λ z. omega (arith, two_safe, z))

-- A ring in which 63 entries are pending
abbrev upto : ℕ → ℕ → List ℕ
upto zero n = []
upto (suc k) n = n ∷ upto k (suc n)

get_elem?-upto : (k n j : ℕ) → j < k → get_elem? (upto k n) j ≡ some (n + j)
get_elem?-upto zero n j h = absurd (omega arith)
get_elem?-upto (suc k) n zero h = ap some (omega arith)
get_elem?-upto (suc k) n (suc j) h =
    get_elem?-upto k (suc n) j (omega arith) ∙ ap some (omega arith)

abbrev pending_ring : Ctx
pending_ring = record overflowed { sring_head = 1; lcl_stail = 64; sring_array = upto 64 0 }

pending_ring-RingInv : RingInv pending_ring
pending_ring-RingInv = record {
  mask = refl;
  array_size = refl;
  sqes_size = refl;
  head_in = omega arith;
  tail_in = omega arith;
  bounded = omega arith;
  direct = λ j h. get_elem?-upto 64 0 ((1 + j) % 64) (omega arith) ∙ ap some (omega arith);
}

drain_overruns_example :
    (after : Ctx) × (before : List (ℕ × ℕ)) × (printed : List (ℕ × ℕ)) × (drain 4 pending_ring
      ≡ some (before, printed, after))
    × (pending after ≡ pending pending_ring + batch 4 (take 64 entries))
    × (64 < pending after)
    × (after.sring_head ≡ pending_ring.sring_head)
    × ((j : ℕ)
        → 64 + j < pending after
        → ring_at after (pending_ring.sring_head + j)
          ≡ get_elem? entries (64 - pending pending_ring + j))
drain_overruns_example =
    drain_overruns 4 pending_ring entries pending_ring-RingInv overflowed-Rep (omega arith)
      (omega (arith, two_safe)) (omega (arith, two_safe)) (omega (arith, two_safe))
