-- ===== src/Iou/Turn/Tests.antt =====
-- The theorems on a turn: exeq at a queue of three tasks whose callbacks queue others, and the exits of
-- lrun1 at a ring with two completions.
use iel.Base.{
  ℕ, zero, suc, ◌+◌, ◌*◌, ◌≡◌, refl, Option, none, some, List, [], ◌∷◌, arith, leb, ltb, ◌&&◌,
  is_some, Bool, ◌>>=◌,
}
use iel.Que.{Que, Map, push}
use iel.Que.Rep.{Rep, cell, element}
use iel.Iou.{Ctx, Cqe, Res, value, error, quep_chunk_bit}
use iel.Iou.Samples.{idle, empty_que, empty_que-Rep, mem, mem-Bounded}
use iel.Iou.Turn.{exeq, eintr, lrun1, run_prep, run_soon, exeq_prep, exeq_soon}
use iel.Iou.Turn.Keeps.{exeq-nil, Keeps, Settled, exeq-Settled}
use iel.Iou.Turn.Enter.{answered, interrupted, stored, Entered}
use iel.Iou.Turn.Whole.{Exits, lrun1-Exits}
use iel.Iou.Turn.Calls.{pushes}

-- A callback writes its number, and queues the next number as esoon does.
abbrev run : ℕ → ℕ → Que ℕ → Option (ℕ × Que ℕ)
run task w q = push quep_chunk_bit (mem 0) q (task + 10) >>= λ (room, r). some (w * 100 + task, r)

abbrev Any : ℕ → Type 0
Any w = Unit {0}

run-Keeps : Keeps Any run
run-Keeps task w q xs rep t =
    let p = pushes (mem 0) q xs (task + 10) (mem-Bounded {A = ℕ} 0) rep in
    record {
      world = w * 100 + task;
      que = p.que;
      extra = p.extra;
      result = rw (p.result) refl;
      rep = p.rep;
      same_start = p.start;
      keeps = tt;
    }

abbrev one_chunk : Map ℕ
one_chunk zero = some (λ o. 40 + o)
one_chunk (suc c) = none

abbrev three : Que ℕ
three = record { map = one_chunk; mapcap = 16; chunk_s = 0; chunk_e = 0; os_s = 0; os_e = 3 }

three-Rep : Rep quep_chunk_bit three (40 ∷ 41 ∷ 42 ∷ [])
unfolding cell element
three-Rep = record {
  os_s_in = omega arith;
  os_e_in = omega arith;
  span = refl;
  holds = (refl, (refl, (refl, tt)));
  owned = owned;
  room = omega arith;
  some_room = omega arith;
  fits = omega arith;
}
  where
    owned : (c : ℕ) → is_some (three.map c) ≡ (leb 0 c && ltb c 1)
    owned zero = refl
    owned (suc c) = ground arith

exeq-Settled_example : Settled Any run (40 ∷ 41 ∷ 42 ∷ []) [] 0 (exeq run 0 three)
exeq-Settled_example = exeq-Settled Any run 0 three (40 ∷ 41 ∷ 42 ∷ []) run-Keeps three-Rep tt

-- A world is the log of the calls.
abbrev Log : Type 0
Log = List (ℕ × Res)

abbrev callback : ℕ → Res → Log → Ctx → Option (Log × Ctx)
callback task res w pud = some ((task, res) ∷ w, pud)

abbrev observe : Log → Ctx → Log × Ctx
observe w pud = (w, pud)

abbrev read_done : Cqe
read_done = record { user_data = 77; res = value 512 }

abbrev timed_out : Cqe
timed_out = record { user_data = 78; res = error 62 }

abbrev two_posted : Ctx
two_posted = record idle { cqes = read_done ∷ timed_out ∷ []; cring_tail = 2 }

-- The call is interrupted once, which is written to the log.
abbrev syscall_enter : ℕ → Bool → Log → Ctx → Res × Log × Ctx
syscall_enter to_submit zeroed [] pud = (error eintr, (0, error eintr) ∷ [], pud)
syscall_enter to_submit zeroed (e ∷ w) pud = (value to_submit, e ∷ w, pud)

abbrev log : Log
log = (0, error eintr) ∷ []

entered :
    Entered callback observe syscall_enter [] two_posted [] [] 1 (value 0) log (stored two_posted)
unfolding exeq_prep exeq_soon
entered = record {
  w1 = [];
  w2 = [];
  w3 = [];
  pud1 = two_posted;
  pud2 = two_posted;
  pud3 = two_posted;
  prep =
      rw (exeq-nil (run_prep callback) ([], two_posted) empty_que (empty_que-Rep 7 (omega arith)))
        refl;
  soon =
      rw (exeq-nil (run_soon callback) ([], two_posted) empty_que (empty_que-Rep 7 (omega arith)))
        refl;
  seen = refl;
  queues = record {
    soon = empty_que-Rep 7 (omega arith);
    prep = empty_que-Rep 7 (omega arith);
    few_soon = omega arith;
    few_prep = omega arith;
  };
  answer = interrupted refl (answered (value 0) refl (λ e. cc));
}

lrun1-Exits_example :
    Exits callback observe syscall_enter 4 2 0 [] two_posted 0
      (value 0)
      log
      (stored two_posted)
      (lrun1 callback observe syscall_enter 4 2 2 0 [] two_posted)
lrun1-Exits_example =
    lrun1-Exits callback observe syscall_enter 4 2 2 1 0 [] log two_posted (stored two_posted)
      (value 0) [] [] entered (omega arith)
