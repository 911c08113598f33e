-- ===== src/Hackbench/Barrier/Order.antt =====
-- No worker of hackbench/hackbench.c goes on before every worker is ready, and none is left behind.
use native.Mathlib.Decide.{dec_lt, ℕ_discrete}
use linux_scheduler_comparis.Base.{
  ℕ, zero, suc, ◌+◌, ◌-◌, ◌≤◌, ◌<◌, ◌≡◌, ◌⊎◌, inl, inr, refl, some, List, [], ◌∷◌, arith, length,
  get_elem?,
}
use linux_scheduler_comparis.Hackbench.Barrier.{
  Phase, fresh, waiting, going, World, set_worker, Step, write_ready, poll_wake, read_ready,
  write_wake, Reach, here, next, all_fresh, start,
}

abbrev is_fresh : Phase → ℕ
is_fresh fresh = 1
is_fresh waiting = 0
is_fresh going = 0

abbrev is_going : Phase → ℕ
is_going fresh = 0
is_going waiting = 0
is_going going = 1

unfoldable pub count_fresh : List Phase → ℕ
count_fresh [] = 0
count_fresh (p ∷ ps) = is_fresh p + count_fresh ps

unfoldable pub count_going : List Phase → ℕ
count_going [] = 0
count_going (p ∷ ps) = is_going p + count_going ps

count_fresh-set_worker :
    (ps : List Phase) (i : ℕ) (q p : Phase)
    → get_elem? ps i ≡ some q
    → (count_fresh (set_worker ps i p) + is_fresh q ≡ count_fresh ps + is_fresh p)
      × (count_going (set_worker ps i p) + is_going q ≡ count_going ps + is_going p)
      × (length (set_worker ps i p) ≡ length ps)
unfolding count_fresh count_going
count_fresh-set_worker [] i q p h = cc
count_fresh-set_worker (x ∷ xs) zero q p h = ground arith
count_fresh-set_worker (x ∷ xs) (suc i) q p h = ground (arith, count_fresh-set_worker xs i q p h)

-- Each ready worker has written one byte, which `main` has read or not; a wake byte means that
-- `main` has read one byte for each worker; and nobody goes on without a wake byte.
pub record Inv (total : ℕ) (w : World) : Type 0 where
  pub same_workers : length w.workers ≡ total
  pub accounted : w.ready_bytes + w.main_read + count_fresh w.workers ≡ total
  pub woken_by_all : 0 < w.wake_bytes → w.main_read ≡ total
  pub going_woken : 0 < count_going w.workers → 0 < w.wake_bytes
  pub one_wake : w.wake_bytes ≡ w.main_woke
  pub woke_once : w.main_woke ≤ 1

Step-Inv : (total : ℕ) {w v : World} → Step w v → Inv total w → Inv total v
Step-Inv total (write_ready w i h) v =
    ground (arith, count_fresh-set_worker w.workers i fresh waiting h)
Step-Inv total (poll_wake w i h woken) v =
    ground (arith, count_fresh-set_worker w.workers i waiting going h)
Step-Inv total (read_ready w b more full) v = ground arith
Step-Inv total (write_wake w all_read once) v = ground arith

counts-all_fresh :
    (n : ℕ)
    → (count_fresh (all_fresh n) ≡ n) × (count_going (all_fresh n) ≡ 0) × (length (all_fresh n) ≡ n)
unfolding count_fresh count_going
counts-all_fresh zero = (refl, refl, refl)
counts-all_fresh (suc n) = ground (arith, counts-all_fresh n)

start-Inv : (total : ℕ) → Inv total (start total)
unfolding start
start-Inv total = ground (arith, counts-all_fresh total)

pub Reach-Inv : (total : ℕ) {w : World} → Reach (start total) w → Inv total w
Reach-Inv total here = start-Inv total
Reach-Inv total (next r st) = Step-Inv total st (Reach-Inv total r)

-- In every state that the processes reach from the start, in whatever order they run: if some
-- worker has gone on to its packets, then every worker has announced itself.
pub Reach-barrier :
    (total : ℕ) {w : World}
    → Reach (start total) w
    → 0 < count_going w.workers
    → count_fresh w.workers ≡ 0
Reach-barrier total r h = ground (arith, Reach-Inv total r)

-- A worker in a phase, or none.
find_fresh : (ps : List Phase) → (count_fresh ps ≡ 0) ⊎ ((i : ℕ) × (get_elem? ps i ≡ some fresh))
unfolding count_fresh
find_fresh [] = inl refl
find_fresh (fresh ∷ ps) = inr (0, refl)
find_fresh (waiting ∷ ps) = elim (find_fresh ps) [
  | inl e ↦ inl (omega (arith, e))
  | inr (i, h) ↦ inr (suc i, h)
]
find_fresh (going ∷ ps) = elim (find_fresh ps) [
  | inl e ↦ inl (omega (arith, e))
  | inr (i, h) ↦ inr (suc i, h)
]

find_waiting :
    (ps : List Phase)
    → count_fresh ps ≡ 0
    → (count_going ps ≡ length ps) ⊎ ((i : ℕ) × (get_elem? ps i ≡ some waiting))
unfolding count_fresh count_going
find_waiting [] h = inl refl
find_waiting (fresh ∷ ps) h = absurd (omega arith)
find_waiting (waiting ∷ ps) h = inr (0, refl)
find_waiting (going ∷ ps) h = elim (find_waiting ps (omega arith)) [
  | inl e ↦ inl (omega (arith, e))
  | inr (i, found) ↦ inr (suc i, found)
]

-- There is no deadlock: in every state that the processes reach from the start, all workers are at
-- their packets, or some process can take a step.
pub Reach-progress :
    (total : ℕ) {w : World}
    → Reach (start total) w
    → (count_going w.workers ≡ total) ⊎ ((v : World) × Step w v)
Reach-progress total {w} r = elim (find_fresh w.workers) [
  | inr (i, found) ↦ inr (_, write_ready w i found)
  | inl all_ready ↦ elim (dec_lt w.main_read (length w.workers)) [
    | yes more ↦
        let full : w.ready_bytes ≡ suc (w.ready_bytes - 1) = omega (arith, Reach-Inv total r) in
        inr (_, read_ready w (w.ready_bytes - 1) more full)
    | no stop ↦ elim (ℕ_discrete w.main_woke 0) [
      | yes asleep ↦ inr (_, write_wake w (omega (arith, Reach-Inv total r)) asleep)
      | no woke ↦ elim (find_waiting w.workers all_ready) [
        | inl all_going ↦ inl (omega (arith, all_going, Reach-Inv total r))
        | inr (i, found) ↦ inr (_, poll_wake w i found (omega (arith, Reach-Inv total r)))
      ]
    ]
  ]
]
