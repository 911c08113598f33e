-- ===== src/Tests/Machine.antt =====
-- Small systems that meet what the theorems ask of the operating system.
use mathlib.Core.List.{Perm}
use mathlib.Core.List.Perm
use linux_scheduler_comparis.Base.{
  ℕ, ◌+◌, ◌≡◌, ◌≢◌, refl, Bool, true, false, some, List, [], ◌∷◌, arith, Text, codes, ◌==◌,
  if◌then◌else◌, ◌⊎◌,
}
use linux_scheduler_comparis.Base.Int.{ℤ, pos, minus_one, eqb_ℤ}
use linux_scheduler_comparis.Base.Outcome.{done}
use linux_scheduler_comparis.Getopt.{Call}
use linux_scheduler_comparis.Process
use linux_scheduler_comparis.Hackbench.Workers
use linux_scheduler_comparis.Hackbench.Workers.Created.{IsCount}
use linux_scheduler_comparis.Hackbench.Workers.Started.{IsReaping}
use linux_scheduler_comparis.Hackbench.Options.Laws.{with_text}
use linux_scheduler_comparis.Hackbench.Options.Launched.{flag, IsGetopt}

-- The children and the next pid. Of two children `wait` gives the newest, or the one before it.
abbrev pub Children : Type 0
Children = List ℤ × ℕ

abbrev wait_newest : List ℤ → ℕ → ℤ × Children
wait_newest [] n = (minus_one, ([], n))
wait_newest (c ∷ cs) n = (c, (cs, n))

abbrev wait_older : List ℤ → ℕ → ℤ × Children
wait_older [] n = (minus_one, ([], n))
wait_older (c ∷ []) n = (c, ([], n))
wait_older (c ∷ d ∷ cs) n = (d, (c ∷ cs, n))

abbrev pub machine : Bool → Process.System
machine newest = record {
  State = Children;
  fork = λ c (cs, n). (pos n, (pos n ∷ cs, n + 1));
  wait = λ (cs, n). if newest then wait_newest cs n else wait_older cs n;
  sigterm = λ pid s. s;
  sleep_for = λ n s. s;
  now = λ s. (7, s);
  current_path = λ s. codes "/tmp";
  exists = λ p s. done true;
  is_directory = λ p s. done true;
  create_directories = λ p s. done s;
  remove = λ p s. done s;
  remove_all = λ p s. done s;
}

abbrev pub children_of : Children → List ℤ
children_of s = s.0

wait_newest-children :
    (cs : List ℤ) (n : ℕ)
    → (wait_newest cs n).0 ≢ minus_one
    → Perm cs ((wait_newest cs n).0 ∷ children_of (wait_newest cs n).1)
wait_newest-children [] n h = absurd (h refl)
wait_newest-children (c ∷ cs) n h = Perm.refl (c ∷ cs)

wait_older-children :
    (cs : List ℤ) (n : ℕ)
    → (wait_older cs n).0 ≢ minus_one
    → Perm cs ((wait_older cs n).0 ∷ children_of (wait_older cs n).1)
wait_older-children [] n h = absurd (h refl)
wait_older-children (c ∷ []) n h = Perm.refl (c ∷ [])
wait_older-children (c ∷ d ∷ cs) n h = Perm.swap d c cs

wait-children :
    (newest : Bool) (s : Children)
    → ((machine newest).wait s).0 ≢ minus_one
    → Perm (children_of s) (((machine newest).wait s).0 ∷ children_of ((machine newest).wait s).1)
wait-children true s h = wait_newest-children s.0 s.1 h
wait-children false s h = wait_older-children s.0 s.1 h

pub machine-IsLawful : (newest : Bool) → Process.IsLawful (machine newest) children_of
machine-IsLawful newest = record {
  children-fork = λ c s h. refl;
  children-wait = λ s h. wait-children newest s h;
  children-sigterm = λ pid s. refl;
  children-sleep_for = λ n s. refl;
  children-now = λ s. refl;
  children-create_directories = λ p s h. cc;
  children-remove = λ p s h. cc;
  children-remove_all = λ p s h. cc;
}

-- The results that `fork` will give, and a count of the workers.
abbrev pub Forks : Type 0
Forks = List ℤ × ℕ × ℕ × ℕ

abbrev fork_next : List ℤ → ℕ → ℕ → ℕ → ℤ × Forks
fork_next [] n told awaited = (minus_one, ([], n, told, awaited))
fork_next (pid ∷ pids) n told awaited =
    (pid, (pids, (if eqb_ℤ pid minus_one then n else n + 1), told, awaited))

abbrev pub workers_system : Workers.System
workers_system = record {
  State = Forks;
  malloc = λ s. (true, s);
  pipe = λ s. (some (3, 4), s);
  fork = λ w (pids, n, told, awaited). fork_next pids n told awaited;
  close = λ fd s. s;
  kill = λ pid (pids, n, told, awaited). (pids, n, told + 1, awaited);
  ignore_sigterm = λ s. s;
  wait = λ (pids, n, told, awaited). (Workers.exited, (pids, n, told, awaited + 1));
}

abbrev pub forked_of : Forks → ℕ
forked_of s = s.1

abbrev pub told_of : Forks → ℕ
told_of s = s.2

abbrev pub awaited_of : Forks → ℕ
awaited_of s = s.3

fork_next-forked :
    (pids : List ℤ) (n t a : ℕ)
    → (forked_of (fork_next pids n t a).1
        ≡ (if eqb_ℤ (fork_next pids n t a).0 minus_one then n else n + 1))
      × (told_of (fork_next pids n t a).1 ≡ t)
      × (awaited_of (fork_next pids n t a).1 ≡ a)
fork_next-forked [] n t a = (refl, refl, refl)
fork_next-forked (pid ∷ pids) n t a = (refl, refl, refl)

pub workers_system-IsCount : IsCount workers_system forked_of
workers_system-IsCount = record {
  forked-fork = λ w s. (fork_next-forked s.0 s.1 s.2 s.3).0;
  forked-malloc = λ s. refl;
  forked-pipe = λ s. refl;
  forked-close = λ fd s. refl;
  forked-kill = λ pid s. refl;
  forked-ignore_sigterm = λ s. refl;
  forked-wait = λ s. refl;
}

pub workers_system-IsReaping : IsReaping workers_system told_of awaited_of
workers_system-IsReaping = record {
  told-IsKept = record {
    kept-fork = λ w s. (fork_next-forked s.0 s.1 s.2 s.3).1;
    kept-malloc = λ s. refl;
    kept-pipe = λ s. refl;
    kept-close = λ fd s. refl;
  };
  awaited-IsKept = record {
    kept-fork = λ w s. (fork_next-forked s.0 s.1 s.2 s.3).2;
    kept-malloc = λ s. refl;
    kept-pipe = λ s. refl;
    kept-close = λ fd s. refl;
  };
  told-kill = λ pid s. refl;
  told-ignore_sigterm = λ s. refl;
  told-wait = λ s. refl;
  awaited-kill = λ pid s. refl;
  awaited-ignore_sigterm = λ s. refl;
  awaited-wait = λ s. refl;
}

-- `getopt_long` for hackbench's options, as words of their own.
abbrev letter : Text → ℕ
letter (d ∷ c ∷ []) = c
letter w = 0

abbrev takes : ℕ → Bool
takes c =
    if c == b's'
    then true
    else if c == b'l'
    then true
    else if c == b'g'
    then true
    else if c == b'f'
    then true
    else c == b'p'

pub getopt_words : List Text → List Call
getopt_words [] = []
getopt_words (w ∷ []) = if takes (letter w) then [] else flag (letter w) ∷ []
getopt_words (w ∷ a ∷ rest) = elim (takes (letter w)) [
  | true ↦ with_text (letter w) a ∷ getopt_words rest
  | false ↦ flag (letter w) ∷ getopt_words (a ∷ rest)
]

no_argument_lem :
    (c : ℕ) (rest : List Text)
    → (c ≡ b'F') ⊎ (c ≡ b'h') ⊎ (c ≡ b'i')
    → getopt_words ((b'-' ∷ c ∷ []) ∷ rest) ≡ flag c ∷ getopt_words rest
unfolding getopt_words
no_argument_lem c [] h = ground arith
no_argument_lem c (a ∷ rest) h = ground arith

argument_lem :
    (c : ℕ) (text : Text) (rest : List Text)
    → (c ≡ b's') ⊎ (c ≡ b'l') ⊎ (c ≡ b'g') ⊎ (c ≡ b'f') ⊎ (c ≡ b'p')
    → getopt_words ((b'-' ∷ c ∷ []) ∷ text ∷ rest) ≡ with_text c text ∷ getopt_words rest
unfolding getopt_words
argument_lem c text rest h = ground arith

pub getopt_words-IsGetopt : IsGetopt getopt_words
unfolding getopt_words
getopt_words-IsGetopt = record {
  no_words = refl;
  argument = argument_lem;
  no_argument = no_argument_lem;
}
