-- ===== src/Launcher/Args/Laws.antt =====
-- What `parse_args` of launcher/launcher.cpp accepts, and what it returns.
use linux_scheduler_comparis.Base.{
  ℕ, ◌≡◌, refl, ◌⊎◌, inl, inr, Bool, true, false, Option, none, some, List, [], ◌∷◌, map, arith,
  Text, length, Option-cases, if◌then◌else◌,
}
use linux_scheduler_comparis.Base.Int.{minus_one}
use linux_scheduler_comparis.Base.Outcome.{
  Outcome, done, exits, throws, undefined, spent, ◌>>=◌, >>=-eq-done,
}
use linux_scheduler_comparis.Getopt.{Call, next_optind, is_null}
use linux_scheduler_comparis.Launcher.Args.{
  Args, default_args, set_groups, set_pin, set_reps, set_file, set_path, Parsing, with_argument,
  handler, parse_call, parse_calls, parse_args,
}

-- A setting that a user gives by a short option, its option, and what it is meant to do.
pub data Setting : Type 0 where
  groups pin reps file hack : Text → Setting

pub short_call : Setting → Call
short_call (groups t) = record { option = b'g'; optarg = some t; longindex = none }
short_call (pin t) = record { option = b'p'; optarg = some t; longindex = none }
short_call (reps t) = record { option = b'r'; optarg = some t; longindex = none }
short_call (file t) = record { option = b'f'; optarg = some t; longindex = none }
short_call (hack t) = record { option = b'H'; optarg = some t; longindex = none }

module _ (opens : Text → Bool) where
  unfoldable pub apply_setting : Setting → Args → Outcome Args
  apply_setting (groups t) = set_groups t
  apply_setting (pin t) = set_pin t
  apply_setting (reps t) = set_reps t
  apply_setting (file t) = set_file opens t
  apply_setting (hack t) = set_path t

  unfoldable pub apply_settings : List Setting → Args → Outcome Args
  apply_settings [] args = done args
  apply_settings (s ∷ settings) args = do
    args' ← apply_setting s args
    apply_settings settings args'

  abbrev ready : Args → Parsing
  ready args = record { args = args; error = false; optind = 0; cerr = [] }

  parse_call-short_call :
      (prog : Text) (argv : List Text) (s : Setting) (args : Args)
      → parse_call opens (prog ∷ argv) (short_call s) (ready args)
        ≡ (apply_setting s args >>= λ args'. done (ready args'))
  unfolding parse_call handler with_argument is_null short_call apply_setting
  parse_call-short_call prog argv (groups t) args = refl
  parse_call-short_call prog argv (pin t) args = refl
  parse_call-short_call prog argv (reps t) args = refl
  parse_call-short_call prog argv (file t) args = refl
  parse_call-short_call prog argv (hack t) args = refl

  parse_calls-short_call :
      (prog : Text) (argv : List Text) (settings : List Setting) (args : Args)
      → parse_calls opens (prog ∷ argv) (map short_call settings) (ready args)
        ≡ (apply_settings settings args >>= λ args'. done (ready args'))
  unfolding parse_calls apply_settings
  parse_calls-short_call prog argv [] args = refl
  parse_calls-short_call prog argv (s ∷ settings) args =
      rw (parse_call-short_call prog argv s args)
        (go (apply_setting s args) (parse_calls-short_call prog argv settings))
    where
      go :
          (m : Outcome Args)
          → ((args : Args)
              → parse_calls opens (prog ∷ argv) (map short_call settings) (ready args)
                ≡ (apply_settings settings args >>= λ args'. done (ready args')))
          → ((m >>= λ args'. done (ready args'))
              >>= parse_calls opens (prog ∷ argv) (map short_call settings))
            ≡ ((m >>= apply_settings settings) >>= λ args'. done (ready args'))
      go (done a) ih = ih a
      go (exits n) ih = refl
      go (throws e) ih = refl
      go undefined ih = refl
      go spent ih = refl

  -- With short options only, and a program name in `argv`, `parse_args` is the settings applied to
  -- the defaults one after the other, ending where the first of them fails.
  pub parse_args-short_call :
      (prog : Text) (argv : List Text) (settings : List Setting)
      → parse_args opens (prog ∷ argv) (map short_call settings)
        ≡ apply_settings settings default_args
  unfolding parse_args
  parse_args-short_call prog argv settings =
      rw parse_calls-short_call (go (apply_settings settings default_args))
    where
      go :
          (m : Outcome Args)
          → ((m >>= λ args'. done (ready args')) >>= λ p.
              if p.error then exits minus_one else done p.args)
            ≡ m
      go (done a) = refl
      go (exits n) = refl
      go (throws e) = refl
      go undefined = refl
      go spent = refl

  -- The five options that take an argument.
  abbrev pub TakesArgument : ℕ → Type 0
  TakesArgument c = (c ≡ b'g') ⊎ (c ≡ b'p') ⊎ (c ≡ b'r') ⊎ (c ≡ b'f') ⊎ (c ≡ b'H')

  -- Every call gave one of the five options, and the tested word of `argv` was there.
  abbrev pub Accepted : List Text → ℕ → List Call → Type 0
  Accepted argv optind [] = Unit
  Accepted argv optind (call ∷ calls) =
      TakesArgument call.option
      × (is_null argv (next_optind call.longindex optind) ≡ done false)
      × Accepted argv (next_optind call.longindex optind) calls

  with_argument-error :
      (argv : List Text) (optarg : Option Text) (message : Text) (set : Text → Args → Outcome Args)
      (p : Parsing) {p' : Parsing}
      → with_argument argv optarg message set p ≡ done p'
      → p'.error ≡ false
      → (p.error ≡ false) × (is_null argv p.optind ≡ done false) × (p'.optind ≡ p.optind)
  unfolding with_argument
  with_argument-error argv optarg message set p h e = ground arith

  handler-TakesArgument :
      (c : ℕ) {h : Text × (Text → Args → Outcome Args)} → handler opens c ≡ some h → TakesArgument c
  unfolding handler
  handler-TakesArgument c h = ground arith

  parse_call-error :
      (argv : List Text) (call : Call) (p : Parsing) {p' : Parsing}
      → parse_call opens argv call p ≡ done p'
      → p'.error ≡ false
      → (p.error ≡ false)
        × TakesArgument call.option
        × (is_null argv (next_optind call.longindex p.optind) ≡ done false)
        × (p'.optind ≡ next_optind call.longindex p.optind)
  unfolding parse_call
  parse_call-error argv call p {p'} h e = elim (Option-cases (handler opens call.option)) [
    | inl unknown ↦ ground arith
    | inr ((message, set), known) ↦
        let moved : Parsing = record p { optind = next_optind call.longindex p.optind } in
        let run : with_argument argv call.optarg message set moved ≡ done p' = ground arith in
        let (clean, there, same) = with_argument-error argv call.optarg message set moved run e in
        (clean, handler-TakesArgument call.option known, there, same)
  ]

  parse_calls-error :
      (argv : List Text) (calls : List Call) (p : Parsing) {p' : Parsing}
      → parse_calls opens argv calls p ≡ done p'
      → p'.error ≡ false
      → (p.error ≡ false) × Accepted argv p.optind calls
  unfolding parse_calls
  parse_calls-error argv [] p h e = (ground arith, tt)
  parse_calls-error argv (call ∷ calls) p {p'} h e =
      let (p1, first, rest) =
        >>=-eq-done (parse_call opens argv call p) (parse_calls opens argv calls) h in
      let (clean1, accepted) = parse_calls-error argv calls p1 rest e in
      let (clean, takes, there, same) = parse_call-error argv call p first clean1 in
      (clean, (takes, there, rw same at accepted))

  -- If `parse_args` returns, then every result of `getopt_long` was one of the five options with
  -- an argument, and the word of `argv` that it tested each time was not null.
  pub parse_args-Accepted :
      (argv : List Text) (calls : List Call) {args : Args}
      → parse_args opens argv calls ≡ done args
      → Accepted argv 0 calls
  unfolding parse_args
  parse_args-Accepted argv calls {args} h =
      let (p, run, last) = >>=-eq-done (parse_calls opens argv calls _) _ h in
      (parse_calls-error argv calls _ run (ground arith)).1

  is_null-length : (argv : List Text) → is_null argv (length argv) ≡ done true
  unfolding is_null
  is_null-length [] = refl
  is_null-length (word ∷ argv) = is_null-length argv

  handler_of_TakesArgument :
      (c : ℕ)
      → TakesArgument c
      → (h : Text × (Text → Args → Outcome Args)) × (handler opens c ≡ some h)
  unfolding handler
  handler_of_TakesArgument c h = elim (Option-cases (handler opens c)) [
    | inl unknown ↦ absurd (ground arith)
    | inr known ↦ known
  ]

  -- One long option that takes an argument, with its place in the table of options as the number
  -- of words: the program ends with the usage text and status -1, whatever the argument is.
  pub parse_args-long_refused :
      (argv : List Text) (c : ℕ) (text : Text)
      → TakesArgument c
      → parse_args opens argv
          (record { option = c; optarg = some text; longindex = some (length argv) } ∷ [])
        ≡ exits minus_one
  unfolding parse_args parse_calls parse_call with_argument
  parse_args-long_refused argv c text h =
      let ((message, set), known) = handler_of_TakesArgument c h in
      ground (arith, known, is_null-length argv)
