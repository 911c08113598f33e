-- ===== src/Getopt/Loop/Short.antt =====
-- The parsers of the two trackers and of the HTTP client, where all options are short.
use linux_scheduler_comparis.Base.{
  ℕ, zero, ◌≡◌, refl, Bool, true, false, Option, none, some, List, [], ◌∷◌, map, Text, ◌==◌,
  if◌then◌else◌, Bool-cases, inl, inr,
}
use linux_scheduler_comparis.Base.Int.{pos}
use linux_scheduler_comparis.Base.Outcome.{Outcome, done, exits, throws, undefined, spent, ◌>>=◌}
use linux_scheduler_comparis.Getopt.{Call, is_null, string_of}
use linux_scheduler_comparis.Getopt.Loop.{
  Parsing, Handler, with_argument, parse_call, parse_calls, parse_with,
}

-- A short option: its character and its argument.
abbrev pub short_option : ℕ × Option Text → Call
short_option (c, optarg) = record { option = c; optarg = optarg; longindex = none }

module _ {A : Type 0} (handler : Handler A) where
  abbrev pub ending : Bool → A → Outcome A
  ending failed a = if failed then exits (pos 0) else done a

  -- What the options do, without `argv` and `optind`: each known one is set, `-h` ends the program,
  -- and after an unknown one the program ends behind the last option.
  unfoldable pub apply_options : List (ℕ × Option Text) → Bool → A → Outcome A
  apply_options [] failed a = ending failed a
  apply_options ((c, optarg) ∷ options) failed a =
      let unknown = if c == b'h' then exits (pos 0) else apply_options options true a in
      elim (handler c) [
        | some set ↦ string_of optarg >>= λ text. set text a >>= apply_options options failed
        | none ↦ unknown
      ]

  parsing : Bool → A → Parsing A
  parsing failed a = record { args = a; error = failed; optind = zero }

  finish : Parsing A → Outcome A
  finish p = ending p.error p.args

  module _ (prog : Text) (argv : List Text) where
    -- An option with its argument, and what follows it.
    set_then :
        (failed : Bool) (m : Outcome A) (k : Parsing A → Outcome (Parsing A)) (rest : A → Outcome A)
        → ((a : A) → (k (parsing failed a) >>= finish) ≡ rest a)
        → (◌>>=◌ {B = Parsing A} (m >>= λ a. done (parsing failed a)) k >>= finish) ≡ (m >>= rest)
    set_then failed (done a) k rest h = h a
    set_then failed (exits n) k rest h = refl
    set_then failed (throws e) k rest h = refl
    set_then failed undefined k rest h = refl
    set_then failed spent k rest h = refl

    known_call :
        (c : ℕ) (optarg : Option Text) (set : Text → A → Outcome A) (failed : Bool) (a : A)
        → handler c ≡ some set
        → parse_call handler (prog ∷ argv) (short_option (c, optarg)) (parsing failed a)
          ≡ (string_of optarg >>= λ text. set text a >>= λ a'. done (parsing failed a'))
    unfolding parse_call with_argument is_null parsing
    known_call c optarg set failed a known = rw (parse_call, known) refl

    unknown_call :
        (c : ℕ) (optarg : Option Text) (failed : Bool) (a : A)
        → handler c ≡ none
        → parse_call handler (prog ∷ argv) (short_option (c, optarg)) (parsing failed a)
          ≡ (if c == b'h' then exits (pos 0) else done (parsing true a))
    unfolding parse_call parsing
    unknown_call c optarg failed a unknown = rw (parse_call, unknown) refl

    parse_calls-short :
        (options : List (ℕ × Option Text)) (failed : Bool) (a : A)
        → (parse_calls handler (prog ∷ argv) (map short_option options) (parsing failed a)
            >>= finish)
          ≡ apply_options options failed a
    unfolding parse_calls apply_options parsing finish
    parse_calls-short [] failed a = refl
    parse_calls-short ((c, optarg) ∷ options) failed a =
        go (handler c) refl optarg (parse_calls-short options)
      where
        go :
            (o : Option (Text → A → Outcome A))
            → handler c ≡ o
            → (arg : Option Text)
            → ((b : Bool) (a' : A)
                → (parse_calls handler (prog ∷ argv) (map short_option options) (parsing b a')
                    >>= finish)
                  ≡ apply_options options b a')
            → (parse_calls handler
                  (prog ∷ argv)
                  (map short_option ((c, arg) ∷ options))
                  (parsing failed a)
                >>= finish)
              ≡ apply_options ((c, arg) ∷ options) failed a
        go (some set) known none rest =
            rw (known_call c none set failed a known, apply_options, known) refl
        go (some set) known (some text) rest =
            rw (known_call c (some text) set failed a known, apply_options, known)
              (set_then failed (set text a)
                (parse_calls handler (prog ∷ argv) (map short_option options))
                (apply_options options failed) (rest failed))
        go none unknown arg rest = elim (Bool-cases (c == b'h')) [
          | inl help ↦ rw (unknown_call c arg failed a unknown, apply_options, unknown, help) refl
          | inr other ↦
              rw (unknown_call c arg failed a unknown, apply_options, unknown, other) (rest true a)
        ]

    -- For any table of what the options set: with short options only, and a program name in
    -- `argv`, the option loop that the two trackers and the HTTP client share is the options
    -- applied to the defaults one after the other, without any look at `argv`: a setting that
    -- fails ends it, `-h` exits with status 0 at once, and an unknown option with status 0 behind
    -- the last one.
    pub parse_with-short :
        (defaults : A) (options : List (ℕ × Option Text))
        → parse_with handler (prog ∷ argv) defaults (map short_option options)
          ≡ apply_options options false defaults
    unfolding parse_with parsing finish
    parse_with-short defaults options = parse_calls-short options false defaults
