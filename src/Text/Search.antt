-- ===== src/Text/Search.antt =====
-- `std::string::find` and `std::string::substr`.
use linux_scheduler_comparis.Base.{
  ℕ, zero, suc, ◌+◌, ◌≤◌, ◌<◌, ◌≡◌, ◌≢◌, ◌⊎◌, inl, inr, ◌-◌, length-drop, Option-cases, Bool-cases,
  ==_iff, Bool, true, false, ◌&&◌, Option, none, some, [], ◌∷◌, arith, Text, length, take, drop,
  leb, ◌==◌, if◌then◌else◌, Lacks,
}
use linux_scheduler_comparis.Base.Outcome.{Outcome, done, throws, out_of_range}

-- Whether `s` begins with `d`.
abbrev pub begins : Text → Text → Bool
begins [] s = true
begins (c ∷ d) [] = false
begins (c ∷ d) (x ∷ s) = x == c && begins d s

abbrev moved : ℕ → Option ℕ → Option ℕ
moved n none = none
moved n (some k) = some (n + k)

-- The first place of `d` in `s`.
pub search_text : Text → Text → Option ℕ
search_text d [] = if begins d [] then some 0 else none
search_text d (x ∷ s) =
    let rest = moved 1 (search_text d s) in if begins d (x ∷ s) then some 0 else rest

-- `s.find(d, from)`; `none` is `npos`.
unfoldable pub find : Text → Text → ℕ → Option ℕ
unfolding search_text
find s d from = if leb from (length s) then moved from (search_text d (drop from s)) else none

-- `s.substr(from, count)` and `s.substr(from)`: a start behind the end throws.
unfoldable pub substr : Text → ℕ → ℕ → Outcome Text
substr s from count =
    if leb from (length s) then done (take count (drop from s)) else throws out_of_range

unfoldable pub substr_from : Text → ℕ → Outcome Text
substr_from s from = if leb from (length s) then done (drop from s) else throws out_of_range

-- Searching for a single byte: it stands first, or the search goes on.
search_text-cons :
    (c x : ℕ) (s : Text)
    → ((x ≡ c) × (search_text (c ∷ []) (x ∷ s) ≡ some 0))
      ⊎ ((x ≢ c) × (search_text (c ∷ []) (x ∷ s) ≡ moved 1 (search_text (c ∷ []) s)))
unfolding search_text
search_text-cons c x s = elim (Bool-cases (x == c)) [
  | inl e ↦ inl ((==_iff x c).0 e, ground arith)
  | inr e ↦ inr (ground arith, ground arith)
]

pub search_text-none : (c : ℕ) (s : Text) → search_text (c ∷ []) s ≡ none → Lacks c s
search_text-none c [] h = tt
search_text-none c (x ∷ s) h = ground (arith, search_text-cons c x s, search_text-none c s)

pub search_text-some :
    (c : ℕ) (s : Text) (k : ℕ)
    → search_text (c ∷ []) s ≡ some k
    → (k < length s) × Lacks c (take k s) × (drop k s ≡ c ∷ drop (suc k) s)
search_text-some c [] k h = unfold search_text in cc
search_text-some c (x ∷ s) zero h = ground (arith, search_text-cons c x s)
search_text-some c (x ∷ s) (suc k) h =
    ground (arith, search_text-cons c x s, search_text-some c s k)

pub find-none :
    (s : Text) (c last : ℕ) → last ≤ length s → find s (c ∷ []) last ≡ none → Lacks c (drop last s)
unfolding find
find-none s c last h e = search_text-none c (drop last s) (ground arith)

pub find-some :
    (s : Text) (c last next : ℕ)
    → last ≤ length s
    → find s (c ∷ []) last ≡ some next
    → (last ≤ next)
      × (next < length s)
      × Lacks c (take (next - last) (drop last s))
      × (drop (next - last) (drop last s) ≡ c ∷ drop (suc (next - last)) (drop last s))
unfolding find
find-some s c last next h e = elim (Option-cases (search_text (c ∷ []) (drop last s))) [
  | inl absent ↦ absurd (ground arith)
  | inr (k, found) ↦
      let (bound, before, at) = search_text-some c (drop last s) k found in
      let place : next ≡ last + k = ground arith in
      let offset : next - last ≡ k = omega arith in
      rw offset (omega arith, omega (arith, length-drop last s), before, at)
]
