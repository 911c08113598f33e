-- ===== src/Launcher/Split/Fields.antt =====
-- The splitter against the list of fields, and the joining of fields.
use mathlib.Core.List.{cons-ne-nil}
use linux_scheduler_comparis.Base.{
  ℕ, zero, suc, ◌+◌, ◌-◌, ◌≤◌, ◌<◌, ◌≡◌, refl, List, [], ◌∷◌, ◌++◌, ap, arith, Text, length, Lacks,
  All, take, drop, drop-drop, ◌==◌, if◌then◌else◌, Option-cases, inl, inr, append_assoc, ◌∙◌, ◌≢◌,
  Bool-cases,
}
use linux_scheduler_comparis.Base.Outcome.{done}
use linux_scheduler_comparis.Text.Search.{find, find-none, find-some, substr, substr_from}
use linux_scheduler_comparis.Launcher.Split.{split_loop, string_to_vec_by_delim}

-- The fields of a text, by recursion on it.
abbrev on_first : ℕ → List Text → List Text
on_first x [] = (x ∷ []) ∷ []
on_first x (p ∷ ps) = (x ∷ p) ∷ ps

pub fields : ℕ → Text → List Text
fields c [] = [] ∷ []
fields c (x ∷ s) = let rest = fields c s in if x == c then [] ∷ rest else on_first x rest

abbrev pub join : ℕ → List Text → Text
join c [] = []
join c (p ∷ []) = p
join c (p ∷ q ∷ ps) = p ++ (c ∷ join c (q ∷ ps))

fields_of_Lacks : (c : ℕ) (s : Text) → Lacks c s → fields c s ≡ s ∷ []
unfolding fields
fields_of_Lacks c [] h = refl
fields_of_Lacks c (x ∷ s) h = ground (arith, fields_of_Lacks c s)

fields_at :
    (c : ℕ) (s : Text) (k : ℕ)
    → Lacks c (take k s)
    → (drop k s ≡ c ∷ drop (suc k) s)
    → fields c s ≡ take k s ∷ fields c (drop (suc k) s)
unfolding fields
fields_at c [] zero h e = cc
fields_at c [] (suc k) h e = cc
fields_at c (x ∷ s) zero h e = ground arith
fields_at c (x ∷ s) (suc k) h e = ground (arith, fields_at c s k)

split_loop_lem :
    (fuel : ℕ) (s : Text) (c last : ℕ) (res : List Text)
    → last ≤ length s
    → length s < last + fuel
    → split_loop fuel s (c ∷ []) last res ≡ done (res ++ fields c (drop last s))
unfolding split_loop substr substr_from
split_loop_lem zero s c last res h m = absurd (omega arith)
split_loop_lem (suc fuel) s c last res h m = elim (Option-cases (find s (c ∷ []) last)) [
  | inl absent ↦ ground (arith, fields_of_Lacks c (drop last s) (find-none s c last h absent))
  | inr (next, found) ↦
      let (low, high, before, at) = find-some s c last next h found in
      let place : last + suc (next - last) ≡ next + 1 = omega arith in
      let part = take (next - last) (drop last s) in
      let rest =
        split_loop_lem fuel s c (next + 1) (res ++ part ∷ []) (omega arith) (omega arith) in
      let cut : fields c (drop last s) ≡ part ∷ fields c (drop (next + 1) s) =
        fields_at c (drop last s) (next - last) before at ∙ rw (drop-drop, place) in
      ground (arith, rest, cut, append_assoc res (part ∷ []) (fields c (drop (next + 1) s)))
]

-- Splitting by one byte always returns, throws nothing and gives the fields of the text.
pub split-fields : (s : Text) (c : ℕ) → string_to_vec_by_delim s (c ∷ []) ≡ done (fields c s)
unfolding string_to_vec_by_delim
split-fields s c = split_loop_lem (length s + 2) s c 0 [] (omega arith) (omega arith)

fields-cons : (c : ℕ) (s : Text) → (p : Text) × (ps : List Text) × (fields c s ≡ p ∷ ps)
unfolding fields
fields-cons c [] = ([], [], refl)
fields-cons c (x ∷ s) = elim (Bool-cases (x == c)) [
  | inl e ↦ ([], fields c s, rw e)
  | inr e ↦ let (p, ps, eq) = fields-cons c s in (x ∷ p, ps, rw (e, eq))
]

join-on_first :
    (c x : ℕ) (p : Text) (ps : List Text) → join c (on_first x (p ∷ ps)) ≡ x ∷ join c (p ∷ ps)
join-on_first c x p [] = refl
join-on_first c x p (q ∷ ps) = refl

join-fields_step : (c x : ℕ) (s : Text) → join c (fields c (x ∷ s)) ≡ x ∷ join c (fields c s)
unfolding fields
join-fields_step c x s =
    let (p, ps, eq) = fields-cons c s in
    elim (Bool-cases (x == c)) [
      | inl e ↦ ground (arith, eq)
      | inr e ↦ rw (e, eq) (join-on_first c x p ps)
    ]

pub join-fields : (c : ℕ) (s : Text) → join c (fields c s) ≡ s
join-fields c [] = unfold fields in refl
join-fields c (x ∷ s) = join-fields_step c x s ∙ ap (λ t. x ∷ t) (join-fields c s)

pub fields-Lacks : (c : ℕ) (s : Text) → All (Lacks c) (fields c s)
unfolding fields
fields-Lacks c [] = (tt, tt)
fields-Lacks c (x ∷ s) = let (p, ps, eq) = fields-cons c s in ground (arith, eq, fields-Lacks c s)

fields-append : (c : ℕ) (p s : Text) → Lacks c p → fields c (p ++ (c ∷ s)) ≡ p ∷ fields c s
unfolding fields
fields-append c [] s h = ground arith
fields-append c (x ∷ p) s h = ground (arith, fields-append c p s)

pub fields-join : (c : ℕ) (ps : List Text) → ps ≢ [] → All (Lacks c) ps → fields c (join c ps) ≡ ps
fields-join c [] h _ = absurd (h refl)
fields-join c (p ∷ []) h (lacks, _) = fields_of_Lacks c p lacks
fields-join c (p ∷ q ∷ ps) h (lacks, rest) =
    fields-append c p (join c (q ∷ ps)) lacks
    ∙ ap (λ t. p ∷ t) (fields-join c (q ∷ ps) (cons-ne-nil q ps) rest)

-- Splitting at a one-byte delimiter always ends, with parts that hold no delimiter and whose
-- joining is the text.
pub join-split :
    (s : Text) (c : ℕ)
    → (parts : List Text) × (string_to_vec_by_delim s (c ∷ []) ≡ done parts)
      × (join c parts ≡ s)
      × All (Lacks c) parts
join-split s c = (fields c s, split-fields s c, join-fields c s, fields-Lacks c s)

-- Splitting gives back the parts that were joined by a one-byte delimiter, if there is a part and
-- no part holds the delimiter.
pub split-join :
    (c : ℕ) (parts : List Text)
    → parts ≢ []
    → All (Lacks c) parts
    → string_to_vec_by_delim (join c parts) (c ∷ []) ≡ done parts
split-join c parts h lacks = split-fields (join c parts) c ∙ ap done (fields-join c parts h lacks)
