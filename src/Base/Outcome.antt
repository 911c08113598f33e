-- ===== src/Base/Outcome.antt =====
-- What a piece of C or C++ code comes to: a value, the end of the process, an exception that
-- nobody catches, undefined behaviour, or a loop whose fuel has run out.
use mathlib.Core.Path.{◌≡◌, refl, ap}
use linux_scheduler_comparis.Base.Int.{ℤ}

pub data Exception : Type 0 where
  invalid_argument out_of_range : Exception

pub data Outcome {ℓ} (A : Type ℓ) : Type ℓ where
  done : A → Outcome A
  exits : ℤ → Outcome A
  throws : Exception → Outcome A
  undefined : Outcome A
  spent : Outcome A

infixl 5 ◌>>=◌ ◌>>◌
abbrev pub ◌>>=◌ {ℓ κ} : {A : Type ℓ} {B : Type κ} → Outcome A → (A → Outcome B) → Outcome B
done a >>= f = f a
exits n >>= f = exits n
throws e >>= f = throws e
undefined >>= f = undefined
spent >>= f = spent

abbrev pub ◌>>◌ {ℓ κ} : {A : Type ℓ} {B : Type κ} → Outcome A → Outcome B → Outcome B
m >> k = m >>= λ _. k

-- A successful chain has a successful first step.
pub >>=-eq-done {ℓ κ} :
    {A : Type ℓ} {B : Type κ} (m : Outcome A) (f : A → Outcome B) {b : B}
    → (m >>= f) ≡ done b
    → (a : A) × (m ≡ done a) × (f a ≡ done b)
>>=-eq-done (done a) f h = (a, refl, h)
>>=-eq-done (exits n) f h = cc
>>=-eq-done (throws e) f h = cc
>>=-eq-done undefined f h = cc
>>=-eq-done spent f h = cc

-- The laws of a chain.
pub >>=-ext {ℓ κ} :
    {A : Type ℓ} {B : Type κ} (m : Outcome A) {f g : A → Outcome B}
    → ((a : A) → f a ≡ g a)
    → (m >>= f) ≡ (m >>= g)
>>=-ext (done a) h = h a
>>=-ext (exits n) h = refl
>>=-ext (throws e) h = refl
>>=-ext undefined h = refl
>>=-ext spent h = refl

pub >>=-assoc {ℓ κ μ} :
    {A : Type ℓ} {B : Type κ} {C : Type μ} (m : Outcome A) (f : A → Outcome B) (g : B → Outcome C)
    → ((m >>= f) >>= g) ≡ (m >>= λ a. f a >>= g)
>>=-assoc (done a) f g = refl
>>=-assoc (exits n) f g = refl
>>=-assoc (throws e) f g = refl
>>=-assoc undefined f g = refl
>>=-assoc spent f g = refl

pub done-injective {ℓ} : {A : Type ℓ} {a b : A} → done a ≡ done b → a ≡ b
done-injective h = cc

-- What follows of two results, from what they have in common.
pub >>=-same {ℓ κ μ ν} :
    {A : Type ℓ} {B : Type κ} {C : Type μ} {D : Type ν} (m : Outcome A) (n : Outcome B) (f : A → C)
    (f2 : B → C) (g : A → D) (g2 : B → D)
    → ((a : A) (b : B) → f a ≡ f2 b → g a ≡ g2 b)
    → (m >>= λ a. done (f a)) ≡ (n >>= λ b. done (f2 b))
    → (m >>= λ a. done (g a)) ≡ (n >>= λ b. done (g2 b))
>>=-same (done a) (done b) f f2 g g2 k h = ap done (k a b (done-injective h))
>>=-same (exits x) (exits y) f f2 g g2 k h = cc
>>=-same (throws x) (throws y) f f2 g g2 k h = cc
>>=-same undefined undefined f f2 g g2 k h = refl
>>=-same spent spent f f2 g g2 k h = refl
>>=-same _ _ f f2 g g2 k h = cc
