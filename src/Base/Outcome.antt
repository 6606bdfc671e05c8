-- ===== src/Base/Outcome.antt =====
-- Results of calls that may throw: JavaScript's exceptions as values of a type of errors.
use mathlib.Core.Path.{◌≡◌, refl, subst}
use mathlib.Core.Logic.{◌⊎◌, inl, inr}
use mathlib.Core.Bool.{Bool, true, false}
use mathlib.Core.Option.{Option, none, some}
use cuda_js.Base.Tests.{if◌then◌else◌}

pub data Outcome {ℓ κ} (E : Type ℓ) (A : Type κ) : Type (ℓ ⊔ κ) where
  returned : A → Outcome E A
  thrown : E → Outcome E A

infixl 5 ◌>>=◌ ◌>>◌
abbrev pub ◌>>=◌ {ℓ κ ι} :
    {E : Type ℓ} {A : Type κ} {B : Type ι} → Outcome E A → (A → Outcome E B) → Outcome E B
returned a >>= f = f a
thrown e >>= f = thrown e

abbrev pub ◌>>◌ {ℓ κ} : {E : Type ℓ} {B : Type κ} → Outcome E (Unit {0}) → Outcome E B → Outcome E B
m >> k = m >>= λ _. k

-- `if (!test) fail(…)`
abbrev pub require {ℓ} : {E : Type ℓ} → Bool → E → Outcome E (Unit {0})
require true e = returned tt
require false e = thrown e

-- `if (test) fail(…)`
abbrev pub reject {ℓ} : {E : Type ℓ} → Bool → E → Outcome E (Unit {0})
reject true e = thrown e
reject false e = returned tt

abbrev pub or_throw {ℓ κ} : {E : Type ℓ} {A : Type κ} → Option A → E → Outcome E A
or_throw none e = thrown e
or_throw (some a) e = returned a

pub >>=-eq-returned {ℓ κ ι} :
    {E : Type ℓ} {A : Type κ} {B : Type ι} (m : Outcome E A) (f : A → Outcome E B) {b : B}
    → (m >>= f) ≡ returned b
    → (a : A) × (m ≡ returned a) × (f a ≡ returned b)
>>=-eq-returned (returned a) f h = (a, refl, h)
>>=-eq-returned (thrown e) f h = cc

pub Outcome-cases {ℓ κ} :
    {E : Type ℓ} {A : Type κ} (m : Outcome E A)
    → ((a : A) × (m ≡ returned a)) ⊎ ((e : E) × (m ≡ thrown e))
Outcome-cases (returned a) = inl (a, refl)
Outcome-cases (thrown e) = inr (e, refl)

-- What a step that did not throw says of its test, or of the value that it found.
module _ {ℓ κ ι} {E : Type ℓ} {B : Type κ} {C : Type ι} where
  pub require-elim :
      (t : Bool) (e : E) {k : Outcome E B} {b : B}
      → (require t e >> k) ≡ returned b
      → (t ≡ true → k ≡ returned b → C)
      → C
  require-elim true e h c = c refl h
  require-elim false e h c = absurd (cc)

  pub reject-elim :
      (t : Bool) (e : E) {k : Outcome E B} {b : B}
      → (reject t e >> k) ≡ returned b
      → (t ≡ false → k ≡ returned b → C)
      → C
  reject-elim true e h c = absurd (cc)
  reject-elim false e h c = c refl h

pub or_throw-elim {ℓ κ ι μ} :
    {E : Type ℓ} {A : Type κ} {B : Type ι} {C : Type μ} (o : Option A) (e : E) {f : A → Outcome E B}
    {b : B}
    → (or_throw o e >>= f) ≡ returned b
    → ((a : A) → o ≡ some a → f a ≡ returned b → C)
    → C
or_throw-elim none e h c = absurd (cc)
or_throw-elim (some a) e h c = c a refl h

pub >>=-elim {ℓ κ ι μ} :
    {E : Type ℓ} {A : Type κ} {B : Type ι} {C : Type μ} (m : Outcome E A) {f : A → Outcome E B}
    {b : B}
    → (m >>= f) ≡ returned b
    → ((a : A) → m ≡ returned a → f a ≡ returned b → C)
    → C
>>=-elim (returned a) h c = c a refl h
>>=-elim (thrown e) h c = absurd (cc)

-- The end of such a chain: what holds of the value that it returns.
pub returned-elim {ℓ κ ι} :
    {E : Type ℓ} {A : Type κ} {a b : A} (C : A → Type ι)
    → ◌≡◌ {A = Outcome E A} (returned a) (returned b)
    → C a
    → C b
returned-elim {a = a} {b = b} C h c = let same : a ≡ b = cc in subst C same c

pub if-elim {ℓ κ} :
    {A : Type ℓ} {C : Type κ} (t : Bool) {x y a : A}
    → (if t then x else y) ≡ a
    → (t ≡ true → x ≡ a → C)
    → (t ≡ false → y ≡ a → C)
    → C
if-elim true h c d = c refl h
if-elim false h c d = d refl h
