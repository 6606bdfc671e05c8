-- ===== src/Base/Lists.antt =====
-- Lists measured and indexed by native numbers, and what holds of every element at its index.
use Prim.Native.Nat.{ℕ, zero, suc, ◌+◌, ◌≤◌, ◌<◌}
use mathlib.Core.Path.{◌≡◌, refl, ap}
use mathlib.Core.Logic.{◌≢◌, ◌⊎◌, inl, inr}
use mathlib.Core.Bool.{Bool, true, false, ◌||◌, ◌&&◌}
use mathlib.Core.List.{List, [], ◌∷◌, ◌++◌, map}
use mathlib.Core.Option
use mathlib.Core.Option.{Option, none, some}
use native.Mathlib.Omega.{arith}
use cuda_js.Base.Tests.{◌==◌, if◌then◌else◌}

module _ {ℓ} {A : Type ℓ} where
  abbrev pub length : List A → ℕ
  length [] = 0
  length (x ∷ xs) = suc (length xs)

  abbrev pub get_elem? : List A → ℕ → Option A
  get_elem? [] i = none
  get_elem? (x ∷ xs) zero = some x
  get_elem? (x ∷ xs) (suc i) = get_elem? xs i

  -- A change of the object at an index. Out of bounds nothing changes.
  abbrev pub modify : List A → ℕ → (A → A) → List A
  modify [] i f = []
  modify (x ∷ xs) zero f = f x ∷ xs
  modify (x ∷ xs) (suc i) f = x ∷ modify xs i f

  -- `xs[i] = v` at an index within the array, or one past its end.
  abbrev pub put : List A → ℕ → A → List A
  put [] i v = v ∷ []
  put (x ∷ xs) zero v = v ∷ xs
  put (x ∷ xs) (suc i) v = x ∷ put xs i v

  abbrev pub take : ℕ → List A → List A
  take zero xs = []
  take (suc n) [] = []
  take (suc n) (x ∷ xs) = x ∷ take n xs

  abbrev pub keep_if : (A → Bool) → List A → List A
  keep_if p [] = []
  keep_if p (x ∷ xs) = if p x then x ∷ keep_if p xs else keep_if p xs

  abbrev pub all_of : (A → Bool) → List A → Bool
  all_of p [] = true
  all_of p (x ∷ xs) = p x && all_of p xs

  abbrev pub any_of : (A → Bool) → List A → Bool
  any_of p [] = false
  any_of p (x ∷ xs) = p x || any_of p xs

  pub length-append : (xs ys : List A) → length (xs ++ ys) ≡ length xs + length ys
  length-append [] ys = omega arith
  length-append (x ∷ xs) ys = omega (arith, length-append xs ys)

  pub length-modify : (xs : List A) (i : ℕ) (f : A → A) → length (modify xs i f) ≡ length xs
  length-modify [] i f = refl
  length-modify (x ∷ xs) zero f = refl
  length-modify (x ∷ xs) (suc i) f = ap suc (length-modify xs i f)

  pub get_elem?-modify_self :
      (xs : List A) (i : ℕ) (f : A → A) {x : A}
      → get_elem? xs i ≡ some x
      → get_elem? (modify xs i f) i ≡ some (f x)
  get_elem?-modify_self [] i f h = cc
  get_elem?-modify_self (x ∷ xs) zero f h = ground arith
  get_elem?-modify_self (x ∷ xs) (suc i) f h = get_elem?-modify_self xs i f h

  pub get_elem?-modify_ne :
      (xs : List A) (i j : ℕ) (f : A → A) → i ≢ j → get_elem? (modify xs i f) j ≡ get_elem? xs j
  get_elem?-modify_ne [] i j f h = refl
  get_elem?-modify_ne (x ∷ xs) zero zero f h = absurd (h refl)
  get_elem?-modify_ne (x ∷ xs) zero (suc j) f h = refl
  get_elem?-modify_ne (x ∷ xs) (suc i) zero f h = refl
  get_elem?-modify_ne (x ∷ xs) (suc i) (suc j) f h =
      get_elem?-modify_ne xs i j f (λ e. h (ap suc e))

  pub get_elem?-modify :
      (xs : List A) (i j : ℕ) (f : A → A)
      → get_elem? (modify xs i f) j
        ≡ (if i == j then Option.map f (get_elem? xs j) else get_elem? xs j)
  get_elem?-modify [] i j f = ground arith
  get_elem?-modify (x ∷ xs) zero zero f = refl
  get_elem?-modify (x ∷ xs) zero (suc j) f = ground arith
  get_elem?-modify (x ∷ xs) (suc i) zero f = ground arith
  get_elem?-modify (x ∷ xs) (suc i) (suc j) f = ground (arith, get_elem?-modify xs i j f)

  pub get_elem?-put :
      (xs : List A) (i j : ℕ) (v : A)
      → i ≤ length xs
      → get_elem? (put xs i v) j ≡ (if i == j then some v else get_elem? xs j)
  get_elem?-put [] zero zero v h = refl
  get_elem?-put [] zero (suc j) v h = ground arith
  get_elem?-put [] (suc i) j v h = absurd (omega arith)
  get_elem?-put (x ∷ xs) zero zero v h = refl
  get_elem?-put (x ∷ xs) zero (suc j) v h = ground arith
  get_elem?-put (x ∷ xs) (suc i) zero v h = ground arith
  get_elem?-put (x ∷ xs) (suc i) (suc j) v h = ground (arith, get_elem?-put xs i j v (omega arith))

  pub get_elem?-put_self :
      (xs : List A) (i : ℕ) (v : A) → i ≤ length xs → get_elem? (put xs i v) i ≡ some v
  get_elem?-put_self [] zero v h = refl
  get_elem?-put_self [] (suc i) v h = absurd (omega arith)
  get_elem?-put_self (x ∷ xs) zero v h = refl
  get_elem?-put_self (x ∷ xs) (suc i) v h = get_elem?-put_self xs i v (omega arith)

  pub get_elem?-put_ne :
      (xs : List A) (i j : ℕ) (v : A)
      → i ≤ length xs
      → i ≢ j
      → get_elem? (put xs i v) j ≡ get_elem? xs j
  get_elem?-put_ne [] zero zero v b h = absurd (h refl)
  get_elem?-put_ne [] zero (suc j) v b h = refl
  get_elem?-put_ne [] (suc i) j v b h = absurd (omega arith)
  get_elem?-put_ne (x ∷ xs) zero zero v b h = absurd (h refl)
  get_elem?-put_ne (x ∷ xs) zero (suc j) v b h = refl
  get_elem?-put_ne (x ∷ xs) (suc i) zero v b h = refl
  get_elem?-put_ne (x ∷ xs) (suc i) (suc j) v b h =
      get_elem?-put_ne xs i j v (omega arith) (λ e. h (ap suc e))

  pub modify_cases :
      (xs : List A) (i j : ℕ) (f : A → A) {y : A}
      → get_elem? (modify xs i f) j ≡ some y
      → ((j ≡ i) × ((x : A) × (get_elem? xs i ≡ some x) × (y ≡ f x)))
        ⊎ ((j ≢ i) × (get_elem? xs j ≡ some y))
  modify_cases [] i j f h = cc
  modify_cases (x ∷ xs) zero zero f h = inl (refl, (x, refl, ground arith))
  modify_cases (x ∷ xs) zero (suc j) f h = inr (omega arith, h)
  modify_cases (x ∷ xs) (suc i) zero f h = inr (omega arith, h)
  modify_cases (x ∷ xs) (suc i) (suc j) f h = elim (modify_cases xs i j f h) [
    | inl (e, there) ↦ inl (ap suc e, there)
    | inr (e, same) ↦ inr (omega arith, same)
  ]

  pub get_elem?-lt : (xs : List A) (i : ℕ) {x : A} → get_elem? xs i ≡ some x → i < length xs
  get_elem?-lt [] i h = cc
  get_elem?-lt (x ∷ xs) zero h = omega arith
  get_elem?-lt (x ∷ xs) (suc i) h = omega (arith, get_elem?-lt xs i h)

  pub length-take_le : (n : ℕ) (xs : List A) → length (take n xs) ≤ n
  length-take_le zero xs = omega arith
  length-take_le (suc n) [] = omega arith
  length-take_le (suc n) (x ∷ xs) = omega (arith, length-take_le n xs)

module _ {ℓ κ} {A : Type ℓ} {B : Type κ} where
  pub get_elem?-map :
      (xs : List A) (f : A → B) (i : ℕ) {y : B}
      → get_elem? (map f xs) i ≡ some y
      → (x : A) × (get_elem? xs i ≡ some x) × (y ≡ f x)
  get_elem?-map [] f i h = cc
  get_elem?-map (x ∷ xs) f zero h = (x, refl, ground arith)
  get_elem?-map (x ∷ xs) f (suc i) h = get_elem?-map xs f i h

  pub map-modify :
      (xs : List A) (i : ℕ) (f : A → A) (g : A → B) (h : B → B)
      → ((x : A) → g (f x) ≡ h (g x))
      → map g (modify xs i f) ≡ modify (map g xs) i h
  map-modify [] i f g h e = refl
  map-modify (x ∷ xs) zero f g h e = rw (e x)
  map-modify (x ∷ xs) (suc i) f g h e = rw (map-modify xs i f g h e)

  -- A change that a function does not see.
  pub map-modify_same :
      (xs : List A) (i : ℕ) (f : A → A) (g : A → B)
      → ((x : A) → get_elem? xs i ≡ some x → g (f x) ≡ g x)
      → map g (modify xs i f) ≡ map g xs
  map-modify_same [] i f g e = refl
  map-modify_same (x ∷ xs) zero f g e = rw (e x refl)
  map-modify_same (x ∷ xs) (suc i) f g e = rw (map-modify_same xs i f g e)

  pub map-put :
      (xs : List A) (i : ℕ) (v : A) (g : A → B) → map g (put xs i v) ≡ put (map g xs) i (g v)
  map-put [] i v g = refl
  map-put (x ∷ xs) zero v g = refl
  map-put (x ∷ xs) (suc i) v g = rw (map-put xs i v g)

  pub get_elem?-map_of :
      (xs : List A) (g : A → B) (i : ℕ) {x : A}
      → get_elem? xs i ≡ some x
      → get_elem? (map g xs) i ≡ some (g x)
  get_elem?-map_of [] g i h = cc
  get_elem?-map_of (x ∷ xs) g zero h = ground arith
  get_elem?-map_of (x ∷ xs) g (suc i) h = get_elem?-map_of xs g i h

  pub length-map : (xs : List A) (g : A → B) → length (map g xs) ≡ length xs
  length-map [] g = refl
  length-map (x ∷ xs) g = ap suc (length-map xs g)

-- Numbers in a list of numbers.
abbrev pub contains : ℕ → List ℕ → Bool
contains n [] = false
contains n (x ∷ xs) = n == x || contains n xs

pub contains-append :
    (n : ℕ) (xs ys : List ℕ) → contains n (xs ++ ys) ≡ (contains n xs || contains n ys)
contains-append n [] ys = refl
contains-append n (x ∷ xs) ys = ground (arith, contains-append n xs ys)
