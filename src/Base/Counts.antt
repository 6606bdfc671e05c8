-- ===== src/Base/Counts.antt =====
-- How often an element occurs in a list, by a Boolean equality, and what that says of lengths.
use Prim.Native.Nat.{ℕ, suc, ◌+◌, ◌≤◌, ◌<◌}
use mathlib.Core.Path.{◌≡◌, refl}
use mathlib.Core.Logic.{◌↔◌}
use mathlib.Core.Bool.{Bool, true}
use mathlib.Core.List.{List, [], ◌∷◌, ◌++◌}
use native.Mathlib.Omega.{arith}
use cuda_js.Base.Tests.{if◌then◌else◌}
use cuda_js.Base.Lists.{length}

module _ {ℓ} {A : Type ℓ} (same : A → A → Bool) where
  abbrev pub count : A → List A → ℕ
  count a [] = 0
  count a (x ∷ xs) = if same x a then suc (count a xs) else count a xs

  abbrev pub drop_one : A → List A → List A
  drop_one a [] = []
  drop_one a (x ∷ xs) = if same x a then xs else x ∷ drop_one a xs

  pub count-append : (a : A) (xs ys : List A) → count a (xs ++ ys) ≡ count a xs + count a ys
  count-append a [] ys = omega arith
  count-append a (x ∷ xs) ys = ground (arith, count-append a xs ys)

  pub length-drop_one :
      (a : A) (xs : List A) → 0 < count a xs → suc (length (drop_one a xs)) ≡ length xs
  length-drop_one a [] h = absurd (omega arith)
  length-drop_one a (x ∷ xs) h = ground (arith, length-drop_one a xs)

module _ {ℓ} {A : Type ℓ} (same : A → A → Bool)
    (same_iff : (a b : A) → (same a b ≡ true) ↔ (a ≡ b)) where
  pub count-drop_one :
      (a b : A) (xs : List A)
      → 0 < count same a xs
      → count same b (drop_one same a xs) + (if same a b then 1 else 0) ≡ count same b xs
  count-drop_one a b [] h = absurd (omega arith)
  count-drop_one a b (x ∷ xs) h =
      ground (arith, same_iff x a, same_iff x b, same_iff a b, count-drop_one a b xs)

  count-cons_self : (a : A) (xs : List A) → count same a (a ∷ xs) ≡ suc (count same a xs)
  count-cons_self a xs = ground (arith, same_iff a a)

  -- The counts of the tails, once the head is taken off both lists.
  count-tail :
      (x a : A) (xs ys : List A)
      → ((b : A) → count same b (x ∷ xs) ≤ count same b ys)
      → count same a xs ≤ count same a (drop_one same x ys)
  count-tail x a xs ys h = ground (arith, h a, h x, count-cons_self x xs, count-drop_one x a ys)

  pub length-le_of_counts :
      (xs ys : List A) → ((a : A) → count same a xs ≤ count same a ys) → length xs ≤ length ys
  length-le_of_counts [] ys h = omega arith
  length-le_of_counts (x ∷ xs) ys h = omega (
    arith,
    h x,
    count-cons_self x xs,
    length-drop_one same x ys,
    length-le_of_counts xs (drop_one same x ys) (λ a. count-tail x a xs ys h),
  )

  -- A list that is no longer than one of its sublists has the same elements.
  pub counts_eq :
      (xs ys : List A)
      → ((a : A) → count same a xs ≤ count same a ys)
      → length ys ≤ length xs
      → (a : A) → count same a xs ≡ count same a ys
  counts_eq [] [] h le a = refl
  counts_eq [] (y ∷ ys) h le a = absurd (omega arith)
  counts_eq (x ∷ xs) ys h le a = ground (
    arith,
    h x,
    count-cons_self x xs,
    length-drop_one same x ys,
    count-drop_one x a ys,
    counts_eq xs (drop_one same x ys) (λ b. count-tail x b xs ys h)
        (omega (arith, h x, count-cons_self x xs, length-drop_one same x ys)) a,
  )
