-- ===== src/Prepared/Sorting.antt =====
-- Sorted accesses, and the device-memory arguments of a kernel, are told apart by counting.
use cuda_js.Base.{
  ℕ, suc, ◌≤◌, ◌<◌, ◌≡◌, refl, inl, inr, true, List, [], ◌∷◌, ◌==◌, Bool-cases, contains, ltb,
  arith,
}
use cuda_js.Base.Counts.{count}
use cuda_js.Js.{Text, text, text_eq}
use cuda_js.Prepared.Accesses.{Access, device_indexes, insert_access, sort_accesses}

abbrev pub counts : ℕ → List ℕ → ℕ
counts = count ◌==◌

-- The arguments that some accesses name.
abbrev pub indexes_of : List Access → List ℕ
indexes_of [] = []
indexes_of (a ∷ rest) = a.argument_index ∷ indexes_of rest

abbrev Above : ℕ → List ℕ → Type 0
Above n xs = (a : ℕ) → 0 < counts a xs → n ≤ a

abbrev Ascending : List ℕ → Type 0
Ascending [] = Unit
Ascending (x ∷ xs) = Above x xs × Ascending xs

pub Ascending-eq :
    (xs ys : List ℕ) → Ascending xs → Ascending ys → ((a : ℕ) → counts a xs ≡ counts a ys) → xs ≡ ys
Ascending-eq [] [] ax ay h = refl
Ascending-eq [] (y ∷ ys) ax ay h = absurd (ground (arith, h y))
Ascending-eq (x ∷ xs) [] ax ay h = absurd (ground (arith, h x))
Ascending-eq (x ∷ xs) (y ∷ ys) ax ay h =
    let same : x ≡ y = ground (arith, h x, h y, ax.0 y, ay.0 x) in
    ground (arith, Ascending-eq xs ys ax.1 ay.1 (λ a. ground (arith, h a)))

Above-device_indexes : (i : ℕ) (ks : List Text) → Above i (device_indexes i ks)
unfolding device_indexes
Above-device_indexes i [] a h = absurd (omega arith)
Above-device_indexes i (k ∷ ks) a h = ground (arith, Above-device_indexes (suc i) ks a)

pub Ascending-device_indexes : (i : ℕ) (ks : List Text) → Ascending (device_indexes i ks)
unfolding device_indexes
Ascending-device_indexes i [] = tt
Ascending-device_indexes i (k ∷ ks) = elim (Bool-cases (text_eq k (text "device-memory"))) [
  | inl memory ↦ rw memory (
    (λ a h. omega (arith, Above-device_indexes (suc i) ks a h)),
    Ascending-device_indexes (suc i) ks,
  )
  | inr other ↦ rw other (Ascending-device_indexes (suc i) ks)
]

counts-insert_access :
    (a : Access) (bs : List Access) (n : ℕ)
    → counts n (indexes_of (insert_access a bs)) ≡ counts n (a.argument_index ∷ indexes_of bs)
unfolding insert_access
counts-insert_access a [] n = refl
counts-insert_access a (b ∷ bs) n = ground (arith, counts-insert_access a bs n)

pub counts-sort_accesses :
    (bs : List Access) (n : ℕ) → counts n (indexes_of (sort_accesses bs)) ≡ counts n (indexes_of bs)
unfolding sort_accesses
counts-sort_accesses [] n = refl
counts-sort_accesses (a ∷ bs) n =
    ground (arith, counts-insert_access a (sort_accesses bs) n, counts-sort_accesses bs n)

Ascending-insert_access :
    (a : Access) (bs : List Access)
    → Ascending (indexes_of bs)
    → Ascending (indexes_of (insert_access a bs))
unfolding insert_access
Ascending-insert_access a [] h = ((λ n k. absurd (omega arith)), tt)
Ascending-insert_access a (b ∷ bs) h = elim (Bool-cases (ltb b.argument_index a.argument_index)) [
  | inl below ↦ rw below (
    (λ n k. ground (arith, counts-insert_access a bs n, h.0 n)),
    Ascending-insert_access a bs h.1,
  )
  | inr above ↦ rw above ((λ n k. ground (arith, h.0 n)), h)
]

pub Ascending-sort_accesses : (bs : List Access) → Ascending (indexes_of (sort_accesses bs))
unfolding sort_accesses
Ascending-sort_accesses [] = tt
Ascending-sort_accesses (a ∷ bs) =
    Ascending-insert_access a (sort_accesses bs) (Ascending-sort_accesses bs)

pub counts_of_contains : (n : ℕ) (xs : List ℕ) → contains n xs ≡ true → 1 ≤ counts n xs
counts_of_contains n [] h = cc
counts_of_contains n (x ∷ xs) h = ground (arith, counts_of_contains n xs)
