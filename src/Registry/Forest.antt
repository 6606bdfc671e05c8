-- ===== src/Registry/Forest.antt =====
-- The ownership forest inside a registry: which slot owns which, and which slots are free.
use cuda_js.Base.{
  ℕ, ◌≡◌, refl, Bool, false, not, ◌&&◌, ◌||◌, Option, List, [], ◌∷◌, ◌++◌, arith, ◌==◌, ltb,
  if◌then◌else◌, keep_if, contains, contains-append,
}

-- What matters of an entry: its parent's slot, its children's slots, and whether it is not closed.
pub record Shape : Type 0 where
  pub parent : Option ℕ
  pub children : List ℕ
  pub alive : Bool

-- `children.add(slot)` and `children.delete(slot)` of a Set.
abbrev pub add_slot : ℕ → List ℕ → List ℕ
add_slot s xs = if contains s xs then xs else xs ++ s ∷ []

abbrev pub delete_slot : ℕ → List ℕ → List ℕ
delete_slot s = keep_if (λ x. not (x == s))

pub contains-add_slot :
    (n s : ℕ) (xs : List ℕ) → contains n (add_slot s xs) ≡ (n == s || contains n xs)
contains-add_slot n s xs = ground (arith, contains-append n xs (s ∷ []))

pub contains-delete_slot :
    (n s : ℕ) (xs : List ℕ) → contains n (delete_slot s xs) ≡ (not (n == s) && contains n xs)
contains-delete_slot n s [] = ground arith
contains-delete_slot n s (x ∷ xs) = ground (arith, contains-delete_slot n s xs)

abbrev pub IsDistinct : List ℕ → Type 0
IsDistinct [] = Unit {0}
IsDistinct (x ∷ xs) = (contains x xs ≡ false) × IsDistinct xs

-- `freeSlots.sort((left, right) => left - right)`
unfoldable pub insert_slot : ℕ → List ℕ → List ℕ
insert_slot n [] = n ∷ []
insert_slot n (x ∷ xs) = if ltb x n then x ∷ insert_slot n xs else n ∷ x ∷ xs

unfoldable pub sort_slots : List ℕ → List ℕ
unfolding insert_slot
sort_slots [] = []
sort_slots (x ∷ xs) = insert_slot x (sort_slots xs)

contains-insert_slot :
    (n s : ℕ) (xs : List ℕ) → contains n (insert_slot s xs) ≡ (n == s || contains n xs)
unfolding insert_slot
contains-insert_slot n s [] = refl
contains-insert_slot n s (x ∷ xs) = ground (arith, contains-insert_slot n s xs)

pub contains-sort_slots : (n : ℕ) (xs : List ℕ) → contains n (sort_slots xs) ≡ contains n xs
unfolding sort_slots
contains-sort_slots n [] = refl
contains-sort_slots n (x ∷ xs) =
    ground (arith, contains-insert_slot n x (sort_slots xs), contains-sort_slots n xs)

insert_slot-IsDistinct :
    (s : ℕ) (xs : List ℕ) → contains s xs ≡ false → IsDistinct xs → IsDistinct (insert_slot s xs)
unfolding insert_slot
insert_slot-IsDistinct s [] h d = (refl, tt)
insert_slot-IsDistinct s (x ∷ xs) h d =
    ground (arith, contains-insert_slot x s xs, insert_slot-IsDistinct s xs _ d.1)

pub sort_slots-IsDistinct : (xs : List ℕ) → IsDistinct xs → IsDistinct (sort_slots xs)
unfolding sort_slots
sort_slots-IsDistinct [] d = tt
sort_slots-IsDistinct (x ∷ xs) d =
    insert_slot-IsDistinct x (sort_slots xs) (rw contains-sort_slots d.0)
      (sort_slots-IsDistinct xs d.1)

IsDistinct-snoc :
    (xs : List ℕ) (s : ℕ) → contains s xs ≡ false → IsDistinct xs → IsDistinct (xs ++ s ∷ [])
IsDistinct-snoc [] s h d = (refl, tt)
IsDistinct-snoc (x ∷ xs) s h d =
    ground (arith, contains-append x xs (s ∷ []), IsDistinct-snoc xs s _ d.1)

-- A closed slot goes back to the free list once.
unfoldable pub free_slot : ℕ → List ℕ → List ℕ
free_slot s free = sort_slots (if contains s free then free else free ++ s ∷ [])

pub contains-free_slot :
    (n s : ℕ) (free : List ℕ) → contains n (free_slot s free) ≡ (n == s || contains n free)
unfolding free_slot
contains-free_slot n s free = rw contains-sort_slots (contains-add_slot n s free)

pub free_slot-IsDistinct : (s : ℕ) (free : List ℕ) → IsDistinct free → IsDistinct (free_slot s free)
unfolding free_slot
free_slot-IsDistinct s free d = sort_slots-IsDistinct _ (ground (arith, IsDistinct-snoc free s))
