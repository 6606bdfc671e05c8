-- ===== src/Registry/Pending.antt =====
-- Lists of closes that await their disposers, and changes of one entry or its parent.
use cuda_js.Base.{
  ℕ, zero, suc, ◌≡◌, refl, ◌≢◌, ◌⊎◌, inl, inr, true, false, Option, none, some, List, [], ◌∷◌,
  arith, ◌==◌, get_elem?, modify, Bool-cases, ap, ◌∙◌, contains, modify_cases,
  get_elem?-modify_self, get_elem?-modify_ne,
}
use cuda_js.Registry.Forest.{IsDistinct}
use cuda_js.Registry.Prune.{at_parent, is_slot}
use cuda_js.Registry.State.{Entry}
use cuda_js.Registry.Steps.{Closing, remove_at}
use cuda_js.Registry.Invariant.{leases_of, pending_slots}

pub remove_at-from {ℓ} :
    {A : Type ℓ} (xs : List A) (i j : ℕ) {x : A}
    → get_elem? (remove_at xs i) j ≡ some x
    → (k : ℕ) × (get_elem? xs k ≡ some x) × (k ≢ i)
remove_at-from [] i j h = cc
remove_at-from (y ∷ xs) zero j h = (suc j, h, omega arith)
remove_at-from (y ∷ xs) (suc i) zero h = (zero, h, omega arith)
remove_at-from (y ∷ xs) (suc i) (suc j) h =
    let (k, hk, n) = remove_at-from xs i j h in (suc k, hk, omega arith)

pub contains-pending :
    (cs : List Closing) (i : ℕ) (c : Closing)
    → get_elem? cs i ≡ some c
    → contains c.slot (pending_slots cs) ≡ true
contains-pending [] i c h = cc
contains-pending (x ∷ cs) zero c h = let same : x ≡ c = ground arith in rw same (ground arith)
contains-pending (x ∷ cs) (suc i) c h = ground (arith, contains-pending cs i c h)

pub find_pending :
    (cs : List Closing) (s : ℕ)
    → contains s (pending_slots cs) ≡ true
    → (i : ℕ) × (c : Closing) × (get_elem? cs i ≡ some c) × (c.slot ≡ s)
find_pending [] s h = cc
find_pending (x ∷ cs) s h = elim (Bool-cases (s == x.slot)) [
  | inl at ↦ (zero, x, refl, ground arith)
  | inr off ↦ let (i, c, hc, e) = find_pending cs s (ground arith) in (suc i, c, hc, e)
]

contains-remove_at :
    (cs : List Closing) (i s : ℕ)
    → contains s (pending_slots cs) ≡ false
    → contains s (pending_slots (remove_at cs i)) ≡ false
contains-remove_at [] i s h = refl
contains-remove_at (x ∷ cs) zero s h = ground arith
contains-remove_at (x ∷ cs) (suc i) s h = ground (arith, contains-remove_at cs i s)

pub remove_at-IsDistinct :
    (cs : List Closing) (i : ℕ)
    → IsDistinct (pending_slots cs)
    → IsDistinct (pending_slots (remove_at cs i))
remove_at-IsDistinct [] i d = tt
remove_at-IsDistinct (x ∷ cs) zero d = d.1
remove_at-IsDistinct (x ∷ cs) (suc i) d =
    (contains-remove_at cs i x.slot d.0, remove_at-IsDistinct cs i d.1)

-- Two closes never await the disposer of one slot.
pub apart :
    (cs : List Closing) (i k : ℕ) (c d : Closing)
    → IsDistinct (pending_slots cs)
    → get_elem? cs i ≡ some c
    → get_elem? cs k ≡ some d
    → k ≢ i
    → d.slot ≢ c.slot
apart [] i k c d u hc hd n = cc
apart (x ∷ cs) zero zero c d u hc hd n = absurd (n refl)
apart (x ∷ cs) zero (suc k) c d u hc hd n = ground (arith, contains-pending cs k d hd)
apart (x ∷ cs) (suc i) zero c d u hc hd n = ground (arith, contains-pending cs i c hc)
apart (x ∷ cs) (suc i) (suc k) c d u hc hd n = apart cs i k c d u.1 hc hd (λ e. n (ap suc e))

module _ {ℓ} {A : Type ℓ} where
  pub at_parent-from :
      (xs : List A) (p : Option ℕ) (f : A → A) (j : ℕ) {y : A}
      → get_elem? (at_parent xs p f) j ≡ some y
      → (x : A) × (get_elem? xs j ≡ some x) × ((y ≡ x) ⊎ (y ≡ f x))
  at_parent-from xs none f j {y} h = (y, h, inl refl)
  at_parent-from xs (some p) f j {y} h = elim (modify_cases xs p j f h) [
    | inl (at, (x, hx, same)) ↦ (x, rw at hx, inr same)
    | inr (off, hy) ↦ (y, hy, inl refl)
  ]

  pub at_parent-off :
      (xs : List A) (p : Option ℕ) (f : A → A) (j : ℕ)
      → is_slot p j ≡ false
      → get_elem? (at_parent xs p f) j ≡ get_elem? xs j
  at_parent-off xs none f j h = refl
  at_parent-off xs (some p) f j h = get_elem?-modify_ne xs p j f (ground arith)

  pub at_parent-to :
      (xs : List A) (p : Option ℕ) (f : A → A) (j : ℕ) {x : A}
      → get_elem? xs j ≡ some x
      → (y : A) × (get_elem? (at_parent xs p f) j ≡ some y) × ((y ≡ x) ⊎ (y ≡ f x))
  at_parent-to xs none f j {x} h = (x, h, inl refl)
  at_parent-to xs (some p) f j {x} h = elim (Bool-cases (p == j)) [
    | inl at ↦
        let e : j ≡ p = ground arith in
        (f x, rw e (get_elem?-modify_self xs p f (rw (← e) h)), inr refl)
    | inr off ↦ (x, get_elem?-modify_ne xs p j f (ground arith) ∙ h, inl refl)
  ]

module _ {ℓ} {V : Type ℓ} where
  pub leases_of-modify :
      (xs : List (Entry V)) (s t : ℕ) (f : Entry V → Entry V)
      → ((x : Entry V) → (f x).leases ≡ x.leases)
      → leases_of (get_elem? (modify xs s f) t) ≡ leases_of (get_elem? xs t)
  leases_of-modify [] s t f h = refl
  leases_of-modify (x ∷ xs) zero zero f h = h x
  leases_of-modify (x ∷ xs) zero (suc t) f h = refl
  leases_of-modify (x ∷ xs) (suc s) zero f h = refl
  leases_of-modify (x ∷ xs) (suc s) (suc t) f h = leases_of-modify xs s t f h

  pub leases_of-at_parent :
      (xs : List (Entry V)) (p : Option ℕ) (t : ℕ) (f : Entry V → Entry V)
      → ((x : Entry V) → (f x).leases ≡ x.leases)
      → leases_of (get_elem? (at_parent xs p f) t) ≡ leases_of (get_elem? xs t)
  leases_of-at_parent xs none t f h = refl
  leases_of-at_parent xs (some p) t f h = leases_of-modify xs p t f h
