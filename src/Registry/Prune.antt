-- ===== src/Registry/Prune.antt =====
-- The forest invariant, and that a closed leaf is pruned from it soundly.
use mathlib.Core.Option
use cuda_js.Base.{
  ℕ, ◌≡◌, refl, inl, inr, Bool, true, false, not, ◌&&◌, Option, none, some, List, arith, ◌==◌,
  if◌then◌else◌, get_elem?, modify, contains, get_elem?-modify, Bool-cases, Option-cases, ap, ◌∙◌,
}
use cuda_js.Registry.Forest.{
  Shape, delete_slot, contains-delete_slot, IsDistinct, free_slot, contains-free_slot,
  free_slot-IsDistinct,
}

pub record IsForest (xs : List Shape) (free : List ℕ) : Type 0 where
  -- What is not closed is among its parent's children.
  pub links :
      (s : ℕ) (x : Shape) (p : ℕ)
      → get_elem? xs s ≡ some x
      → x.alive ≡ true
      → x.parent ≡ some p
      → (y : Shape) × (get_elem? xs p ≡ some y) × (contains s y.children ≡ true)
  -- A child is not closed, and names its parent.
  pub kids :
      (p : ℕ) (y : Shape) (c : ℕ)
      → get_elem? xs p ≡ some y
      → contains c y.children ≡ true
      → (x : Shape) × (get_elem? xs c ≡ some x) × (x.parent ≡ some p) × (x.alive ≡ true)
  -- What is closed has no children.
  pub childless :
      (s : ℕ) (x : Shape) (c : ℕ)
      → get_elem? xs s ≡ some x
      → x.alive ≡ false
      → contains c x.children ≡ false
  -- A free slot holds a closed entry, and stands in the free list once.
  pub reusable :
      (s : ℕ) → contains s free ≡ true → (x : Shape) × (get_elem? xs s ≡ some x) × (x.alive ≡ false)
  pub distinct : IsDistinct free

abbrev pub is_slot : Option ℕ → ℕ → Bool
is_slot none j = false
is_slot (some p) j = p == j

abbrev pub die : Shape → Shape
die x = record x { alive = false }

abbrev pub drop_child : ℕ → Shape → Shape
drop_child s x = record x { children = delete_slot s x.children }

abbrev pub at_parent {ℓ} : {A : Type ℓ} → List A → Option ℕ → (A → A) → List A
at_parent xs none f = xs
at_parent xs (some p) f = modify xs p f

abbrev pub prune : List Shape → ℕ → Option ℕ → List Shape
prune xs s p = at_parent (modify xs s die) p (drop_child s)

module _ (s : ℕ) (p : Option ℕ) (j : ℕ) where
  abbrev Pruned : Shape → Shape → Type 0
  Pruned x y =
      (y.parent ≡ x.parent)
      × (y.alive ≡ (not (s == j) && x.alive))
      × ((c : ℕ) → contains c y.children ≡ (not (is_slot p j && c == s) && contains c x.children))

  abbrev change : Shape → Shape
  change x = record {
    parent = x.parent;
    children = if is_slot p j then delete_slot s x.children else x.children;
    alive = not (s == j) && x.alive;
  }

  change-Pruned : (x : Shape) → Pruned x (change x)
  change-Pruned x = (refl, refl, λ c. ground (arith, contains-delete_slot c s x.children))

get_elem?-prune :
    (xs : List Shape) (s : ℕ) (p : Option ℕ) (j : ℕ)
    → get_elem? (prune xs s p) j ≡ Option.map (change s p j) (get_elem? xs j)
get_elem?-prune xs s none j = rw (get_elem?-modify xs s j die) (ground arith)
get_elem?-prune xs s (some p) j =
    rw (get_elem?-modify (modify xs s die) p j (drop_child s), get_elem?-modify xs s j die)
      (ground arith)

prune-to :
    (xs : List Shape) (s : ℕ) (p : Option ℕ) (j : ℕ) {x : Shape}
    → get_elem? xs j ≡ some x
    → (y : Shape) × (get_elem? (prune xs s p) j ≡ some y) × Pruned s p j x y
prune-to xs s p j {x} h = (
  change s p j x,
  get_elem?-prune xs s p j ∙ ap (Option.map (change s p j)) h,
  change-Pruned s p j x,
)

prune-from :
    (xs : List Shape) (s : ℕ) (p : Option ℕ) (j : ℕ) {y : Shape}
    → get_elem? (prune xs s p) j ≡ some y
    → (x : Shape) × (get_elem? xs j ≡ some x) × Pruned s p j x y
prune-from xs s p j {y} h = elim (Option-cases (get_elem? xs j)) [
  | inl e ↦ absurd (cc (get_elem?-prune xs s p j, e, h))
  | inr (x, e) ↦
      let same : y ≡ change s p j x = cc (get_elem?-prune xs s p j, e, h) in
      (x, e, rw same (change-Pruned s p j x))
]

module _ (xs : List Shape) (free : List ℕ) (s : ℕ) (x : Shape) (v : IsForest xs free)
    (here : get_elem? xs s ≡ some x) (living : x.alive ≡ true)
    (leaf : (c : ℕ) → contains c x.children ≡ false) where
  links :
      (t : ℕ) (y : Shape) (q : ℕ)
      → get_elem? (prune xs s x.parent) t ≡ some y
      → y.alive ≡ true
      → y.parent ≡ some q
      → (z : Shape) × (get_elem? (prune xs s x.parent) q ≡ some z) × (contains t z.children ≡ true)
  links t y q h a e =
      let (y', h', r) = prune-from xs s x.parent t h in
      let (z, hz, m) = v.links t y' q h' (ground arith) (ground arith) in
      let (z', hz', r') = prune-to xs s x.parent q hz in (z', hz', ground (arith, r'.2 t))

  kids :
      (q : ℕ) (y : Shape) (c : ℕ)
      → get_elem? (prune xs s x.parent) q ≡ some y
      → contains c y.children ≡ true
      → (w : Shape) × (get_elem? (prune xs s x.parent) c ≡ some w)
        × (w.parent ≡ some q)
        × (w.alive ≡ true)
  kids q y c h m =
      let (y', h', r) = prune-from xs s x.parent q h in
      let (w, hw, e, a) = v.kids q y' c h' (ground (arith, r.2 c)) in
      let (w', hw', r') = prune-to xs s x.parent c hw in
      (w', hw', ground arith, ground (arith, r.2 c))

  childless :
      (t : ℕ) (y : Shape) (c : ℕ)
      → get_elem? (prune xs s x.parent) t ≡ some y
      → y.alive ≡ false
      → contains c y.children ≡ false
  childless t y c h a =
      let (y', h', r) = prune-from xs s x.parent t h in
      ground (arith, r.2 c, leaf c, v.childless t y' c h')

  reusable :
      (t : ℕ)
      → contains t (free_slot s free) ≡ true
      → (y : Shape) × (get_elem? (prune xs s x.parent) t ≡ some y) × (y.alive ≡ false)
  reusable t m = elim (Bool-cases (s == t)) [
    | inl same ↦ let (y, hy, r) = prune-to xs s x.parent s here in (y, ground arith, ground arith)
    | inr other ↦
        let (z, hz, a) = v.reusable t (ground (arith, contains-free_slot t s free)) in
        let (y, hy, r) = prune-to xs s x.parent t hz in (y, hy, ground arith)
  ]

  -- A leaf that closes leaves its parent and goes to the free list.
  pub prune-IsForest : IsForest (prune xs s x.parent) (free_slot s free)
  prune-IsForest = record {
    links = links;
    kids = kids;
    childless = childless;
    reusable = reusable;
    distinct = free_slot-IsDistinct s free v.distinct;
  }
