-- ===== src/Registry/Graft.antt =====
-- A new entry joins the forest soundly, in a free slot or past the end, under a living parent.
use mathlib.Core.Option
use cuda_js.Base.{
  ℕ, ◌≤◌, ◌≡◌, refl, ◌≢◌, inl, inr, true, false, ◌&&◌, ◌||◌, Option, none, some, List, [], arith,
  ◌==◌, if◌then◌else◌, length, get_elem?, put, contains, get_elem?-modify, get_elem?-put,
  Bool-cases, Option-cases,
}
use cuda_js.Registry.Forest.{Shape, add_slot, contains-add_slot, IsDistinct}
use cuda_js.Registry.Prune.{IsForest, is_slot, at_parent}

abbrev pub fresh : Option ℕ → Shape
fresh p = record { parent = p; children = []; alive = true }

abbrev pub add_child : ℕ → Shape → Shape
add_child s x = record x { children = add_slot s x.children }

abbrev pub graft : List Shape → ℕ → Option ℕ → List Shape
graft xs s p = at_parent (put xs s (fresh p)) p (add_child s)

module _ (s : ℕ) (p : Option ℕ) (j : ℕ) where
  abbrev Grafted : Shape → Shape → Type 0
  Grafted x y =
      (y.parent ≡ x.parent)
      × (y.alive ≡ x.alive)
      × ((c : ℕ) → contains c y.children ≡ (is_slot p j && c == s || contains c x.children))

  abbrev change : Shape → Shape
  change x = record x { children = if is_slot p j then add_slot s x.children else x.children }

  change-Grafted : (x : Shape) → Grafted x (change x)
  change-Grafted x = (refl, refl, λ c. ground (arith, contains-add_slot c s x.children))

get_elem?-graft :
    (xs : List Shape) (s : ℕ) (p : Option ℕ) (j : ℕ)
    → s ≤ length xs
    → is_slot p s ≡ false
    → get_elem? (graft xs s p) j
      ≡ (if s == j then some (fresh p) else Option.map (change s p j) (get_elem? xs j))
get_elem?-graft xs s none j room apart = rw (get_elem?-put xs s j (fresh none) room) (ground arith)
get_elem?-graft xs s (some p) j room apart =
    rw
      (
        get_elem?-modify (put xs s (fresh (some p))) p j (add_child s),
        get_elem?-put xs s j (fresh (some p)) room,
      )
      (ground arith)

module _ (xs : List Shape) (free rest : List ℕ) (s : ℕ) (p : Option ℕ) (v : IsForest xs free)
    (room : s ≤ length xs) (unused : (x : Shape) → get_elem? xs s ≡ some x → x.alive ≡ false)
    (kept : (n : ℕ) → contains n rest ≡ true → (contains n free ≡ true) × (n ≢ s))
    (distinct : IsDistinct rest)
    (owner : (q : ℕ) → p ≡ some q → (x : Shape) × (get_elem? xs q ≡ some x) × (x.alive ≡ true))
    (apart : is_slot p s ≡ false) where
  to :
      (j : ℕ) {x : Shape}
      → j ≢ s
      → get_elem? xs j ≡ some x
      → (y : Shape) × (get_elem? (graft xs s p) j ≡ some y) × Grafted s p j x y
  to j {x} other h =
      (change s p j x, ground (arith, get_elem?-graft xs s p j room apart), change-Grafted s p j x)

  at_slot : get_elem? (graft xs s p) s ≡ some (fresh p)
  at_slot = ground (arith, get_elem?-graft xs s p s room apart)

  from :
      (j : ℕ) {y : Shape}
      → j ≢ s
      → get_elem? (graft xs s p) j ≡ some y
      → (x : Shape) × (get_elem? xs j ≡ some x) × Grafted s p j x y
  from j {y} other h = elim (Option-cases (get_elem? xs j)) [
    | inl e ↦ absurd (ground (arith, get_elem?-graft xs s p j room apart))
    | inr (x, e) ↦
        let same : y ≡ change s p j x = ground (arith, get_elem?-graft xs s p j room apart) in
        (x, e, rw same (change-Grafted s p j x))
  ]

  links :
      (t : ℕ) (y : Shape) (q : ℕ)
      → get_elem? (graft xs s p) t ≡ some y
      → y.alive ≡ true
      → y.parent ≡ some q
      → (z : Shape) × (get_elem? (graft xs s p) q ≡ some z) × (contains t z.children ≡ true)
  links t y q h a e = elim (Bool-cases (t == s)) [
    | inl same ↦
        let (x, hx, _) = owner q (ground (arith, at_slot)) in
        let (z, hz, r) = to q (ground (arith, at_slot)) hx in
        (z, hz, ground (arith, r.2 t, at_slot))
    | inr other ↦
        let (y', h', r) = from t (ground arith) h in
        let (x, hx, m) = v.links t y' q h' (ground arith) (ground arith) in
        let (z, hz, r') = to q (ground (arith, unused x, v.childless s x t)) hx in
        (z, hz, ground (arith, r'.2 t))
  ]

  kids :
      (q : ℕ) (y : Shape) (c : ℕ)
      → get_elem? (graft xs s p) q ≡ some y
      → contains c y.children ≡ true
      → (w : Shape) × (get_elem? (graft xs s p) c ≡ some w) × (w.parent ≡ some q) × (w.alive ≡ true)
  kids q y c h m = elim (Bool-cases (is_slot p q && c == s)) [
    | inl added ↦ (fresh p, ground (arith, at_slot), ground arith, refl)
    | inr old ↦
        let (y', h', r) = from q (ground (arith, at_slot)) h in
        let (w, hw, e, a) = v.kids q y' c h' (ground (arith, r.2 c)) in
        let (w', hw', r') = to c (ground (arith, unused w)) hw in
        (w', hw', ground arith, ground arith)
  ]

  childless :
      (t : ℕ) (y : Shape) (c : ℕ)
      → get_elem? (graft xs s p) t ≡ some y
      → y.alive ≡ false
      → contains c y.children ≡ false
  childless t y c h a =
      let (y', h', r) = from t (ground (arith, at_slot)) h in
      ground (arith, r.2 c, v.childless t y' c h', owner t)

  reusable :
      (t : ℕ)
      → contains t rest ≡ true
      → (y : Shape) × (get_elem? (graft xs s p) t ≡ some y) × (y.alive ≡ false)
  reusable t m =
      let (old, other) = kept t m in
      let (x, hx, a) = v.reusable t old in let (y, hy, r) = to t other hx in (y, hy, ground arith)

  -- What is allocated is a living leaf, and the rest of the forest keeps its shape.
  pub graft-IsForest : IsForest (graft xs s p) rest
  graft-IsForest = record {
    links = links;
    kids = kids;
    childless = childless;
    reusable = reusable;
    distinct = distinct;
  }
