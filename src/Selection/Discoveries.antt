-- ===== src/Selection/Discoveries.antt =====
-- Discoveries that overlap: when a selector is good, and what a late answer does.
use cuda_js.Base.{
  ℕ, ◌≤◌, ◌<◌, ◌≡◌, refl, ◌∙◌, some, List, [], ◌∷◌, arith, get_elem?, inl, inr, get_elem?-map,
  get_elem?-map_of,
}
use cuda_js.Base.Outcome.{returned, thrown, Outcome-cases}
use cuda_js.Failure.{failure, stale_resource}
use cuda_js.Selection.Inventory.{Device}
use cuda_js.Selection.Authority.{
  Selector, made, Authority, new_authority, begin_discover, finish_discover, selectors, Answer,
  answered, resolve_selector, current_snapshot, select_default,
}

-- The generations of the discoveries that await their provider.
pub record Discovering : Type 0 where
  pub authority : Authority
  pub awaited : List ℕ

abbrev pub idle : ℕ → Discovering
idle number = record { authority = new_authority number; awaited = [] }

abbrev pub begun : Discovering → Discovering
begun w = record {
  authority = begin_discover w.authority;
  awaited = (begin_discover w.authority).generation ∷ w.awaited;
}

-- An answer may come at any time, and a discovery that was answered is not looked at again.
pub data DiscoveryStep (w : Discovering) : Discovering → Type 0 where
  asks : DiscoveryStep w (begun w)
  answers :
      (i g : ℕ) (answer : Answer)
      → get_elem? w.awaited i ≡ some g
      → DiscoveryStep w (record w { authority = (finish_discover w.authority g answer).0 })

pub data Discovered (w : Discovering) : Discovering → Type 0 where
  here : Discovered w w
  next : {u v : Discovering} → Discovered w u → DiscoveryStep u v → Discovered w v

finish_discover-keeps :
    (a : Authority) (g : ℕ) (answer : Answer)
    → ((finish_discover a g answer).0.generation ≡ a.generation)
      × ((finish_discover a g answer).0.number ≡ a.number)
unfolding finish_discover
finish_discover-keeps a g answer = elim (Outcome-cases (answered answer)) [
  | inl (ds, e) ↦ rw (e, finish_discover) (refl, refl)
  | inr (f, e) ↦ rw (e, finish_discover) (refl, refl)
]

generation_grows :
    {w u : Discovering}
    → Discovered w u
    → (w.authority.generation ≤ u.authority.generation) × (u.authority.number ≡ w.authority.number)
unfolding begin_discover
generation_grows here = (omega arith, refl)
generation_grows (next r asks) = let (le, same) = generation_grows r in (omega arith, same)
generation_grows (next {u} r (answers i g answer h)) =
    let (le, same) = generation_grows r in
    let (kept, number) = finish_discover-keeps u.authority g answer in
    (omega (arith, kept), number ∙ same)

-- The authority after an inventory that was accepted.
finished :
    (a : Authority) (g : ℕ) (answer : Answer) (ds : List Device)
    → answered answer ≡ returned ds
    → (finish_discover a g answer).0 ≡ record a { snapshot = some (selectors a.number g ds) }
unfolding finish_discover
finished a g answer ds h = rw (h, finish_discover) refl

-- As soon as another discovery begins, every selector that was made before is stale: whatever
-- answers come later, and in whatever order, the authority that made it throws.
pub superseded :
    (w : Discovering) (s : Selector) {u : Discovering}
    → s.authority ≡ w.authority.number
    → s.generation ≤ w.authority.generation
    → Discovered (begun w) u
    → resolve_selector u.authority (made s)
      ≡ thrown (failure "DEVICE_SELECTOR_STALE" stale_resource)
unfolding resolve_selector begin_discover
superseded w s {u} own old run = let (le, same) = generation_grows run in ground arith

-- An answer to the discovery that was begun last, with the devices that it lists, makes a snapshot
-- each of whose selectors stands for its own device, and the first is the default.
pub timely_discovery :
    (a : Authority) (answer : Answer) (ds : List Device)
    → answered answer ≡ returned ds
    → ((i : ℕ) (d : Device)
        → get_elem? ds i ≡ some d
        → (s : Selector) × (get_elem? (selectors a.number a.generation ds) i ≡ some s)
          × (resolve_selector (finish_discover a a.generation answer).0 (made s) ≡ returned d))
      × ((d : Device) (rest : List Device)
          → ds ≡ d ∷ rest
          → select_default (finish_discover a a.generation answer).0 ≡ returned d)
unfolding resolve_selector select_default current_snapshot
timely_discovery a answer ds h = (
  λ i d at. (
    record { authority = a.number; generation = a.generation; device = d },
    get_elem?-map_of ds
        (λ d. record { authority = a.number; generation = a.generation; device = d }) i at,
    rw (finished a a.generation answer ds h) (ground arith),
  ),
  λ d rest e. rw (finished a a.generation answer ds h) (rw e (ground arith)),
)

-- An answer to a discovery that another one has overtaken replaces the snapshot by one whose every
-- selector is stale, so that the default device cannot be selected either.
pub late_discovery :
    (a : Authority) (g : ℕ) (answer : Answer) (d : Device) (ds : List Device)
    → g < a.generation
    → answered answer ≡ returned (d ∷ ds)
    → (current_snapshot (finish_discover a g answer).0 ≡ returned (selectors a.number g (d ∷ ds)))
      × ((i : ℕ) (s : Selector)
          → get_elem? (selectors a.number g (d ∷ ds)) i ≡ some s
          → resolve_selector (finish_discover a g answer).0 (made s)
            ≡ thrown (failure "DEVICE_SELECTOR_STALE" stale_resource))
      × (select_default (finish_discover a g answer).0
          ≡ thrown (failure "DEVICE_SELECTOR_STALE" stale_resource))
unfolding resolve_selector select_default current_snapshot
late_discovery a g answer d ds late h = (
  rw (finished a g answer (d ∷ ds) h) refl,
  λ i s at.
      let (x, hx, same) =
        get_elem?-map (d ∷ ds) (λ d. record { authority = a.number; generation = g; device = d }) i
          at in
      rw (finished a g answer (d ∷ ds) h) (rw same (ground arith)),
  rw (finished a g answer (d ∷ ds) h) (ground arith),
)
