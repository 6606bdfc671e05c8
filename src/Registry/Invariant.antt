-- ===== src/Registry/Invariant.antt =====
-- The invariant of a registry in use.
use cuda_js.Base.{
  ℕ, ◌+◌, ◌≡◌, true, false, not, ◌&&◌, Option, none, some, List, [], ◌∷◌, ◌==◌, if◌then◌else◌,
  get_elem?, map,
}
use cuda_js.Registry.Forest.{IsDistinct}
use cuda_js.Registry.Prune.{IsForest}
use cuda_js.Registry.State.{Entry, is_closed, is_live, shapes}
use cuda_js.Registry.Access.{Lease}
use cuda_js.Registry.Steps.{Closing, World}

abbrev pub pending_slots : List Closing → List ℕ
pending_slots = map (λ c. c.slot)

module _ {ℓ} {V : Type ℓ} where
  -- The unreleased leases of a slot.
  abbrev pub holds : ℕ → Lease V → ℕ
  holds s l = if not l.released && l.slot == s then 1 else 0

  abbrev pub held : ℕ → List (Lease V) → ℕ
  held s [] = 0
  held s (l ∷ ls) = holds s l + held s ls

  abbrev pub leases_of : Option (Entry V) → ℕ
  leases_of none = 0
  leases_of (some e) = e.leases

  -- An entry whose disposer is awaited: nobody holds it and it owns nothing.
  pub record Awaited (c : Closing) (e : Entry V) : Type ℓ where
    pub owner : e.parent_slot ≡ c.parent
    pub unleased : e.leases ≡ 0
    pub owns_nothing : e.children ≡ []
    pub not_live : is_live e.state ≡ false
    pub not_closed : is_closed e.state ≡ false

  pub record IsSound (w : World V) : Type ℓ where
    pub forest : IsForest (shapes w.registry) w.registry.free_slots
    -- An entry knows its slot.
    pub slots : (s : ℕ) (e : Entry V) → get_elem? w.registry.entries s ≡ some e → e.slot ≡ s
    -- The count of an entry is the number of leases that are held on it.
    pub counted : (s : ℕ) → leases_of (get_elem? w.registry.entries s) ≡ held s w.handles
    pub idle :
        (s : ℕ) (e : Entry V)
        → get_elem? w.registry.entries s ≡ some e
        → is_closed e.state ≡ true
        → e.leases ≡ 0
    pub awaited :
        (i : ℕ) (c : Closing)
        → get_elem? w.pending i ≡ some c
        → (e : Entry V) × (get_elem? w.registry.entries c.slot ≡ some e) × Awaited c e
    pub once : IsDistinct (pending_slots w.pending)
