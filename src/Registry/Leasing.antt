-- ===== src/Registry/Leasing.antt =====
-- `acquire` and a lease's `release` keep a registry sound.
use cuda_js.Base.{
  ℕ, zero, suc, ◌+◌, ◌≤◌, ◌≡◌, refl, sym, inl, inr, true, false, Option, some, List, [], ◌∷◌, arith,
  ltb, get_elem?, modify, subst, Option-cases,
}
use cuda_js.Base.Outcome.{returned, thrown, >>=-eq-returned}
use cuda_js.Js.{Text, Value}
use cuda_js.Failure.{failure, stale_resource}
use cuda_js.Registry.State.{live, Entry, Registry}
use cuda_js.Registry.Access.{Lease, acquire, release, resolve, count_lease, drop_lease}
use cuda_js.Registry.Locating.{resolve_inv}
use cuda_js.Registry.Steps.{World}
use cuda_js.Registry.Invariant.{IsSound, held, holds}
use cuda_js.Registry.Quiet.{quiet-IsForest, quiet-slots, quiet-counted, quiet-idle, quiet-Awaited}

module _ {ℓ} {V : Type ℓ} (w : World V) (v : IsSound w) where
  abbrev lease_on : Entry V → Lease V
  lease_on e = record {
    slot = e.slot;
    generation = e.generation;
    value = e.value;
    released = false;
  }

  abbrev leased : Entry V → World V
  leased e = record w {
    registry = record w.registry { entries = modify w.registry.entries e.slot count_lease };
    handles = lease_on e ∷ w.handles;
  }

  leased-IsSound :
      (e : Entry V)
      → get_elem? w.registry.entries e.slot ≡ some e
      → e.state ≡ live
      → IsSound (leased e)
  leased-IsSound e here alive = record {
    forest = quiet-IsForest w v e.slot count_lease e here refl refl;
    slots = quiet-slots w v e.slot count_lease e here refl refl;
    counted =
        quiet-counted w v e.slot count_lease e here refl refl (lease_on e ∷ w.handles)
          (λ t. ground arith);
    idle = quiet-idle w v e.slot count_lease e here refl refl (ground arith);
    awaited =
        quiet-Awaited w v e.slot count_lease e here refl refl
          (λ c at a. absurd (ground (arith, a.not_live)));
    once = v.once;
  }

  pub acquire_inv :
      (token : Value) (kind : Option Text) {r : Registry V} {l : Lease V}
      → acquire w.registry token kind ≡ returned (r, l)
      → (e : Entry V) × (resolve w.registry token kind ≡ returned e)
        × (get_elem? w.registry.entries e.slot ≡ some e)
        × (e.state ≡ live)
        × (r ≡ record w.registry { entries = modify w.registry.entries e.slot count_lease })
        × (l ≡ lease_on e)
  unfolding acquire
  acquire_inv token kind h =
      let (e, p, q) = >>=-eq-returned (resolve w.registry token kind) _ h in
      let (t, good, at, alive) = resolve_inv w.registry token kind p in
      (e, p, rw (v.slots t.slot e at.found) at.found, alive, ground arith, ground arith)

  pub acquire-IsSound :
      (token : Value) (kind : Option Text) (r : Registry V) (l : Lease V)
      → acquire w.registry token kind ≡ returned (r, l)
      → IsSound (record w { registry = r; handles = l ∷ w.handles })
  acquire-IsSound token kind r l h =
      let (e, p, here, alive, same, same') = acquire_inv token kind h in
      let sound = leased-IsSound e here alive in
      subst (λ (l : Lease V). IsSound (record w { registry = r; handles = l ∷ w.handles }))
        (sym same')
        (subst
          (λ (r : Registry V).
            IsSound (record w { registry = r; handles = lease_on e ∷ w.handles }))
          (sym same) sound)

  held-modify :
      (hs : List (Lease V)) (i t : ℕ) (l l' : Lease V)
      → get_elem? hs i ≡ some l
      → held t (modify hs i (λ _. l')) + holds t l ≡ held t hs + holds t l'
  held-modify [] i t l l' h = cc
  held-modify (x ∷ hs) zero t l l' h = let same : x ≡ l = ground arith in rw same (omega arith)
  held-modify (x ∷ hs) (suc i) t l l' h = omega (arith, held-modify hs i t l l' h)

  abbrev pub spent : Lease V → Lease V
  spent l = record l { released = true }

  abbrev pub unleased : ℕ → Registry V
  unleased s = record w.registry { entries = modify w.registry.entries s drop_lease }

  pub release_inv :
      (l : Lease V) {r : Registry V} {l' : Lease V}
      → release w.registry l ≡ returned (r, l')
      → (e : Entry V) × (get_elem? w.registry.entries l.slot ≡ some e)
        × (l.released ≡ false)
        × (ltb 0 e.leases ≡ true)
        × (r ≡ unleased l.slot)
        × (l' ≡ spent l)
  unfolding release
  release_inv l h = elim (Option-cases (get_elem? w.registry.entries l.slot)) [
    | inl missing ↦ absurd (ground arith)
    | inr (e, here) ↦ (e, here, ground arith, ground arith, ground arith, ground arith)
  ]

  unleased-IsSound :
      (i : ℕ) (l : Lease V) (e : Entry V)
      → get_elem? w.handles i ≡ some l
      → get_elem? w.registry.entries l.slot ≡ some e
      → l.released ≡ false
      → ltb 0 e.leases ≡ true
      → IsSound
          (record w { registry = unleased l.slot; handles = modify w.handles i (λ _. spent l) })
  unleased-IsSound i l e at here active some_left = record {
    forest = quiet-IsForest w v l.slot drop_lease e here refl refl;
    slots = quiet-slots w v l.slot drop_lease e here refl refl;
    counted =
        quiet-counted w v l.slot drop_lease e here refl refl (modify w.handles i (λ _. spent l))
          (λ t. ground (arith, held-modify w.handles i t l (spent l) at));
    idle = quiet-idle w v l.slot drop_lease e here refl refl (ground (arith, v.idle l.slot e here));
    awaited =
        quiet-Awaited w v l.slot drop_lease e here refl refl
          (λ c at a. absurd (ground (arith, a.unleased)));
    once = v.once;
  }

  pub release-IsSound :
      (i : ℕ) (l l' : Lease V) (r : Registry V)
      → get_elem? w.handles i ≡ some l
      → release w.registry l ≡ returned (r, l')
      → IsSound (record w { registry = r; handles = modify w.handles i (λ _. l') })
  release-IsSound i l l' r at h =
      let (e, here, active, some_left, same, same') = release_inv l h in
      rw (same, same') (unleased-IsSound i l e at here active some_left)

  holds-le :
      (hs : List (Lease V)) (i : ℕ) (l : Lease V)
      → get_elem? hs i ≡ some l
      → holds l.slot l ≤ held l.slot hs
  holds-le [] i l h = cc
  holds-le (x ∷ hs) zero l h = let same : x ≡ l = ground arith in rw same (omega arith)
  holds-le (x ∷ hs) (suc i) l h = omega (arith, holds-le hs i l h)

  -- A lease that is held is counted, so its release goes through and no count falls below zero.
  pub release_returns :
      (i : ℕ) (l : Lease V)
      → get_elem? w.handles i ≡ some l
      → l.released ≡ false
      → release w.registry l ≡ returned (unleased l.slot, spent l)
  unfolding release
  release_returns i l at active = ground (arith, v.counted l.slot, holds-le w.handles i l at)

  -- A second release of the same lease throws and changes nothing.
  pub release_spent :
      (l : Lease V)
      → l.released ≡ true
      → release w.registry l ≡ thrown (failure "RESOURCE_LEASE_RELEASED" stale_resource)
  unfolding release
  release_spent l h = rw h refl
