-- ===== src/Registry/Settled.antt =====
-- A settled disposer, resolved or rejected, leaves a registry sound.
use cuda_js.Base.{
  ℕ, ◌≡◌, refl, ◌⊎◌, sym, inl, inr, Option, none, some, List, arith, get_elem?, modify, map, subst,
  ap, ◌∙◌, modify_cases, get_elem?-modify_ne, map-modify, get_elem?-map_of,
}
use cuda_js.Js.{Value}
use cuda_js.Registry.Forest.{free_slot}
use cuda_js.Registry.Prune.{IsForest, prune, prune-IsForest, at_parent, drop_child, die}
use cuda_js.Registry.State.{Entry, shape_of, shapes}
use cuda_js.Registry.Disposal.{Disposal, resolved, rejected}
use cuda_js.Registry.Closing.{settle, finish, disown, keep_failure}
use cuda_js.Registry.Steps.{Closing, World, remove_at}
use cuda_js.Registry.Invariant.{IsSound, Awaited, leases_of}
use cuda_js.Registry.Quiet.{quiet-IsForest, quiet-slots, quiet-counted, quiet-idle, quiet-Awaited}
use cuda_js.Registry.Pending.{
  remove_at-from, remove_at-IsDistinct, apart, at_parent-from, at_parent-to, leases_of-modify,
  leases_of-at_parent,
}

module _ {ℓ} {V : Type ℓ} (w : World V) (v : IsSound w) (i : ℕ) (c : Closing)
    (waiting : get_elem? w.pending i ≡ some c) where
  abbrev failed : Value → World V
  failed error = record w {
    registry = record w.registry {
      entries = modify w.registry.entries c.slot (keep_failure error);
    };
    pending = remove_at w.pending i;
  }

  failed-IsSound : (error : Value) → IsSound (failed error)
  unfolding keep_failure
  failed-IsSound error =
      let (e, here, a) = v.awaited i c waiting in
      let f = keep_failure error in
      let shape : shape_of (f e) ≡ shape_of e = ground (arith, a.not_closed) in
      record {
        forest = quiet-IsForest w v c.slot f e here shape refl;
        slots = quiet-slots w v c.slot f e here shape refl;
        counted = quiet-counted w v c.slot f e here shape refl w.handles (λ t. refl);
        idle = quiet-idle w v c.slot f e here shape refl refl;
        awaited = λ j d h.
            let (k, hk, n) = remove_at-from w.pending i j h in
            quiet-Awaited w v c.slot f e here shape refl
              (λ d at b. record {
                owner = b.owner;
                unleased = b.unleased;
                owns_nothing = b.owns_nothing;
                not_live = refl;
                not_closed = refl;
              })
              k d hk;
        once = remove_at-IsDistinct w.pending i v.once;
      }

  abbrev done : List (Entry V)
  done = at_parent (modify w.registry.entries c.slot finish) c.parent (disown c.slot)

  abbrev closed_world : World V
  closed_world = record w {
    registry = record w.registry {
      entries = done;
      free_slots = free_slot c.slot w.registry.free_slots;
    };
    pending = remove_at w.pending i;
  }

  map-at_parent :
      (xs : List (Entry V)) (p : Option ℕ)
      → map shape_of (at_parent xs p (disown c.slot))
        ≡ at_parent (map shape_of xs) p (drop_child c.slot)
  map-at_parent xs none = refl
  map-at_parent xs (some p) =
      map-modify xs p (disown c.slot) shape_of (drop_child c.slot) (λ x. refl)

  shapes-done : map shape_of done ≡ prune (shapes w.registry) c.slot c.parent
  shapes-done =
      map-at_parent (modify w.registry.entries c.slot finish) c.parent
      ∙ ap (λ xs. at_parent xs c.parent (drop_child c.slot))
          (map-modify w.registry.entries c.slot finish shape_of die (λ x. refl))

  done-IsForest : IsForest (map shape_of done) (free_slot c.slot w.registry.free_slots)
  done-IsForest =
      let (e, here, a) = v.awaited i c waiting in
      let pruned =
        prune-IsForest (shapes w.registry) w.registry.free_slots c.slot (shape_of e) v.forest
          (get_elem?-map_of w.registry.entries shape_of c.slot here) (ground (arith, a.not_closed))
          (λ n. rw a.owns_nothing refl) in
      rw shapes-done (
        subst
          (λ p.
            IsForest (prune (shapes w.registry) c.slot p) (free_slot c.slot w.registry.free_slots))
          a.owner pruned)

  keep-Awaited :
      (d : Closing) (x y : Entry V) → (y ≡ x) ⊎ (y ≡ disown c.slot x) → Awaited d x → Awaited d y
  keep-Awaited d x y (inl e) b = rw e b
  keep-Awaited d x y (inr e) b = rw e (record {
    owner = b.owner;
    unleased = b.unleased;
    owns_nothing = rw b.owns_nothing refl;
    not_live = b.not_live;
    not_closed = b.not_closed;
  })

  -- An entry of the result is an old one, the closed one, or one that has lost a child.
  done-from :
      (t : ℕ) (y : Entry V)
      → get_elem? done t ≡ some y
      → (x : Entry V) × (get_elem? w.registry.entries t ≡ some x)
        × (y.slot ≡ x.slot)
        × (y.leases ≡ x.leases)
        × ((y.state ≡ x.state) ⊎ (t ≡ c.slot))
  done-from t y h =
      let (z, hz, near) =
        at_parent-from (modify w.registry.entries c.slot finish) c.parent (disown c.slot) t h in
      elim (modify_cases w.registry.entries c.slot t finish hz) [
        | inl (at, (x, hx, same)) ↦ (x, rw at hx, ground arith, ground arith, inr at)
        | inr (off, hx) ↦ (z, hx, ground arith, ground arith, inl (ground arith))
      ]

  done-leases : (t : ℕ) → leases_of (get_elem? done t) ≡ leases_of (get_elem? w.registry.entries t)
  done-leases t =
      leases_of-at_parent (modify w.registry.entries c.slot finish) c.parent t (disown c.slot)
        (λ x. refl)
      ∙ leases_of-modify w.registry.entries c.slot t finish (λ x. refl)

  done-Awaited :
      (j : ℕ) (d : Closing)
      → get_elem? (remove_at w.pending i) j ≡ some d
      → (x : Entry V) × (get_elem? done d.slot ≡ some x) × Awaited d x
  done-Awaited j d h =
      let (k, hk, n) = remove_at-from w.pending i j h in
      let (x, hx, b) = v.awaited k d hk in
      let off = apart w.pending i k c d v.once waiting hk n in
      let hx' : get_elem? (modify w.registry.entries c.slot finish) d.slot ≡ some x =
        get_elem?-modify_ne w.registry.entries c.slot d.slot finish (λ e. off (sym e)) ∙ hx in
      let (y, hy, near) =
        at_parent-to (modify w.registry.entries c.slot finish) c.parent (disown c.slot) d.slot
          hx' in
      (y, hy, keep-Awaited d x y near b)

  closed-IsSound : IsSound closed_world
  closed-IsSound = record {
    forest = done-IsForest;
    slots = λ t y h. let (x, hx, e, l, st) = done-from t y h in ground (arith, v.slots t x hx);
    counted = λ t. done-leases t ∙ v.counted t;
    idle = λ t y h closed.
        let (x, hx, e, l, st) = done-from t y h in
        let (e', here, a) = v.awaited i c waiting in ground (arith, v.idle t x hx, a.unleased);
    awaited = done-Awaited;
    once = remove_at-IsDistinct w.pending i v.once;
  }

  -- Whatever the disposer does, settling its close keeps the registry sound.
  pub settle-IsSound :
      (d : Disposal)
      → IsSound (record w {
        registry = (settle w.registry c.slot c.parent d).0;
        pending = remove_at w.pending i;
      })
  unfolding settle
  settle-IsSound resolved = closed-IsSound
  settle-IsSound (rejected error) = failed-IsSound error
