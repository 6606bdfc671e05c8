-- ===== src/Registry/Allocated.antt =====
-- `allocate` keeps a registry sound, whether it returns or throws.
use cuda_js.Base.{
  ℕ, ◌≤◌, ◌≡◌, refl, ◌⊎◌, sym, inl, inr, true, false, Option, none, some, List, arith, ◌==◌,
  get_elem?, put, map, subst, Bool-cases, Option-cases, ap, ◌∙◌, length, get_elem?-put, map-modify,
  map-put, get_elem?-map_of, length-map,
}
use cuda_js.Base.Outcome.{Outcome, returned, Outcome-cases}
use cuda_js.Js.{Text}
use cuda_js.Failure.{Failure}
use cuda_js.Registry.Prune.{IsForest, at_parent, is_slot}
use cuda_js.Registry.Graft.{graft, graft-IsForest, add_child}
use cuda_js.Registry.State.{live, Entry, Registry, Token, token_of, is_closed, shape_of, shapes}
use cuda_js.Registry.Allocation.{
  Request, admit, place, allocate, pick_slot, new_entry, adopt, next_generation, nonce_of,
}
use cuda_js.Registry.Steps.{Closing, World}
use cuda_js.Registry.Invariant.{IsSound, Awaited, held, leases_of}
use cuda_js.Registry.Pending.{at_parent-from, at_parent-off, leases_of-at_parent}
use cuda_js.Registry.Picking.{Picked, pick_slot-Picked, Issued, IsOwner, admit-IsOwner}

module _ {ℓ} {V : Type ℓ} (w : World V) (v : IsSound w) where
  module _ (q : Request V) (kind : Text) (p : Option ℕ) (owner : IsOwner w v p) where
    abbrev pub slot : ℕ
    slot = (pick_slot w.registry.free_slots (length w.registry.entries)).0

    abbrev rest : List ℕ
    rest = (pick_slot w.registry.free_slots (length w.registry.entries)).1

    picked : Picked (length w.registry.entries) (shapes w.registry) w.registry.free_slots slot rest
    picked =
        subst
          (λ n.
            Picked n (shapes w.registry) w.registry.free_slots (pick_slot w.registry.free_slots n).0
              (pick_slot w.registry.free_slots n).1)
          (length-map w.registry.entries shape_of)
          (pick_slot-Picked (shapes w.registry) w.registry.free_slots v.forest)

    -- A refused nonce costs a free slot, and nothing else.
    refused-IsSound : IsSound (record w { registry = record w.registry { free_slots = rest } })
    refused-IsSound = record {
      forest = record {
        links = v.forest.links;
        kids = v.forest.kids;
        childless = v.forest.childless;
        reusable = λ s m. v.forest.reusable s (picked.kept s m).0;
        distinct = picked.distinct;
      };
      slots = v.slots;
      counted = v.counted;
      idle = v.idle;
      awaited = v.awaited;
      once = v.once;
    }

    pub room : slot ≤ length w.registry.entries
    room = omega (arith, picked.room, length-map w.registry.entries shape_of)

    pub was_closed :
        (x : Entry V) → get_elem? w.registry.entries slot ≡ some x → is_closed x.state ≡ true
    was_closed x h =
        ground
          (arith, picked.unused (shape_of x) (get_elem?-map_of w.registry.entries shape_of slot h))

    not_owned : is_slot p slot ≡ false
    not_owned = elim (Option-cases p) [
      | inl e ↦ rw e refl
      | inr (n, e) ↦ let (x, hx, alive) = owner n e in ground (arith, was_closed x)
    ]

    not_held : held slot w.handles ≡ 0
    not_held = elim (Option-cases (get_elem? w.registry.entries slot)) [
      | inl e ↦ ground (arith, v.counted slot)
      | inr (x, e) ↦ ground (arith, v.counted slot, v.idle slot x e (was_closed x e))
    ]

    module _ (nonce : Text) (generation : ℕ) where
      abbrev entry : Entry V
      entry = new_entry slot generation nonce kind p q.value

      abbrev placed : List (Entry V)
      placed = at_parent (put w.registry.entries slot entry) p (adopt slot)

      map-at_parent :
          (xs : List (Entry V)) (o : Option ℕ)
          → map shape_of (at_parent xs o (adopt slot))
            ≡ at_parent (map shape_of xs) o (add_child slot)
      map-at_parent xs none = refl
      map-at_parent xs (some o) = map-modify xs o (adopt slot) shape_of (add_child slot) (λ x. refl)

      shapes-placed : map shape_of placed ≡ graft (shapes w.registry) slot p
      shapes-placed =
          map-at_parent (put w.registry.entries slot entry) p
          ∙ ap (λ xs. at_parent xs p (add_child slot))
              (map-put w.registry.entries slot entry shape_of)

      placed-IsForest : IsForest (map shape_of placed) rest
      placed-IsForest = rw shapes-placed (
          graft-IsForest (shapes w.registry) w.registry.free_slots rest slot p v.forest picked.room
            picked.unused picked.kept picked.distinct
            (λ n e.
              let (x, hx, alive) = owner n e in
              (shape_of x, get_elem?-map_of w.registry.entries shape_of n hx, rw alive refl))
            not_owned)

      placed-found : get_elem? placed slot ≡ some entry
      placed-found =
          at_parent-off (put w.registry.entries slot entry) p (adopt slot) slot not_owned
          ∙ ground (arith, get_elem?-put w.registry.entries slot slot entry room)

      placed-Issued :
          Issued
            (record w.registry { entries = placed; free_slots = rest })
            (token_of w.registry entry)
            q.value
      placed-Issued = record {
        holder = entry;
        found = placed-found;
        token = refl;
        alive = refl;
        content = refl;
      }

      placed-from :
          (t : ℕ) (y : Entry V)
          → get_elem? placed t ≡ some y
          → ((t ≡ slot) × (y.slot ≡ slot) × (y.state ≡ live))
            ⊎ ((x : Entry V) × (get_elem? w.registry.entries t ≡ some x)
                × (y.slot ≡ x.slot)
                × (y.leases ≡ x.leases)
                × (y.state ≡ x.state))
      placed-from t y h =
          let (z, hz, near) =
            at_parent-from (put w.registry.entries slot entry) p (adopt slot) t h in
          let looked = get_elem?-put w.registry.entries slot t entry room in
          elim (Bool-cases (slot == t)) [
            | inl at ↦
                let same : z ≡ entry = ground (arith, looked) in
                inl (ground arith, ground arith, ground arith)
            | inr off ↦ inr (z, ground (arith, looked), ground arith, ground arith, ground arith)
          ]

      placed-leases : (t : ℕ) → leases_of (get_elem? placed t) ≡ held t w.handles
      placed-leases t =
          leases_of-at_parent (put w.registry.entries slot entry) p t (adopt slot) (λ x. refl)
          ∙ ground
              (arith, get_elem?-put w.registry.entries slot t entry room, v.counted t, not_held)

      placed-Awaited :
          (i : ℕ) (c : Closing)
          → get_elem? w.pending i ≡ some c
          → (x : Entry V) × (get_elem? placed c.slot ≡ some x) × Awaited c x
      placed-Awaited i c h =
          let (x, hx, a) = v.awaited i c h in
          let off : is_slot p c.slot ≡ false = elim (Option-cases p) [
            | inl e ↦ rw e refl
            | inr (n, e) ↦ let (y, hy, alive) = owner n e in ground (arith, a.not_live)
          ] in
          (
            x,
            at_parent-off (put w.registry.entries slot entry) p (adopt slot) c.slot off
                ∙ ground (
                  arith,
                  get_elem?-put w.registry.entries slot c.slot entry room,
                  was_closed x,
                  a.not_closed,
                  hx,
                ),
            a,
          )

      placed-IsSound :
          IsSound
            (record w { registry = record w.registry { entries = placed; free_slots = rest } })
      placed-IsSound = record {
        forest = placed-IsForest;
        slots = λ t y h. elim (placed-from t y h) [
          | inl (at, e, alive) ↦ ground arith
          | inr (x, hx, e, l, st) ↦ ground (arith, v.slots t x hx)
        ];
        counted = placed-leases;
        idle = λ t y h closed. elim (placed-from t y h) [
          | inl (at, e, alive) ↦ absurd (ground arith)
          | inr (x, hx, e, l, st) ↦ ground (arith, v.idle t x hx)
        ];
        awaited = placed-Awaited;
        once = v.once;
      }

    place-IsSound : IsSound (record w { registry = (place w.registry q kind p).0 })
    unfolding place
    place-IsSound = elim (Option-cases (nonce_of q.nonce)) [
      | inl e ↦ rw (e, place) refused-IsSound
      | inr (nonce, e) ↦
          rw (e, place) (placed-IsSound nonce (next_generation (get_elem? w.registry.entries slot)))
    ]

    place-Issued :
        (r : Registry V) (t : Token)
        → place w.registry q kind p ≡ (r, returned t)
        → Issued r t q.value
    unfolding place
    place-Issued r t h = elim (Option-cases (nonce_of q.nonce)) [
      | inl e ↦ absurd (ground arith)
      | inr (nonce, e) ↦
          let generation = next_generation (get_elem? w.registry.entries slot) in
          subst (λ (r : Registry V). Issued r t q.value) (ground arith)
            (subst
              (λ (t : Token).
                Issued (record w.registry { entries = placed nonce generation; free_slots = rest })
                  t q.value)
              (ground arith) (placed-Issued nonce generation))
    ]

  place-dead :
      (q : Request V) (kind : Text) (p : Option ℕ)
      → (place w.registry q kind p).0.dead ≡ w.registry.dead
  unfolding place
  place-dead q kind p = ground arith

  admit-dead :
      (q : Request V) (kind : Text) (p : Option ℕ)
      → admit w.registry q ≡ returned (kind, p)
      → w.registry.dead ≡ false
  unfolding admit
  admit-dead q kind p h = ground arith

  pub allocate-Issued :
      (q : Request V) (r : Registry V) (t : Token)
      → allocate w.registry q ≡ (r, returned t)
      → Issued r t q.value × (r.dead ≡ false)
  unfolding allocate
  allocate-Issued q r t h = elim (Outcome-cases (admit w.registry q)) [
    | inl ((kind, p), e) ↦ (
      place-Issued q kind p (admit-IsOwner w v q kind p e) r t (rw (e, allocate) at h),
      ap (λ (r : Registry V). r.dead)
            (sym (ap (λ (x : Registry V × Outcome Failure Token). x.0) (rw (e, allocate) at h)))
          ∙ place-dead q kind p
          ∙ admit-dead q kind p e,
    )
    | inr (f, e) ↦ absurd (ground arith)
  ]

  -- An allocation keeps the registry sound, whether it returns or throws.
  pub allocate-IsSound :
      (q : Request V) → IsSound (record w { registry = (allocate w.registry q).0 })
  unfolding allocate
  allocate-IsSound q = elim (Outcome-cases (admit w.registry q)) [
    | inl ((kind, p), e) ↦ rw (e, allocate) (place-IsSound q kind p (admit-IsOwner w v q kind p e))
    | inr (f, e) ↦ rw (e, allocate) v
  ]
