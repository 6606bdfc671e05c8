-- ===== src/Memory/Leases.antt =====
-- `acquireRangeForTransfer` of components/memory/src/memory-manager.mjs: what it does to the leases,
-- and the range that it accepts.
use cuda_js.Base.{
  ℕ, zero, suc, ◌+◌, ◌≤◌, ◌≡◌, refl, ap, sym, ◌∙◌, true, false, Option, none, some, List, [], ◌∷◌,
  arith, ltb, get_elem?, modify, inl, inr, Option-cases, subst, get_elem?-modify_self,
}
use cuda_js.Base.Outcome.{Outcome, returned, thrown, Outcome-cases}
use cuda_js.Js.{Text, text, Value}
use cuda_js.Failure.{Failure}
use cuda_js.Registry.State.{Entry, Registry}
use cuda_js.Registry.Access.{Lease, acquire, release, resolve, count_lease, drop_lease}
use cuda_js.Registry.Locating.{resolve_inv}
use cuda_js.Registry.Steps.{World}
use cuda_js.Registry.Invariant.{IsSound}
use cuda_js.Memory.Policy.{checked_range, checked_range_iff}
use cuda_js.Memory.Books.{Content, device, other}
use cuda_js.Memory.Transfers.{Range, device_of, give_back, whole_range, acquire_range_for_transfer}

modify_undo {ℓ} :
    {A : Type ℓ} (xs : List A) (i : ℕ) (f g : A → A)
    → ((x : A) → g (f x) ≡ x)
    → modify (modify xs i f) i g ≡ xs
modify_undo [] i f g e = refl
modify_undo (x ∷ xs) zero f g e = ap (λ y. y ∷ xs) (e x)
modify_undo (x ∷ xs) (suc i) f g e = ap (λ ys. x ∷ ys) (modify_undo xs i f g e)

pub device_of_inv {ℓ} :
    {N : Type ℓ} (c : Option (Content N)) {n : N} {size : ℕ}
    → device_of c ≡ some (n, size)
    → c ≡ some (device n size)
device_of_inv none h = cc
device_of_inv (some (device n size)) h = ground arith
device_of_inv (some (other n)) h = cc

module _ {ℓ} {N : Type ℓ} (w : World (Content N)) (v : IsSound w) where
  abbrev pub leased : Entry (Content N) → Registry (Content N)
  leased e = record w.registry { entries = modify w.registry.entries e.slot count_lease }

  abbrev pub lease_of : Entry (Content N) → Lease (Content N)
  lease_of e = record {
    slot = e.slot;
    generation = e.generation;
    value = e.value;
    released = false;
  }

  pub acquire_inv :
      (token : Value) (kind : Option Text) {r : Registry (Content N)} {l : Lease (Content N)}
      → acquire w.registry token kind ≡ returned (r, l)
      → (e : Entry (Content N)) × (get_elem? w.registry.entries e.slot ≡ some e)
        × (r ≡ leased e)
        × (l ≡ lease_of e)
  unfolding acquire
  acquire_inv token kind {r} {l} h = elim (Outcome-cases (resolve w.registry token kind)) [
    | inr (f, bad) ↦ absurd (ground arith)
    | inl (e, found) ↦
        let (t, reads, at, alive) = resolve_inv w.registry token kind found in
        (
          e,
          subst (λ s. get_elem? w.registry.entries s ≡ some e) (sym (v.slots t.slot e at.found))
              at.found,
          ground arith,
          ground arith,
        )
  ]

  pub give_back_lem :
      (e : Entry (Content N))
      → get_elem? w.registry.entries e.slot ≡ some e
      → give_back (leased e) (lease_of e) ≡ w.registry
  unfolding give_back release
  give_back_lem e h =
      let xs = w.registry.entries in
      let there : get_elem? (modify xs e.slot count_lease) e.slot ≡ some (count_lease e) =
        get_elem?-modify_self xs e.slot count_lease h in
      let some_held : ltb 0 (e.leases + 1) ≡ true = ground arith in
      let undone = modify_undo xs e.slot count_lease drop_lease counts_back in
      given there some_held ∙ ap (λ es. record w.registry { entries = es }) undone
    where
      counts_back : (x : Entry (Content N)) → drop_lease (count_lease x) ≡ x
      counts_back x = ap (λ n. record x { leases = n }) (omega arith)

      given :
          get_elem? (modify w.registry.entries e.slot count_lease) e.slot ≡ some (count_lease e)
          → ltb 0 (e.leases + 1) ≡ true
          → give_back (leased e) (lease_of e) ≡ record w.registry {
            entries = modify (modify w.registry.entries e.slot count_lease) e.slot drop_lease;
          }
      given there some_held = ground (arith, there, some_held)

  whole_range_inv :
      (l : Lease (Content N)) (off len : Value) {range : Range N}
      → whole_range l off len ≡ returned range
      → (1 ≤ range.transfer_length)
        × (range.device_offset + range.transfer_length ≤ range.allocation_length)
        × (range.lease.value ≡ some (device range.native range.allocation_length))
        × (range.lease ≡ l)
  unfolding whole_range
  whole_range_inv l off len {range} h = elim (Option-cases (device_of l.value)) [
    | inl bad ↦ absurd (ground arith)
    | inr ((n, size), good) ↦ elim (Outcome-cases (checked_range size off len)) [
      | inr (f, bad) ↦ absurd (ground arith)
      | inl ((o, k), fits) ↦
          let (eo, ek, positive, so, sk, within) = (checked_range_iff size off len o k).0 fits in
          let holds = device_of_inv l.value good in
          let same : record {
            native = n;
            allocation_length = size;
            device_offset = o;
            transfer_length = k;
            lease = l;
          }
              ≡ range =
            ground arith in
          subst
            (λ (y : Range N).
              (1 ≤ y.transfer_length)
              × (y.device_offset + y.transfer_length ≤ y.allocation_length)
              × (y.lease.value ≡ some (device y.native y.allocation_length))
              × (y.lease ≡ l))
            same (positive, within, holds, refl)
    ]
  ]

  refused_range :
      (token off len : Value) (f : Failure) {r : Registry (Content N)}
      → acquire_range_for_transfer w.registry token off len ≡ (r, thrown f)
      → r ≡ w.registry
  unfolding acquire_range_for_transfer
  refused_range token off len f {r} h =
      elim (Outcome-cases (acquire w.registry token (some (text "device-memory")))) [
        | inr (g, bad) ↦ ground arith
        | inl ((r', l), got) ↦ elim (Outcome-cases (whole_range l off len)) [
          | inl (range, good) ↦ absurd (ground arith)
          | inr (g, bad) ↦
              let (e, found, re, le) = acquire_inv token (some (text "device-memory")) got in
              let back : give_back r' l ≡ r = ground arith in
              sym back
              ∙ (ap (λ r'. give_back r' l) re ∙ ap (give_back (leased e)) le)
              ∙ give_back_lem e found
        ]
      ]

  accepted_range :
      (token off len : Value) (range : Range N) {r : Registry (Content N)}
      → acquire_range_for_transfer w.registry token off len ≡ (r, returned range)
      → (1 ≤ range.transfer_length)
        × (range.device_offset + range.transfer_length ≤ range.allocation_length)
        × (range.lease.value ≡ some (device range.native range.allocation_length))
        × (acquire w.registry token (some (text "device-memory")) ≡ returned (r, range.lease))
  unfolding acquire_range_for_transfer
  accepted_range token off len range {r} h =
      elim (Outcome-cases (acquire w.registry token (some (text "device-memory")))) [
        | inr (g, bad) ↦ absurd (ground arith)
        | inl ((r', l), got) ↦ elim (Outcome-cases (whole_range l off len)) [
          | inr (g, bad) ↦ absurd (ground arith)
          | inl (range', good) ↦
              let same : range' ≡ range = ground arith in
              let after : r' ≡ r = ground arith in
              let (positive, within, holds, its) =
                whole_range_inv l off len (good ∙ ap returned same) in
              (positive, within, holds, rw (got, after) (ap (λ l. returned (r, l)) (sym its)))
        ]
      ]

  -- A range that is refused, for whatever reason, leaves the registry exactly as it was; one that
  -- is accepted lies within the allocation whose lease it holds, and only the count of that lease
  -- has changed.
  pub acquire_range_for_transfer_lem :
      (token off len : Value) {r : Registry (Content N)} {x : Outcome Failure (Range N)}
      → acquire_range_for_transfer w.registry token off len ≡ (r, x)
      → ((f : Failure) → x ≡ thrown f → r ≡ w.registry)
        × ((range : Range N)
            → x ≡ returned range
            → (1 ≤ range.transfer_length)
              × (range.device_offset + range.transfer_length ≤ range.allocation_length)
              × (range.lease.value ≡ some (device range.native range.allocation_length))
              × (acquire w.registry token (some (text "device-memory"))
                  ≡ returned (r, range.lease)))
  acquire_range_for_transfer_lem token off len {r} {x} h = (
    λ f e. refused_range token off len f (h ∙ ap (λ x. (r, x)) e),
    λ range e. accepted_range token off len range (h ∙ ap (λ x. (r, x)) e),
  )
