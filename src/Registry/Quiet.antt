-- ===== src/Registry/Quiet.antt =====
-- Steps that change one entry and leave the forest's shape: acquire, release, begin, failed close.
use cuda_js.Base.{
  ℕ, ◌+◌, ◌≡◌, inl, inr, true, false, some, List, arith, ◌==◌, if◌then◌else◌, get_elem?, modify,
  map, modify_cases, map-modify_same, subst, get_elem?-modify_self, get_elem?-modify_ne,
  get_elem?-modify, Bool-cases, ◌∙◌,
}
use cuda_js.Registry.Prune.{IsForest}
use cuda_js.Registry.State.{Entry, is_closed, shape_of}
use cuda_js.Registry.Access.{Lease}
use cuda_js.Registry.Steps.{Closing, World}
use cuda_js.Registry.Invariant.{IsSound, Awaited, held, leases_of}

module _ {ℓ} {V : Type ℓ} (w : World V) (v : IsSound w) (s : ℕ) (f : Entry V → Entry V)
    (e : Entry V) (here : get_elem? w.registry.entries s ≡ some e)
    (shape : shape_of (f e) ≡ shape_of e) (slot : (f e).slot ≡ e.slot) where
  abbrev entries : List (Entry V)
  entries = modify w.registry.entries s f

  same_entry : (x : Entry V) → get_elem? w.registry.entries s ≡ some x → x ≡ e
  same_entry x h = cc

  pub quiet-IsForest : IsForest (map shape_of entries) w.registry.free_slots
  quiet-IsForest =
      rw (map-modify_same w.registry.entries s f shape_of (λ x h. rw (same_entry x h) shape))
        v.forest

  pub quiet-slots : (t : ℕ) (x : Entry V) → get_elem? entries t ≡ some x → x.slot ≡ t
  quiet-slots t x h = elim (modify_cases w.registry.entries s t f h) [
    | inl (at, (y, hy, same)) ↦ ground (arith, v.slots s e here)
    | inr (other, old) ↦ v.slots t x old
  ]

  pub quiet-counted :
      (hs : List (Lease V))
      → ((t : ℕ)
          → held t hs + (if s == t then e.leases else 0)
            ≡ held t w.handles + (if s == t then (f e).leases else 0))
      → (t : ℕ) → leases_of (get_elem? entries t) ≡ held t hs
  quiet-counted hs moved t =
      ground (arith, moved t, v.counted t, get_elem?-modify w.registry.entries s t f)

  pub quiet-idle :
      (is_closed (f e).state ≡ false)
      → (t : ℕ) (x : Entry V) → get_elem? entries t ≡ some x
      → is_closed x.state ≡ true
      → x.leases ≡ 0
  quiet-idle still t x h c = elim (modify_cases w.registry.entries s t f h) [
    | inl (at, (y, hy, same)) ↦ absurd (ground arith)
    | inr (other, old) ↦ v.idle t x old c
  ]

  pub quiet-Awaited :
      ((c : Closing) → c.slot ≡ s → Awaited c e → Awaited c (f e))
      → (i : ℕ) (c : Closing) → get_elem? w.pending i ≡ some c
      → (x : Entry V) × (get_elem? entries c.slot ≡ some x) × Awaited c x
  quiet-Awaited keep i c h =
      let (x, hx, a) = v.awaited i c h in
      elim (Bool-cases (c.slot == s)) [
        | inl at ↦
            let same : x ≡ e = ground arith in
            let slot_eq : c.slot ≡ s = ground arith in
            (
              f e,
              rw slot_eq (get_elem?-modify_self w.registry.entries s f here),
              keep c slot_eq (subst (Awaited c) same a),
            )
        | inr off ↦ (x, get_elem?-modify_ne w.registry.entries s c.slot f (ground arith) ∙ hx, a)
      ]
