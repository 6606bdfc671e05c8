-- ===== src/Registry/Weights.antt =====
-- Sums over the entries that are not closed, for a client that keeps account of what it has stored:
-- how each call of a registry changes such a sum.
use cuda_js.Base.{
  ℕ, zero, suc, ◌+◌, ◌≤◌, ◌≡◌, refl, ap, subst, Option, none, some, List, [], ◌∷◌, arith,
  if◌then◌else◌, get_elem?, modify, put, map, length, inl, inr, Option-cases, Bool-cases,
}
use cuda_js.Base.Outcome.{returned, thrown, Outcome-cases}
use cuda_js.Js.{Text, Value}
use cuda_js.Failure.{Failure}
use cuda_js.Registry.Prune.{at_parent}
use cuda_js.Registry.State.{Entry, Registry, Token, is_closed}
use cuda_js.Registry.Access.{count_lease, drop_lease, acquire, release, resolve, Lease}
use cuda_js.Registry.Allocation.{
  Request, admit, place, allocate, new_entry, adopt, next_generation, nonce_of,
}
use cuda_js.Registry.Closing.{
  start_closing, finish, disown, keep_failure, settle, begin_close, lose_if, mark_epoch_dead,
}
use cuda_js.Registry.Disposal.{resolved, rejected}
use cuda_js.Registry.Steps.{World, Closing}
use cuda_js.Registry.Invariant.{IsSound}
use cuda_js.Registry.Settling.{begin_close_inv}
use cuda_js.Registry.Allocated.{slot, room, was_closed}
use cuda_js.Registry.Picking.{admit-IsOwner, IsOwner}

module _ {ℓ} {V : Type ℓ} (weight : Option V → ℕ) where
  abbrev pub measure : Entry V → ℕ
  measure e = if is_closed e.state then 0 else weight e.value

  abbrev pub total : List (Entry V) → ℕ
  total [] = 0
  total (e ∷ es) = measure e + total es

  abbrev measure_at : Option (Entry V) → ℕ
  measure_at none = 0
  measure_at (some e) = measure e

  total-modify :
      (xs : List (Entry V)) (i : ℕ) (f : Entry V → Entry V) {x : Entry V}
      → get_elem? xs i ≡ some x
      → total (modify xs i f) + measure x ≡ total xs + measure (f x)
  total-modify [] i f h = cc
  total-modify (y ∷ xs) zero f {x} h = let same : y ≡ x = ground arith in rw same (omega arith)
  total-modify (y ∷ xs) (suc i) f h = omega (arith, total-modify xs i f h)

  total-modify_same :
      (xs : List (Entry V)) (i : ℕ) (f : Entry V → Entry V)
      → ((x : Entry V) → get_elem? xs i ≡ some x → measure (f x) ≡ measure x)
      → total (modify xs i f) ≡ total xs
  total-modify_same [] i f e = refl
  total-modify_same (x ∷ xs) zero f e = ap (λ n. n + total xs) (e x refl)
  total-modify_same (x ∷ xs) (suc i) f e = ap (λ n. measure x + n) (total-modify_same xs i f e)

  total-put :
      (xs : List (Entry V)) (i : ℕ) (e : Entry V)
      → i ≤ length xs
      → total (put xs i e) + measure_at (get_elem? xs i) ≡ total xs + measure e
  total-put [] zero e h = omega arith
  total-put [] (suc i) e h = absurd (omega arith)
  total-put (x ∷ xs) zero e h = omega arith
  total-put (x ∷ xs) (suc i) e h = omega (arith, total-put xs i e (omega arith))

  total-at_parent :
      (xs : List (Entry V)) (p : Option ℕ) (f : Entry V → Entry V)
      → ((x : Entry V) → measure (f x) ≡ measure x)
      → total (at_parent xs p f) ≡ total xs
  total-at_parent xs none f e = refl
  total-at_parent xs (some p) f e = total-modify_same xs p f (λ x h. e x)

  module _ (w : World V) (v : IsSound w) where
    unused :
        (q : Request V) (kind : Text) (p : Option ℕ) (owner : IsOwner w v p)
        → measure_at (get_elem? w.registry.entries (slot w v q kind p owner)) ≡ 0
    unused q kind p owner =
        let s = slot w v q kind p owner in
        elim (Option-cases (get_elem? w.registry.entries s)) [
          | inl e ↦ rw e refl
          | inr (x, e) ↦ let over = was_closed w v q kind p owner x e in rw e (rw over refl)
        ]

    place-total :
        (q : Request V) (kind : Text) (p : Option ℕ) (owner : IsOwner w v p) (r : Registry V)
        (t : Token)
        → place w.registry q kind p ≡ (r, returned t)
        → total r.entries ≡ total w.registry.entries + weight (some q.value)
    unfolding place
    place-total q kind p owner r t h = elim (Option-cases (nonce_of q.nonce)) [
      | inl e ↦ absurd (ground arith)
      | inr (nonce, e) ↦
          let s = slot w v q kind p owner in
          let xs = w.registry.entries in
          let x = new_entry s (next_generation (get_elem? xs s)) nonce kind p q.value in
          let after : at_parent (put xs s x) p (adopt s) ≡ r.entries = ground arith in
          let empty_before : measure_at (get_elem? xs s) ≡ 0 = unused q kind p owner in
          subst (λ es. total es ≡ total xs + weight (some q.value)) after
            (omega (
              arith,
              total-at_parent (put xs s x) p (adopt s) (λ x. refl),
              total-put xs s x (room w v q kind p owner),
              empty_before,
            ))
    ]

    -- An allocation that returns adds the weight of its value.
    pub allocate-total :
        (q : Request V) (r : Registry V) (t : Token)
        → allocate w.registry q ≡ (r, returned t)
        → total r.entries ≡ total w.registry.entries + weight (some q.value)
    unfolding allocate
    allocate-total q r t h = elim (Outcome-cases (admit w.registry q)) [
      | inl ((kind, p), e) ↦
          place-total q kind p (admit-IsOwner w v q kind p e) r t (rw (e, allocate) at h)
      | inr (f, e) ↦ absurd (ground arith)
    ]

    -- One that throws adds nothing.
    pub refused-total :
        (q : Request V) (r : Registry V) (f : Failure)
        → allocate w.registry q ≡ (r, thrown f)
        → total r.entries ≡ total w.registry.entries
    unfolding allocate place
    refused-total q r f h = elim (Outcome-cases (admit w.registry q)) [
      | inl ((kind, p), e) ↦ elim (Option-cases (nonce_of q.nonce)) [
        | inl bad ↦ ground arith
        | inr (nonce, good) ↦ absurd (ground arith)
      ]
      | inr (g, e) ↦ ground arith
    ]

    pub begin_close-total :
        (token : Value) (r : Registry V) (e : Entry V)
        → begin_close w.registry token ≡ returned (r, e)
        → total r.entries ≡ total w.registry.entries
    begin_close-total token r e h =
        let (ok, after) = begin_close_inv w v token h in
        rw after (
          total-modify_same w.registry.entries e.slot start_closing (λ x hx.
            let same : e ≡ x = ground (arith, ok.found) in rw (← same) (ground (arith, ok.alive))))

    -- A close that succeeds takes the weight of the entry's value off.
    pub resolved-total :
        (i : ℕ) (c : Closing) (e : Entry V)
        → get_elem? w.pending i ≡ some c
        → get_elem? w.registry.entries c.slot ≡ some e
        → total (settle w.registry c.slot c.parent resolved).0.entries + weight e.value
          ≡ total w.registry.entries
    unfolding settle
    resolved-total i c e hc he =
        let (x, hx, a) = v.awaited i c hc in
        let same : x ≡ e = ground arith in
        let owned =
          total-at_parent (modify w.registry.entries c.slot finish) c.parent (disown c.slot)
            (λ x. refl) in
        rw owned (ground (arith, total-modify w.registry.entries c.slot finish he, a.not_closed))

    pub rejected-total :
        (i : ℕ) (c : Closing) (error : Value)
        → get_elem? w.pending i ≡ some c
        → total (settle w.registry c.slot c.parent (rejected error)).0.entries
          ≡ total w.registry.entries
    unfolding settle keep_failure
    rejected-total i c error hc =
        let (x, hx, a) = v.awaited i c hc in
        total-modify_same w.registry.entries c.slot (keep_failure error)
          (λ y hy. let same : x ≡ y = ground arith in rw (← same) (ground (arith, a.not_closed)))

  measure-lose_if : (e : Entry V) → measure (lose_if e.state e) ≡ measure e
  measure-lose_if e = ground arith

  total-map :
      (xs : List (Entry V)) (f : Entry V → Entry V)
      → ((x : Entry V) → measure (f x) ≡ measure x)
      → total (map f xs) ≡ total xs
  total-map [] f e = refl
  total-map (x ∷ xs) f e = omega (arith, e x, total-map xs f e)

  pub dead-total : (r : Registry V) → total (mark_epoch_dead r).entries ≡ total r.entries
  unfolding mark_epoch_dead
  dead-total r = elim (Bool-cases r.dead) [
    | inl e ↦ rw e refl
    | inr e ↦ rw e (total-map r.entries (λ e. lose_if e.state e) measure-lose_if)
  ]

  pub acquire-total :
      (r : Registry V) (token : Value) (kind : Option Text) {r' : Registry V} {l : Lease V}
      → acquire r token kind ≡ returned (r', l)
      → total r'.entries ≡ total r.entries
  unfolding acquire
  acquire-total r token kind {r'} {l} h = elim (Outcome-cases (resolve r token kind)) [
    | inl (e, found) ↦
        let after : modify r.entries e.slot count_lease ≡ r'.entries = ground arith in
        rw (← after) (total-modify_same r.entries e.slot count_lease (λ x _. refl))
    | inr (f, bad) ↦ absurd (ground arith)
  ]

  pub release-total :
      (r : Registry V) (l : Lease V) {r' : Registry V} {l' : Lease V}
      → release r l ≡ returned (r', l')
      → total r'.entries ≡ total r.entries
  unfolding release
  release-total r l {r'} {l'} h =
      let after : modify r.entries l.slot drop_lease ≡ r'.entries = ground arith in
      rw (← after) (total-modify_same r.entries l.slot drop_lease (λ x _. refl))
