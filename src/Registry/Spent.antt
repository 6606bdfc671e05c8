-- ===== src/Registry/Spent.antt =====
-- A token whose close was begun is never accepted again, whatever happens to its slot.
use cuda_js.Base.{
  ℕ, ◌≤◌, ◌<◌, ◌≡◌, refl, ◌⊎◌, inl, inr, false, Option, none, some, List, arith, ◌==◌, get_elem?,
  modify, put, map, length, get_elem?-put, get_elem?-map_of, get_elem?-modify_self,
  get_elem?-modify_ne, Bool-cases, Option-cases, ap, ◌∙◌,
}
use cuda_js.Base.Outcome.{returned, thrown, Outcome-cases}
use cuda_js.Js.{Text, Value}
use cuda_js.Failure.{Failure}
use cuda_js.Registry.Prune.{at_parent}
use cuda_js.Registry.State.{State, live, closing, closed, orphaned, Entry, Registry, Token, is_live}
use cuda_js.Registry.Tokens.{read_token}
use cuda_js.Registry.Access.{resolve, count_lease, drop_lease}
use cuda_js.Registry.Allocation.{
  Request, allocate, admit, place, pick_slot, adopt, nonce_of, new_entry, next_generation,
}
use cuda_js.Registry.Closing.{
  settle, start_closing, finish, disown, keep_failure, mark_epoch_dead, lose_if,
}
use cuda_js.Registry.Disposal.{Disposal, resolved, rejected}
use cuda_js.Registry.Locating.{resolve_inv}
use cuda_js.Registry.Steps.{
  World, Step, allocates, acquires, releases, begins, settles, dies, Reach, here, next,
}
use cuda_js.Registry.Invariant.{IsSound}
use cuda_js.Registry.Leasing.{acquire_inv, release_inv}
use cuda_js.Registry.Allocated.{room}
use cuda_js.Registry.Picking.{admit-IsOwner}
use cuda_js.Registry.Safety.{Reach-IsSound}
use cuda_js.Registry.Settling.{begin_close_inv}

module _ {ℓ} {V : Type ℓ} where
  -- A later state of what stands in a slot: a new generation, or the same, which never revives.
  abbrev pub Later : Entry V → Entry V → Type 0
  Later x y =
      (x.generation < y.generation)
      ⊎ ((y.generation ≡ x.generation) × (is_live x.state ≡ false → is_live y.state ≡ false))

  pub Evolves : List (Entry V) → List (Entry V) → Type ℓ
  Evolves xs ys =
      (s : ℕ) (x : Entry V)
      → get_elem? xs s ≡ some x
      → (y : Entry V) × (get_elem? ys s ≡ some y) × Later x y

  Later-trans : (x y z : Entry V) → Later x y → Later y z → Later x z
  Later-trans x y z (inl a) (inl b) = inl (omega arith)
  Later-trans x y z (inl a) (inr (e, k)) = inl (omega arith)
  Later-trans x y z (inr (e, k)) (inl b) = inl (omega arith)
  Later-trans x y z (inr (e, k)) (inr (e', k')) = inr (e' ∙ e, λ h. k' (k h))

  Evolves-refl : (xs : List (Entry V)) → Evolves xs xs
  unfolding Evolves
  Evolves-refl xs s x h = (x, h, inr (refl, λ d. d))

  Evolves-trans : (xs ys zs : List (Entry V)) → Evolves xs ys → Evolves ys zs → Evolves xs zs
  unfolding Evolves
  Evolves-trans xs ys zs f g s x h =
      let (y, hy, a) = f s x h in let (z, hz, b) = g s y hy in (z, hz, Later-trans x y z a b)

  Evolves-modify :
      (xs : List (Entry V)) (s : ℕ) (f : Entry V → Entry V)
      → ((x : Entry V) → (f x).generation ≡ x.generation)
      → ((x : Entry V) → is_live x.state ≡ false → is_live (f x).state ≡ false)
      → Evolves xs (modify xs s f)
  unfolding Evolves
  Evolves-modify xs s f same stays t x h = elim (Bool-cases (s == t)) [
    | inl at ↦
        let e : t ≡ s = ground arith in
        (f x, rw e (get_elem?-modify_self xs s f (rw (← e) h)), inr (same x, stays x))
    | inr off ↦ (x, get_elem?-modify_ne xs s t f (ground arith) ∙ h, inr (refl, λ d. d))
  ]

  Evolves-at_parent :
      (xs : List (Entry V)) (p : Option ℕ) (f : Entry V → Entry V)
      → ((x : Entry V) → (f x).generation ≡ x.generation)
      → ((x : Entry V) → is_live x.state ≡ false → is_live (f x).state ≡ false)
      → Evolves xs (at_parent xs p f)
  Evolves-at_parent xs none f same stays = Evolves-refl xs
  Evolves-at_parent xs (some p) f same stays = Evolves-modify xs p f same stays

  Evolves-put :
      (xs : List (Entry V)) (s : ℕ) (y : Entry V)
      → s ≤ length xs
      → ((x : Entry V) → get_elem? xs s ≡ some x → x.generation < y.generation)
      → Evolves xs (put xs s y)
  unfolding Evolves
  Evolves-put xs s y room newer t x h = elim (Bool-cases (s == t)) [
    | inl at ↦
        let e : s ≡ t = ground arith in
        (y, ground (arith, get_elem?-put xs s t y room), inl (newer x (rw e h)))
    | inr off ↦ (x, ground (arith, get_elem?-put xs s t y room), inr (refl, λ d. d))
  ]

  Evolves-map :
      (xs : List (Entry V)) (f : Entry V → Entry V)
      → ((x : Entry V) → Later x (f x))
      → Evolves xs (map f xs)
  unfolding Evolves
  Evolves-map xs f later s x h = (f x, get_elem?-map_of xs f s h, later x)

  module _ (w : World V) (v : IsSound w) where
    abbrev old : List (Entry V)
    old = w.registry.entries

    place-Evolves :
        (q : Request V) (kind : Text) (p : Option ℕ)
        → admit w.registry q ≡ returned (kind, p)
        → Evolves old (place w.registry q kind p).0.entries
    unfolding place
    place-Evolves q kind p h = elim (Option-cases (nonce_of q.nonce)) [
      | inl e ↦ rw (e, place) (Evolves-refl old)
      | inr (nonce, e) ↦
          let (s, rest) = pick_slot w.registry.free_slots (length old) in
          let fresh = new_entry s (next_generation (get_elem? old s)) nonce kind p q.value in
          rw (e, place)
            (Evolves-trans old (put old s fresh) (at_parent (put old s fresh) p (adopt s))
              (Evolves-put old s fresh (room w v q kind p (admit-IsOwner w v q kind p h))
                (λ x hx. ground arith))
              (Evolves-at_parent (put old s fresh) p (adopt s) (λ x. refl) (λ x d. d)))
    ]

    allocate-Evolves : (q : Request V) → Evolves old (allocate w.registry q).0.entries
    unfolding allocate
    allocate-Evolves q = elim (Outcome-cases (admit w.registry q)) [
      | inl ((kind, p), e) ↦ rw (e, allocate) (place-Evolves q kind p e)
      | inr (f, e) ↦ rw (e, allocate) (Evolves-refl old)
    ]

    settle-Evolves :
        (s : ℕ) (p : Option ℕ) (d : Disposal) → Evolves old (settle w.registry s p d).0.entries
    unfolding settle keep_failure
    settle-Evolves s p resolved =
        Evolves-trans old (modify old s finish) (at_parent (modify old s finish) p (disown s))
          (Evolves-modify old s finish (λ x. refl) (λ x d. refl))
          (Evolves-at_parent (modify old s finish) p (disown s) (λ x. refl) (λ x d. d))
    settle-Evolves s p (rejected error) =
        Evolves-modify old s (keep_failure error) (λ x. refl) (λ x d. refl)

    lose_if-Later : (s : State) (x : Entry V) → x.state ≡ s → Later x (lose_if s x)
    lose_if-Later live x h = inr (refl, λ d. refl)
    lose_if-Later closing x h = inr (refl, λ d. refl)
    lose_if-Later closed x h = inr (refl, λ d. d)
    lose_if-Later orphaned x h = inr (refl, λ d. d)

    dies-Evolves : Evolves old (mark_epoch_dead w.registry).entries
    unfolding mark_epoch_dead
    dies-Evolves = elim (Bool-cases w.registry.dead) [
      | inl e ↦ rw (e, mark_epoch_dead) (Evolves-refl old)
      | inr e ↦
          rw (e, mark_epoch_dead)
            (Evolves-map old (λ x. lose_if x.state x) (λ x. lose_if-Later x.state x refl))
    ]

  Step-Evolves :
      {w u : World V} → Step w u → IsSound w → Evolves w.registry.entries u.registry.entries
  Step-Evolves {w} (allocates q) v = allocate-Evolves w v q
  Step-Evolves {w} (acquires token kind r l h) v =
      let (e, p, found, alive, same, same') = acquire_inv w v token kind h in
      rw same (Evolves-modify w.registry.entries e.slot count_lease (λ x. refl) (λ x d. d))
  Step-Evolves {w} (releases i l l' r at h) v =
      let (e, found, active, left, same, same') = release_inv w v l h in
      rw same (Evolves-modify w.registry.entries l.slot drop_lease (λ x. refl) (λ x d. d))
  Step-Evolves {w} (begins token r e h) v =
      let (ok, same) = begin_close_inv w v token h in
      rw same (Evolves-modify w.registry.entries e.slot start_closing (λ x. refl) (λ x d. refl))
  Step-Evolves {w} (settles i c d at) v = settle-Evolves w v c.slot c.parent d
  Step-Evolves {w} dies v = dies-Evolves w v

  pub Reach-Evolves :
      {w u : World V} → Reach w u → IsSound w → Evolves w.registry.entries u.registry.entries
  Reach-Evolves {w} here v = Evolves-refl w.registry.entries
  Reach-Evolves {w} {u} (next {u = m} r s) v =
      Evolves-trans w.registry.entries m.registry.entries u.registry.entries (Reach-Evolves r v)
        (Step-Evolves s (Reach-IsSound v r))

  -- The slot has moved on, or holds the token's generation, no longer live.
  pub record IsSpent (r : Registry V) (t : Token) : Type ℓ where
    pub holder : Entry V
    pub found : get_elem? r.entries t.slot ≡ some holder
    pub over :
        (t.generation < holder.generation)
        ⊎ ((t.generation ≡ holder.generation) × (is_live holder.state ≡ false))

  pub IsSpent-later :
      (r r' : Registry V) (t : Token) → Evolves r.entries r'.entries → IsSpent r t → IsSpent r' t
  unfolding Evolves
  IsSpent-later r r' t f h =
      let (y, hy, later) = f t.slot h.holder h.found in
      record { holder = y; found = hy; over = ground (arith, later, h.over) }

  pub resolve_spent :
      (r : Registry V) (v : Value) (t : Token) (kind : Option Text)
      → read_token v ≡ some t
      → IsSpent r t
      → (f : Failure) × (resolve r v kind ≡ thrown f)
  resolve_spent r v t kind reads h = elim (Outcome-cases (resolve r v kind)) [
    | inl (e, p) ↦
        let (t', reads', at, alive) = resolve_inv r v kind p in
        let same : t' ≡ t = cc (reads, reads') in
        let here : get_elem? r.entries t.slot ≡ some e = rw (← same) at.found in
        let gen : t.generation ≡ e.generation = rw (← same) at.generation in
        let one : h.holder ≡ e = cc (h.found, here) in
        absurd (
          ground (
            arith,
            h.over,
            ap (λ (x : Entry V). x.generation) one,
            ap (λ (x : Entry V). is_live x.state) one,
          ))
    | inr (f, p) ↦ (f, p)
  ]
