-- ===== src/Registry/Settling.antt =====
-- The two halves of `close` keep a registry sound, whatever the disposer does and whatever ran
-- while it was awaited.
use cuda_js.Base.{
  ℕ, zero, suc, ◌≡◌, refl, sym, inl, inr, true, false, none, some, List, [], ◌∷◌, arith, ltb,
  get_elem?, modify, subst, Bool-cases, ap, ◌∙◌, contains, length, get_elem?-modify_self,
}
use cuda_js.Base.Outcome.{returned, >>=-eq-returned}
use cuda_js.Js.{Value}
use cuda_js.Registry.State.{live, Entry, Registry, Token}
use cuda_js.Registry.Tokens.{read_token}
use cuda_js.Registry.Access.{locate}
use cuda_js.Registry.Locating.{locate_inv}
use cuda_js.Registry.Closing.{begin_close, start_close, start_closing}
use cuda_js.Registry.Steps.{Closing, World}
use cuda_js.Registry.Invariant.{IsSound, Awaited, pending_slots}
use cuda_js.Registry.Quiet.{quiet-IsForest, quiet-slots, quiet-counted, quiet-idle, quiet-Awaited}
use cuda_js.Registry.Pending.{find_pending}

module _ {ℓ} {V : Type ℓ} (w : World V) (v : IsSound w) where
  -- What a close that is begun has found.
  pub record Closable (e : Entry V) : Type ℓ where
    pub found : get_elem? w.registry.entries e.slot ≡ some e
    pub alive : e.state ≡ live
    pub owns_nothing : e.children ≡ []
    pub unleased : e.leases ≡ 0
    pub epoch_alive : w.registry.dead ≡ false

  abbrev begun : Entry V → Registry V
  begun e = record w.registry { entries = modify w.registry.entries e.slot start_closing }

  checks :
      (e e' : Entry V) (r : Registry V)
      → start_close w.registry e ≡ returned (r, e')
      → (e ≡ e')
        × (r ≡ begun e)
        × (e.state ≡ live)
        × (ltb 0 (length e.children) ≡ false)
        × (ltb 0 e.leases ≡ false)
        × (w.registry.dead ≡ false)
  unfolding start_close
  checks e e' r h = ground arith

  length-zero : (xs : List ℕ) → ltb 0 (length xs) ≡ false → xs ≡ []
  length-zero [] h = refl
  length-zero (x ∷ xs) h = absurd (ground arith)

  pub begin_close_inv :
      (token : Value) {r : Registry V} {e : Entry V}
      → begin_close w.registry token ≡ returned (r, e)
      → Closable e × (r ≡ begun e)
  unfolding begin_close
  begin_close_inv token {r} {e} h =
      let (a, p, q) =
        >>=-eq-returned (locate w.registry token none true) (start_close w.registry) h in
      let (same, after, alive, bare, free, epoch) = checks a e r q in
      let (t, good, at) = locate_inv w.registry token none true p in
      let here : get_elem? w.registry.entries a.slot ≡ some a =
        rw (v.slots t.slot a at.found) at.found in
      (
        subst Closable same (record {
          found = here;
          alive = alive;
          owns_nothing = length-zero a.children bare;
          unleased = ground arith;
          epoch_alive = epoch;
        }),
        after ∙ ap begun same,
      )

  -- The token that a close accepts names the entry's slot and generation.
  pub begin_close-token :
      (token : Value) {r : Registry V} {e : Entry V}
      → begin_close w.registry token ≡ returned (r, e)
      → (t : Token) × (read_token token ≡ some t)
        × (t.slot ≡ e.slot)
        × (t.generation ≡ e.generation)
  unfolding begin_close
  begin_close-token token {r} {e} h =
      let (a, p, q) =
        >>=-eq-returned (locate w.registry token none true) (start_close w.registry) h in
      let (same, after, alive, bare, free, epoch) = checks a e r q in
      let (t, good, at) = locate_inv w.registry token none true p in
      (
        t,
        good,
        sym (v.slots t.slot a at.found) ∙ ap (λ (x : Entry V). x.slot) same,
        at.generation ∙ ap (λ (x : Entry V). x.generation) same,
      )

  abbrev close_of : Entry V → Closing
  close_of e = record { slot = e.slot; parent = e.parent_slot }

  not_pending :
      (e : Entry V)
      → get_elem? w.registry.entries e.slot ≡ some e
      → e.state ≡ live
      → contains e.slot (pending_slots w.pending) ≡ false
  not_pending e here alive = elim (Bool-cases (contains e.slot (pending_slots w.pending))) [
    | inl found ↦
        let (i, c, hc, at) = find_pending w.pending e.slot found in
        let (x, hx, a) = v.awaited i c hc in
        let same : x ≡ e = cc in absurd (ground (arith, a.not_live))
    | inr missing ↦ missing
  ]

  begun-IsSound :
      (e : Entry V)
      → Closable e
      → IsSound (record w { registry = begun e; pending = close_of e ∷ w.pending })
  begun-IsSound e h = record {
    forest = quiet-IsForest w v e.slot start_closing e h.found (ground (arith, h.alive)) refl;
    slots = quiet-slots w v e.slot start_closing e h.found (ground (arith, h.alive)) refl;
    counted =
        quiet-counted w v e.slot start_closing e h.found (ground (arith, h.alive)) refl w.handles
          (λ t. refl);
    idle = quiet-idle w v e.slot start_closing e h.found (ground (arith, h.alive)) refl refl;
    awaited = awaited;
    once = (not_pending e h.found h.alive, v.once);
  }
    where
      awaited :
          (i : ℕ) (c : Closing)
          → get_elem? (close_of e ∷ w.pending) i ≡ some c
          → (x : Entry V) × (get_elem? (begun e).entries c.slot ≡ some x) × Awaited c x
      awaited zero c at =
          let same : close_of e ≡ c = ground arith in
          (
            start_closing e,
            rw (← same) (get_elem?-modify_self w.registry.entries e.slot start_closing h.found),
            rw (← same) (record {
              owner = refl;
              unleased = h.unleased;
              owns_nothing = h.owns_nothing;
              not_live = refl;
              not_closed = refl;
            }),
          )
      awaited (suc i) c at =
          quiet-Awaited w v e.slot start_closing e h.found (ground (arith, h.alive)) refl
            (λ c at a. absurd (ground (arith, h.alive, a.not_live))) i c at

  pub begin_close-IsSound :
      (token : Value) (r : Registry V) (e : Entry V)
      → begin_close w.registry token ≡ returned (r, e)
      → IsSound (record w { registry = r; pending = close_of e ∷ w.pending })
  begin_close-IsSound token r e h =
      let (ok, after) = begin_close_inv token h in
      let same : r ≡ begun e = after in rw same (begun-IsSound e ok)
