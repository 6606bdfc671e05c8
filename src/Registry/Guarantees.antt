-- ===== src/Registry/Guarantees.antt =====
-- What a registry promises to its clients, over every history of calls, leases and disposers.
use cuda_js.Base.{
  ℕ, zero, suc, ◌≤◌, ◌≡◌, refl, inl, inr, Bool, true, false, Option, none, some, List, [], ◌∷◌,
  arith, get_elem?, modify, get_elem?-map_of, Bool-cases, get_elem?-modify_self, sym, subst, ap,
  ◌∙◌,
}
use cuda_js.Base.Outcome.{returned, thrown}
use cuda_js.Js.{Text, Value, text_eq_refl, max_safe}
use cuda_js.Failure.{Failure}
use cuda_js.Registry.State.{live, Entry, Registry, Token, token_of, is_closed, shape_of}
use cuda_js.Registry.Tokens.{read_token, token_value, IsToken, is_empty, read_token-token_value}
use cuda_js.Registry.Access.{Lease, locate_token, resolve, get, release, drop_lease, kind_expected}
use cuda_js.Registry.Allocation.{Request, allocate}
use cuda_js.Registry.Closing.{begin_close, start_closing}
use cuda_js.Registry.Locating.{resolve_inv, Located}
use cuda_js.Registry.Steps.{World, Reach, start}
use cuda_js.Registry.Invariant.{IsSound, held}
use cuda_js.Registry.Leasing.{release_returns}
use cuda_js.Registry.Settling.{begin_close_inv, begin_close-IsSound, begin_close-token}
use cuda_js.Registry.Safety.{Reach-IsSound, start-IsSound}
use cuda_js.Registry.Allocated.{allocate-Issued}
use cuda_js.Registry.Picking.{Issued}
use cuda_js.Registry.Naming.{allocate-IsToken, Reach-SameName}
use cuda_js.Registry.Spent.{IsSpent, IsSpent-later, resolve_spent, Reach-Evolves}

module _ {ℓ} {V : Type ℓ} (r : Registry V) where
  token_eq :
      (t : Token) (e : Entry V) {kind : Option Text} {allow : Bool}
      → Located r t kind allow e
      → e.slot ≡ t.slot
      → t ≡ token_of r e
  token_eq t e at slot = cc (at.runtime, at.epoch, at.kind, slot, at.generation, at.nonce)

module _ {ℓ} {V : Type ℓ} where
  held_pos :
      (hs : List (Lease V)) (i : ℕ) (l : Lease V)
      → get_elem? hs i ≡ some l
      → l.released ≡ false
      → 1 ≤ held l.slot hs
  held_pos [] i l h active = cc
  held_pos (x ∷ hs) zero l h active = let same : x ≡ l = ground arith in rw same (ground arith)
  held_pos (x ∷ hs) (suc i) l h active = omega (arith, held_pos hs i l h active)

module _ {ℓ} {V : Type ℓ} (r : Registry V) (t : Token) (value : V) where
  get-Issued :
      Issued r t value
      → r.dead ≡ false
      → IsToken t
      → (kind : Option Text) → kind_expected kind t.kind ≡ true
      → get r (token_value t) kind ≡ returned (some value)
  unfolding get locate_token
  get-Issued h awake good kind wanted = ground (
    arith,
    read_token-token_value t good,
    h.found,
    h.token,
    h.alive,
    h.content,
    text_eq_refl r.runtime_id,
    text_eq_refl h.holder.kind,
    text_eq_refl h.holder.nonce,
  )

module _ {ℓ} {V : Type ℓ} (runtime_id : Text) (epoch : ℕ) {w : World V}
    (run : Reach (start runtime_id epoch) w) where
  -- In every world that a new registry reaches, by calls in any order and disposers that settle at
  -- any time, each entry knows its slot; what is not closed is listed by its parent, and what is
  -- listed is not closed; what is closed has no children and no leases; free slots are distinct
  -- and hold closed entries; each entry counts exactly the leases that are held on it; and each
  -- pending close has an entry of its own, without leases and children.
  pub run-IsSound : IsSound w
  run-IsSound = Reach-IsSound (start-IsSound runtime_id epoch) run

  -- A lease that was acquired and not released can be released: the call returns, and the count
  -- of the entry, which is at least one, falls by one, so the assertion on it never fails.
  pub release-held :
      (i : ℕ) (l : Lease V)
      → get_elem? w.handles i ≡ some l
      → l.released ≡ false
      → (release w.registry l
          ≡ returned (
            record w.registry { entries = modify w.registry.entries l.slot drop_lease },
            record l { released = true },
          ))
        × (1 ≤ held l.slot w.handles)
  release-held i l at active =
      (release_returns w run-IsSound i l at active, held_pos w.handles i l at active)

  -- A close gets as far as its disposer only if nobody holds a lease on the entry, and every entry
  -- that names it as its parent is closed.
  pub begin_close_safe :
      (v : Value) (r : Registry V) (e : Entry V)
      → begin_close w.registry v ≡ returned (r, e)
      → (held e.slot w.handles ≡ 0)
        × ((s : ℕ) (x : Entry V)
            → get_elem? w.registry.entries s ≡ some x
            → x.parent_slot ≡ some e.slot
            → is_closed x.state ≡ true)
  begin_close_safe v r e h =
      let sound = run-IsSound in
      let (ok, same) = begin_close_inv w sound v h in
      (
        ground (arith, sound.counted e.slot, ok.found, ok.unleased),
        λ s x hx child. elim (Bool-cases (is_closed x.state)) [
          | inl closed ↦ closed
          | inr open_ ↦
              let (y, hy, listed) =
                sound.forest.links s (shape_of x) e.slot
                  (get_elem?-map_of w.registry.entries shape_of s hx) (ground arith) child in
              let there = get_elem?-map_of w.registry.entries shape_of e.slot ok.found in
              absurd (ground (arith, ok.owns_nothing))
        ],
      )

  -- Once `close` has accepted a token, no later call accepts that token again: `resolve`, behind
  -- which `get`, `acquire`, `allocate` under a parent and `closeTree` stand, throws, also when the
  -- slot has been given to another resource.
  pub use_after_close :
      (v : Value) (r : Registry V) (e : Entry V) (kind : Option Text) {u : World V}
      → begin_close w.registry v ≡ returned (r, e)
      → Reach
          (record w {
            registry = r;
            pending = record { slot = e.slot; parent = e.parent_slot } ∷ w.pending;
          })
          u
      → (f : Failure) × (resolve u.registry v kind ≡ thrown f)
  use_after_close v r e kind {u} h later =
      let sound = run-IsSound in
      let (ok, same) = begin_close_inv w sound v h in
      let (t, reads, slot, generation) = begin_close-token w sound v h in
      let spent : IsSpent r t = record {
        holder = start_closing e;
        found =
            rw (same, slot)
              (get_elem?-modify_self w.registry.entries e.slot start_closing ok.found);
        over = inr (generation, refl);
      } in
      resolve_spent u.registry v t kind reads (
        IsSpent-later r u.registry t (Reach-Evolves later (begin_close-IsSound w sound v r e h))
          spent)

  -- A value that is accepted reads as exactly the token that the registry would issue for the
  -- entry: its slot, generation, kind, nonce, runtime and epoch all agree, and the entry is live.
  pub resolve_exact :
      (v : Value) (kind : Option Text) (e : Entry V)
      → resolve w.registry v kind ≡ returned e
      → (read_token v ≡ some (token_of w.registry e))
        × (get_elem? w.registry.entries e.slot ≡ some e)
        × (e.state ≡ live)
  resolve_exact v kind e h =
      let (t, reads, at, alive) = resolve_inv w.registry v kind h in
      let slot : e.slot ≡ t.slot = run-IsSound.slots t.slot e at.found in
      (
        reads ∙ ap some (token_eq w.registry t e at slot),
        subst (λ s. get_elem? w.registry.entries s ≡ some e) (sym slot) at.found,
        alive,
      )

  -- What `allocate` returns gives access to exactly what was stored. If the registry's name is not
  -- empty and its epoch is a positive safe integer, as its constructor asserts, and the slot and the
  -- generation of the token are safe integers, then `get` with the token, for its kind or for any,
  -- returns the value.
  pub get-allocate :
      (q : Request V) (r : Registry V) (t : Token)
      → is_empty runtime_id ≡ false
      → 1 ≤ epoch
      → epoch ≤ max_safe
      → allocate w.registry q ≡ (r, returned t)
      → t.slot ≤ max_safe
      → t.generation ≤ max_safe
      → (get r (token_value t) none ≡ returned (some q.value))
        × (get r (token_value t) (some t.kind) ≡ returned (some q.value))
  get-allocate q r t named low high h slot generation =
      let (same_name, same_epoch) = Reach-SameName (start-IsSound runtime_id epoch) run in
      let good =
        allocate-IsToken w.registry r q t h (rw same_name named) (rw same_epoch low)
          (rw same_epoch high) slot generation in
      let (issued, awake) = allocate-Issued w run-IsSound q r t h in
      (
        get-Issued r t q.value issued awake good none refl,
        get-Issued r t q.value issued awake good (some t.kind)
            (rw issued.token (text_eq_refl issued.holder.kind)),
      )
