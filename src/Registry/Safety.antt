-- ===== src/Registry/Safety.antt =====
-- Every history of calls and settled disposers keeps a registry sound, and what follows from that.
use cuda_js.Base.{
  ℕ, zero, suc, ◌≡◌, refl, Bool, true, false, List, [], ◌∷◌, arith, get_elem?, map, get_elem?-map,
  get_elem?-map_of, if◌then◌else◌,
}
use cuda_js.Js.{Text}
use cuda_js.Registry.State.{
  State, live, closing, closed, orphaned, Entry, Registry, is_closed, is_live, shape_of,
}
use cuda_js.Registry.Closing.{mark_epoch_dead, lose_if}
use cuda_js.Registry.Steps.{
  World, Step, allocates, acquires, releases, begins, settles, dies, Reach, here, next, start,
}
use cuda_js.Registry.Invariant.{IsSound, leases_of}
use cuda_js.Registry.Leasing.{acquire-IsSound, release-IsSound}
use cuda_js.Registry.Settling.{begin_close-IsSound}
use cuda_js.Registry.Settled.{settle-IsSound}
use cuda_js.Registry.Allocated.{allocate-IsSound}

module _ {ℓ} {V : Type ℓ} where
  abbrev mark : Entry V → Entry V
  mark e = lose_if e.state e

  shape-lose_if : (s : State) (e : Entry V) → e.state ≡ s → shape_of (lose_if s e) ≡ shape_of e
  shape-lose_if live e h = ground arith
  shape-lose_if closing e h = ground arith
  shape-lose_if closed e h = refl
  shape-lose_if orphaned e h = refl

  shapes-mark : (xs : List (Entry V)) → map shape_of (map mark xs) ≡ map shape_of xs
  shapes-mark [] = refl
  shapes-mark (x ∷ xs) = rw (shape-lose_if x.state x refl, shapes-mark xs) refl

  -- What `markEpochDead` keeps of each entry.
  record Marked (x y : Entry V) : Type ℓ where
    slot : y.slot ≡ x.slot
    leases : y.leases ≡ x.leases
    owner : y.parent_slot ≡ x.parent_slot
    children : y.children ≡ x.children
    closed_lem : is_closed y.state ≡ is_closed x.state
    live_lem : is_live y.state ≡ false

  lose_if-Marked : (s : State) (x : Entry V) → x.state ≡ s → Marked x (lose_if s x)
  lose_if-Marked live x h = ground arith
  lose_if-Marked closing x h = ground arith
  lose_if-Marked closed x h = ground arith
  lose_if-Marked orphaned x h = ground arith

  leases-mark :
      (xs : List (Entry V)) (t : ℕ)
      → leases_of (get_elem? (map mark xs) t) ≡ leases_of (get_elem? xs t)
  leases-mark [] t = refl
  leases-mark (x ∷ xs) zero = (lose_if-Marked x.state x refl).leases
  leases-mark (x ∷ xs) (suc t) = leases-mark xs t

  module _ (w : World V) (v : IsSound w) where
    marked-IsSound : IsSound (record w {
      registry = record w.registry { dead = true; entries = map mark w.registry.entries };
    })
    marked-IsSound = record {
      forest = rw (shapes-mark w.registry.entries) v.forest;
      slots = λ t y h.
          let (x, hx, e) = get_elem?-map w.registry.entries mark t h in
          ground (arith, lose_if-Marked x.state x refl, v.slots t x hx);
      counted = λ t. rw (leases-mark w.registry.entries t) (v.counted t);
      idle = λ t y h c.
          let (x, hx, e) = get_elem?-map w.registry.entries mark t h in
          ground (arith, lose_if-Marked x.state x refl, v.idle t x hx);
      awaited = λ i c h.
          let (x, hx, a) = v.awaited i c h in
          let m = lose_if-Marked x.state x refl in
          (
            mark x,
            get_elem?-map_of w.registry.entries mark c.slot hx,
            record {
              owner = ground (arith, m.owner, a.owner);
              unleased = ground (arith, m.leases, a.unleased);
              owns_nothing = ground (arith, m.children, a.owns_nothing);
              not_live = m.live_lem;
              not_closed = ground (arith, m.closed_lem, a.not_closed);
            },
          );
      once = v.once;
    }

    dies-IsSound : IsSound (record w { registry = mark_epoch_dead w.registry })
    unfolding mark_epoch_dead
    dies-IsSound = elim w.registry.dead as (λ b. IsSound (record w { registry = marked b })) [
      | true ↦ v
      | false ↦ marked-IsSound
    ]
      where
        marked : Bool → Registry V
        marked b =
            if b
            then w.registry
            else record w.registry { dead = true; entries = map mark w.registry.entries }

  pub Step-IsSound : {w u : World V} → Step w u → IsSound w → IsSound u
  Step-IsSound {w} (allocates q) v = allocate-IsSound w v q
  Step-IsSound {w} (acquires token kind r l h) v = acquire-IsSound w v token kind r l h
  Step-IsSound {w} (releases i l l' r at h) v = release-IsSound w v i l l' r at h
  Step-IsSound {w} (begins token r e h) v = begin_close-IsSound w v token r e h
  Step-IsSound {w} (settles i c d at) v = settle-IsSound w v i c at d
  Step-IsSound {w} dies v = dies-IsSound w v

  pub Reach-IsSound : {w u : World V} → IsSound w → Reach w u → IsSound u
  Reach-IsSound v here = v
  Reach-IsSound v (next r s) = Step-IsSound s (Reach-IsSound v r)

  pub start-IsSound : (runtime_id : Text) (epoch : ℕ) → IsSound (start {V = V} runtime_id epoch)
  start-IsSound runtime_id epoch = record {
    forest = record {
      links = λ s x p h. cc;
      kids = λ p y c h. cc;
      childless = λ s x c h. cc;
      reusable = λ s h. cc;
      distinct = tt;
    };
    slots = λ s e h. cc;
    counted = λ s. refl;
    idle = λ s e h. cc;
    awaited = λ i c h. cc;
    once = tt;
  }
