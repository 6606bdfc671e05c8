-- ===== src/Memory/Releases.antt =====
-- Releases keep the books of a memory manager balanced.
use cuda_js.Base.{
  ℕ, ◌-◌, ◌≡◌, refl, sym, subst, Option, some, ◌∷◌, arith, get_elem?, inl, inr, Option-cases,
}
use cuda_js.Base.Outcome.{Outcome, returned, >>=-eq-returned}
use cuda_js.Js.{Value}
use cuda_js.Failure.{Failure}
use cuda_js.Registry.State.{Entry, Registry}
use cuda_js.Registry.Closing.{begin_close, settle}
use cuda_js.Registry.Disposal.{Disposal, resolved, rejected}
use cuda_js.Registry.Steps as R
use cuda_js.Registry.Steps.{World, Closing, remove_at, start, Step}
use cuda_js.Registry.Safety.{Step-IsSound}
use cuda_js.Registry.Weights.{begin_close-total, resolved-total, rejected-total}
use cuda_js.Memory.Policy.{IsPolicy}
use cuda_js.Memory.Books.{
  Content, device, other, Books, begin_release, finish_release, dispose_memory, released_length,
  forget_token, identity,
}
use cuda_js.Memory.Steps.{Memory}
use cuda_js.Memory.Balance.{bytes_of, unit_of, IsBalanced, same_sums}

module _ {ℓ} {N : Type ℓ} where
  module _ (m : Memory N) (v : IsBalanced m) where
    pub closes-IsBalanced :
        (value : Value) (r : Registry (Content N)) (e : Entry (Content N))
        → begin_close m.world.registry value ≡ returned (r, e)
        → IsBalanced (record m {
          world = record m.world {
            registry = r;
            pending = record { slot = e.slot; parent = e.parent_slot } ∷ m.world.pending;
          };
        })
    closes-IsBalanced value r e begun =
        same_sums m v
          (record m.world {
            registry = r;
            pending = record { slot = e.slot; parent = e.parent_slot } ∷ m.world.pending;
          })
          (Step-IsSound (R.begins value r e begun) v.sound)
          (begin_close-total bytes_of m.world v.sound value r e begun)
          (begin_close-total unit_of m.world v.sound value r e begun)

    pub begins-IsBalanced :
        (value : Value) (r : Registry (Content N)) (e : Entry (Content N)) (len : Option ℕ)
        → begin_release m.world.registry m.books value ≡ returned (r, e, len)
        → IsBalanced (record m {
          world = record m.world {
            registry = r;
            pending = record { slot = e.slot; parent = e.parent_slot } ∷ m.world.pending;
          };
        })
    unfolding begin_release
    begins-IsBalanced value r e len h =
        let (k, asked, rest) =
          >>=-eq-returned (released_length m.world.registry m.books value) _ h in
        let (closing, begun, done) = >>=-eq-returned (begin_close m.world.registry value) _ rest in
        closes-IsBalanced value r e (ground arith)

    rejected-IsBalanced :
        (i : ℕ) (c : Closing) (error : Value)
        → get_elem? m.world.pending i ≡ some c
        → IsBalanced (record m {
          world = record m.world {
            registry = (settle m.world.registry c.slot c.parent (rejected error)).0;
            pending = remove_at m.world.pending i;
          };
        })
    rejected-IsBalanced i c error h =
        same_sums m v
          (record m.world {
            registry = (settle m.world.registry c.slot c.parent (rejected error)).0;
            pending = remove_at m.world.pending i;
          })
          (Step-IsSound (R.settles i c (rejected error) h) v.sound)
          (rejected-total bytes_of m.world v.sound i c error h)
          (rejected-total unit_of m.world v.sound i c error h)

    pub settles_other-IsBalanced :
        (i : ℕ) (c : Closing) (e : Entry (Content N)) (n : N) (d : Disposal)
        → get_elem? m.world.pending i ≡ some c
        → get_elem? m.world.registry.entries c.slot ≡ some e
        → e.value ≡ some (other n)
        → IsBalanced (record m {
          world = record m.world {
            registry = (settle m.world.registry c.slot c.parent d).0;
            pending = remove_at m.world.pending i;
          };
        })
    settles_other-IsBalanced i c e n (rejected error) h he hv = rejected-IsBalanced i c error h
    settles_other-IsBalanced i c e n resolved h he hv =
        let bytes = resolved-total bytes_of m.world v.sound i c e h he in
        let units = resolved-total unit_of m.world v.sound i c e h he in
        let no_bytes : bytes_of e.value ≡ 0 = rw hv refl in
        let no_unit : unit_of e.value ≡ 0 = rw hv refl in
        same_sums m v
          (record m.world {
            registry = (settle m.world.registry c.slot c.parent resolved).0;
            pending = remove_at m.world.pending i;
          })
          (Step-IsSound (R.settles i c resolved h) v.sound) (omega (arith, bytes, no_bytes))
          (omega (arith, units, no_unit))

    -- The driver has freed what the entry of a pending close held.
    emptied :
        (i : ℕ) (c : Closing) (e : Entry (Content N)) (native : N) (len : ℕ) (b : Books)
        → get_elem? m.world.pending i ≡ some c
        → get_elem? m.world.registry.entries c.slot ≡ some e
        → e.value ≡ some (device native len)
        → b.policy ≡ m.books.policy
        → b.reserved_bytes ≡ m.books.reserved_bytes - len
        → b.allocation_count ≡ m.books.allocation_count - 1
        → IsBalanced (record m {
          world = record m.world {
            registry = (settle m.world.registry c.slot c.parent resolved).0;
            pending = remove_at m.world.pending i;
          };
          books = b;
        })
    emptied i c e native len b h he hv same_policy less fewer =
        let bytes = resolved-total bytes_of m.world v.sound i c e h he in
        let units = resolved-total unit_of m.world v.sound i c e h he in
        let all_bytes : bytes_of e.value ≡ len = rw hv refl in
        let one_unit : unit_of e.value ≡ 1 = rw hv refl in
        record {
          sound = Step-IsSound (R.settles i c resolved h) v.sound;
          policy = subst IsPolicy (sym same_policy) v.policy;
          reserved = omega (arith, v.reserved, bytes, all_bytes, less);
          counted = omega (arith, v.counted, units, one_unit, fewer);
          quota = rw same_policy (omega (arith, v.quota, less));
        }

    pub finishes-IsBalanced :
        (i : ℕ) (c : Closing) (e : Entry (Content N)) (native : N) (len : ℕ) (d : Disposal)
        (token : Value) (r : Registry (Content N)) (b : Books) (out : Outcome Failure (Unit {0}))
        → get_elem? m.world.pending i ≡ some c
        → get_elem? m.world.registry.entries c.slot ≡ some e
        → e.value ≡ some (device native len)
        → finish_release m.world.registry m.books token c.slot c.parent len d ≡ (r, b, out)
        → IsBalanced (record m {
          world = record m.world { registry = r; pending = remove_at m.world.pending i };
          books = b;
        })
    unfolding finish_release dispose_memory
    finishes-IsBalanced i c e native len (rejected error) token r b out h he hv done =
        let r' : (settle m.world.registry c.slot c.parent (rejected error)).0 ≡ r = ground arith in
        let b' : m.books ≡ b = ground arith in rw (← r', ← b') (rejected-IsBalanced i c error h)
    finishes-IsBalanced i c e native len resolved token r b out h he hv done =
        let r' : (settle m.world.registry c.slot c.parent resolved).0 ≡ r = ground arith in
        let b' : forget_token (dispose_memory m.books len resolved) (identity token) ≡ b =
          ground arith in
        rw (← r', ← b')
          (elim (Option-cases (identity token)) [
            | inl none_known ↦ rw none_known (emptied i c e native len _ h he hv refl refl refl)
            | inr (k, known) ↦ rw known (emptied i c e native len _ h he hv refl refl refl)
          ])
