-- ===== src/Memory/Registrations.antt =====
-- The registration of an allocation keeps the books of a memory manager balanced.
use cuda_js.Base.{ℕ, ◌+◌, ◌≡◌, refl, sym, ap, ◌∙◌, subst, Option, some, arith, get_elem?, ◌∷◌}
use cuda_js.Base.Outcome.{Outcome, returned, thrown}
use cuda_js.Js.{Value}
use cuda_js.Failure.{Failure}
use cuda_js.Registry.State.{Registry, Token}
use cuda_js.Registry.Allocation.{allocate}
use cuda_js.Registry.Disposal.{Disposal, resolved, rejected}
use cuda_js.Registry.Steps as R
use cuda_js.Registry.Steps.{World, Closing, remove_at, start, Step}
use cuda_js.Registry.Invariant.{IsSound}
use cuda_js.Registry.Safety.{Step-IsSound}
use cuda_js.Registry.Weights.{allocate-total, refused-total}
use cuda_js.Memory.Books.{
  Content, Books, unreserve, register, registered, roll_back, memory_request, conclude,
}
use cuda_js.Memory.Steps.{Memory, lost_bytes, await_free, with_registry}
use cuda_js.Memory.Balance.{sum-remove_at, sum-lengths, bytes_of, unit_of, IsBalanced}

module _ {ℓ} {N : Type ℓ} where
  module _ (m : Memory N) (v : IsBalanced m) where
    -- An allocation of the registry that returns, for a length that was reserved.
    kept :
        (i len : ℕ) (native : N) (context_token nonce : Value) (r : Registry (Content N))
        (t : Token)
        → get_elem? m.allocating i ≡ some len
        → allocate m.world.registry (memory_request native len context_token nonce)
          ≡ (r, returned t)
        → IsBalanced (record m {
          world = with_registry m.world r;
          books = registered m.books t len;
          allocating = remove_at m.allocating i;
        })
    kept i len native context_token nonce r t h done =
        let q = memory_request native len context_token nonce in
        let bytes = allocate-total bytes_of m.world v.sound q r t done in
        let units = allocate-total unit_of m.world v.sound q r t done in
        let after : (allocate m.world.registry q).0 ≡ r = ap (λ x. x.0) done in
        record {
          sound =
              subst (λ r. IsSound (with_registry m.world r)) after
                (Step-IsSound (R.allocates q) v.sound);
          policy = v.policy;
          reserved = omega (arith, v.reserved, bytes, sum-remove_at m.allocating i h);
          counted = omega (arith, v.counted, units);
          quota = v.quota;
        }

    -- One that throws.
    refused :
        (i len : ℕ) (native : N) (context_token nonce : Value) (r : Registry (Content N))
        (f : Failure)
        → get_elem? m.allocating i ≡ some len
        → allocate m.world.registry (memory_request native len context_token nonce) ≡ (r, thrown f)
        → IsBalanced (record m {
          world = with_registry m.world r;
          allocating = remove_at m.allocating i;
          freeing = (len, f) ∷ m.freeing;
        })
    refused i len native context_token nonce r f h done =
        let q = memory_request native len context_token nonce in
        let bytes = refused-total bytes_of m.world v.sound q r f done in
        let units = refused-total unit_of m.world v.sound q r f done in
        let after : (allocate m.world.registry q).0 ≡ r = ap (λ x. x.0) done in
        record {
          sound =
              subst (λ r. IsSound (with_registry m.world r)) after
                (Step-IsSound (R.allocates q) v.sound);
          policy = v.policy;
          reserved = omega (arith, v.reserved, bytes, sum-remove_at m.allocating i h);
          counted = v.counted ∙ sym units;
          quota = v.quota;
        }

    abbrev After : ℕ → ℕ → Registry (Content N) × Books × Outcome Failure Token → Memory N
    After i len x = record m {
      world = with_registry m.world x.0;
      books = x.1;
      allocating = remove_at m.allocating i;
      freeing = await_free x.2 len m.freeing;
    }

    conclude-IsBalanced :
        (i len : ℕ) (native : N) (context_token nonce : Value) (r : Registry (Content N))
        (x : Outcome Failure Token)
        → get_elem? m.allocating i ≡ some len
        → allocate m.world.registry (memory_request native len context_token nonce) ≡ (r, x)
        → IsBalanced (After i len (conclude m.books len r x))
    unfolding conclude
    conclude-IsBalanced i len native context_token nonce r (returned t) h done =
        kept i len native context_token nonce r t h done
    conclude-IsBalanced i len native context_token nonce r (thrown f) h done =
        refused i len native context_token nonce r f h done

    pub registers-IsBalanced :
        (i len : ℕ) (native : N) (context_token nonce : Value)
        {x : Registry (Content N) × Books × Outcome Failure Token}
        → get_elem? m.allocating i ≡ some len
        → register m.world.registry m.books len (memory_request native len context_token nonce) ≡ x
        → IsBalanced (After i len x)
    unfolding register
    registers-IsBalanced i len native context_token nonce h done =
        let q = memory_request native len context_token nonce in
        subst (λ x. IsBalanced (After i len x)) done
          (conclude-IsBalanced i len native context_token nonce (allocate m.world.registry q).0
            (allocate m.world.registry q).1 h refl)

    -- The driver's answer to a rollback.
    pub frees-IsBalanced :
        (i len : ℕ) (f : Failure) (freed : Disposal) (operation_id : Option ℕ)
        → get_elem? m.freeing i ≡ some (len, f)
        → IsBalanced (record m {
          books = (roll_back m.books len f freed operation_id).0;
          freeing = remove_at m.freeing i;
          unproved = m.unproved + lost_bytes len freed;
        })
    unfolding roll_back unreserve
    frees-IsBalanced i len f resolved operation_id h = record {
      sound = v.sound;
      policy = v.policy;
      reserved = omega (arith, v.reserved, sum-lengths m.freeing i h);
      counted = v.counted;
      quota = omega (arith, v.quota);
    }
    frees-IsBalanced i len f (rejected error) operation_id h = record {
      sound = v.sound;
      policy = v.policy;
      reserved = omega (arith, v.reserved, sum-lengths m.freeing i h);
      counted = v.counted;
      quota = v.quota;
    }
