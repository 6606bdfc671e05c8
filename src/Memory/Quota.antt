-- ===== src/Memory/Quota.antt =====
-- The books of a memory manager balance in every state that it reaches.
use cuda_js.Base.{ℕ, ◌≡◌, refl, ap, Option, some, ◌∷◌, arith, modify, inl, inr}
use cuda_js.Base.Outcome.{Outcome-cases}
use cuda_js.Js.{Text}
use cuda_js.Registry.Allocation.{Request, allocate}
use cuda_js.Registry.Closing.{mark_epoch_dead}
use cuda_js.Registry.Steps as R
use cuda_js.Registry.Steps.{World, Closing, remove_at, start, Step}
use cuda_js.Registry.Safety.{Step-IsSound}
use cuda_js.Registry.Weights.{
  total, allocate-total, refused-total, dead-total, acquire-total, release-total,
}
use cuda_js.Memory.Policy.{Policy, IsPolicy}
use cuda_js.Memory.Books.{Content}
use cuda_js.Memory.Steps.{
  Memory, open_memory, MemoryStep, MemoryReach, IsOther, with_registry, reserves, refuses,
  registers, frees, closes, begins, finishes, allocates_other, settles_other, acquires, drops, dies,
  here, next,
}
use cuda_js.Memory.Balance.{
  bytes_of, unit_of, IsBalanced, open-IsBalanced, reserves-IsBalanced, refuses-IsBalanced,
  same_sums,
}
use cuda_js.Memory.Releases.{
  begins-IsBalanced, closes-IsBalanced, settles_other-IsBalanced, finishes-IsBalanced,
}
use cuda_js.Memory.Registrations.{registers-IsBalanced, frees-IsBalanced}

module _ {ℓ} {N : Type ℓ} where
  module _ (m : Memory N) (v : IsBalanced m) where
    allocates_other-IsBalanced :
        (q : Request (Content N))
        → IsOther q.value
        → IsBalanced (record m { world = with_registry m.world (allocate m.world.registry q).0 })
    allocates_other-IsBalanced q (n, is_other) =
        same_sums m v (with_registry m.world (allocate m.world.registry q).0)
          (Step-IsSound (R.allocates q) v.sound) (sum_of_other bytes_of (rw is_other refl))
          (sum_of_other unit_of (rw is_other refl))
      where
        sum_of_other :
            (weight : Option (Content N) → ℕ)
            → weight (some q.value) ≡ 0
            → total weight (allocate m.world.registry q).0.entries
              ≡ total weight m.world.registry.entries
        sum_of_other weight none_here = elim (Outcome-cases (allocate m.world.registry q).1) [
          | inl (t, e) ↦ omega (
            arith,
            allocate-total weight m.world v.sound q (allocate m.world.registry q).0 t
                (ap (λ o. ((allocate m.world.registry q).0, o)) e),
            none_here,
          )
          | inr (f, e) ↦
              refused-total weight m.world v.sound q (allocate m.world.registry q).0 f
                (ap (λ o. ((allocate m.world.registry q).0, o)) e)
        ]

  MemoryStep-IsBalanced : {m n : Memory N} → MemoryStep m n → IsBalanced m → IsBalanced n
  MemoryStep-IsBalanced {m} (reserves value b len h) v = reserves-IsBalanced m v value b len h
  MemoryStep-IsBalanced {m} (refuses i len h) v = refuses-IsBalanced m v i len h
  MemoryStep-IsBalanced {m} (registers i len native t nonce r b out h e) v =
      registers-IsBalanced m v i len native t nonce h e
  MemoryStep-IsBalanced {m} (frees i len f freed o h) v = frees-IsBalanced m v i len f freed o h
  MemoryStep-IsBalanced {m} (closes value r e h) v = closes-IsBalanced m v value r e h
  MemoryStep-IsBalanced {m} (begins value r e len h) v = begins-IsBalanced m v value r e len h
  MemoryStep-IsBalanced {m} (finishes i c e native len d t r b out h he hv done) v =
      finishes-IsBalanced m v i c e native len d t r b out h he hv done
  MemoryStep-IsBalanced {m} (allocates_other q o) v = allocates_other-IsBalanced m v q o
  MemoryStep-IsBalanced {m} (settles_other i c e n d h he hv) v =
      settles_other-IsBalanced m v i c e n d h he hv
  MemoryStep-IsBalanced {m} (acquires value kind r l h) v =
      same_sums m v (record m.world { registry = r; handles = l ∷ m.world.handles })
        (Step-IsSound (R.acquires value kind r l h) v.sound)
        (acquire-total bytes_of m.world.registry value kind h)
        (acquire-total unit_of m.world.registry value kind h)
  MemoryStep-IsBalanced {m} (drops i l l' r at h) v =
      same_sums m v (record m.world { registry = r; handles = modify m.world.handles i (λ _. l') })
        (Step-IsSound (R.releases i l l' r at h) v.sound)
        (release-total bytes_of m.world.registry l h) (release-total unit_of m.world.registry l h)
  MemoryStep-IsBalanced {m} dies v =
      same_sums m v (with_registry m.world (mark_epoch_dead m.world.registry))
        (Step-IsSound R.dies v.sound) (dead-total bytes_of m.world.registry)
        (dead-total unit_of m.world.registry)

  MemoryReach-IsBalanced : {m n : Memory N} → IsBalanced m → MemoryReach m n → IsBalanced n
  MemoryReach-IsBalanced v here = v
  MemoryReach-IsBalanced v (next r s) = MemoryStep-IsBalanced s (MemoryReach-IsBalanced v r)

  -- In every state that a new memory manager reaches, over a registry whose other owners allocate,
  -- lease and close what they hold, calls and answers of the driver coming in any order: the
  -- reserved bytes are those whose allocation is awaited, those of the device allocations that the
  -- registry holds and has not closed, those that the driver is asked to free after a refusal of the
  -- registry, and those that could not be freed; the count is that of the allocations that the
  -- registry holds; and the reserved bytes never exceed the policy's limit on the device.
  pub reach-IsBalanced :
      (runtime_id : Text) (epoch : ℕ) (p : Policy) {m : Memory N}
      → IsPolicy p
      → MemoryReach (open_memory runtime_id epoch p) m
      → IsBalanced m
  reach-IsBalanced runtime_id epoch p ok run =
      MemoryReach-IsBalanced (open-IsBalanced runtime_id epoch p ok) run
