-- ===== src/Memory/Steps.antt =====
-- A memory manager and its registry in use: allocations that await the driver, releases that await
-- their disposers, and whatever else the owners of the registry do in between.
use cuda_js.Base.{ℕ, ◌+◌, ◌≡◌, Option, none, some, List, [], ◌∷◌, get_elem?, modify}
use cuda_js.Base.Outcome.{Outcome, returned, thrown}
use cuda_js.Js.{Text, Value}
use cuda_js.Failure.{Failure}
use cuda_js.Registry.State.{Entry, Registry, Token}
use cuda_js.Registry.Access.{Lease, acquire, release}
use cuda_js.Registry.Allocation.{Request, allocate}
use cuda_js.Registry.Closing.{begin_close, settle, mark_epoch_dead}
use cuda_js.Registry.Disposal.{Disposal, resolved, rejected}
use cuda_js.Registry.Steps.{World, Closing, remove_at, start}
use cuda_js.Memory.Policy.{Policy}
use cuda_js.Memory.Books.{
  Content, device, other, Books, reserve, unreserve, register, roll_back, memory_request,
  begin_release, finish_release,
}

-- `allocating` has the lengths whose driver calls are awaited, `freeing` those that the driver has
-- given and is asked to free, with the failure that the registry threw; `unproved` are the bytes of
-- allocations that the driver could not free.
pub record Memory {ℓ} (N : Type ℓ) : Type ℓ where
  pub world : World (Content N)
  pub books : Books
  pub allocating : List ℕ
  pub freeing : List (ℕ × Failure)
  pub unproved : ℕ

abbrev pub fresh : Policy → Books
fresh policy = record {
  policy = policy;
  reserved_bytes = 0;
  allocation_count = 0;
  allocation_lengths = [];
  rollback_failure = none;
}

abbrev pub open_memory {ℓ} : {N : Type ℓ} → Text → ℕ → Policy → Memory N
open_memory runtime_id epoch policy = record {
  world = start runtime_id epoch;
  books = fresh policy;
  allocating = [];
  freeing = [];
  unproved = 0;
}

-- The bytes that a driver could not free after the registry refused their token.
abbrev pub lost_bytes : ℕ → Disposal → ℕ
lost_bytes len resolved = 0
lost_bytes len (rejected e) = len

abbrev pub await_free : Outcome Failure Token → ℕ → List (ℕ × Failure) → List (ℕ × Failure)
await_free (returned t) len fs = fs
await_free (thrown f) len fs = (len, f) ∷ fs

module _ {ℓ} {N : Type ℓ} where
  abbrev pub with_registry : World (Content N) → Registry (Content N) → World (Content N)
  with_registry w r = record w { registry = r }

  -- A request that is no device allocation.
  abbrev pub IsOther : Content N → Type ℓ
  IsOther c = (n : N) × (c ≡ other n)

  -- Calls that throw before they change anything are left out.
  pub data MemoryStep (m : Memory N) : Memory N → Type ℓ where
    reserves :
        (v : Value) (b : Books) (len : ℕ)
        → reserve m.books v ≡ returned (b, len)
        → MemoryStep m (record m { books = b; allocating = len ∷ m.allocating })
    refuses :
        (i len : ℕ)
        → get_elem? m.allocating i ≡ some len
        → MemoryStep m
            (record m { books = unreserve m.books len; allocating = remove_at m.allocating i })
    registers :
        (i len : ℕ) (native : N) (context_token nonce : Value) (r : Registry (Content N))
        (b : Books) (out : Outcome Failure Token)
        → get_elem? m.allocating i ≡ some len
        → register m.world.registry m.books len (memory_request native len context_token nonce)
          ≡ (r, b, out)
        → MemoryStep m (record m {
          world = with_registry m.world r;
          books = b;
          allocating = remove_at m.allocating i;
          freeing = await_free out len m.freeing;
        })
    frees :
        (i len : ℕ) (f : Failure) (freed : Disposal) (operation_id : Option ℕ)
        → get_elem? m.freeing i ≡ some (len, f)
        → MemoryStep m (record m {
          books = (roll_back m.books len f freed operation_id).0;
          freeing = remove_at m.freeing i;
          unproved = m.unproved + lost_bytes len freed;
        })
    begins :
        (v : Value) (r : Registry (Content N)) (e : Entry (Content N)) (len : Option ℕ)
        → begin_release m.world.registry m.books v ≡ returned (r, e, len)
        → MemoryStep m (record m {
          world = record m.world {
            registry = r;
            pending = record { slot = e.slot; parent = e.parent_slot } ∷ m.world.pending;
          };
        })
    -- Another owner closes what it holds, or the close of an allocation is asked of the registry.
    closes :
        (v : Value) (r : Registry (Content N)) (e : Entry (Content N))
        → begin_close m.world.registry v ≡ returned (r, e)
        → MemoryStep m (record m {
          world = record m.world {
            registry = r;
            pending = record { slot = e.slot; parent = e.parent_slot } ∷ m.world.pending;
          };
        })
    finishes :
        (i : ℕ) (c : Closing) (e : Entry (Content N)) (native : N) (len : ℕ) (d : Disposal)
        (token : Value) (r : Registry (Content N)) (b : Books) (out : Outcome Failure (Unit {0}))
        → get_elem? m.world.pending i ≡ some c
        → get_elem? m.world.registry.entries c.slot ≡ some e
        → e.value ≡ some (device native len)
        → finish_release m.world.registry m.books token c.slot c.parent len d ≡ (r, b, out)
        → MemoryStep m (record m {
          world = record m.world { registry = r; pending = remove_at m.world.pending i };
          books = b;
        })
    allocates_other :
        (q : Request (Content N))
        → IsOther q.value
        → MemoryStep m (record m { world = with_registry m.world (allocate m.world.registry q).0 })
    settles_other :
        (i : ℕ) (c : Closing) (e : Entry (Content N)) (n : N) (d : Disposal)
        → get_elem? m.world.pending i ≡ some c
        → get_elem? m.world.registry.entries c.slot ≡ some e
        → e.value ≡ some (other n)
        → MemoryStep m (record m {
          world = record m.world {
            registry = (settle m.world.registry c.slot c.parent d).0;
            pending = remove_at m.world.pending i;
          };
        })
    acquires :
        (v : Value) (kind : Option Text) (r : Registry (Content N)) (l : Lease (Content N))
        → acquire m.world.registry v kind ≡ returned (r, l)
        → MemoryStep m
            (record m { world = record m.world { registry = r; handles = l ∷ m.world.handles } })
    drops :
        (i : ℕ) (l l' : Lease (Content N)) (r : Registry (Content N))
        → get_elem? m.world.handles i ≡ some l
        → release m.world.registry l ≡ returned (r, l')
        → MemoryStep m (record m {
          world = record m.world { registry = r; handles = modify m.world.handles i (λ _. l') };
        })
    dies :
        MemoryStep m (record m { world = with_registry m.world (mark_epoch_dead m.world.registry) })

  pub data MemoryReach (m : Memory N) : Memory N → Type ℓ where
    here : MemoryReach m m
    next : {n k : Memory N} → MemoryReach m n → MemoryStep n k → MemoryReach m k
