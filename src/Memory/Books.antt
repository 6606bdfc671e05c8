-- ===== src/Memory/Books.antt =====
-- The private fields of MemoryManager over a registry, and `allocate` and `release`, each cut at
-- its awaits. Between the parts any other call may run.
use cuda_js.Base.{
  ℕ, ◌+◌, ◌-◌, Bool, ◌&&◌, Option, none, some, List, [], ◌∷◌, ltb, leb, ◌==◌, if◌then◌else◌,
}
use cuda_js.Base.Outcome.{Outcome, returned, thrown, ◌>>=◌, ◌>>◌, require, reject}
use cuda_js.Js.{text, Value, string, callable, field, nonnegative_safe_integer}
use cuda_js.Failure.{Failure, failure, pressure}
use cuda_js.Registry.State.{Entry, Registry, Token}
use cuda_js.Registry.Access.{get}
use cuda_js.Registry.Allocation.{Request, allocate}
use cuda_js.Registry.Closing.{begin_close, settle}
use cuda_js.Registry.Disposal.{Disposal, resolved, rejected}
use cuda_js.Memory.Policy.{Policy, byte_length}
use cuda_js.Memory.Failures.{allocation_rollback_error}

-- What the registry holds: the record of a device allocation, with the driver's handle of it, or
-- a resource of another kind.
pub data Content {ℓ} (N : Type ℓ) : Type ℓ where
  device : N → ℕ → Content N
  other : N → Content N

-- `allocationLengths` maps a slot and a generation, `slot:generation`, to a length.
pub record Books : Type 0 where
  pub policy : Policy
  pub reserved_bytes : ℕ
  pub allocation_count : ℕ
  pub allocation_lengths : List ((ℕ × ℕ) × ℕ)
  pub rollback_failure : Option Failure

abbrev same_key : ℕ × ℕ → ℕ × ℕ → Bool
same_key a b = a.0 == b.0 && a.1 == b.1

abbrev pub remembered : List ((ℕ × ℕ) × ℕ) → ℕ × ℕ → Option ℕ
remembered [] k = none
remembered (x ∷ xs) k = if same_key x.0 k then some x.1 else remembered xs k

abbrev pub forget : List ((ℕ × ℕ) × ℕ) → ℕ × ℕ → List ((ℕ × ℕ) × ℕ)
forget [] k = []
forget (x ∷ xs) k = if same_key x.0 k then forget xs k else x ∷ forget xs k

abbrev rethrow : Option Failure → Outcome Failure (Unit {0})
rethrow none = returned tt
rethrow (some f) = thrown f

-- `allocate` up to the driver's call: the length is admitted and its bytes are reserved.
unfoldable pub reserve : Books → Value → Outcome Failure (Books × ℕ)
unfolding byte_length
reserve b requested = do
  rethrow b.rollback_failure
  len ← byte_length requested
  require (leb len b.policy.max_allocation_bytes) (failure "MEMORY_ALLOCATION_LIMIT" pressure)
  reject (ltb (b.policy.max_device_bytes - len) b.reserved_bytes)
      (failure "MEMORY_QUOTA_EXCEEDED" pressure)
  returned (record b { reserved_bytes = b.reserved_bytes + len }, len)

-- The driver refused: the reservation is given back.
unfoldable pub unreserve : Books → ℕ → Books
unreserve b len = record b { reserved_bytes = b.reserved_bytes - len }

abbrev pub registered : Books → Token → ℕ → Books
registered b t len = record b {
  allocation_count = b.allocation_count + 1;
  allocation_lengths =
      ((t.slot, t.generation), len) ∷ forget b.allocation_lengths (t.slot, t.generation);
}

abbrev first_failure : Option Failure → Failure → Failure
first_failure none f = f
first_failure (some g) f = g

-- The registry refused the token: the driver is asked to free the allocation, and where that fails
-- too the bytes stay reserved and the manager refuses every later allocation.
unfoldable pub roll_back : Books → ℕ → Failure → Disposal → Option ℕ → Books × Failure
unfolding allocation_rollback_error unreserve
roll_back b len f resolved operation_id = (unreserve b len, f)
roll_back b len f (rejected error) operation_id =
    let g =
      first_failure b.rollback_failure (allocation_rollback_error f (error ∷ []) operation_id) in
    (record b { rollback_failure = some g }, g)

-- `Number.isSafeInteger(token?.slot) && Number.isSafeInteger(token?.generation)`; no entry has a
-- negative slot or generation, so a negative one is remembered nowhere.
unfoldable pub identity : Value → Option (ℕ × ℕ)
unfolding field nonnegative_safe_integer
identity token = elim (nonnegative_safe_integer (field token (text "slot"))) [
  | none ↦ none
  | some slot ↦ elim (nonnegative_safe_integer (field token (text "generation"))) [
    | none ↦ none
    | some generation ↦ some (slot, generation)
  ]
]

unfoldable pub remembered_length : Books → Value → Option ℕ
unfolding identity
remembered_length b token = elim (identity token) [
  | none ↦ none
  | some k ↦ remembered b.allocation_lengths k
]

-- The disposer that `allocate` gave: the books follow the driver.
unfoldable pub dispose_memory : Books → ℕ → Disposal → Books
dispose_memory b len resolved = record b {
  reserved_bytes = b.reserved_bytes - len;
  allocation_count = b.allocation_count - 1;
}
dispose_memory b len (rejected error) = b

abbrev pub forget_token : Books → Option (ℕ × ℕ) → Books
forget_token b none = b
forget_token b (some k) = record b { allocation_lengths = forget b.allocation_lengths k }

module _ {ℓ} {N : Type ℓ} where
  abbrev pub memory_request : N → ℕ → Value → Value → Request (Content N)
  memory_request native len context_token nonce = record {
    kind = string (text "device-memory");
    value = device native len;
    parent = context_token;
    dispose = callable;
    nonce = nonce;
  }

  -- What follows the registry's answer: a refusal waits for the driver to free the allocation.
  unfoldable pub conclude :
      Books
      → ℕ
      → Registry (Content N)
      → Outcome Failure Token
      → Registry (Content N) × Books × Outcome Failure Token
  conclude b len r (returned t) = (r, registered b t len, returned t)
  conclude b len r (thrown f) = (r, b, thrown f)

  -- `allocate` behind the driver's call, up to the await of `operations.free` where the registry
  -- refuses; `roll_back` is what follows that.
  unfoldable pub register :
      Registry (Content N)
      → Books
      → ℕ
      → Request (Content N)
      → Registry (Content N) × Books × Outcome Failure Token
  unfolding allocate conclude
  register r b len q = let (r', out) = allocate r q in conclude b len r' out

  abbrev length_of : Option (Content N) → Option ℕ
  length_of (some (device native len)) = some len
  length_of _ = none

  -- The length that `release` reports, remembered or asked of the registry.
  unfoldable pub released_length : Registry (Content N) → Books → Value → Outcome Failure (Option ℕ)
  unfolding get remembered_length
  released_length r b token = elim (remembered_length b token) [
    | some len ↦ returned (some len)
    | none ↦ do record_ ← get r token (some (text "device-memory")); returned (length_of record_)
  ]

  -- `release` up to the await of the disposer.
  unfoldable pub begin_release :
      Registry (Content N)
      → Books
      → Value
      → Outcome Failure (Registry (Content N) × Entry (Content N) × Option ℕ)
  unfolding released_length begin_close
  begin_release r b token = do
    len ← released_length r b token
    closing ← begin_close r token
    returned (closing.0, closing.1, len)

  -- `release` behind the await.
  unfoldable pub finish_release :
      Registry (Content N)
      → Books
      → Value
      → ℕ
      → Option ℕ
      → ℕ
      → Disposal
      → Registry (Content N) × Books × Outcome Failure (Unit {0})
  unfolding settle dispose_memory identity
  finish_release r b token slot parent len resolved =
      let (r', out) = settle r slot parent resolved in
      (r', forget_token (dispose_memory b len resolved) (identity token), out)
  finish_release r b token slot parent len (rejected error) =
      let (r', out) = settle r slot parent (rejected error) in
      (r', dispose_memory b len (rejected error), out)
