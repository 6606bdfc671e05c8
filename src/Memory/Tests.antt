-- ===== src/Memory/Tests.antt =====
-- A memory manager whose driver's handles are numbers: one allocation of sixteen bytes, and ranges
-- within it.
use cuda_js.Base.{ℕ, ◌+◌, ◌≤◌, ◌≡◌, ◌↔◌, refl, false, none, some, List, [], ◌∷◌, get_elem?}
use cuda_js.Base.Outcome.{Outcome, returned, thrown}
use cuda_js.Js.{
  Text, text, Value, null, string, natural, is_absent, string_of, object, bare, field, lookup_field,
  max_safe, positive_safe_integer, nonnegative_safe_integer, plain_fields, or_else, fraction,
  is_callable,
}
use cuda_js.Failure.{Failure, failure, stale_resource, validation, rank, restart_required, Health}
use cuda_js.Registry.State.{live, Entry, Registry, Token, empty}
use cuda_js.Registry.Tokens.{read_token, token_value, is_kind, is_nonce}
use cuda_js.Registry.Access.{Lease, resolve, locate, locate_token, acquire, release, count_lease}
use cuda_js.Registry.Allocation.{Request, allocate, admit, place, parent_entry}
use cuda_js.Registry.Steps.{World, start}
use cuda_js.Memory.Policy.{
  IsPolicy, default_policy, normalize_memory_policy, normalize_memory_policy-IsPolicy,
  only_policy_fields, limit, within_limit, byte_length, byte_offset, checked_range,
  checked_range_iff,
}
use cuda_js.Memory.Failures.{
  SemanticFailure, allocation_rollback_error, allocation_rollback_error_health, rollback_records,
  structured,
}
use cuda_js.Memory.Books.{
  Content, device, Books, reserve, register, registered, conclude, memory_request,
}
use cuda_js.Memory.Transfers.{
  Range, acquire_for_execution, acquire_range_for_transfer, whole_range, give_back,
}
use cuda_js.Memory.Leases.{acquire_range_for_transfer_lem}
use cuda_js.Memory.Steps.{
  Memory, open_memory, fresh, MemoryReach, here, next, reserves, registers, with_registry,
}
use cuda_js.Memory.Balance.{IsBalanced}
use cuda_js.Memory.Quota.{reach-IsBalanced}

abbrev owner : Text
owner = text "rt"

abbrev nonce : Text
nonce = text "0123456789abcdef0123456789abcdef"

no_options : normalize_memory_policy (object bare) ≡ returned default_policy
unfolding normalize_memory_policy plain_fields only_policy_fields limit within_limit lookup_field
    or_else positive_safe_integer
no_options = refl

normalize_memory_policy-IsPolicy_example : IsPolicy default_policy
normalize_memory_policy-IsPolicy_example = normalize_memory_policy-IsPolicy (object bare) no_options

abbrev reserved_books : Books
reserved_books = record (fresh default_policy) { reserved_bytes = 16 }

reserved : reserve (fresh default_policy) (natural 16) ≡ returned (reserved_books, 16)
unfolding reserve byte_length positive_safe_integer
reserved = refl

abbrev request : Request (Content ℕ)
request = memory_request 7 16 null (string nonce)

abbrev token : Token
token = record {
  runtime_id = owner;
  epoch = 1;
  kind = text "device-memory";
  slot = 0;
  generation = 1;
  nonce = nonce;
}

abbrev token_given : Value
unfolding token_value
token_given = token_value token

abbrev held : Entry (Content ℕ)
held = record {
  slot = 0;
  generation = 1;
  nonce = nonce;
  kind = text "device-memory";
  state = live;
  parent_slot = none;
  children = [];
  leases = 0;
  value = some (device 7 16);
  disposal_failure = none;
  orphan_disposition = none;
  orphan_reason = none;
}

abbrev registry : Registry (Content ℕ)
registry = record (empty owner 1) { entries = held ∷ [] }

allocated :
    register (empty owner 1) reserved_books 16 request
    ≡ (registry, registered reserved_books token 16, returned token)
unfolding register conclude allocate admit place is_kind is_nonce parent_entry is_absent string_of
    is_callable
allocated = refl

abbrev world : World (Content ℕ)
world = with_registry (start owner 1) registry

abbrev memory : Memory ℕ
memory = record {
  world = world;
  books = registered reserved_books token 16;
  allocating = [];
  freeing = [];
  unproved = 0;
}

run : MemoryReach (open_memory owner 1 default_policy) memory
run = next (next here (reserves (natural 16) reserved_books 16 reserved)) (
    registers 0 16 7 null (string nonce) registry (registered reserved_books token 16)
      (returned token) refl allocated)

reach-IsBalanced_example : IsBalanced memory
reach-IsBalanced_example =
    reach-IsBalanced owner 1 default_policy
      (normalize_memory_policy-IsPolicy (object bare) no_options) run

-- The last four bytes, and four bytes of which one is outside.
abbrev lease : Lease (Content ℕ)
lease = record { slot = 0; generation = 1; value = some (device 7 16); released = false }

abbrev last_four : Range ℕ
last_four = record {
  native = 7;
  allocation_length = 16;
  device_offset = 12;
  transfer_length = 4;
  lease = lease;
}

abbrev leased : Registry (Content ℕ)
leased = record registry { entries = count_lease held ∷ [] }

in_range :
    acquire_range_for_transfer registry token_given (natural 12) (natural 4)
    ≡ (leased, returned last_four)
unfolding acquire_range_for_transfer acquire whole_range token_value read_token is_kind is_nonce
    resolve locate locate_token checked_range byte_length byte_offset positive_safe_integer
    nonnegative_safe_integer
in_range = refl

out_of_range :
    acquire_range_for_transfer registry token_given (natural 13) (natural 4)
    ≡ (registry, thrown (failure "MEMORY_RANGE_OUT_OF_BOUNDS" validation))
unfolding acquire_range_for_transfer acquire whole_range give_back release token_value read_token
    is_kind is_nonce resolve locate locate_token checked_range byte_length byte_offset
    positive_safe_integer nonnegative_safe_integer
out_of_range = refl

acquire_range_for_transfer_example :
    ((f : Failure) → returned last_four ≡ thrown f → leased ≡ registry)
    × ((range : Range ℕ)
        → Path (Outcome Failure (Range ℕ)) (returned last_four) (returned range)
        → (1 ≤ range.transfer_length)
          × (range.device_offset + range.transfer_length ≤ range.allocation_length)
          × (range.lease.value ≡ some (device range.native range.allocation_length))
          × (acquire registry token_given (some (text "device-memory"))
              ≡ returned (leased, range.lease)))
acquire_range_for_transfer_example =
    acquire_range_for_transfer_lem world
      (reach-IsBalanced owner 1 default_policy
        (normalize_memory_policy-IsPolicy (object bare) no_options) run).sound
      token_given (natural 12) (natural 4) in_range

rest_from_eight :
    acquire_for_execution registry token_given (natural 8)
    ≡ (leased, returned (record last_four { device_offset = 8; transfer_length = 8 }))
unfolding acquire_for_execution acquire token_value read_token is_kind is_nonce resolve locate
    locate_token byte_offset nonnegative_safe_integer
rest_from_eight = refl

checked_range_example : (checked_range 16 (natural 12) (natural 4) ≡ returned (12, 4)) ↔ (
    (natural 12 ≡ natural 12)
    × (natural 4 ≡ natural 4)
    × (1 ≤ 4)
    × (12 ≤ max_safe)
    × (4 ≤ max_safe)
    × (12 + 4 ≤ 16))
checked_range_example = checked_range_iff 16 (natural 12) (natural 4) 12 4

abbrev refused : Failure
refused = failure "RESOURCE_NONCE_INVALID" stale_resource

allocation_rollback_error_health_example :
    ((i : ℕ) (r : SemanticFailure) (h : Health)
      → get_elem? (rollback_records refused (fraction ∷ [])) i ≡ some r
      → r.health_after ≡ some h
      → (b : Health) × ((allocation_rollback_error refused (fraction ∷ []) none).health_after
          ≡ some b)
        × (rank h ≤ rank b))
    × ((e : Value) (es : List Value)
        → (fraction ∷ []) ≡ e ∷ es
        → structured (field e (text "code")) (field e (text "category")) ≡ none
        → (b : Health) × ((allocation_rollback_error refused (fraction ∷ []) none).health_after
            ≡ some b)
          × (rank restart_required ≤ rank b))
allocation_rollback_error_health_example =
    allocation_rollback_error_health refused (fraction ∷ []) none
