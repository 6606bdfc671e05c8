-- ===== src/Registry/Tests.antt =====
-- Runs of a registry that holds numbers, and the guarantees at them.
use cuda_js.Base.{ℕ, ◌≤◌, ◌≡◌, refl, true, false, none, some, [], ◌∷◌, arith, get_elem?, subst}
use cuda_js.Base.Outcome.{Outcome, returned, thrown}
use cuda_js.Js.{Text, text, Value, null, string, callable, is_absent}
use cuda_js.Failure.{Failure, failure, stale_resource}
use cuda_js.Registry.Forest.{free_slot, sort_slots}
use cuda_js.Registry.State.{live, closed, Entry, Registry, Token, is_closed, empty}
use cuda_js.Registry.Tokens.{read_token, token_value, is_kind, is_nonce}
use cuda_js.Registry.Access.{Lease, resolve, get, acquire, release, count_lease}
use cuda_js.Registry.Allocation.{Request, allocate, parent_entry}
use cuda_js.Registry.Closing.{begin_close, settle, start_closing}
use cuda_js.Registry.Disposal.{resolved}
use cuda_js.Registry.Steps.{World, allocates, acquires, begins, settles, Reach, here, next, start}
use cuda_js.Registry.Invariant.{IsSound, held}
use cuda_js.Registry.Guarantees.{
  run-IsSound, release-held, begin_close_safe, use_after_close, resolve_exact, get-allocate,
}

abbrev owner : Text
owner = text "rt"

abbrev nonce : Text
nonce = text "0123456789abcdef0123456789abcdef"

abbrev request : Request ℕ
request = record {
  kind = string (text "device-memory");
  value = 7;
  parent = null;
  dispose = callable;
  nonce = string nonce;
}

abbrev first_token : Token
first_token = record {
  runtime_id = owner;
  epoch = 1;
  kind = text "device-memory";
  slot = 0;
  generation = 1;
  nonce = nonce;
}

abbrev first_value : Value
unfolding token_value
first_value = token_value first_token

abbrev first_entry : Entry ℕ
first_entry = record {
  slot = 0;
  generation = 1;
  nonce = nonce;
  kind = text "device-memory";
  state = live;
  parent_slot = none;
  children = [];
  leases = 0;
  value = some 7;
  disposal_failure = none;
  orphan_disposition = none;
  orphan_reason = none;
}

abbrev first_registry : Registry ℕ
first_registry = record (empty owner 1) { entries = first_entry ∷ [] }

allocated : allocate (empty owner 1) request ≡ (first_registry, returned first_token)
unfolding allocate is_kind is_nonce parent_entry is_absent
allocated = refl

abbrev world_of : Registry ℕ → World ℕ
world_of r = record { registry = r; handles = []; pending = [] }

first_run : Reach (start owner 1) (world_of first_registry)
first_run =
    subst (λ (x : Registry ℕ × Outcome Failure Token). Reach (start owner 1) (world_of x.0))
      allocated (next here (allocates request))

abbrev leased_registry : Registry ℕ
leased_registry = record first_registry { entries = count_lease first_entry ∷ [] }

abbrev lease : Lease ℕ
lease = record { slot = 0; generation = 1; value = some 7; released = false }

acquired : acquire first_registry first_value none ≡ returned (leased_registry, lease)
unfolding acquire token_value is_kind is_nonce read_token
acquired = refl

leased_run :
    Reach
      (start owner 1)
      (record { registry = leased_registry; handles = lease ∷ []; pending = [] })
leased_run = next first_run (acquires first_value none leased_registry lease acquired)

abbrev closing_registry : Registry ℕ
closing_registry = record first_registry { entries = start_closing first_entry ∷ [] }

close_begun : begin_close first_registry first_value ≡ returned (closing_registry, first_entry)
unfolding begin_close token_value is_kind is_nonce read_token
close_begun = refl

abbrev closing_world : World ℕ
closing_world = record {
  registry = closing_registry;
  handles = [];
  pending = record { slot = 0; parent = none } ∷ [];
}

closing_run : Reach (start owner 1) closing_world
closing_run = next first_run (begins first_value closing_registry first_entry close_begun)

abbrev closed_registry : Registry ℕ
closed_registry = record first_registry {
  entries = record first_entry { state = closed; value = none } ∷ [];
  free_slots = 0 ∷ [];
}

closed_lem : (settle closing_registry 0 none resolved).0 ≡ closed_registry
unfolding settle free_slot sort_slots
closed_lem = refl

closed_from : {w : World ℕ} → Reach w closing_world → Reach w (world_of closed_registry)
closed_from {w} r =
    subst (λ (x : Registry ℕ). Reach w (world_of x)) closed_lem
      (next r (settles 0 (record { slot = 0; parent = none }) resolved refl))

bad_request : Request ℕ
bad_request = record request { nonce = string (text "0") }

run-IsSound_example : IsSound (world_of closed_registry)
run-IsSound_example = run-IsSound owner 1 (closed_from closing_run)

release-held_example :
    (release leased_registry lease ≡ returned (first_registry, record lease { released = true }))
    × (1 ≤ held 0 (lease ∷ []))
release-held_example = release-held owner 1 leased_run 0 lease refl refl

begin_close_safe_example :
    (held {V = ℕ} 0 [] ≡ 0)
    × ((s : ℕ) (x : Entry ℕ)
        → get_elem? (first_entry ∷ []) s ≡ some x
        → x.parent_slot ≡ some 0
        → is_closed x.state ≡ true)
begin_close_safe_example =
    begin_close_safe owner 1 first_run first_value closing_registry first_entry close_begun

use_after_close_example : (f : Failure) × (resolve closed_registry first_value none ≡ thrown f)
use_after_close_example =
    use_after_close owner 1 first_run first_value closing_registry first_entry none close_begun
      (closed_from here)

resolved_first : resolve first_registry first_value none ≡ returned first_entry
unfolding resolve token_value is_kind is_nonce read_token
resolved_first = refl

resolve_exact_example :
    (read_token first_value ≡ some first_token)
    × (get_elem? first_registry.entries 0 ≡ some first_entry)
    × (first_entry.state ≡ live)
resolve_exact_example = resolve_exact owner 1 first_run first_value none first_entry resolved_first

get-allocate_example :
    (get first_registry (token_value first_token) none ≡ returned (some 7))
    × (get first_registry (token_value first_token) (some (text "device-memory"))
        ≡ returned (some 7))
get-allocate_example =
    get-allocate owner 1 here request first_registry first_token refl (omega arith) (omega arith)
      allocated (omega arith) (omega arith)

-- A refused nonce leaves the slot off the free list.
leaked : allocate closed_registry bad_request ≡ (
  record closed_registry { free_slots = [] },
  thrown (failure "RESOURCE_NONCE_INVALID" stale_resource),
)
unfolding bad_request allocate is_kind is_nonce parent_entry is_absent
leaked = refl
