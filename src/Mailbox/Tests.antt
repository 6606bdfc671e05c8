-- ===== src/Mailbox/Tests.antt =====
-- A mailbox of two lanes, leased for both and reset.
use cuda_js.Base.{
  ℕ, ◌+◌, ◌*◌, ◌≤◌, ◌<◌, ◌≡◌, ◌≢◌, refl, true, false, some, List, [], ◌∷◌, get_elem?, length,
}
use cuda_js.Base.Outcome.{returned, thrown}
use cuda_js.Js.Chars.{matches}
use cuda_js.Js.{
  Text, text, text_eq, Value, natural, string, object, array, item, end, bare, entry, field,
  lookup_field, exact_fields, array_items, to_list, string_of, plain_fields, positive_safe_integer,
  max_safe,
}
use cuda_js.Failure.{Failure, failure, stale_resource, backpressure}
use cuda_js.Mailbox.Lanes.{
  Lane, host_to_device, device_to_host, normalize_lanes, normalize_from, normalize_lane, is_exact,
  lane_name, is_lane_name, lane_direction, direction_of, has_text, find_lane,
}
use cuda_js.Mailbox.Record.{
  Mailbox, assert_generation, current, reset, read_binding, pointer, pointers,
  acquire_for_execution, release_lease, begin_release,
}
use cuda_js.Mailbox.Generations.{acquire_for_execution_lem, release_lease-acquire, reset_lem}

abbrev pair : Text → Text → Text → Value
pair key name direction =
    object (entry key (string name) (entry (text "direction") (string direction) bare))

abbrev two_lanes : Value
two_lanes = array (
    item (pair (text "name") (text "stop") (text "host-to-device"))
      (item (pair (text "name") (text "done") (text "device-to-host")) end))

abbrev lanes : List Lane
lanes =
    record { name = text "stop"; direction = host_to_device; index = 0 }
    ∷ record { name = text "done"; direction = device_to_host; index = 1 }
    ∷ []

normalized : normalize_lanes two_lanes ≡ returned lanes
unfolding normalize_lanes normalize_from normalize_lane is_exact lane_name is_lane_name
    lane_direction direction_of has_text text_eq field lookup_field exact_fields array_items to_list
    string_of plain_fields matches
normalized = refl

abbrev mailbox : Mailbox
mailbox = record {
  view = 5 ∷ 6 ∷ [];
  lanes = lanes;
  device_native = 4096;
  generation = 1;
  active_lease = false;
}

abbrev leased : Mailbox
leased = record mailbox { active_lease = true }

abbrev bindings : Value
bindings = array (
    item (pair (text "lane") (text "done") (text "device-to-host"))
      (item (pair (text "lane") (text "stop") (text "host-to-device")) end))

acquired : acquire_for_execution mailbox (natural 1) bindings ≡ returned (leased, 4100 ∷ 4096 ∷ [])
unfolding acquire_for_execution assert_generation current read_binding pointer pointers find_lane
    is_exact lane_direction direction_of has_text text_eq field lookup_field exact_fields
    array_items to_list string_of plain_fields positive_safe_integer
acquired = refl

acquire_for_execution_example :
    (mailbox.active_lease ≡ false)
    × (assert_generation (natural 1) ≡ returned 1)
    × ((i p : ℕ)
        → get_elem? (4100 ∷ 4096 ∷ []) i ≡ some p
        → (k : ℕ) × (k < length lanes) × (p ≡ 4096 + k * 4))
    × ((i j p q : ℕ)
        → i < j
        → get_elem? (4100 ∷ 4096 ∷ []) i ≡ some p
        → get_elem? (4100 ∷ 4096 ∷ []) j ≡ some q
        → p ≢ q)
acquire_for_execution_example =
    acquire_for_execution_lem mailbox two_lanes (natural 1) bindings normalized acquired

release_lease-acquire_example :
    (release_lease leased false ≡ returned mailbox)
    × (begin_release leased ≡ thrown (failure "MEMORY_MAILBOX_BUSY" backpressure))
    × ((g bs : Value) → (f : Failure) × (acquire_for_execution leased g bs ≡ thrown f))
    × ((g : Value) → (f : Failure) × (reset leased g ≡ thrown f))
release_lease-acquire_example = release_lease-acquire mailbox (natural 1) bindings acquired

abbrev cleared : Mailbox
cleared = record mailbox { view = 0 ∷ 0 ∷ []; generation = 2 }

zeroed : reset mailbox (natural 1) ≡ returned cleared
unfolding reset assert_generation current positive_safe_integer
zeroed = refl

reset_example :
    (cleared.generation ≡ mailbox.generation + 1)
    × (cleared.generation ≤ max_safe)
    × (cleared.lanes ≡ mailbox.lanes)
    × (length cleared.view ≡ length mailbox.view)
    × ((i w : ℕ) → get_elem? cleared.view i ≡ some w → w ≡ 0)
    × (reset cleared (natural 1)
        ≡ thrown (failure "MEMORY_MAILBOX_GENERATION_STALE" stale_resource))
    × ((bs : Value) → (f : Failure) × (acquire_for_execution cleared (natural 1) bs ≡ thrown f))
reset_example = reset_lem mailbox (natural 1) zeroed
