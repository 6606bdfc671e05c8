-- ===== src/Selection/Tests.antt =====
-- An inventory of two devices, and discoveries that overlap.
use cuda_js.Base.{ℕ, ◌≡◌, refl, none, some, List, [], ◌∷◌, arith, get_elem?}
use cuda_js.Base.Outcome.{returned, thrown}
use cuda_js.Js.{
  text, text_eq, Value, natural, object, array, item, end, bare, entry, field, lookup_field,
  exact_fields, array_items, to_list, nonnegative_safe_integer, plain_fields,
}
use cuda_js.Failure.{failure, stale_resource}
use cuda_js.Selection.Inventory.{
  Device, normalize_private_device, normalize_devices, assert_distinct, normalize_inventory,
  is_plain, normalize_inventory_distinct,
}
use cuda_js.Selection.Authority.{
  Selector, made, Authority, new_authority, begin_discover, finish_discover, selectors, listed,
  answered, resolve_selector, current_snapshot, select_default,
}
use cuda_js.Selection.Discoveries.{
  Discovering, idle, begun, Discovered, here, superseded, timely_discovery, late_discovery,
}

abbrev device_value : ℕ → Value
device_value n = object (
    entry (text "nativeDevice") (natural n) (
      entry (text "computeCapabilityMajor") (natural 8)
        (entry (text "computeCapabilityMinor") (natural 9) bare)))

abbrev device : ℕ → Device
device n = record { native_device = n; major = 8; minor = 9 }

abbrev two_values : Value
two_values = array (item (device_value 0) (item (device_value 1) end))

abbrev two_devices : List Device
two_devices = device 0 ∷ device 1 ∷ []

normalized : normalize_inventory two_values ≡ returned two_devices
unfolding normalize_inventory normalize_devices normalize_private_device assert_distinct is_plain
    plain_fields exact_fields field lookup_field array_items to_list nonnegative_safe_integer
    text_eq
normalized = refl

accepted : answered (listed two_values) ≡ returned two_devices
unfolding answered
accepted = normalized

normalize_inventory_distinct_example : Path ℕ 1 1
normalize_inventory_distinct_example =
    normalize_inventory_distinct two_values 1 1 normalized refl refl refl

abbrev once : Discovering
unfolding begin_discover
once = begun (idle 7)

abbrev early : Selector
early = record { authority = 7; generation = 1; device = device 0 }

twice : Discovered (begun once) (begun once)
twice = here

superseded_example :
    resolve_selector (begun once).authority (made early)
    ≡ thrown (failure "DEVICE_SELECTOR_STALE" stale_resource)
unfolding begin_discover
superseded_example = superseded once early refl (omega arith) twice

timely_discovery_example :
    ((i : ℕ) (d : Device)
      → get_elem? two_devices i ≡ some d
      → (s : Selector) × (get_elem? (selectors 7 0 two_devices) i ≡ some s)
        × (resolve_selector (finish_discover (new_authority 7) 0 (listed two_values)).0 (made s)
            ≡ returned d))
    × ((d : Device) (rest : List Device)
        → two_devices ≡ d ∷ rest
        → select_default (finish_discover (new_authority 7) 0 (listed two_values)).0 ≡ returned d)
timely_discovery_example =
    timely_discovery (new_authority 7) (listed two_values) two_devices accepted

-- Two discoveries have begun, and the first is answered.
abbrev overtaken : Authority
overtaken = record { number = 7; generation = 2; snapshot = none }

late_discovery_example :
    (current_snapshot (finish_discover overtaken 1 (listed two_values)).0
      ≡ returned (selectors 7 1 two_devices))
    × ((i : ℕ) (s : Selector)
        → get_elem? (selectors 7 1 two_devices) i ≡ some s
        → resolve_selector (finish_discover overtaken 1 (listed two_values)).0 (made s)
          ≡ thrown (failure "DEVICE_SELECTOR_STALE" stale_resource))
    × (select_default (finish_discover overtaken 1 (listed two_values)).0
        ≡ thrown (failure "DEVICE_SELECTOR_STALE" stale_resource))
late_discovery_example =
    late_discovery overtaken 1 (listed two_values) (device 0) (device 1 ∷ []) (omega arith) accepted
