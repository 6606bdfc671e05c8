-- ===== src/Mailbox/Record.antt =====
-- The record of a mailbox, and what `reset`, `acquireForExecution`, its lease and `release` do with
-- it once the registry has given it out. The words are those of the shared buffer, whose writes by
-- a kernel are left out; the native pointer is a number.
use cuda_js.Base.{ℕ, ◌+◌, ◌*◌, Bool, true, false, ◌&&◌, List, [], ◌∷◌, leb, ◌==◌, length, map}
use cuda_js.Base.Outcome.{Outcome, returned, ◌>>=◌, ◌>>◌, require, reject, or_throw}
use cuda_js.Js.{Text, text, Value, field, array_items, string_of, positive_safe_integer, max_safe}
use cuda_js.Failure.{Failure, failure, validation, stale_resource, backpressure, internal}
use cuda_js.Mailbox.Lanes.{
  Direction, host_to_device, device_to_host, Lane, max_lanes, is_exact, lane_direction, has_text,
  find_lane,
}

pub record Mailbox : Type 0 where
  pub view : List ℕ
  pub lanes : List Lane
  pub device_native : ℕ
  pub generation : ℕ
  pub active_lease : Bool

-- The record that `create` stores, for a buffer of zeros, once the driver has given the pointer.
unfoldable pub new_mailbox : List ℕ → List Lane → ℕ → Outcome Failure Mailbox
new_mailbox words lanes device_native = do
  require (length words == length lanes) (failure "MEMORY_MAILBOX_STORAGE_INVALID" validation)
  reject (device_native == 0) (failure "MEMORY_MAILBOX_MAPPING_INVALID" internal)
  returned (record {
    view = words;
    lanes = lanes;
    device_native = device_native;
    generation = 1;
    active_lease = false;
  })

-- `assertGeneration`
unfoldable pub assert_generation : Value → Outcome Failure ℕ
unfolding positive_safe_integer
assert_generation v =
    or_throw (positive_safe_integer v) (failure "MEMORY_MAILBOX_GENERATION_INVALID" validation)

unfoldable pub current : Mailbox → ℕ → Outcome Failure (Unit {0})
current m generation = do
  require (m.generation == generation) (failure "MEMORY_MAILBOX_GENERATION_STALE" stale_resource)
  reject m.active_lease (failure "MEMORY_MAILBOX_BUSY" backpressure)

-- `reset`
unfoldable pub reset : Mailbox → Value → Outcome Failure Mailbox
unfolding assert_generation current
reset m generation = do
  g ← assert_generation generation
  current m g
  reject (leb max_safe m.generation) (failure "MEMORY_MAILBOX_GENERATION_EXHAUSTED" stale_resource)
  returned (record m { view = map (λ _. 0) m.view; generation = m.generation + 1 })

abbrev pub same_direction : Direction → Direction → Bool
same_direction host_to_device host_to_device = true
same_direction device_to_host device_to_host = true
same_direction _ _ = false

abbrev pub mismatch : Failure
mismatch = failure "MEMORY_MAILBOX_DIRECTION_MISMATCH" validation

-- A binding: the name of its lane and its direction.
unfoldable pub read_binding : List Text → Value → Outcome Failure (Text × Direction)
unfolding is_exact field string_of lane_direction has_text
read_binding seen v = do
  require (is_exact v (text "lane" ∷ text "direction" ∷ []))
      (failure "MEMORY_MAILBOX_BINDING_INVALID" validation)
  name ←
      or_throw (string_of (field v (text "lane")))
        (failure "MEMORY_MAILBOX_BINDING_INVALID" validation)
  direction ←
      or_throw (lane_direction (field v (text "direction")))
        (failure "MEMORY_MAILBOX_BINDING_INVALID" validation)
  reject (has_text name seen) (failure "MEMORY_MAILBOX_BINDING_INVALID" validation)
  returned (name, direction)

unfoldable pub pointer : Mailbox → Text × Direction → Outcome Failure ℕ
unfolding find_lane
pointer m (name, direction) = do
  lane ← or_throw (find_lane m.lanes name) mismatch
  require (same_direction lane.direction direction) mismatch
  returned (m.device_native + lane.index * 4)

unfoldable pub pointers : Mailbox → List Text → List Value → Outcome Failure (List ℕ)
unfolding read_binding pointer
pointers m seen [] = returned []
pointers m seen (v ∷ vs) = do
  b ← read_binding seen v
  p ← pointer m b
  ps ← pointers m (b.0 ∷ seen) vs
  returned (p ∷ ps)

-- `acquireForExecution`, for the record that the registry's lease gives.
unfoldable pub acquire_for_execution : Mailbox → Value → Value → Outcome Failure (Mailbox × List ℕ)
unfolding assert_generation current array_items pointers
acquire_for_execution m generation bindings = do
  g ← assert_generation generation
  vs ← or_throw (array_items bindings) (failure "MEMORY_MAILBOX_BINDINGS_INVALID" validation)
  require (leb 1 (length vs) && leb (length vs) max_lanes)
      (failure "MEMORY_MAILBOX_BINDINGS_INVALID" validation)
  current m g
  ps ← pointers m [] vs
  returned (record m { active_lease = true }, ps)

-- `release` of the object that `acquireForExecution` returns.
unfoldable pub release_lease : Mailbox → Bool → Outcome Failure Mailbox
release_lease m released = do
  reject released (failure "MEMORY_MAILBOX_LEASE_RELEASED" internal)
  returned (record m { active_lease = false })

-- `release`, before the registry closes the token: the generation that it reports.
unfoldable pub begin_release : Mailbox → Outcome Failure ℕ
begin_release m = do
  reject m.active_lease (failure "MEMORY_MAILBOX_BUSY" backpressure)
  returned m.generation
