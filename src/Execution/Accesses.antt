-- ===== src/Execution/Accesses.antt =====
-- `normalizeAccesses` of execution-manager.mjs: the accesses that a launch declares, against the
-- memory that it has leased.
use cuda_js.Base.{
  ℕ, ◌+◌, ◌%◌, Bool, true, false, not, ◌&&◌, Option, none, some, List, [], ◌∷◌, leb, ◌==◌,
  if◌then◌else◌, length, contains, any_of,
}
use cuda_js.Base.Outcome.{Outcome, returned, ◌>>=◌, ◌>>◌, require, reject, or_throw}
use cuda_js.Js.{
  Text, text, text_eq, Value, undefined, Fields, lookup_field, has_field, plain_fields, string_of,
  array_items, nonnegative_safe_integer, positive_safe_integer, max_safe,
}
use cuda_js.Failure.{Failure, failure, validation}
use cuda_js.Views.Options
use cuda_js.Views.Options.{role_allows}
use cuda_js.Prepared.Accesses.{only_access_fields, index_of}
use cuda_js.Execution.Conflicts.{
  Mode, reads, writes, reads_writes, atomic_observes, atomic_updates, AtomicType, u32, u64, Access,
  is_atomic,
}

-- What a launch has leased of memory, by the index of its argument. `limit` is the end of the view,
-- or the length of the allocation.
pub record Lease : Type 0 where
  pub argument_index : ℕ
  pub native : ℕ
  pub byte_offset : ℕ
  pub limit : ℕ
  pub view_access : Option Options.Access

-- ACCESS_MODES
unfoldable pub mode_of : Text → Option Mode
unfolding text_eq
mode_of t =
    if text_eq t (text "read")
    then some reads
    else if text_eq t (text "write")
    then some writes
    else if text_eq t (text "read-write")
    then some reads_writes
    else if text_eq t (text "atomic-observe-relaxed-device")
    then some atomic_observes
    else if text_eq t (text "atomic-update-relaxed-device")
    then some atomic_updates
    else none

-- `requestedViewAccess`
abbrev pub requested_view_access : Mode → Options.Access
requested_view_access reads = Options.Access.reads
requested_view_access atomic_observes = Options.Access.reads
requested_view_access writes = Options.Access.writes
requested_view_access _ = Options.Access.reads_writes

-- `viewAllows`, where the memory is a view.
abbrev pub view_allows : Option Options.Access → Options.Access → Bool
view_allows none requested = true
view_allows (some role) requested = role_allows role requested

unfoldable pub atomic_type : Value → Option AtomicType
unfolding string_of text_eq
atomic_type v = elim (string_of v) [
  | none ↦ none
  | some t ↦
      if text_eq t (text "u32") then some u32 else if text_eq t (text "u64") then some u64 else none
]

abbrev pub width_of : AtomicType → ℕ
width_of u32 = 4
width_of u64 = 8

unfoldable pub find_lease : List Lease → ℕ → Option Lease
find_lease [] i = none
find_lease (l ∷ ls) i = if l.argument_index == i then some l else find_lease ls i

-- The tests on the dtype and on the alignment of an access.
unfoldable pub access_type : Fields → Mode → ℕ → ℕ → Outcome Failure (Option AtomicType)
unfolding atomic_type lookup_field has_field
access_type fs mode start len =
    if is_atomic mode
    then (or_throw (atomic_type (lookup_field fs (text "dtype")))
          (failure "EXECUTION_ACCESS_ATOMIC_TYPE" validation)
        >>= λ t.
            require (start % width_of t == 0 && len % width_of t == 0)
              (failure "EXECUTION_ACCESS_ATOMIC_ALIGNMENT" validation)
            >> returned (some t))
    else (reject (has_field fs (text "dtype")) (failure "EXECUTION_ACCESS_ATOMIC_TYPE" validation)
        >> returned none)

abbrev bad_access : Failure
bad_access = failure "EXECUTION_ACCESS_INVALID" validation

-- The tests on an access of leased memory.
unfoldable pub within_lease : Fields → Lease → ℕ → ℕ → Mode → Outcome Failure Access
unfolding access_type
within_lease fs lease offset len mode = do
  let start : ℕ = lease.byte_offset + offset
  require (leb (start + len) max_safe && leb (start + len) lease.limit)
      (failure "EXECUTION_ACCESS_RANGE" validation)
  require (view_allows lease.view_access (requested_view_access mode))
      (failure "MEMORY_VIEW_ACCESS_DENIED" validation)
  dtype ← access_type fs mode start len
  returned (record {
    native = lease.native;
    start = start;
    stop = start + len;
    mode = mode;
    dtype = dtype;
  })

-- One entry, behind those that name the arguments `seen`.
unfoldable pub normalize_access : List Lease → List ℕ → Value → Outcome Failure (ℕ × Access)
unfolding plain_fields only_access_fields index_of lookup_field find_lease nonnegative_safe_integer
    positive_safe_integer string_of mode_of within_lease
normalize_access leases seen v = do
  fs ← or_throw (plain_fields v) bad_access
  require (only_access_fields fs) bad_access
  index ← or_throw (index_of (lookup_field fs (text "argumentIndex"))) bad_access
  lease ← or_throw (find_lease leases index) bad_access
  reject (contains index seen) bad_access
  offset ← or_throw (nonnegative_safe_integer (lookup_field fs (text "byteOffset"))) bad_access
  len ← or_throw (positive_safe_integer (lookup_field fs (text "byteLength"))) bad_access
  name ← or_throw (string_of (lookup_field fs (text "mode"))) bad_access
  mode ← or_throw (mode_of name) bad_access
  access ← within_lease fs lease offset len mode
  returned (index, access)

unfoldable pub normalize_entries : List Lease → List ℕ → List Value → Outcome Failure (List Access)
unfolding normalize_access
normalize_entries leases seen [] = returned []
normalize_entries leases seen (v ∷ vs) = normalize_access leases seen v >>= λ (i, a).
    normalize_entries leases (i ∷ seen) vs >>= λ rest. returned (a ∷ rest)

abbrev pub is_undefined : Value → Bool
is_undefined undefined = true
is_undefined _ = false

abbrev pub is_view : Lease → Bool
is_view l = elim l.view_access [ none ↦ false | some role ↦ true ]

-- `normalizeAccesses`
unfoldable pub normalize_accesses : Value → List Lease → Bool → Outcome Failure (List Access)
unfolding array_items normalize_entries
normalize_accesses v leases widened =
    if is_undefined v && (not widened && not (any_of is_view leases))
    then returned []
    else (or_throw (array_items v) (failure "EXECUTION_ACCESSES_REQUIRED" validation) >>= λ vs.
        require (length vs == length leases) (failure "EXECUTION_ACCESSES_INVALID" validation)
        >> normalize_entries leases [] vs)
