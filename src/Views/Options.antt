-- ===== src/Views/Options.antt =====
-- components/memory/src/device-view-manager.mjs: `normalizeCreateOptions`, `assertRange`, `allows`,
-- `deviceViewRangesOverlap`, and `create` over a registry.
use cuda_js.Base.{
  ℕ, ◌+◌, ◌-◌, ◌*◌, ◌/◌, ◌%◌, Bool, true, false, not, ◌&&◌, ◌||◌, Option, none, some, ltb, leb,
  ◌==◌, if◌then◌else◌,
}
use cuda_js.Base.Outcome.{Outcome, returned, thrown, ◌>>=◌, ◌>>◌, require, reject, or_throw}
use cuda_js.Js.{
  Text, text, text_eq, is_inherited, Value, string, array, item, end, callable, Fields, bare, entry,
  natural, has_field, lookup_field, or_else, nonnegative_safe_integer, plain_fields, max_safe,
  is_absent,
}
use cuda_js.Failure.{Failure, failure, validation, internal}
use cuda_js.Registry.State.{Registry, Token}
use cuda_js.Registry.Access.{get}
use cuda_js.Registry.Allocation.{Request, allocate}

pub data Access : Type 0 where
  reads writes reads_writes : Access

pub record View : Type 0 where
  pub dtype : Value
  pub width : ℕ
  pub byte_offset : ℕ
  pub element_count : ℕ
  pub byte_length : ℕ
  pub access : Access

-- The text of a property key, if it may be a name: that of an array of one element is the element's.
-- A plain object with a `toString` of its own, and an Error, are left out.
unfoldable pub property_key : Value → Option Text
property_key (string t) = some t
property_key (array (item v end)) = property_key v
property_key _ = none

-- `DTYPE_WIDTH[key]`. What every object inherits is no number; 0 stands for it, since a remainder by
-- it is no number either.
unfoldable pub dtype_width : Text → Option ℕ
unfolding text_eq is_inherited
dtype_width t =
    if text_eq t (text "u32")
    then some 4
    else if text_eq t (text "u64")
    then some 8
    else if text_eq t (text "i32")
    then some 4
    else if text_eq t (text "f32")
    then some 4
    else if text_eq t (text "f64")
    then some 8
    else if text_eq t (text "f16")
    then some 2
    else if text_eq t (text "bf16")
    then some 2
    else if is_inherited t
    then some 0
    else none

-- ACCESS_ROLES
unfoldable pub access_of : Text → Option Access
unfolding text_eq
access_of t =
    if text_eq t (text "read")
    then some reads
    else if text_eq t (text "write")
    then some writes
    else if text_eq t (text "read-write")
    then some reads_writes
    else none

-- `DTYPE_WIDTH[value]`
unfoldable pub width_of : Value → Option ℕ
unfolding property_key dtype_width
width_of v = elim (property_key v) [ none ↦ none | some t ↦ dtype_width t ]

unfoldable pub role_of : Value → Option Access
unfolding access_of
role_of (string t) = access_of t
role_of _ = none

unfoldable pub only_create_fields : Fields → Bool
unfolding text_eq
only_create_fields bare = true
only_create_fields (entry k v fs) =
    (text_eq k (text "dtype")
      || (text_eq k (text "byteOffset")
          || (text_eq k (text "elementCount") || text_eq k (text "access"))))
    && only_create_fields fs

-- `checkedProduct`
unfoldable pub checked_product : ℕ → ℕ → Outcome Failure ℕ
checked_product left right = do
  reject (not (left == 0) && ltb (max_safe / left) right)
      (failure "MEMORY_VIEW_RANGE_INVALID" validation)
  returned (left * right)

unfoldable pub create_view : Fields → ℕ → ℕ → ℕ → Access → Outcome Failure View
unfolding checked_product lookup_field
create_view fs width offset count access = do
  require (not (width == 0) && offset % width == 0) (failure "MEMORY_VIEW_ALIGNMENT" validation)
  len ← checked_product count width
  returned (record {
    dtype = lookup_field fs (text "dtype");
    width = width;
    byte_offset = offset;
    element_count = count;
    byte_length = len;
    access = access;
  })

unfoldable pub normalize_create_options : Value → Outcome Failure View
unfolding plain_fields only_create_fields has_field lookup_field width_of role_of
    nonnegative_safe_integer or_else create_view
normalize_create_options v = do
  fs ← or_throw (plain_fields v) (failure "MEMORY_VIEW_OPTIONS_INVALID" validation)
  require
      (only_create_fields fs && (has_field fs (text "dtype") && has_field fs (text "elementCount")))
      (failure "MEMORY_VIEW_OPTIONS_INVALID" validation)
  width ←
      or_throw (width_of (lookup_field fs (text "dtype")))
        (failure "MEMORY_VIEW_DTYPE_INVALID" validation)
  offset ←
      or_throw
        (nonnegative_safe_integer (or_else (lookup_field fs (text "byteOffset")) (natural 0)))
        (failure "MEMORY_VIEW_RANGE_INVALID" validation)
  count ←
      or_throw (nonnegative_safe_integer (lookup_field fs (text "elementCount")))
        (failure "MEMORY_VIEW_RANGE_INVALID" validation)
  access ←
      or_throw (role_of (or_else (lookup_field fs (text "access")) (string (text "read-write"))))
        (failure "MEMORY_VIEW_ACCESS_INVALID" validation)
  create_view fs width offset count access

-- `assertRange`
unfoldable pub assert_range : ℕ → View → Outcome Failure (Unit {0})
assert_range parent_length view = do
  require (leb 1 parent_length && leb parent_length max_safe)
      (failure "MEMORY_VIEW_PARENT_INVALID" internal)
  reject (ltb parent_length view.byte_offset) (failure "MEMORY_VIEW_RANGE_OUT_OF_BOUNDS" validation)
  reject (ltb (parent_length - view.byte_offset) view.byte_length)
      (failure "MEMORY_VIEW_RANGE_OUT_OF_BOUNDS" validation)

abbrev pub same_access : Access → Access → Bool
same_access reads reads = true
same_access writes writes = true
same_access reads_writes reads_writes = true
same_access _ _ = false

abbrev pub role_allows : Access → Access → Bool
role_allows reads_writes requested = true
role_allows actual requested = same_access actual requested

-- `allows`
unfoldable pub allows : Access → Value → Outcome Failure Bool
unfolding is_absent role_of
allows actual requested =
    if is_absent requested
    then returned true
    else (or_throw (role_of requested) (failure "MEMORY_VIEW_ACCESS_INVALID" validation) >>= λ role.
        returned (role_allows actual role))

-- `deviceViewRangesOverlap`, for two validated descriptors.
unfoldable pub ranges_overlap : View → View → Bool
ranges_overlap left right =
    if left.byte_length == 0 || right.byte_length == 0
    then false
    else ltb left.byte_offset (right.byte_offset + right.byte_length)
      && ltb right.byte_offset (left.byte_offset + left.byte_length)

-- The registry holds views beside other resources: `length_of` reads the length of an allocation,
-- and `store` makes a resource of a view.
module _ {ℓ} {V : Type ℓ} (length_of : V → Option ℕ) (store : View → V) where
  abbrev pub parent_length : Option V → Option ℕ
  parent_length none = none
  parent_length (some v) = length_of v

  abbrev pub view_request : Value → View → Value → Request V
  view_request memory view nonce = record {
    kind = string (text "device-view");
    value = store view;
    parent = memory;
    dispose = callable;
    nonce = nonce;
  }

  -- The tests of `create`, and the view that it stores.
  unfoldable pub admit_view : Registry V → Value → Value → Outcome Failure View
  unfolding normalize_create_options get assert_range
  admit_view r memory options = do
    view ← normalize_create_options options
    parent ← get r memory (some (text "device-memory"))
    len ← or_throw (parent_length parent) (failure "MEMORY_VIEW_PARENT_INVALID" internal)
    assert_range len view
    returned view

  -- `create`
  unfoldable pub create : Registry V → Value → Value → Value → Registry V × Outcome Failure Token
  unfolding admit_view allocate
  create r memory options nonce = elim (admit_view r memory options) [
    | thrown f ↦ (r, thrown f)
    | returned view ↦ allocate r (view_request memory view nonce)
  ]
