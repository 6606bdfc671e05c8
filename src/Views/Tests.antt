-- ===== src/Views/Tests.antt =====
-- Views of an allocation of sixteen bytes, in a registry that holds lengths.
use cuda_js.Base.{ℕ, ◌+◌, ◌≤◌, ◌≡◌, ◌↔◌, refl, true, false, Option, none, some, [], ◌∷◌}
use cuda_js.Base.Outcome.{returned, thrown}
use cuda_js.Js.{
  Text, text, Value, string, natural, array, item, end, object, bare, entry, lookup_field,
  has_field, or_else, plain_fields, string_of, nonnegative_safe_integer, is_absent, null,
}
use cuda_js.Failure.{failure, validation}
use cuda_js.Registry.State.{live, Entry, Registry, empty}
use cuda_js.Registry.Tokens.{read_token, token_value, is_kind, is_nonce}
use cuda_js.Registry.Access.{get, resolve, locate, locate_token}
use cuda_js.Views.Options.{
  View, reads, reads_writes, dtype_width, access_of, width_of, role_of, only_create_fields,
  checked_product, create_view, normalize_create_options, assert_range, ranges_overlap, admit_view,
  allows,
}
use cuda_js.Views.Ranges.{Covers, IsView, ranges_overlap_iff, admit_view-IsView}

abbrev nonce : Text
nonce = text "0123456789abcdef0123456789abcdef"

abbrev token : Value
unfolding token_value
token = token_value (record {
  runtime_id = text "rt";
  epoch = 1;
  kind = text "device-memory";
  slot = 0;
  generation = 1;
  nonce = nonce;
})

abbrev sixteen : Entry ℕ
sixteen = record {
  slot = 0;
  generation = 1;
  nonce = nonce;
  kind = text "device-memory";
  state = live;
  parent_slot = none;
  children = [];
  leases = 0;
  value = some 16;
  disposal_failure = none;
  orphan_disposition = none;
  orphan_reason = none;
}

abbrev registry : Registry ℕ
registry = record (empty (text "rt") 1) { entries = sixteen ∷ [] }

abbrev options : ℕ → ℕ → Value
options offset count = object (
    entry (text "dtype") (string (text "f64")) (
      entry (text "byteOffset") (natural offset)
        (entry (text "elementCount") (natural count) bare)))

abbrev length_of : ℕ → Option ℕ
length_of n = some n

abbrev store : View → ℕ
store v = v.byte_length

abbrev second_half : View
second_half = record {
  dtype = string (text "f64");
  width = 8;
  byte_offset = 8;
  element_count = 1;
  byte_length = 8;
  access = reads_writes;
}

admitted : admit_view length_of store registry token (options 8 1) ≡ returned second_half
unfolding admit_view normalize_create_options plain_fields only_create_fields has_field lookup_field
    width_of dtype_width role_of access_of nonnegative_safe_integer or_else create_view
    checked_product string_of get resolve locate locate_token assert_range token_value read_token
    is_kind is_nonce
admitted = refl

too_long :
    admit_view length_of store registry token (options 8 2)
    ≡ thrown (failure "MEMORY_VIEW_RANGE_OUT_OF_BOUNDS" validation)
unfolding admit_view normalize_create_options plain_fields only_create_fields has_field lookup_field
    width_of dtype_width role_of access_of nonnegative_safe_integer or_else create_view
    checked_product string_of get resolve locate locate_token assert_range token_value read_token
    is_kind is_nonce
too_long = refl

admit_view-IsView_example :
    IsView second_half
    × ((v : ℕ) × (len : ℕ) × (get registry token (some (text "device-memory")) ≡ returned (some v))
        × (length_of v ≡ some len)
        × (8 + 8 ≤ len))
admit_view-IsView_example = admit_view-IsView length_of store registry token (options 8 1) admitted

abbrev whole : View
whole = record second_half { byte_offset = 0; element_count = 2; byte_length = 16 }

ranges_overlap_example :
    (ranges_overlap whole second_half ≡ true) ↔ ((b : ℕ) × Covers whole b × Covers second_half b)
ranges_overlap_example = ranges_overlap_iff whole second_half

-- The array of a name is accepted as a dtype, and stored.
listed :
    normalize_create_options (
      object (
        entry
          (text "dtype")
          (array (item (string (text "u32")) end))
          (entry (text "elementCount") (natural 1) bare)))
    ≡ returned (record {
      dtype = array (item (string (text "u32")) end);
      width = 4;
      byte_offset = 0;
      element_count = 1;
      byte_length = 4;
      access = reads_writes;
    })
unfolding normalize_create_options plain_fields only_create_fields has_field lookup_field width_of
    dtype_width role_of access_of nonnegative_safe_integer or_else create_view checked_product
listed = refl

inherited :
    normalize_create_options (
      object (
        entry
          (text "dtype")
          (string (text "toString"))
          (entry (text "elementCount") (natural 1) bare)))
    ≡ thrown (failure "MEMORY_VIEW_ALIGNMENT" validation)
unfolding normalize_create_options plain_fields only_create_fields has_field lookup_field width_of
    dtype_width role_of access_of nonnegative_safe_integer or_else create_view checked_product
inherited = refl

roles :
    (allows reads null ≡ returned true)
    × (allows reads (string (text "write")) ≡ returned false)
    × (allows reads_writes (string (text "write")) ≡ returned true)
unfolding allows is_absent role_of access_of
roles = (refl, refl, refl)
