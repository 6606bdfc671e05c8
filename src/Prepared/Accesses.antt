-- ===== src/Prepared/Accesses.antt =====
-- `normalizeAccesses`: which bytes of which device-memory argument a prepared kernel touches.
use cuda_js.Base.{
  ℕ, suc, Bool, true, false, not, ◌&&◌, ◌||◌, Option, none, some, List, [], ◌∷◌, ◌==◌, ltb,
  if◌then◌else◌, length, contains,
}
use cuda_js.Base.Outcome.{Outcome, returned, ◌>>=◌, ◌>>◌, require, reject, or_throw}
use cuda_js.Js.Chars.{strip_prefix}
use cuda_js.Js.{
  Text, text, text_eq, Value, natural, Fields, bare, entry, lookup_field, has_field, array_items,
  string_of, plain_fields, nonnegative_safe_integer, positive_safe_integer,
}
use cuda_js.Failure.{Failure}
use cuda_js.Prepared.Fields.{invalid}

pub record Access : Type 0 where
  pub argument_index : ℕ
  pub byte_offset : ℕ
  pub byte_length : ℕ
  pub mode : Text
  pub dtype : Option Text

-- The indexes of the device-memory parameters, counted from `i`.
unfoldable pub device_indexes : ℕ → List Text → List ℕ
unfolding text_eq
device_indexes i [] = []
device_indexes i (k ∷ ks) =
    let rest = device_indexes (suc i) ks in
    if text_eq k (text "device-memory") then i ∷ rest else rest

-- ACCESS_MODES
unfoldable pub is_access_mode : Text → Bool
unfolding text_eq
is_access_mode t =
    text_eq t (text "read")
    || (text_eq t (text "write")
        || (text_eq t (text "read-write")
            || (text_eq t (text "atomic-observe-relaxed-device")
                || text_eq t (text "atomic-update-relaxed-device"))))

unfoldable pub only_access_fields : Fields → Bool
unfolding text_eq
only_access_fields bare = true
only_access_fields (entry k v fs) =
    (text_eq k (text "argumentIndex")
      || (text_eq k (text "byteOffset")
          || (text_eq k (text "byteLength")
              || (text_eq k (text "mode") || text_eq k (text "dtype")))))
    && only_access_fields fs

unfoldable pub index_of : Value → Option ℕ
index_of (natural n) = some n
index_of _ = none

-- `entry.mode.startsWith('atomic-')`
unfoldable pub is_atomic : Text → Bool
unfolding strip_prefix
is_atomic t = elim (strip_prefix (text "atomic-") t) [ none ↦ false | some rest ↦ true ]

-- The dtype that an atomic access names.
unfoldable pub atomic_dtype : Value → Option Text
unfolding string_of text_eq
atomic_dtype v = elim (string_of v) [
  | none ↦ none
  | some t ↦ if text_eq t (text "u32") || text_eq t (text "u64") then some t else none
]

-- The last test, on the dtype.
unfoldable pub access_dtype : Fields → Text → Outcome Failure (Option Text)
unfolding is_atomic atomic_dtype lookup_field has_field
access_dtype fs mode =
    if is_atomic mode
    then (or_throw (atomic_dtype (lookup_field fs (text "dtype")))
          (invalid "PREPARED_DAG_ACCESS_TYPE")
        >>= λ t. returned (some t))
    else (reject (has_field fs (text "dtype")) (invalid "PREPARED_DAG_ACCESS_TYPE")
        >> returned none)

-- One entry, given the device-memory arguments and those that have their entry.
unfoldable pub normalize_access : List ℕ → List ℕ → Value → Outcome Failure Access
unfolding plain_fields only_access_fields index_of lookup_field nonnegative_safe_integer
    positive_safe_integer string_of is_access_mode access_dtype
normalize_access indexes seen v = do
  fs ← or_throw (plain_fields v) (invalid "PREPARED_DAG_ACCESS_INVALID")
  require (only_access_fields fs) (invalid "PREPARED_DAG_ACCESS_INVALID")
  index ←
      or_throw (index_of (lookup_field fs (text "argumentIndex")))
        (invalid "PREPARED_DAG_ACCESS_INVALID")
  require (contains index indexes && not (contains index seen))
      (invalid "PREPARED_DAG_ACCESS_INVALID")
  offset ←
      or_throw (nonnegative_safe_integer (lookup_field fs (text "byteOffset")))
        (invalid "PREPARED_DAG_ACCESS_INVALID")
  len ←
      or_throw (positive_safe_integer (lookup_field fs (text "byteLength")))
        (invalid "PREPARED_DAG_ACCESS_INVALID")
  mode ←
      or_throw (string_of (lookup_field fs (text "mode"))) (invalid "PREPARED_DAG_ACCESS_INVALID")
  require (is_access_mode mode) (invalid "PREPARED_DAG_ACCESS_INVALID")
  dtype ← access_dtype fs mode
  returned (record {
    argument_index = index;
    byte_offset = offset;
    byte_length = len;
    mode = mode;
    dtype = dtype;
  })

unfoldable pub normalize_entries : List ℕ → List ℕ → List Value → Outcome Failure (List Access)
unfolding normalize_access
normalize_entries indexes seen [] = returned []
normalize_entries indexes seen (v ∷ vs) = normalize_access indexes seen v >>= λ a.
    normalize_entries indexes (a.argument_index ∷ seen) vs >>= λ rest. returned (a ∷ rest)

-- `.sort((left, right) => left.argumentIndex - right.argumentIndex)`
unfoldable pub insert_access : Access → List Access → List Access
insert_access a [] = a ∷ []
insert_access a (b ∷ bs) =
    if ltb b.argument_index a.argument_index then b ∷ insert_access a bs else a ∷ b ∷ bs

unfoldable pub sort_accesses : List Access → List Access
unfolding insert_access
sort_accesses [] = []
sort_accesses (a ∷ rest) = insert_access a (sort_accesses rest)

-- `normalizeAccesses`
unfoldable pub normalize_accesses : Value → List Text → Outcome Failure (List Access)
unfolding device_indexes array_items normalize_entries sort_accesses
normalize_accesses v parameters = do
  entries ← or_throw (array_items v) (invalid "PREPARED_DAG_ACCESSES_INVALID")
  let indexes = device_indexes 0 parameters
  require (length entries == length indexes) (invalid "PREPARED_DAG_ACCESSES_INVALID")
  found ← normalize_entries indexes [] entries
  returned (sort_accesses found)
