-- ===== src/Prepared/Fields.antt =====
-- The fields of a prepared DAG and of its nodes that stand for themselves: identifiers, dimensions,
-- the execution profile and the identity of an executable.
use cuda_js.Base.{
  ℕ, ◌%◌, Bool, not, ◌&&◌, ◌||◌, Option, none, some, List, [], ◌∷◌, leb, ◌==◌, if◌then◌else◌,
  length, all_of, any_of, String,
}
use cuda_js.Base.Outcome.{Outcome, returned, ◌>>=◌, ◌>>◌, require, or_throw}
use cuda_js.Js.Chars.{matches, letter, lower, digit, hex, between}
use cuda_js.Js.{Text, text, Value, field, array_items, string_of, positive_safe_integer}
use cuda_js.Failure.{Failure, failure, validation}
use cuda_js.Mailbox.Lanes.{is_exact}

-- `PreparedOperationDagError`
abbrev pub invalid : String → Failure
invalid code = failure code validation

-- IDENTIFIER
unfoldable pub is_identifier : Text → Bool
unfolding matches
is_identifier = matches letter (λ c. letter c || digit c || c == b'_' || c == b'-') 63

-- SHA256
unfoldable pub is_sha256 : Text → Bool
is_sha256 t = all_of hex t && length t == 64

-- PACKED_SCALAR
unfoldable pub is_packed_scalar : Text → Bool
is_packed_scalar t = all_of hex t && (length t % 2 == 0 && (leb 2 (length t) && leb (length t) 32))

-- PACKED_F32
unfoldable pub is_packed_f32 : Text → Bool
is_packed_f32 t = all_of hex t && length t == 8

-- `/^[\x20-\x7e]+$/` and not `/[\\/]/`, within a length.
unfoldable pub is_printable_name : ℕ → Text → Bool
is_printable_name most t =
    leb 1 (length t)
    && (leb (length t) most
        && (all_of (between 0x20 0x7e) t && not (any_of (λ c. c == b'/' || c == 0x5c) t)))

-- `identifier`
unfoldable pub identifier : Value → Outcome Failure Text
unfolding string_of is_identifier
identifier v = do
  t ← or_throw (string_of v) (invalid "PREPARED_DAG_IDENTIFIER_INVALID")
  require (is_identifier t) (invalid "PREPARED_DAG_IDENTIFIER_INVALID")
  returned t

pub record Dimensions : Type 0 where
  pub x : ℕ
  pub y : ℕ
  pub z : ℕ

-- `dimensions`
unfoldable pub dimensions : Value → Outcome Failure Dimensions
unfolding is_exact positive_safe_integer field
dimensions v = do
  require (is_exact v (text "x" ∷ text "y" ∷ text "z" ∷ []))
      (invalid "PREPARED_DAG_DIMENSIONS_INVALID")
  x ←
      or_throw (positive_safe_integer (field v (text "x")))
        (invalid "PREPARED_DAG_DIMENSIONS_INVALID")
  y ←
      or_throw (positive_safe_integer (field v (text "y")))
        (invalid "PREPARED_DAG_DIMENSIONS_INVALID")
  z ←
      or_throw (positive_safe_integer (field v (text "z")))
        (invalid "PREPARED_DAG_DIMENSIONS_INVALID")
  returned (record { x = x; y = y; z = z })

-- PROFILE_LIMIT_FIELDS
abbrev pub profile_limit_fields : List Text
profile_limit_fields =
    text "maxThreadsPerBlock"
    ∷ text "maxBlockDimX"
    ∷ text "maxBlockDimY"
    ∷ text "maxBlockDimZ"
    ∷ text "maxGridDimX"
    ∷ text "maxGridDimY"
    ∷ text "maxGridDimZ"
    ∷ text "maxSharedMemoryPerBlock"
    ∷ []

-- The limits stand in the order of `profile_limit_fields`.
pub record Profile : Type 0 where
  pub max_pending : ℕ
  pub device_limits : List ℕ

unfoldable pub read_limits : Value → List Text → Option (List ℕ)
unfolding positive_safe_integer field
read_limits v [] = some []
read_limits v (k ∷ ks) = elim (positive_safe_integer (field v k)) [
  | none ↦ none
  | some n ↦ elim (read_limits v ks) [ none ↦ none | some ns ↦ some (n ∷ ns) ]
]

-- `normalizeProfile`
unfoldable pub normalize_profile : Value → Outcome Failure Profile
unfolding is_exact positive_safe_integer field read_limits
normalize_profile v = do
  require (is_exact v (text "deviceLimits" ∷ text "maxPendingGpuOperations" ∷ []))
      (invalid "PREPARED_DAG_PROFILE_INVALID")
  pending ←
      or_throw (positive_safe_integer (field v (text "maxPendingGpuOperations")))
        (invalid "PREPARED_DAG_PROFILE_INVALID")
  require (leb pending 2 && is_exact (field v (text "deviceLimits")) profile_limit_fields)
      (invalid "PREPARED_DAG_PROFILE_INVALID")
  limits ←
      or_throw (read_limits (field v (text "deviceLimits")) profile_limit_fields)
        (invalid "PREPARED_DAG_PROFILE_INVALID")
  returned (record { max_pending = pending; device_limits = limits })

-- A parameter is its kind.
pub record Executable : Type 0 where
  pub module_sha256 : Text
  pub name : Text
  pub parameters : List Text

-- `/^[a-z][a-z0-9-]{0,63}$/`
unfoldable pub is_kind : Text → Bool
unfolding matches
is_kind = matches lower (λ c. lower c || digit c || c == b'-') 63

unfoldable pub parameter_kind : Value → Option Text
unfolding is_exact string_of field is_kind
parameter_kind v =
    if is_exact v (text "kind" ∷ [])
    then elim (string_of (field v (text "kind"))) [
      | none ↦ none
      | some t ↦ if is_kind t then some t else none
    ]
    else none

unfoldable pub parameter_kinds : List Value → Option (List Text)
unfolding parameter_kind
parameter_kinds [] = some []
parameter_kinds (v ∷ vs) = elim (parameter_kind v) [
  | none ↦ none
  | some t ↦ elim (parameter_kinds vs) [ none ↦ none | some ts ↦ some (t ∷ ts) ]
]

-- `normalizeExecutable`
unfoldable pub normalize_executable : Value → Outcome Failure Executable
unfolding is_exact string_of field is_sha256 is_printable_name array_items parameter_kinds
normalize_executable v = do
  require (is_exact v (text "moduleSha256" ∷ text "name" ∷ text "parameters" ∷ []))
      (invalid "PREPARED_DAG_EXECUTABLE_INVALID")
  sha ←
      or_throw (string_of (field v (text "moduleSha256")))
        (invalid "PREPARED_DAG_EXECUTABLE_INVALID")
  name ← or_throw (string_of (field v (text "name"))) (invalid "PREPARED_DAG_EXECUTABLE_INVALID")
  require (is_sha256 sha && is_printable_name 256 name) (invalid "PREPARED_DAG_EXECUTABLE_INVALID")
  entries ←
      or_throw (array_items (field v (text "parameters")))
        (invalid "PREPARED_DAG_EXECUTABLE_INVALID")
  require (leb 1 (length entries) && leb (length entries) 64)
      (invalid "PREPARED_DAG_EXECUTABLE_INVALID")
  kinds ← or_throw (parameter_kinds entries) (invalid "PREPARED_DAG_EXECUTABLE_INVALID")
  returned (record { module_sha256 = sha; name = name; parameters = kinds })
