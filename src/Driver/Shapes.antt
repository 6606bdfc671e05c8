-- ===== src/Driver/Shapes.antt =====
-- The small tests by which driver-actor/src/protocol.mjs tells what a payload holds.
use cuda_js.Base.{
  ℕ, Bool, true, false, ◌&&◌, Option, none, some, List, [], ◌∷◌, leb, length, all_of,
}
use cuda_js.Base.Outcome.{Outcome, returned, thrown}
use cuda_js.Js.{
  Text, text, Value, undefined, null, bytes, Fields, bare, entry, field, has_field, exact_fields,
  plain_fields, string_of, array_items, nonnegative_safe_integer, positive_safe_integer,
}
use cuda_js.Failure.{Failure, failure, internal}
use cuda_js.Registry.Tokens.{read_token}
use cuda_js.Mailbox.Lanes.{is_exact, has_text}
use cuda_js.Prepared.Fields.{is_identifier}
use cuda_js.Numeric.Scalars.{is_parameter_kind, is_scalar_parameter_value}

unfoldable pub is_plain : Value → Bool
unfolding plain_fields
is_plain v = elim (plain_fields v) [ none ↦ false | some fs ↦ true ]

-- `emptyPayload`
unfoldable pub empty_payload : Value → Bool
unfolding plain_fields
empty_payload v = elim (plain_fields v) [ none ↦ false | some fs ↦ is_bare fs ]
  where
    is_bare : Fields → Bool
    is_bare bare = true
    is_bare (entry k w fs) = false

-- `isResourceToken`
unfoldable pub is_token : Value → Bool
unfolding read_token
is_token v = elim (read_token v) [ none ↦ false | some t ↦ true ]

-- `tokenPayload`
unfoldable pub token_payload : Value → Bool
unfolding is_exact is_token field
token_payload v = is_exact v (text "token" ∷ []) && is_token (field v (text "token"))

-- `positiveSafeInteger`
unfoldable pub is_positive : Value → Bool
unfolding positive_safe_integer
is_positive v = elim (positive_safe_integer v) [ none ↦ false | some n ↦ true ]

-- `nonnegativeSafeInteger`
unfoldable pub is_nonnegative : Value → Bool
unfolding nonnegative_safe_integer
is_nonnegative v = elim (nonnegative_safe_integer v) [ none ↦ false | some n ↦ true ]

-- `value <= limit` for a value that is a nonnegative safe integer.
unfoldable pub is_at_most : Value → ℕ → Bool
unfolding nonnegative_safe_integer
is_at_most v limit = elim (nonnegative_safe_integer v) [ none ↦ false | some n ↦ leb n limit ]

-- `ordinaryBytes`
unfoldable pub bytes_of : Value → Option (List ℕ)
bytes_of (bytes bs) = some bs
bytes_of _ = none

-- `ordinaryBytes(value)` of at least one byte, and of at most `limit`.
unfoldable pub has_bytes : Value → Bool
unfolding bytes_of
has_bytes v = elim (bytes_of v) [ none ↦ false | some bs ↦ leb 1 (length bs) ]

unfoldable pub fits : Value → ℕ → Bool
unfolding bytes_of
fits v limit = elim (bytes_of v) [ none ↦ false | some bs ↦ leb (length bs) limit ]

-- `optionalOperationToken`
unfoldable pub optional_token : Value → Bool
unfolding is_token
optional_token null = true
optional_token v = is_token v

-- `identifier`
unfoldable pub is_identifier_value : Value → Bool
unfolding string_of is_identifier
is_identifier_value v = elim (string_of v) [ none ↦ false | some t ↦ is_identifier t ]

-- `[…].includes(value)` for texts.
unfoldable pub is_one_of : Value → List Text → Bool
unfolding string_of has_text
is_one_of v names = elim (string_of v) [ none ↦ false | some t ↦ has_text t names ]

-- `Object.keys(value).every((key) => names.includes(key))`
unfoldable pub only_fields : List Text → Fields → Bool
unfolding has_text
only_fields names bare = true
only_fields names (entry k v fs) = has_text k names && only_fields names fs

unfoldable pub has_only : Value → List Text → Bool
unfolding plain_fields only_fields
has_only v names = elim (plain_fields v) [ none ↦ false | some fs ↦ only_fields names fs ]

-- `Object.hasOwn(value, key)` of a plain object.
unfoldable pub owns : Value → Text → Bool
unfolding plain_fields has_field
owns v key = elim (plain_fields v) [ none ↦ false | some fs ↦ has_field fs key ]

-- `dimensions`
unfoldable pub is_dimensions : Value → Bool
unfolding is_exact is_positive field
is_dimensions v =
    is_exact v (text "x" ∷ text "y" ∷ text "z" ∷ [])
    && (is_positive (field v (text "x"))
        && (is_positive (field v (text "y")) && is_positive (field v (text "z"))))

-- An array of at least `least` and at most `most` values that all pass a test.
unfoldable pub is_list_of : ℕ → ℕ → (Value → Bool) → Value → Bool
unfolding array_items
is_list_of least most test v = elim (array_items v) [
  | none ↦ false
  | some vs ↦ leb least (length vs) && (leb (length vs) most && all_of test vs)
]

unfoldable pub is_parameter : Value → Bool
unfolding is_exact is_parameter_kind field
is_parameter v = is_exact v (text "kind" ∷ []) && is_parameter_kind (field v (text "kind"))

-- `parameterSchema`
unfoldable pub parameter_schema : Value → ℕ → Bool
unfolding is_list_of is_parameter
parameter_schema v maximum = is_list_of 1 maximum is_parameter v

-- `exactFields` of this module, which asks for the keys of any value: `Object.keys` of null or of
-- undefined is a TypeError of the language.
abbrev pub type_error : Failure
type_error = failure "TypeError" internal

unfoldable pub exact_keys : Value → List Text → Outcome Failure Bool
unfolding exact_fields
exact_keys undefined names = thrown type_error
exact_keys null names = thrown type_error
exact_keys v names = returned (exact_fields v names)

-- `scalarArgument`, of what is neither null nor undefined.
unfoldable pub scalar_argument : Value → Bool
unfolding exact_fields is_scalar_parameter_value field
scalar_argument v =
    exact_fields v (text "kind" ∷ text "value" ∷ [])
    && is_scalar_parameter_value (field v (text "kind")) (field v (text "value"))
