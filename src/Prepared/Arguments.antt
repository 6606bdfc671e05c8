-- ===== src/Prepared/Arguments.antt =====
-- The arguments of a prepared kernel, and the bindings that name what they take.
use cuda_js.Base.{
  ◌++◌, Bool, false, ◌&&◌, Option, none, some, List, [], ◌∷◌, ◌==◌, if◌then◌else◌, length,
}
use cuda_js.Base.Outcome.{Outcome, returned, thrown, ◌>>=◌, ◌>>◌, require, reject, or_throw}
use cuda_js.Js.{Text, text, text_eq, Value, field, array_items, string_of}
use cuda_js.Failure.{Failure}
use cuda_js.Mailbox.Lanes.{is_exact}
use cuda_js.Prepared.Fields.{invalid, identifier, is_packed_scalar, is_packed_f32}

-- `bindingKinds`: a kind for each name, in the order of the first use.
abbrev pub Kinds : Type 0
Kinds = List (Text × Text)

unfoldable pub kind_of : Kinds → Text → Option Text
unfolding text_eq
kind_of [] name = none
kind_of ((n, k) ∷ ks) name = if text_eq n name then some k else kind_of ks name

-- The test on `prior`, and `bindingKinds.set(name, kind)`.
unfoldable pub bind_kind : Kinds → Text → Text → Outcome Failure Kinds
unfolding kind_of text_eq
bind_kind kinds name kind = elim (kind_of kinds name) [
  | none ↦ returned (kinds ++ (name, kind) ∷ [])
  | some prior ↦
      if text_eq prior kind
      then returned kinds
      else thrown (invalid "PREPARED_DAG_BINDING_CONFLICT")
]

pub data Argument : Type 0 where
  binding packed : Text → Text → Argument  -- name and kind; kind and hex digits

-- `value === text`
unfoldable pub is_the_text : Value → Text → Bool
unfolding string_of text_eq
is_the_text v t = elim (string_of v) [ none ↦ false | some u ↦ text_eq u t ]

abbrev pub binding_fields : List Text
binding_fields = text "binding" ∷ text "kind" ∷ []

abbrev pub packed_fields : List Text
packed_fields = text "kind" ∷ text "packedHex" ∷ []

-- An argument that names a binding of a kind.
unfoldable pub bound_argument : Kinds → Value → Text → Outcome Failure (Argument × Kinds)
unfolding field identifier is_the_text bind_kind
bound_argument kinds entry expected = do
  name ← identifier (field entry (text "binding"))
  require (is_the_text (field entry (text "kind")) expected) (invalid "PREPARED_DAG_ARGUMENT_KIND")
  kinds' ← bind_kind kinds name expected
  returned (binding name expected, kinds')

-- An argument that is fixed, by a test on its digits.
unfoldable pub packed_argument : (Text → Bool) → Value → Text → Outcome Failure Argument
unfolding field is_exact is_the_text string_of
packed_argument digits entry expected = do
  require (is_exact entry packed_fields && is_the_text (field entry (text "kind")) expected)
      (invalid "PREPARED_DAG_ARGUMENT_INVALID")
  hex_digits ←
      or_throw (string_of (field entry (text "packedHex")))
        (invalid "PREPARED_DAG_ARGUMENT_INVALID")
  require (digits hex_digits) (invalid "PREPARED_DAG_ARGUMENT_INVALID")
  returned (packed expected hex_digits)

unfoldable pub normalize_argument : Kinds → Value → Text → Outcome Failure (Argument × Kinds)
unfolding is_exact bound_argument packed_argument is_packed_scalar text_eq
normalize_argument kinds entry expected =
    if is_exact entry binding_fields
    then bound_argument kinds entry expected
    else (reject (text_eq expected (text "device-memory")) (invalid "PREPARED_DAG_ARGUMENT_INVALID")
        >> (packed_argument is_packed_scalar entry expected >>= λ a. returned (a, kinds)))

unfoldable pub normalize_each :
    Kinds → List Value → List Text → Outcome Failure (List Argument × Kinds)
unfolding normalize_argument
normalize_each kinds [] _ = returned ([], kinds)
normalize_each kinds (v ∷ vs) [] = returned ([], kinds)
normalize_each kinds (v ∷ vs) (t ∷ ts) = normalize_argument kinds v t >>= λ (a, kinds').
    normalize_each kinds' vs ts >>= λ (rest, last). returned (a ∷ rest, last)

-- `normalizeArguments`
unfoldable pub normalize_arguments :
    Kinds → Value → List Text → Outcome Failure (List Argument × Kinds)
unfolding array_items normalize_each
normalize_arguments kinds v parameters = do
  entries ← or_throw (array_items v) (invalid "PREPARED_DAG_ARGUMENTS_INVALID")
  require (length entries == length parameters) (invalid "PREPARED_DAG_ARGUMENTS_INVALID")
  normalize_each kinds entries parameters

-- `preparedBinding`
unfoldable pub prepared_binding : Kinds → Value → Text → Outcome Failure (Text × Kinds)
unfolding is_exact is_the_text field identifier bind_kind
prepared_binding kinds v kind = do
  require (is_exact v binding_fields && is_the_text (field v (text "kind")) kind)
      (invalid "PREPARED_DAG_ARGUMENT_INVALID")
  name ← identifier (field v (text "binding"))
  kinds' ← bind_kind kinds name kind
  returned (name, kinds')

-- `preparedScalar`
unfoldable pub prepared_scalar : Kinds → Value → Outcome Failure (Argument × Kinds)
unfolding is_exact prepared_binding packed_argument is_packed_f32
prepared_scalar kinds v =
    if is_exact v binding_fields
    then (prepared_binding kinds v (text "f32") >>= λ (name, kinds').
        returned (binding name (text "f32"), kinds'))
    else (packed_argument is_packed_f32 v (text "f32") >>= λ a. returned (a, kinds))
