-- ===== src/Numeric/Layout.antt =====
-- `parameterLayout`: the offsets of a kernel's parameters, each aligned to its own width.
use cuda_js.Base.{
  ℕ, suc, ◌+◌, ◌-◌, ◌%◌, Option, none, some, List, [], ◌∷◌, leb, ◌==◌, if◌then◌else◌, length,
}
use cuda_js.Base.Outcome.{Outcome, returned, ◌>>=◌, ◌>>◌, require, or_throw}
use cuda_js.Js.{Text, text, text_eq, Value, field, string_of, array_items, max_safe}
use cuda_js.Failure.{Failure, failure, validation}

-- `WIDTHS[kind]`
unfoldable pub parameter_width : Text → Option ℕ
unfolding text_eq
parameter_width kind =
    if text_eq kind (text "device-memory")
    then some 8
    else if text_eq kind (text "publication-mailbox-host-to-device-u32")
    then some 8
    else if text_eq kind (text "publication-mailbox-device-to-host-u32")
    then some 8
    else if text_eq kind (text "u32")
    then some 4
    else if text_eq kind (text "u64")
    then some 8
    else if text_eq kind (text "i32")
    then some 4
    else if text_eq kind (text "f32")
    then some 4
    else if text_eq kind (text "f64")
    then some 8
    else if text_eq kind (text "f16")
    then some 2
    else if text_eq kind (text "bf16")
    then some 2
    else none

pub record LayoutEntry : Type 0 where
  pub index : ℕ
  pub kind : Text
  pub offset : ℕ
  pub byte_length : ℕ
  pub alignment : ℕ

abbrev pub align : ℕ → ℕ → ℕ
align offset alignment =
    if offset % alignment == 0 then offset else offset + alignment - offset % alignment

unfoldable pub checked_align : ℕ → ℕ → Outcome Failure ℕ
checked_align offset alignment = do
  require (leb (align offset alignment) max_safe) (failure "EXECUTION_PARAMETER_LAYOUT" validation)
  returned (align offset alignment)

unfoldable pub kind_and_width : Value → Option (Text × ℕ)
unfolding field string_of parameter_width
kind_and_width parameter = elim (string_of (field parameter (text "kind"))) [
  | none ↦ none
  | some kind ↦ elim (parameter_width kind) [ none ↦ none | some width ↦ some (kind, width) ]
]

-- One turn of `parameters.map(…)`: the entry, and the size behind it.
unfoldable pub lay_out_one : ℕ → ℕ → Value → Outcome Failure (LayoutEntry × ℕ)
unfolding checked_align kind_and_width
lay_out_one index size parameter = do
  kw ← or_throw (kind_and_width parameter) (failure "EXECUTION_PARAMETER_INVALID" validation)
  offset ← checked_align size kw.1
  require (leb (offset + kw.1) max_safe) (failure "EXECUTION_PARAMETER_LAYOUT" validation)
  returned (
    record { index = index; kind = kw.0; offset = offset; byte_length = kw.1; alignment = kw.1 },
    offset + kw.1,
  )

unfoldable pub lay_out : ℕ → ℕ → List Value → Outcome Failure (List LayoutEntry × ℕ)
unfolding lay_out_one
lay_out index size [] = returned ([], size)
lay_out index size (p ∷ ps) = do
  first ← lay_out_one index size p
  rest ← lay_out (suc index) first.1 ps
  returned (first.0 ∷ rest.0, rest.1)

-- The entries, and the byte length of the whole.
unfoldable pub parameter_layout : Value → Outcome Failure (List LayoutEntry × ℕ)
unfolding lay_out array_items
parameter_layout parameters = do
  ps ← or_throw (array_items parameters) (failure "EXECUTION_PARAMETERS_INVALID" validation)
  require (leb 1 (length ps)) (failure "EXECUTION_PARAMETERS_INVALID" validation)
  lay_out 0 0 ps
