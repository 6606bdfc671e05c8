-- ===== src/Numeric/Tests.antt =====
-- The layout of a u32 and a device pointer, and doubles at the edges of f16.
use Prim.Native.Nat.{ℕ}
use cuda_js.Base.{
  ◌+◌, ◌-◌, ◌*◌, ◌^◌, ◌≤◌, ◌<◌, ◌≡◌, refl, List, [], ◌∷◌, arith, get_elem?, some, all_of, true,
}
use cuda_js.Base.Outcome.{returned}
use cuda_js.Js.{
  Text, text, text_eq, Value, object, array, string, entry, bare, item, end, field, array_items,
  to_list, lookup_field, string_of,
}
use cuda_js.Numeric.Rounding.{round_shift_even, IsNearest}
use cuda_js.Numeric.Encode.{
  f16, bf16, encode_reduced_float, encode_normal, encode_subnormal, rounded_normal,
  rounded_subnormal, exponent_of, fraction_of, sign_of,
}
use cuda_js.Numeric.Nearest.{half, format, magnitude, dropped_bits}
use cuda_js.Numeric.Codes.{encode_rounds}
use cuda_js.Numeric.Layout.{
  LayoutEntry, parameter_width, kind_and_width, checked_align, lay_out_one, lay_out,
  parameter_layout,
}
use cuda_js.Numeric.Packing.{Chain, supported, parameter_layout_lem, parameter_layout_returns}

abbrev one : ℕ
one = 1023 * 2 ^ 52

abbrev minus_tiny : ℕ
minus_tiny = 2 ^ 63 + 999 * 2 ^ 52

abbrev too_large : ℕ
too_large = 1039 * 2 ^ 52

abbrev just_too_large : ℕ
just_too_large = 1038 * 2 ^ 52 + 2 ^ 52 - 2 ^ 41

codes :
    (encode_reduced_float one f16 ≡ 15360)
    × (encode_reduced_float minus_tiny f16 ≡ 32769)
    × (encode_reduced_float too_large f16 ≡ 31744)
    × (encode_reduced_float just_too_large f16 ≡ 31744)
    × (encode_reduced_float (2047 * 2 ^ 52 + 1) f16 ≡ 32256)
    × (encode_reduced_float one bf16 ≡ 16256)
unfolding encode_reduced_float encode_normal encode_subnormal round_shift_even rounded_normal
    rounded_subnormal
codes = (refl, refl, refl, refl, refl, refl)

encode_rounds_example :
    (r : ℕ) × IsNearest
      (2 ^ 52 + fraction_of just_too_large)
      (2 ^ dropped_bits (format half) (exponent_of just_too_large))
      r
    × (encode_reduced_float just_too_large (format half)
        ≡ sign_of just_too_large * 2 ^ 15 + magnitude (format half) (exponent_of just_too_large) r)
encode_rounds_example = encode_rounds half just_too_large (omega arith) (omega arith)

abbrev kind : Text → Value
kind t = object (entry (text "kind") (string t) bare)

abbrev two_kinds : List Value
two_kinds = kind (text "u32") ∷ kind (text "device-memory") ∷ []

abbrev two_parameters : Value
two_parameters = array (item (kind (text "u32")) (item (kind (text "device-memory")) end))

abbrev two_entries : List LayoutEntry
two_entries =
    record { index = 0; kind = text "u32"; offset = 0; byte_length = 4; alignment = 4 }
    ∷ record { index = 1; kind = text "device-memory"; offset = 8; byte_length = 8; alignment = 8 }
    ∷ []

known : array_items two_parameters ≡ some two_kinds
unfolding array_items to_list
known = refl

laid_out : parameter_layout two_parameters ≡ returned (two_entries, 16)
unfolding parameter_layout lay_out lay_out_one checked_align kind_and_width parameter_width
    array_items to_list field lookup_field text_eq string_of
laid_out = refl

parameter_layout_example :
    Chain 0 0 16 two_kinds two_entries
    × ((i j : ℕ) (a b : LayoutEntry)
        → i < j
        → get_elem? two_entries i ≡ some a
        → get_elem? two_entries j ≡ some b
        → (a.offset + a.byte_length ≤ b.offset) × (b.offset + b.byte_length ≤ 16))
parameter_layout_example = parameter_layout_lem two_parameters two_kinds known laid_out

all_known : all_of supported two_kinds ≡ true
unfolding kind_and_width parameter_width field lookup_field text_eq string_of
all_known = refl

parameter_layout_returns_example :
    (r : List LayoutEntry × ℕ) × (parameter_layout two_parameters ≡ returned r)
parameter_layout_returns_example =
    parameter_layout_returns two_parameters two_kinds known (omega arith) (omega arith) all_known
