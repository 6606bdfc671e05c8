-- ===== src/Numeric/Scalars.antt =====
-- `isParameterKind` and `isScalarParameterValue`: which values a launch may pass for a parameter.
-- A fraction is less than 2 ^ 53, so that `Math.fround` of it is finite.
use cuda_js.Base.{ℕ, ◌-◌, ◌^◌, Bool, true, false, ◌||◌, none, some, ltb, if◌then◌else◌}
use cuda_js.Js.{
  text, text_eq, Value, natural, negative, fraction, not_finite, bigint, string, string_of,
}
use cuda_js.Numeric.Layout.{parameter_width}

-- `isParameterKind`
unfoldable pub is_parameter_kind : Value → Bool
unfolding string_of parameter_width
is_parameter_kind v = elim (string_of v) [
  | none ↦ false
  | some t ↦ elim (parameter_width t) [ none ↦ false | some w ↦ true ]
]

unfoldable pub is_u32 : Value → Bool
is_u32 (natural n) = ltb n (2 ^ 32)
is_u32 _ = false

unfoldable pub is_u64 : Value → Bool
is_u64 (bigint n) = ltb n (2 ^ 64)
is_u64 _ = false

unfoldable pub is_i32 : Value → Bool
is_i32 (natural n) = ltb n (2 ^ 31)
is_i32 (negative n) = ltb n (2 ^ 31)
is_i32 _ = false

-- The least magnitude that rounds to the infinity of binary32.
abbrev pub f32_overflow : ℕ
f32_overflow = 2 ^ 128 - 2 ^ 103

unfoldable pub is_f32 : Value → Bool
is_f32 (natural n) = ltb n f32_overflow
is_f32 (negative n) = ltb n (f32_overflow - 1)
is_f32 fraction = true
is_f32 _ = false

-- `typeof value === 'number'`
unfoldable pub is_number : Value → Bool
is_number (natural n) = true
is_number (negative n) = true
is_number fraction = true
is_number not_finite = true
is_number _ = false

-- `Number.isFinite(value)`
unfoldable pub is_finite : Value → Bool
is_finite (natural n) = true
is_finite (negative n) = true
is_finite fraction = true
is_finite _ = false

-- `isScalarParameterValue`
unfoldable pub is_scalar_parameter_value : Value → Value → Bool
unfolding text_eq is_u32 is_u64 is_i32 is_f32 is_number
is_scalar_parameter_value (string kind) v =
    if text_eq kind (text "u32")
    then is_u32 v
    else if text_eq kind (text "u64")
    then is_u64 v
    else if text_eq kind (text "i32")
    then is_i32 v
    else if text_eq kind (text "f32")
    then is_f32 v
    else if text_eq kind (text "f64") || (text_eq kind (text "f16") || text_eq kind (text "bf16"))
    then is_number v
    else false
is_scalar_parameter_value _ v = false
