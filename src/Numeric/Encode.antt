-- ===== src/Numeric/Encode.antt =====
-- `encodeReducedFloat`: the sixteen bits of f16 or bf16 for the 64 bits of a double.
use Prim.Native.Nat.{bit_or}
use cuda_js.Base.{ℕ, ◌+◌, ◌-◌, ◌*◌, ◌/◌, ◌%◌, ◌^◌, Bool, not, ◌&&◌, ltb, leb, ◌==◌, if◌then◌else◌}
use cuda_js.Numeric.Rounding.{round_shift_even}

pub record Format : Type 0 where
  pub exponent_bits : ℕ
  pub fraction_bits : ℕ
  pub bias : ℕ
  pub canonical_nan : ℕ

abbrev pub f16 : Format
f16 = record { exponent_bits = 5; fraction_bits = 10; bias = 15; canonical_nan = 32256 }

abbrev pub bf16 : Format
bf16 = record { exponent_bits = 8; fraction_bits = 7; bias = 127; canonical_nan = 32704 }

abbrev pub sign_of : ℕ → ℕ
sign_of bits = bits / 2 ^ 63

abbrev pub exponent_of : ℕ → ℕ
exponent_of bits = bits / 2 ^ 52 % 2048

abbrev pub fraction_of : ℕ → ℕ
fraction_of bits = bits % 2 ^ 52

abbrev pub significand_of : ℕ → ℕ
significand_of bits = bit_or (2 ^ 52) (fraction_of bits)

abbrev pub sign_bits : Format → ℕ → ℕ
sign_bits f bits = sign_of bits * 2 ^ (f.exponent_bits + f.fraction_bits)

abbrev pub max_exponent_field : Format → ℕ
max_exponent_field f = 2 ^ f.exponent_bits - 1

abbrev pub infinity : Format → ℕ → ℕ
infinity f bits = bit_or (sign_bits f bits) (max_exponent_field f * 2 ^ f.fraction_bits)

-- `unbiased > maximumNormalExponent`, where `unbiased` is `exponent - 1023`.
abbrev pub overflows : Format → ℕ → Bool
overflows f exponent = ltb (max_exponent_field f + 1023) (exponent + f.bias + 1)

-- `signBits | (exponentField << fractionBits) | fractionField`
abbrev pub fields : Format → ℕ → ℕ → ℕ → ℕ
fields f bits exponent rounded =
    bit_or (bit_or (sign_bits f bits) ((exponent + f.bias - 1023) * 2 ^ f.fraction_bits))
      (rounded - 2 ^ f.fraction_bits)

unfoldable pub encode_normal : Format → ℕ → ℕ → ℕ → ℕ
encode_normal f bits exponent rounded =
    if rounded == 2 ^ (f.fraction_bits + 1)
    then if overflows f (exponent + 1)
      then infinity f bits
      else fields f bits (exponent + 1) (rounded / 2)
    else fields f bits exponent rounded

unfoldable pub encode_subnormal : Format → ℕ → ℕ → ℕ
encode_subnormal f bits rounded =
    if rounded == 0
    then sign_bits f bits
    else if leb (2 ^ f.fraction_bits) rounded
    then bit_or (sign_bits f bits) (1 * 2 ^ f.fraction_bits)
    else bit_or (sign_bits f bits) rounded

-- The rounded significand, for a result that is normal, and for one that is not: the shifts are
-- `53 - precision` and `53 - unbiased - bias - fractionBits`.
unfoldable pub rounded_normal : Format → ℕ → ℕ
unfolding round_shift_even
rounded_normal f bits = round_shift_even (significand_of bits) 53 (f.fraction_bits + 1)

unfoldable pub rounded_subnormal : Format → ℕ → ℕ
unfolding round_shift_even
rounded_subnormal f bits =
    round_shift_even (significand_of bits) 1076 (exponent_of bits + f.bias + f.fraction_bits)

-- `unbiased >= minimumNormalExponent`
abbrev pub is_normal : Format → ℕ → Bool
is_normal f exponent = leb 1024 (exponent + f.bias)

unfoldable pub encode_reduced_float : ℕ → Format → ℕ
unfolding encode_normal encode_subnormal rounded_normal rounded_subnormal
encode_reduced_float bits f =
    let exponent = exponent_of bits in
    if exponent == 2047
    then if not (fraction_of bits == 0) then f.canonical_nan else infinity f bits
    else if exponent == 0 && fraction_of bits == 0
    then sign_bits f bits
    else if exponent == 0
    then sign_bits f bits
    else if overflows f exponent
    then infinity f bits
    else if is_normal f exponent
    then encode_normal f bits exponent (rounded_normal f bits)
    else encode_subnormal f bits (rounded_subnormal f bits)
