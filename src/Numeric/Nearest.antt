-- ===== src/Numeric/Nearest.antt =====
-- What the sixteen bits of `encodeReducedFloat` are: the sign, and the significand rounded to the
-- nearest, which carries into the exponent.
use Prim.Native.Nat.{bit_or}
use cuda_js.Base.{
  ℕ, ◌+◌, ◌-◌, ◌*◌, ◌/◌, ◌^◌, ◌≤◌, ◌<◌, ◌≡◌, true, false, arith, ◌==◌, if◌then◌else◌, inl, inr,
  Bool-cases,
}
use cuda_js.Numeric.Bits.{bit_or_disjoint}
use cuda_js.Numeric.Encode.{
  Format, f16, bf16, sign_of, fraction_of, significand_of, infinity, overflows, encode_normal,
  encode_subnormal, is_normal, max_exponent_field,
}

-- The two formats that the source uses.
pub data Reduced : Type 0 where
  half brain : Reduced

abbrev pub format : Reduced → Format
format half = f16
format brain = bf16

pub significand_sum : (bits : ℕ) → significand_of bits ≡ 2 ^ 52 + fraction_of bits
significand_sum bits = bit_or_disjoint 52 1 (fraction_of bits) (omega arith)

pack_fields :
    (k : Reduced) (s e r : ℕ)
    → e ≤ max_exponent_field (format k)
    → r < 2 ^ (format k).fraction_bits
    → bit_or (bit_or (s * 2 ^ 15) (e * 2 ^ (format k).fraction_bits)) r
      ≡ s * 2 ^ 15 + e * 2 ^ (format k).fraction_bits + r
pack_fields half s e r he hr =
    let first = bit_or_disjoint 15 s (e * 2 ^ 10) (omega arith) in
    let regroup : s * 2 ^ 15 + e * 2 ^ 10 ≡ (s * 32 + e) * 2 ^ 10 = omega arith in
    rw (first, regroup) (bit_or_disjoint 10 (s * 32 + e) r hr)
pack_fields brain s e r he hr =
    let first = bit_or_disjoint 15 s (e * 2 ^ 7) (omega arith) in
    let regroup : s * 2 ^ 15 + e * 2 ^ 7 ≡ (s * 256 + e) * 2 ^ 7 = omega arith in
    rw (first, regroup) (bit_or_disjoint 7 (s * 256 + e) r hr)

pack_magnitude : (s r : ℕ) → r < 2 ^ 15 → bit_or (s * 2 ^ 15) r ≡ s * 2 ^ 15 + r
pack_magnitude s r h = bit_or_disjoint 15 s r h

pub infinity_sum :
    (k : Reduced) (bits : ℕ)
    → infinity (format k) bits
      ≡ sign_of bits * 2 ^ 15 + max_exponent_field (format k) * 2 ^ (format k).fraction_bits
infinity_sum half bits = bit_or_disjoint 15 (sign_of bits) (31 * 2 ^ 10) (omega arith)
infinity_sum brain bits = bit_or_disjoint 15 (sign_of bits) (255 * 2 ^ 7) (omega arith)

-- The sixteen bits without the sign, for a double's exponent and a rounded significand.
abbrev pub magnitude : Format → ℕ → ℕ → ℕ
magnitude f exponent rounded =
    if overflows f exponent
    then max_exponent_field f * 2 ^ f.fraction_bits
    else if is_normal f exponent
    then (exponent + f.bias - 1024) * 2 ^ f.fraction_bits + rounded
    else rounded

-- How many bits of a double's significand are rounded away.
abbrev pub dropped_bits : Format → ℕ → ℕ
dropped_bits f exponent =
    if is_normal f exponent
    then 52 - f.fraction_bits
    else 1076 - (exponent + f.bias + f.fraction_bits)

pub normal_code :
    (k : Reduced) (bits exponent r : ℕ)
    → overflows (format k) exponent ≡ false
    → is_normal (format k) exponent ≡ true
    → 2 ^ (format k).fraction_bits ≤ r
    → r ≤ 2 ^ ((format k).fraction_bits + 1)
    → encode_normal (format k) bits exponent r
      ≡ sign_of bits * 2 ^ 15
        + ((exponent + (format k).bias - 1024) * 2 ^ (format k).fraction_bits + r)
unfolding encode_normal
normal_code half bits exponent r finite normal low high =
    let field = exponent + 15 - 1023 in
    elim (Bool-cases (r == 2048)) [
      | inr below ↦
          let packed =
            pack_fields half (sign_of bits) field (r - 1024) (ground arith) (ground arith) in
          rw (below, packed) (ground arith)
      | inl carry ↦ elim (Bool-cases (overflows f16 (exponent + 1))) [
        | inl over ↦ rw (carry, over, infinity_sum half bits) (ground arith)
        | inr within ↦
            let packed =
              pack_fields half (sign_of bits) (exponent + 1 + 15 - 1023) (r / 2 - 1024)
                (ground arith) (ground arith) in
            rw (carry, within, packed) (ground arith)
      ]
    ]
normal_code brain bits exponent r finite normal low high =
    let field = exponent + 127 - 1023 in
    elim (Bool-cases (r == 256)) [
      | inr below ↦
          let packed =
            pack_fields brain (sign_of bits) field (r - 128) (ground arith) (ground arith) in
          rw (below, packed) (ground arith)
      | inl carry ↦ elim (Bool-cases (overflows bf16 (exponent + 1))) [
        | inl over ↦ rw (carry, over, infinity_sum brain bits) (ground arith)
        | inr within ↦
            let packed =
              pack_fields brain (sign_of bits) (exponent + 1 + 127 - 1023) (r / 2 - 128)
                (ground arith) (ground arith) in
            rw (carry, within, packed) (ground arith)
      ]
    ]

pub subnormal_code :
    (k : Reduced) (bits r : ℕ)
    → r ≤ 2 ^ (format k).fraction_bits
    → encode_subnormal (format k) bits r ≡ sign_of bits * 2 ^ 15 + r
unfolding encode_subnormal
subnormal_code half bits r h = ground (
  arith,
  pack_magnitude (sign_of bits) r (omega arith),
  pack_magnitude (sign_of bits) 1024 (omega arith),
)
subnormal_code brain bits r h = ground (
  arith,
  pack_magnitude (sign_of bits) r (omega arith),
  pack_magnitude (sign_of bits) 128 (omega arith),
)
