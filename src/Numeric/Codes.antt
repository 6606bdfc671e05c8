-- ===== src/Numeric/Codes.antt =====
-- The rounded significand of `encodeReducedFloat` in its place among the sixteen bits.
use native.Mathlib.Nat.{mul-le-mul_right, pow-le-pow_right}
use cuda_js.Base.{
  ℕ, suc, ◌+◌, ◌-◌, ◌*◌, ◌^◌, ◌≤◌, ◌<◌, ◌≡◌, ◌≢◌, refl, false, arith, leb, ◌==◌, inl, inr,
  Bool-cases, subst, sym,
}
use cuda_js.Numeric.Rounding.{shift-IsNearest, IsNearest}
use cuda_js.Numeric.Encode.{
  Format, f16, bf16, sign_of, exponent_of, fraction_of, significand_of, overflows, rounded_normal,
  rounded_subnormal, is_normal, encode_reduced_float,
}
use cuda_js.Numeric.Nearest.{
  Reduced, half, brain, format, significand_sum, infinity_sum, magnitude, dropped_bits, normal_code,
  subnormal_code,
}

-- The significand rounds to no more than the next power of two.
rounded_bound :
    (value unit bound r : ℕ)
    → 2 * value < 2 * (bound * unit) + unit
    → IsNearest value unit r
    → r ≤ bound
rounded_bound value unit bound r h near = elim (Bool-cases (leb r bound)) [
  | inl within ↦ ground arith
  | inr beyond ↦
      let more : bound + 1 ≤ r = ground arith in
      let product : (bound + 1) * unit ≤ r * unit = mul-le-mul_right unit more in
      let split : (bound + 1) * unit ≡ bound * unit + unit = grind arith in
      absurd (omega (arith, near.not_above))
]

significand_low : (bits : ℕ) → 2 ^ 52 ≤ significand_of bits
significand_low bits = rw (significand_sum bits) (omega arith)

significand_high : (bits : ℕ) → significand_of bits < 2 ^ 53
significand_high bits = rw (significand_sum bits) (omega arith)

normal-IsNearest :
    (k : Reduced) (bits : ℕ)
    → IsNearest
        (significand_of bits)
        (2 ^ (52 - (format k).fraction_bits))
        (rounded_normal (format k) bits)
unfolding rounded_normal
normal-IsNearest half bits =
    shift-IsNearest (significand_of bits) 53 11 41 refl (significand_high bits)
normal-IsNearest brain bits =
    shift-IsNearest (significand_of bits) 53 8 44 refl (significand_high bits)

normal_bounds :
    (k : Reduced) (bits : ℕ)
    → (2 ^ (format k).fraction_bits ≤ rounded_normal (format k) bits)
      × (rounded_normal (format k) bits ≤ 2 ^ ((format k).fraction_bits + 1))
normal_bounds half bits =
    let near = normal-IsNearest half bits in
    (
      omega (arith, near.not_below, significand_low bits),
      omega (arith, near.not_above, significand_high bits),
    )
normal_bounds brain bits =
    let near = normal-IsNearest brain bits in
    (
      omega (arith, near.not_below, significand_low bits),
      omega (arith, near.not_above, significand_high bits),
    )

subnormal-IsNearest :
    (f : Format) (bits : ℕ)
    → exponent_of bits + f.bias + f.fraction_bits ≤ 1075
    → IsNearest
        (significand_of bits)
        (2 ^ (1076 - (exponent_of bits + f.bias + f.fraction_bits)))
        (rounded_subnormal f bits)
unfolding rounded_subnormal
subnormal-IsNearest f bits h =
    let down = exponent_of bits + f.bias + f.fraction_bits in
    let e : suc (1075 - down) ≡ 1076 - down = omega arith in
    subst (λ n. IsNearest (significand_of bits) (2 ^ n) (rounded_subnormal f bits)) e
      (shift-IsNearest (significand_of bits) 1076 down (1075 - down) (omega arith)
        (significand_high bits))

subnormal_bound :
    (k : Reduced) (bits : ℕ)
    → is_normal (format k) (exponent_of bits) ≡ false
    → rounded_subnormal (format k) bits ≤ 2 ^ (format k).fraction_bits
subnormal_bound half bits h =
    let down = exponent_of bits + 15 + 10 in
    let unit : 2 ^ 43 ≤ 2 ^ (1076 - down) =
      pow-le-pow_right {n = 2} (omega arith) {i = 43} {j = 1076 - down} (ground arith) in
    rounded_bound (significand_of bits) (2 ^ (1076 - down)) (2 ^ 10) (rounded_subnormal f16 bits)
      (omega (arith, unit, significand_high bits)) (subnormal-IsNearest f16 bits (ground arith))
subnormal_bound brain bits h =
    let down = exponent_of bits + 127 + 7 in
    let unit : 2 ^ 46 ≤ 2 ^ (1076 - down) =
      pow-le-pow_right {n = 2} (omega arith) {i = 46} {j = 1076 - down} (ground arith) in
    rounded_bound (significand_of bits) (2 ^ (1076 - down)) (2 ^ 7) (rounded_subnormal bf16 bits)
      (omega (arith, unit, significand_high bits)) (subnormal-IsNearest bf16 bits (ground arith))

small_within :
    (k : Reduced) (e : ℕ) → is_normal (format k) e ≡ false → overflows (format k) e ≡ false
small_within half e h = ground arith
small_within brain e h = ground arith

small_shift :
    (k : Reduced) (e : ℕ)
    → is_normal (format k) e ≡ false
    → e + (format k).bias + (format k).fraction_bits ≤ 1075
small_shift half e h = ground arith
small_shift brain e h = ground arith

-- For a double that is neither zero, subnormal, infinite nor NaN, the result is the sign and the
-- magnitude of a rounded significand: the significand, with its hidden bit, is rounded to the
-- nearest multiple of the last place kept, and to an even one at a tie, where a carry runs into
-- the exponent; and what is too large for the format becomes infinity.
pub encode_rounds :
    (k : Reduced) (bits : ℕ)
    → exponent_of bits ≢ 0
    → exponent_of bits ≢ 2047
    → (r : ℕ) × IsNearest
        (2 ^ 52 + fraction_of bits)
        (2 ^ dropped_bits (format k) (exponent_of bits))
        r
      × (encode_reduced_float bits (format k)
          ≡ sign_of bits * 2 ^ 15 + magnitude (format k) (exponent_of bits) r)
unfolding encode_reduced_float
encode_rounds k bits nonzero finite =
    let f = format k in
    let whole = significand_sum bits in
    let top : (exponent_of bits == 2047) ≡ false = ground arith in
    let bottom : (exponent_of bits == 0) ≡ false = ground arith in
    elim (Bool-cases (is_normal f (exponent_of bits))) [
      | inl normal ↦ elim (Bool-cases (overflows f (exponent_of bits))) [
        | inl over ↦ (
          rounded_normal f bits,
          rw normal (rw (sym whole) (normal-IsNearest k bits)),
          rw (top, bottom, over) (infinity_sum k bits),
        )
        | inr within ↦
            let (low, high) = normal_bounds k bits in
            (
              rounded_normal f bits,
              rw normal (rw (sym whole) (normal-IsNearest k bits)),
              rw (top, bottom, within, normal)
                  (normal_code k bits (exponent_of bits) (rounded_normal f bits) within normal low
                    high),
            )
      ]
      | inr small ↦
          let within : overflows f (exponent_of bits) ≡ false =
            small_within k (exponent_of bits) small in
          (
            rounded_subnormal f bits,
            rw small (
                rw (sym whole)
                  (subnormal-IsNearest f bits (small_shift k (exponent_of bits) small))),
            rw (top, bottom, within, small)
                (subnormal_code k bits (rounded_subnormal f bits) (subnormal_bound k bits small)),
          )
    ]
