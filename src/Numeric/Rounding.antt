-- ===== src/Numeric/Rounding.antt =====
-- `roundShiftEven`: a shift to the right that rounds to the nearest, and to even at a tie.
use cuda_js.Base.{
  ℕ, suc, ◌+◌, ◌-◌, ◌*◌, ◌/◌, ◌%◌, ◌^◌, ◌≤◌, ◌<◌, ◌≡◌, refl, Bool, true, false, ◌&&◌, ◌||◌, arith,
  ltb, leb, ◌==◌, inl, inr, Bool-cases, sym, if◌then◌else◌,
}
use native.Mathlib.Nat.{one-le-pow, pow-le-pow_right, div-add-mod', mod-lt}

abbrev pub rounds_up : ℕ → ℕ → ℕ → Bool
rounds_up quotient remainder half = ltb half remainder || remainder == half && quotient % 2 == 1

abbrev pub round_at : ℕ → ℕ → ℕ → ℕ
round_at quotient remainder half =
    if rounds_up quotient remainder half then quotient + 1 else quotient

-- The shift is `up - down`, which may be negative.
unfoldable pub round_shift_even : ℕ → ℕ → ℕ → ℕ
round_shift_even value up down =
    if leb up down
    then value * 2 ^ (down - up)
    else if value == 0 || ltb 63 (up - down)
    then 0
    else round_at (value / 2 ^ (up - down)) (value % 2 ^ (up - down)) (2 ^ (up - down - 1))

pub record IsNearest (value unit rounded : ℕ) : Type 0 where
  pub not_above : 2 * (rounded * unit) ≤ 2 * value + unit
  pub not_below : 2 * value ≤ 2 * (rounded * unit) + unit
  pub tie_above : 2 * (rounded * unit) ≡ 2 * value + unit → rounded % 2 ≡ 0
  pub tie_below : 2 * value ≡ 2 * (rounded * unit) + unit → rounded % 2 ≡ 0

-- The product is given by its value, so that only sums are left.
module _ (value half quotient remainder product : ℕ) (split : value ≡ product + remainder)
    (small : remainder < half + half) where
  round_up_nearest :
      rounds_up quotient remainder half ≡ true
      → (2 * (product + (half + half)) ≤ 2 * value + (half + half))
        × (2 * value ≤ 2 * (product + (half + half)) + (half + half))
        × (2 * (product + (half + half)) ≡ 2 * value + (half + half) → (quotient + 1) % 2 ≡ 0)
        × (2 * value ≡ 2 * (product + (half + half)) + (half + half) → (quotient + 1) % 2 ≡ 0)
  round_up_nearest up = ground arith

  round_down_nearest :
      rounds_up quotient remainder half ≡ false
      → (2 * product ≤ 2 * value + (half + half))
        × (2 * value ≤ 2 * product + (half + half))
        × (2 * product ≡ 2 * value + (half + half) → quotient % 2 ≡ 0)
        × (2 * value ≡ 2 * product + (half + half) → quotient % 2 ≡ 0)
  round_down_nearest down = ground arith

next_multiple : (quotient unit : ℕ) → (quotient + 1) * unit ≡ quotient * unit + unit
next_multiple quotient unit = grind arith

round_at-IsNearest :
    (value half quotient remainder : ℕ)
    → value ≡ quotient * (half + half) + remainder
    → remainder < half + half
    → IsNearest value (half + half) (round_at quotient remainder half)
round_at-IsNearest value half quotient remainder split small =
    elim (Bool-cases (rounds_up quotient remainder half)) [
      | inl up ↦
          let (a, b, c, d) =
            round_up_nearest value half quotient remainder (quotient * (half + half)) split small
              up in
          let e = next_multiple quotient (half + half) in
          rw up (record {
            not_above = rw e a;
            not_below = rw e b;
            tie_above = rw e c;
            tie_below = rw e d;
          })
      | inr down ↦
          let (a, b, c, d) =
            round_down_nearest value half quotient remainder (quotient * (half + half)) split small
              down in
          rw down (record { not_above = a; not_below = b; tie_above = c; tie_below = d })
    ]

unit_halves : (s : ℕ) → 2 ^ suc s ≡ 2 ^ s + 2 ^ s
unit_halves s = omega arith

pow_pos : (s : ℕ) → 1 ≤ 2 ^ s
pow_pos s = one-le-pow s 2 (omega arith)

big_unit : (s : ℕ) → 63 ≤ s → 2 ^ 64 ≤ 2 ^ suc s
big_unit s h = pow-le-pow_right {n = 2} (omega arith) {i = 64} {j = suc s} (omega arith)

zero-IsNearest : (value unit : ℕ) → 2 * value < unit → IsNearest value unit 0
zero-IsNearest value unit h = record {
  not_above = omega arith;
  not_below = omega arith;
  tie_above = λ _. refl;
  tie_below = λ _. refl;
}

positive_shift :
    (value up down s : ℕ)
    → up ≡ down + suc s
    → round_shift_even value up down ≡ (
        if value == 0 || ltb 63 (suc s)
        then 0
        else round_at (value / 2 ^ suc s) (value % 2 ^ suc s) (2 ^ s))
unfolding round_shift_even
positive_shift value up down s h =
    let right : leb up down ≡ false = ground arith in
    let shift : up - down ≡ suc s = omega arith in
    let below : suc s - 1 ≡ s = omega arith in rw (right, shift, below) refl

-- Below the limit on the shift the result is the quotient that is nearest, and even at a tie.
pub shift-IsNearest :
    (value up down s : ℕ)
    → up ≡ down + suc s
    → value < 2 ^ 53
    → IsNearest value (2 ^ suc s) (round_shift_even value up down)
shift-IsNearest value up down s h small = elim (Bool-cases (value == 0 || ltb 63 (suc s))) [
  | inl none_left ↦
      let tiny : 2 * value < 2 ^ suc s = elim (Bool-cases (value == 0)) [
        | inl e ↦ let e' : value ≡ 0 = ground arith in omega (arith, pow_pos (suc s))
        | inr e ↦ let e' : 63 ≤ s = ground arith in omega (arith, big_unit s e')
      ] in
      rw (positive_shift value up down s h, none_left) (zero-IsNearest value (2 ^ suc s) tiny)
  | inr some_left ↦
      let e = unit_halves s in
      rw (positive_shift value up down s h, some_left, e)
        (round_at-IsNearest value (2 ^ s) (value / (2 ^ s + 2 ^ s)) (value % (2 ^ s + 2 ^ s))
          (sym (div-add-mod' value (2 ^ s + 2 ^ s))) (mod-lt value (omega (arith, pow_pos s))))
]
