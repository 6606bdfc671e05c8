-- ===== src/Views/Ranges.antt =====
-- Views are aligned and stay within their allocation, and `deviceViewRangesOverlap` finds a byte
-- that two of them share.
use native.Mathlib.Nat.{mul-le-mul_left, div-add-mod}
use cuda_js.Base.{
  ℕ, ◌+◌, ◌*◌, ◌/◌, ◌%◌, ◌≤◌, ◌<◌, ◌≡◌, ◌↔◌, ap, ◌∙◌, true, Option, none, some, arith, leb, ◌==◌,
  inl, inr, Option-cases, Bool-cases,
}
use cuda_js.Base.Outcome.{returned, Outcome-cases}
use cuda_js.Js.{
  Text, text, Value, string, natural, Fields, lookup_field, or_else, nonnegative_safe_integer,
  plain_fields, max_safe,
}
use cuda_js.Registry.State.{Registry}
use cuda_js.Registry.Access.{get}
use cuda_js.Views.Options.{
  View, Access, property_key, dtype_width, width_of, role_of, checked_product, create_view,
  normalize_create_options, assert_range, ranges_overlap, admit_view,
}

-- A byte of the allocation that belongs to a view.
abbrev pub Covers : View → ℕ → Type 0
Covers v b = (v.byte_offset ≤ b) × (b < v.byte_offset + v.byte_length)

-- Two views overlap, as the source decides it, exactly if some byte belongs to both.
pub ranges_overlap_iff :
    (left right : View)
    → (ranges_overlap left right ≡ true) ↔ ((b : ℕ) × Covers left b × Covers right b)
unfolding ranges_overlap
ranges_overlap_iff left right = (common, λ (b, cl, cr). ground arith)
  where
    common : ranges_overlap left right ≡ true → (b : ℕ) × Covers left b × Covers right b
    common h = elim (Bool-cases (leb left.byte_offset right.byte_offset)) [
      | inl before ↦ (right.byte_offset, (ground arith, ground arith), (ground arith, ground arith))
      | inr behind ↦ (left.byte_offset, (ground arith, ground arith), (ground arith, ground arith))
    ]

checked_product_lem :
    (left right : ℕ) {n : ℕ}
    → checked_product left right ≡ returned n
    → (n ≡ left * right) × (n ≤ max_safe)
unfolding checked_product
checked_product_lem left right {n} h = elim (Bool-cases (left == 0)) [
  | inl nothing ↦
      let e : left ≡ 0 = ground arith in
      let done : n ≡ left * right = ground arith in (done, rw done (rw e (omega arith)))
  | inr something ↦
      let done : n ≡ left * right = ground arith in
      let fits : right ≤ max_safe / left = ground arith in
      (done, rw done (omega (arith, mul-le-mul_left left fits, div-add-mod max_safe left)))
]

-- What `normalizeCreateOptions` promises of the view that it returns.
pub record IsView (v : View) : Type 0 where
  pub key : Text
  pub read : property_key v.dtype ≡ some key
  pub known : dtype_width key ≡ some v.width
  pub whole : 1 ≤ v.width
  pub aligned : v.byte_offset % v.width ≡ 0
  pub exact : v.byte_length ≡ v.element_count * v.width
  pub safe : v.byte_length ≤ max_safe

create_view-IsView :
    (fs : Fields) (t : Text) (width offset count : ℕ) (access : Access) {v : View}
    → property_key (lookup_field fs (text "dtype")) ≡ some t
    → dtype_width t ≡ some width
    → create_view fs width offset count access ≡ returned v
    → IsView v
unfolding create_view
create_view-IsView fs t width offset count access {v} named known h =
    elim (Outcome-cases (checked_product count width)) [
      | inr (f, bad) ↦ absurd (ground arith)
      | inl (n, good) ↦
          let (exact, safe) = checked_product_lem count width good in
          let name : v.dtype ≡ lookup_field fs (text "dtype") = ground arith in
          let w : v.width ≡ width = ground arith in
          record {
            key = t;
            read = rw name named;
            known = rw w known;
            whole = ground arith;
            aligned = ground arith;
            exact = ground arith;
            safe = ground arith;
          }
    ]

width_of_inv :
    (v : Value) {w : ℕ}
    → width_of v ≡ some w
    → (t : Text) × (property_key v ≡ some t) × (dtype_width t ≡ some w)
unfolding width_of
width_of_inv v {w} h = elim (Option-cases (property_key v)) [
  | inl bad ↦ absurd (ground arith)
  | inr (t, key) ↦ (t, key, ground arith)
]

normalize_create_options-IsView :
    (options : Value) {v : View} → normalize_create_options options ≡ returned v → IsView v
unfolding normalize_create_options
normalize_create_options-IsView options {v} h = elim (Option-cases (plain_fields options)) [
  | inl bad ↦ absurd (ground arith)
  | inr (fs, plain) ↦
      let dtype = lookup_field fs (text "dtype") in
      let from = or_else (lookup_field fs (text "byteOffset")) (natural 0) in
      let count = lookup_field fs (text "elementCount") in
      let role = or_else (lookup_field fs (text "access")) (string (text "read-write")) in
      elim (Option-cases (width_of dtype)) [
        | inl bad ↦ absurd (ground arith)
        | inr (w, known) ↦ elim (Option-cases (nonnegative_safe_integer from)) [
          | inl bad ↦ absurd (ground arith)
          | inr (o, at) ↦ elim (Option-cases (nonnegative_safe_integer count)) [
            | inl bad ↦ absurd (ground arith)
            | inr (n, many) ↦ elim (Option-cases (role_of role)) [
              | inl bad ↦ absurd (ground arith)
              | inr (a, allowed) ↦
                  let (t, named, wide) = width_of_inv dtype known in
                  create_view-IsView fs t w o n a named wide (ground arith)
            ]
          ]
        ]
      ]
]

assert_range_lem :
    (len : ℕ) (view : View)
    → assert_range len view ≡ returned tt
    → view.byte_offset + view.byte_length ≤ len
unfolding assert_range
assert_range_lem len view h = ground arith

module _ {ℓ} {V : Type ℓ} (length_of : V → Option ℕ) (store : View → V) where
  -- A view that `create` accepts has a dtype whose property key is the name of a known one, is
  -- aligned to its width, exactly as long as its elements, and lies within the live allocation that
  -- its token names.
  pub admit_view-IsView :
      (r : Registry V) (memory options : Value) {view : View}
      → admit_view length_of store r memory options ≡ returned view
      → IsView view
        × ((v : V) × (len : ℕ) × (get r memory (some (text "device-memory")) ≡ returned (some v))
            × (length_of v ≡ some len)
            × (view.byte_offset + view.byte_length ≤ len))
  unfolding admit_view
  admit_view-IsView r memory options {view} h =
      elim (Outcome-cases (normalize_create_options options)) [
        | inr (f, bad) ↦ absurd (ground arith)
        | inl (w, good) ↦ elim (Outcome-cases (get r memory (some (text "device-memory")))) [
          | inr (f, bad) ↦ absurd (ground arith)
          | inl (none, got) ↦ absurd (ground arith)
          | inl (some v, got) ↦ elim (Option-cases (length_of v)) [
            | inl bad ↦ absurd (ground arith)
            | inr (len, long) ↦ elim (Outcome-cases (assert_range len w)) [
              | inr (f, bad) ↦ absurd (ground arith)
              | inl (u, fits) ↦
                  let same : w ≡ view = ground arith in
                  (
                    normalize_create_options-IsView options (good ∙ ap returned same),
                    (v, len, got, long, rw (← same) (assert_range_lem len w fits)),
                  )
            ]
          ]
        ]
      ]
