-- ===== src/Numeric/Packing.antt =====
-- The entries of `parameterLayout`: aligned, in order, without overlaps or needless gaps.
use cuda_js.Base.{
  ℕ, zero, suc, ◌+◌, ◌*◌, ◌%◌, ◌≤◌, ◌<◌, ◌≡◌, refl, Bool, true, false, none, some, List, [], ◌∷◌,
  arith, leb, get_elem?, length, all_of, inl, inr, ◌⊎◌, Option-cases, sym, subst,
}
use cuda_js.Base.Outcome.{returned, >>=-eq-returned}
use cuda_js.Js.{Text, text, Value, field, string_of, array_items, max_safe}
use cuda_js.Numeric.Layout.{
  parameter_width, kind_and_width, align, checked_align, LayoutEntry, lay_out_one, lay_out,
  parameter_layout,
}

parameter_width_values :
    (kind : Text) {w : ℕ} → parameter_width kind ≡ some w → (w ≡ 8) ⊎ ((w ≡ 4) ⊎ (w ≡ 2))
unfolding parameter_width
parameter_width_values kind h = ground arith

-- An entry for a parameter, placed at the first aligned offset from `size` on.
pub record IsPlaced (index size : ℕ) (parameter : Value) (e : LayoutEntry) : Type 0 where
  pub numbered : e.index ≡ index
  pub named : kind_and_width parameter ≡ some (e.kind, e.byte_length)
  pub own_width : e.alignment ≡ e.byte_length
  pub aligned : e.offset % e.byte_length ≡ 0
  pub behind : size ≤ e.offset
  pub tight : e.offset < size + e.byte_length
  pub inside : e.offset + e.byte_length ≤ max_safe

kind_and_width_values :
    (p : Value) {kw : Text × ℕ}
    → kind_and_width p ≡ some kw
    → (kw.1 ≡ 8) ⊎ ((kw.1 ≡ 4) ⊎ (kw.1 ≡ 2))
unfolding kind_and_width
kind_and_width_values p {kw} h = elim (Option-cases (string_of (field p (text "kind")))) [
  | inl bad ↦ ground arith
  | inr (kind, good) ↦ elim (Option-cases (parameter_width kind)) [
    | inl none_wide ↦ ground arith
    | inr (w, wide) ↦
        let e : w ≡ kw.1 = ground arith in rw (sym e) (parameter_width_values kind wide)
  ]
]

align_lem :
    (offset w : ℕ)
    → (w ≡ 8) ⊎ ((w ≡ 4) ⊎ (w ≡ 2))
    → (align offset w % w ≡ 0) × (offset ≤ align offset w) × (align offset w < offset + w)
align_lem offset w (inl h) = rw h (ground arith)
align_lem offset w (inr (inl h)) = rw h (ground arith)
align_lem offset w (inr (inr h)) = rw h (ground arith)

lay_out_one-IsPlaced :
    (index size : ℕ) (p : Value) {e : LayoutEntry} {next : ℕ}
    → lay_out_one index size p ≡ returned (e, next)
    → IsPlaced index size p e × (next ≡ e.offset + e.byte_length)
unfolding lay_out_one checked_align
lay_out_one-IsPlaced index size p {e} {next} h = elim (Option-cases (kind_and_width p)) [
  | inl bad ↦ ground arith
  | inr (kw, good) ↦
      let (a, b, c) = align_lem size kw.1 (kind_and_width_values p good) in ground arith
]

-- Entries that are placed one behind the other, from a size to a total.
pub data Chain : ℕ → ℕ → ℕ → List Value → List LayoutEntry → Type 0 where
  full : {index size : ℕ} → Chain index size size [] []
  placed :
      {index size total : ℕ} {p : Value} {ps : List Value} {e : LayoutEntry} {es : List LayoutEntry}
      → IsPlaced index size p e
      → Chain (suc index) (e.offset + e.byte_length) total ps es
      → Chain index size total (p ∷ ps) (e ∷ es)

pub lay_out-Chain :
    (index size : ℕ) (ps : List Value) {es : List LayoutEntry} {total : ℕ}
    → lay_out index size ps ≡ returned (es, total)
    → Chain index size total ps es
unfolding lay_out
lay_out-Chain index size [] {es} {total} h =
    let a : [] ≡ es = ground arith in
    let b : size ≡ total = ground arith in
    subst (λ es. Chain index size total [] es) a (subst (λ t. Chain index size t [] []) b full)
lay_out-Chain index size (p ∷ ps) {es} {total} h =
    let (first, one, h') = >>=-eq-returned (lay_out_one index size p) _ h in
    let (rest, more, done) = >>=-eq-returned (lay_out (suc index) first.1 ps) _ h' in
    let (ok, next) = lay_out_one-IsPlaced index size p one in
    let tail = lay_out-Chain (suc index) first.1 ps more in
    let a : first.0 ∷ rest.0 ≡ es = ground arith in
    let b : rest.1 ≡ total = ground arith in
    subst (λ es. Chain index size total (p ∷ ps) es) a
      (placed ok (
        subst (λ n. Chain (suc index) n total ps rest.0) next
          (subst (λ t. Chain (suc index) first.1 t ps rest.0) b tail)))

Chain-grows :
    {index size total : ℕ} {ps : List Value} {es : List LayoutEntry}
    → Chain index size total ps es
    → size ≤ total
Chain-grows full = omega arith
Chain-grows (placed ok more) = omega (arith, ok.behind, Chain-grows more)

Chain-behind :
    {index size total : ℕ} {ps : List Value} {es : List LayoutEntry} (i : ℕ) {e : LayoutEntry}
    → Chain index size total ps es
    → get_elem? es i ≡ some e
    → (size ≤ e.offset) × (e.offset + e.byte_length ≤ total)
Chain-behind i full h = cc
Chain-behind {size} {total} zero {e} (placed {e = x} ok more) h =
    let same : x ≡ e = ground arith in
    subst (λ y. (size ≤ y.offset) × (y.offset + y.byte_length ≤ total)) same
      (ok.behind, Chain-grows more)
Chain-behind (suc i) (placed ok more) h =
    let (low, high) = Chain-behind i more h in (omega (arith, ok.behind), high)

Chain-ordered :
    {index size total : ℕ} {ps : List Value} {es : List LayoutEntry} (i j : ℕ) {a b : LayoutEntry}
    → Chain index size total ps es
    → i < j
    → get_elem? es i ≡ some a
    → get_elem? es j ≡ some b
    → a.offset + a.byte_length ≤ b.offset
Chain-ordered i j full lt ha hb = cc
Chain-ordered zero zero (placed ok more) lt ha hb = absurd (omega arith)
Chain-ordered zero (suc j) {a} {b} (placed {e = x} ok more) lt ha hb =
    let same : x ≡ a = ground arith in
    let (low, high) = Chain-behind j more hb in
    subst (λ y. y.offset + y.byte_length ≤ b.offset) same low
Chain-ordered (suc i) zero (placed ok more) lt ha hb = absurd (omega arith)
Chain-ordered (suc i) (suc j) (placed ok more) lt ha hb = Chain-ordered i j more (omega arith) ha hb

-- A layout that is returned places every parameter, in order, at the first offset behind the one
-- before that is a multiple of its own width, within the safe integers; two entries never overlap,
-- and each ends within the byte length of the whole.
pub parameter_layout_lem :
    (v : Value) (ps : List Value) {es : List LayoutEntry} {total : ℕ}
    → array_items v ≡ some ps
    → parameter_layout v ≡ returned (es, total)
    → Chain 0 0 total ps es
      × ((i j : ℕ) (a b : LayoutEntry)
          → i < j
          → get_elem? es i ≡ some a
          → get_elem? es j ≡ some b
          → (a.offset + a.byte_length ≤ b.offset) × (b.offset + b.byte_length ≤ total))
unfolding parameter_layout
parameter_layout_lem v ps {es} {total} h done =
    let back : lay_out 0 0 ps ≡ returned (es, total) = ground arith in
    let chain = lay_out-Chain 0 0 ps back in
    (chain, λ i j a b lt ha hb. (Chain-ordered i j chain lt ha hb, (Chain-behind j chain hb).1))

abbrev pub supported : Value → Bool
supported p = elim (kind_and_width p) [ none ↦ false | some kw ↦ true ]

lay_out_one-returns :
    (index size : ℕ) (p : Value)
    → supported p ≡ true
    → size + 16 ≤ max_safe
    → (r : LayoutEntry × ℕ) × (lay_out_one index size p ≡ returned r) × (r.1 ≤ size + 16)
unfolding lay_out_one checked_align
lay_out_one-returns index size p good room = elim (Option-cases (kind_and_width p)) [
  | inl bad ↦ absurd (ground arith)
  | inr (kw, known) ↦
      let wide : kw.1 ≤ 8 = ground (arith, kind_and_width_values p known) in
      let (a, b, c) = align_lem size kw.1 (kind_and_width_values p known) in
      let offset = align size kw.1 in
      let fits : leb offset max_safe ≡ true = ground arith in
      let ends : leb (offset + kw.1) max_safe ≡ true = ground arith in
      let e : LayoutEntry = record {
        index = index;
        kind = kw.0;
        offset = offset;
        byte_length = kw.1;
        alignment = kw.1;
      } in
      ((e, offset + kw.1), rw (known, fits, ends) refl, omega arith)
]

lay_out-returns :
    (index size : ℕ) (ps : List Value)
    → all_of supported ps ≡ true
    → size + 16 * length ps ≤ max_safe
    → (r : List LayoutEntry × ℕ) × (lay_out index size ps ≡ returned r)
unfolding lay_out
lay_out-returns index size [] good room = (([], size), refl)
lay_out-returns index size (p ∷ ps) good room =
    let (first, one, low) = lay_out_one-returns index size p (ground arith) (omega arith) in
    let (rest, more) = lay_out-returns (suc index) first.1 ps (ground arith) (omega arith) in
    ((first.0 ∷ rest.0, rest.1), rw (one, more) refl)

-- Every array of supported parameters, not empty and short enough for the safe integers, has a
-- layout.
pub parameter_layout_returns :
    (v : Value) (ps : List Value)
    → array_items v ≡ some ps
    → 1 ≤ length ps
    → 16 * length ps ≤ max_safe
    → all_of supported ps ≡ true
    → (r : List LayoutEntry × ℕ) × (parameter_layout v ≡ returned r)
unfolding parameter_layout
parameter_layout_returns v ps h some_one few good =
    let (r, done) = lay_out-returns 0 0 ps good (omega arith) in (r, rw h (ground arith))
