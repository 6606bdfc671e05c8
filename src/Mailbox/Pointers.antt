-- ===== src/Mailbox/Pointers.antt =====
-- The pointers that a kernel is given, one per binding, and the generations of a mailbox.
use cuda_js.Base.{
  ℕ, zero, suc, ◌+◌, ◌*◌, ◌<◌, ◌≡◌, ◌≢◌, sym, ap, ◌∙◌, subst, true, false, some, List, [], ◌∷◌,
  arith, get_elem?, inl, inr, Option-cases, Bool-cases,
}
use cuda_js.Base.Outcome.{returned, Outcome-cases}
use cuda_js.Js.{Text, text_eq, text_eq_iff, text_eq_refl, Value}
use cuda_js.Mailbox.Lanes.{Direction, Lane, has_text, find_lane, normalize_lane, normalize_from}
use cuda_js.Mailbox.Record.{Mailbox, read_binding, pointer, pointers}

-- Lanes that stand at their own index.
abbrev pub IsIndexed : List Lane → Type 0
IsIndexed ls = (i : ℕ) (l : Lane) → get_elem? ls i ≡ some l → l.index ≡ i

normalize_from-cons :
    (names : List Text) (index : ℕ) (v : Value) (vs : List Value) {ls : List Lane}
    → normalize_from names index (v ∷ vs) ≡ returned ls
    → (x : Lane) × (rest : List Lane) × (x.index ≡ index)
      × (normalize_from (x.name ∷ names) (suc index) vs ≡ returned rest)
      × ((x ∷ rest) ≡ ls)
unfolding normalize_from normalize_lane
normalize_from-cons names index v vs h = elim (Outcome-cases (normalize_lane names index v)) [
  | inr (f, bad) ↦ absurd (ground arith)
  | inl (x, good) ↦ elim (Outcome-cases (normalize_from (x.name ∷ names) (suc index) vs)) [
    | inr (f, bad) ↦ absurd (ground arith)
    | inl (rest, more) ↦ (x, rest, ground arith, more, ground arith)
  ]
]

pub normalize_from-index :
    (names : List Text) (index : ℕ) (vs : List Value) {ls : List Lane} (i : ℕ) (l : Lane)
    → normalize_from names index vs ≡ returned ls
    → get_elem? ls i ≡ some l
    → l.index ≡ index + i
unfolding normalize_from
normalize_from-index names index [] i l h at = ground arith
normalize_from-index names index (v ∷ vs) zero l h at =
    let (x, rest, own, more, whole) = normalize_from-cons names index v vs h in
    let e : x.index ≡ l.index = ground arith in omega (arith, e, own)
normalize_from-index names index (v ∷ vs) (suc i) l h at =
    let (x, rest, own, more, whole) = normalize_from-cons names index v vs h in
    omega (
      arith,
      normalize_from-index (x.name ∷ names) (suc index) vs i l more
          (subst (λ ls. get_elem? ls (suc i) ≡ some l) (sym whole) at),
    )

find_lane_inv :
    (ls : List Lane) (name : Text) {l : Lane}
    → find_lane ls name ≡ some l
    → (k : ℕ) × (get_elem? ls k ≡ some l) × (l.name ≡ name)
unfolding find_lane
find_lane_inv [] name h = cc
find_lane_inv (x ∷ ls) name {l} h = elim (Bool-cases (text_eq x.name name)) [
  | inl same ↦
      let e : x ≡ l = ground arith in
      (0, ap some e, ap (λ (l : Lane). l.name) (sym e) ∙ (text_eq_iff x.name name).0 same)
  | inr other ↦ let (k, at, named) = find_lane_inv ls name (ground arith) in (suc k, at, named)
]

-- A pointer to a lane of that name.
pub record PointsTo (m : Mailbox) (name : Text) (p : ℕ) : Type 0 where
  pub lane : Lane
  pub position : ℕ
  pub found : get_elem? m.lanes position ≡ some lane
  pub named : lane.name ≡ name
  pub address : p ≡ m.device_native + lane.index * 4

pointer-PointsTo :
    (m : Mailbox) (b : Text × Direction) {p : ℕ} → pointer m b ≡ returned p → PointsTo m b.0 p
unfolding pointer
pointer-PointsTo m (name, direction) {p} h = elim (Option-cases (find_lane m.lanes name)) [
  | inl bad ↦ absurd (ground arith)
  | inr (l, good) ↦
      let (k, at, named) = find_lane_inv m.lanes name good in
      record { lane = l; position = k; found = at; named = named; address = ground arith }
]

read_binding-unseen :
    (seen : List Text) (v : Value) {b : Text × Direction}
    → read_binding seen v ≡ returned b
    → has_text b.0 seen ≡ false
unfolding read_binding
read_binding-unseen seen v {b} h = ground arith

pointers-cons :
    (m : Mailbox) (seen : List Text) (v : Value) (vs : List Value) {ps : List ℕ}
    → pointers m seen (v ∷ vs) ≡ returned ps
    → (b : Text × Direction) × (q : ℕ) × (qs : List ℕ) × (read_binding seen v ≡ returned b)
      × PointsTo m b.0 q
      × (pointers m (b.0 ∷ seen) vs ≡ returned qs)
      × ((q ∷ qs) ≡ ps)
unfolding pointers
pointers-cons m seen v vs h = elim (Outcome-cases (read_binding seen v)) [
  | inr (f, bad) ↦ absurd (ground arith)
  | inl (b, read) ↦ elim (Outcome-cases (pointer m b)) [
    | inr (f, bad) ↦ absurd (ground arith)
    | inl (q, to) ↦ elim (Outcome-cases (pointers m (b.0 ∷ seen) vs)) [
      | inr (f, bad) ↦ absurd (ground arith)
      | inl (qs, rest) ↦ (b, q, qs, read, pointer-PointsTo m b to, rest, ground arith)
    ]
  ]
]

seen_less :
    (name other : Text) (seen : List Text)
    → has_text name (other ∷ seen) ≡ false
    → has_text name seen ≡ false
unfolding has_text
seen_less name other seen h = ground arith

pub pointers-PointsTo :
    (m : Mailbox) (seen : List Text) (vs : List Value) {ps : List ℕ} (i : ℕ) {p : ℕ}
    → pointers m seen vs ≡ returned ps
    → get_elem? ps i ≡ some p
    → (name : Text) × PointsTo m name p × (has_text name seen ≡ false)
unfolding pointers
pointers-PointsTo m seen [] i h at = ground arith
pointers-PointsTo m seen (v ∷ vs) zero {p} h at =
    let (b, q, qs, read, to, rest, whole) = pointers-cons m seen v vs h in
    let e : q ≡ p = ground arith in
    (b.0, subst (PointsTo m b.0) e to, read_binding-unseen seen v read)
pointers-PointsTo m seen (v ∷ vs) (suc i) {p} h at =
    let (b, q, qs, read, to, rest, whole) = pointers-cons m seen v vs h in
    let at' = subst (λ ps. get_elem? ps (suc i) ≡ some p) (sym whole) at in
    let (name, its, unseen) = pointers-PointsTo m (b.0 ∷ seen) vs i rest at' in
    (name, its, seen_less name b.0 seen unseen)

-- Two pointers to lanes of different names are different, since a lane stands at its own index.
apart :
    (m : Mailbox) (name other : Text) (p q : ℕ)
    → IsIndexed m.lanes
    → PointsTo m name p
    → PointsTo m other q
    → p ≡ q
    → name ≡ other
apart m name other p q indexed a b same =
    let one : a.lane.index ≡ b.lane.index = omega (arith, a.address, b.address, same) in
    let ai = indexed a.position a.lane a.found in
    let bi = indexed b.position b.lane b.found in
    let place : a.position ≡ b.position = omega (arith, ai, bi, one) in
    let lane : a.lane ≡ b.lane = ground (arith, a.found, b.found, place) in
    sym a.named ∙ (ap (λ (l : Lane). l.name) lane ∙ b.named)

has_text_self : (t : Text) (seen : List Text) → has_text t (t ∷ seen) ≡ true
unfolding has_text
has_text_self t seen = ground (arith, text_eq_refl t)

pub pointers_apart :
    (m : Mailbox) (seen : List Text) (vs : List Value) {ps : List ℕ} (i j : ℕ) {p q : ℕ}
    → IsIndexed m.lanes
    → pointers m seen vs ≡ returned ps
    → i < j
    → get_elem? ps i ≡ some p
    → get_elem? ps j ≡ some q
    → p ≢ q
unfolding pointers
pointers_apart m seen [] {ps} i j indexed h lt hi hj =
    let none_at : [] ≡ ps = ground arith in absurd (ground arith)
pointers_apart m seen (v ∷ vs) i zero indexed h lt hi hj = absurd (omega arith)
pointers_apart m seen (v ∷ vs) zero (suc j) {p} {q} indexed h lt hi hj =
    let (b, x, xs, read, to, rest, whole) = pointers-cons m seen v vs h in
    let e : x ≡ p = ground arith in
    let hj' = subst (λ ps. get_elem? ps (suc j) ≡ some q) (sym whole) hj in
    let (name, its, unseen) = pointers-PointsTo m (b.0 ∷ seen) vs j rest hj' in
    λ same.
      let named = apart m b.0 name p q indexed (subst (PointsTo m b.0) e to) its same in
      absurd (ground (arith, has_text_self name seen, named))
pointers_apart m seen (v ∷ vs) (suc i) (suc j) {p} {q} indexed h lt hi hj =
    let (b, x, xs, read, to, rest, whole) = pointers-cons m seen v vs h in
    pointers_apart m (b.0 ∷ seen) vs i j indexed rest (omega arith)
      (subst (λ ps. get_elem? ps (suc i) ≡ some p) (sym whole) hi)
      (subst (λ ps. get_elem? ps (suc j) ≡ some q) (sym whole) hj)
