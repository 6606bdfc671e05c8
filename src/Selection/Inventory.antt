-- ===== src/Selection/Inventory.antt =====
-- `normalizePrivateDevice` and `normalizeInventory`.
use cuda_js.Base.{
  ℕ, zero, suc, ◌≡◌, refl, ap, Bool, true, false, ◌&&◌, none, some, List, [], ◌∷◌, arith, leb,
  if◌then◌else◌, length, get_elem?, contains, inl, inr, Option-cases, Bool-cases,
}
use cuda_js.Base.Outcome.{Outcome, returned, thrown, ◌>>=◌, ◌>>◌, require, or_throw, Outcome-cases}
use cuda_js.Js.{
  Text, text, Value, exact_fields, field, array_items, nonnegative_safe_integer, plain_fields,
}
use cuda_js.Failure.{Failure, failure, internal}

pub record Device : Type 0 where
  pub native_device : ℕ
  pub major : ℕ
  pub minor : ℕ

abbrev pub private_device_fields : List Text
private_device_fields =
    text "nativeDevice" ∷ text "computeCapabilityMajor" ∷ text "computeCapabilityMinor" ∷ []

abbrev invalid : Failure
invalid = failure "DEVICE_INVENTORY_INVALID" internal

unfoldable pub is_plain : Value → Bool
unfolding plain_fields
is_plain v = elim (plain_fields v) [ none ↦ false | some fs ↦ true ]

-- `normalizePrivateDevice`
unfoldable pub normalize_private_device : Value → Outcome Failure Device
unfolding is_plain exact_fields field nonnegative_safe_integer
normalize_private_device v = do
  require (is_plain v && exact_fields v private_device_fields) invalid
  native ← or_throw (nonnegative_safe_integer (field v (text "nativeDevice"))) invalid
  major ← or_throw (nonnegative_safe_integer (field v (text "computeCapabilityMajor"))) invalid
  minor ← or_throw (nonnegative_safe_integer (field v (text "computeCapabilityMinor"))) invalid
  require (leb 1 major && leb major 99 && leb minor 99) invalid
  returned (record { native_device = native; major = major; minor = minor })

unfoldable pub normalize_devices : List Value → Outcome Failure (List Device)
unfolding normalize_private_device
normalize_devices [] = returned []
normalize_devices (v ∷ vs) = do
  d ← normalize_private_device v
  ds ← normalize_devices vs
  returned (d ∷ ds)

-- The loop over the native identifiers that were seen.
unfoldable pub assert_distinct : List ℕ → List Device → Outcome Failure (Unit {0})
assert_distinct seen [] = returned tt
assert_distinct seen (d ∷ ds) =
    if contains d.native_device seen
    then thrown (failure "DEVICE_INVENTORY_AMBIGUOUS" internal)
    else assert_distinct (d.native_device ∷ seen) ds

-- `normalizeInventory`
unfoldable pub normalize_inventory : Value → Outcome Failure (List Device)
unfolding array_items normalize_devices assert_distinct
normalize_inventory v = do
  vs ← or_throw (array_items v) invalid
  require (leb (length vs) 256) invalid
  ds ← normalize_devices vs
  assert_distinct [] ds
  returned ds

unseen :
    (seen : List ℕ) (ds : List Device) (i : ℕ) {d : Device}
    → assert_distinct seen ds ≡ returned tt
    → get_elem? ds i ≡ some d
    → contains d.native_device seen ≡ false
unfolding assert_distinct
unseen seen [] i h at = cc
unseen seen (x ∷ ds) zero h at = ground arith
unseen seen (x ∷ ds) (suc i) {d} h at = elim (Bool-cases (contains x.native_device seen)) [
  | inl bad ↦ absurd (ground arith)
  | inr fine ↦
      let rest : assert_distinct (x.native_device ∷ seen) ds ≡ returned tt = ground arith in
      ground (arith, unseen (x.native_device ∷ seen) ds i rest at)
]

apart :
    (seen : List ℕ) (ds : List Device) (i j : ℕ) {d e : Device}
    → assert_distinct seen ds ≡ returned tt
    → get_elem? ds i ≡ some d
    → get_elem? ds j ≡ some e
    → d.native_device ≡ e.native_device
    → i ≡ j
unfolding assert_distinct
apart seen [] i j h hd he same = cc
apart seen (x ∷ ds) zero zero h hd he same = refl
apart seen (x ∷ ds) zero (suc j) {d} {e} h hd he same =
    elim (Bool-cases (contains x.native_device seen)) [
      | inl bad ↦ absurd (ground arith)
      | inr fine ↦
          let rest : assert_distinct (x.native_device ∷ seen) ds ≡ returned tt = ground arith in
          absurd (ground (arith, unseen (x.native_device ∷ seen) ds j rest he))
    ]
apart seen (x ∷ ds) (suc i) zero {d} {e} h hd he same =
    elim (Bool-cases (contains x.native_device seen)) [
      | inl bad ↦ absurd (ground arith)
      | inr fine ↦
          let rest : assert_distinct (x.native_device ∷ seen) ds ≡ returned tt = ground arith in
          absurd (ground (arith, unseen (x.native_device ∷ seen) ds i rest hd))
    ]
apart seen (x ∷ ds) (suc i) (suc j) h hd he same =
    elim (Bool-cases (contains x.native_device seen)) [
      | inl bad ↦ absurd (ground arith)
      | inr fine ↦
          let rest : assert_distinct (x.native_device ∷ seen) ds ≡ returned tt = ground arith in
          ap suc (apart (x.native_device ∷ seen) ds i j rest hd he same)
    ]

-- An inventory that is accepted names no native device twice.
pub normalize_inventory_distinct :
    (v : Value) {ds : List Device} (i j : ℕ) {d e : Device}
    → normalize_inventory v ≡ returned ds
    → get_elem? ds i ≡ some d
    → get_elem? ds j ≡ some e
    → d.native_device ≡ e.native_device
    → i ≡ j
unfolding normalize_inventory
normalize_inventory_distinct v {ds} i j h hd he same = elim (Option-cases (array_items v)) [
  | inl bad ↦ absurd (ground arith)
  | inr (vs, items) ↦ elim (Outcome-cases (normalize_devices vs)) [
    | inr (f, bad) ↦ absurd (ground arith)
    | inl (ds', good) ↦ elim (Outcome-cases (assert_distinct [] ds')) [
      | inr (f, bad) ↦ absurd (ground arith)
      | inl (u, fine) ↦
          let same_list : ds' ≡ ds = ground arith in
          apart [] ds i j (rw (← same_list) fine) hd he same
    ]
  ]
]
