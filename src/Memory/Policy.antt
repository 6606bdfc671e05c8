-- ===== src/Memory/Policy.antt =====
-- `normalizeMemoryPolicy`, `byteLength` and `checkedRange`.
use cuda_js.Base.{
  ℕ, ◌+◌, ◌-◌, ◌*◌, ◌≤◌, ◌≡◌, ◌↔◌, Bool, true, false, ◌&&◌, ◌||◌, arith, ltb, leb, inl, inr,
  Option-cases,
}
use cuda_js.Base.Outcome.{Outcome, returned, ◌>>=◌, ◌>>◌, require, reject, or_throw, Outcome-cases}
use cuda_js.Js.{
  Text, text, text_eq, Value, undefined, object, natural, Fields, bare, entry, plain_fields,
  lookup_field, or_else, positive_safe_integer, nonnegative_safe_integer, max_safe,
}
use cuda_js.Failure.{Failure, failure, validation}

abbrev pub mib : ℕ
mib = 1048576

abbrev pub tib : ℕ
tib = 1099511627776

pub record Policy : Type 0 where
  pub max_device_bytes : ℕ
  pub max_allocation_bytes : ℕ
  pub max_transfer_bytes : ℕ

abbrev pub default_policy : Policy
default_policy = record {
  max_device_bytes = 256 * mib;
  max_allocation_bytes = 128 * mib;
  max_transfer_bytes = 16 * mib;
}

unfoldable pub is_policy_field : Text → Bool
unfolding text_eq
is_policy_field k =
    text_eq k (text "maxDeviceBytes")
    || (text_eq k (text "maxAllocationBytes") || text_eq k (text "maxTransferBytes"))

unfoldable pub only_policy_fields : Fields → Bool
unfolding is_policy_field
only_policy_fields bare = true
only_policy_fields (entry k v fs) = is_policy_field k && only_policy_fields fs

-- `positiveSafeInteger`
unfoldable pub within_limit : Value → ℕ → Outcome Failure ℕ
unfolding positive_safe_integer
within_limit v maximum = do
  n ← or_throw (positive_safe_integer v) (failure "MEMORY_POLICY_INVALID" validation)
  require (leb n maximum) (failure "MEMORY_POLICY_INVALID" validation)
  returned n

-- `positiveSafeInteger(value.name ?? default, …)`
unfoldable pub limit : Fields → Text → ℕ → ℕ → Outcome Failure ℕ
unfolding within_limit lookup_field or_else
limit fs name d maximum = within_limit (or_else (lookup_field fs name) (natural d)) maximum

-- `value = {}`
abbrev pub given_options : Value → Value
given_options undefined = object bare
given_options v = v

unfoldable pub normalize_memory_policy : Value → Outcome Failure Policy
unfolding only_policy_fields limit plain_fields
normalize_memory_policy v = do
  fs ← or_throw (plain_fields (given_options v)) (failure "MEMORY_POLICY_INVALID" validation)
  require (only_policy_fields fs) (failure "MEMORY_POLICY_INVALID" validation)
  device ← limit fs (text "maxDeviceBytes") default_policy.max_device_bytes tib
  allocation ← limit fs (text "maxAllocationBytes") default_policy.max_allocation_bytes tib
  transfer ← limit fs (text "maxTransferBytes") default_policy.max_transfer_bytes (64 * mib)
  reject (ltb device allocation) (failure "MEMORY_POLICY_INVALID" validation)
  returned (record {
    max_device_bytes = device;
    max_allocation_bytes = allocation;
    max_transfer_bytes = transfer;
  })

-- What every accepted policy satisfies.
pub record IsPolicy (p : Policy) : Type 0 where
  pub device : p.max_device_bytes ≤ tib
  pub allocation_positive : 1 ≤ p.max_allocation_bytes
  pub allocation_fits : p.max_allocation_bytes ≤ p.max_device_bytes
  pub transfer_positive : 1 ≤ p.max_transfer_bytes
  pub transfer : p.max_transfer_bytes ≤ 64 * mib

limit_bounds :
    (fs : Fields) (name : Text) (d maximum : ℕ) {n : ℕ}
    → limit fs name d maximum ≡ returned n
    → (1 ≤ n) × (n ≤ maximum)
unfolding limit within_limit positive_safe_integer
limit_bounds fs name d maximum h = ground arith

-- Every policy that is accepted has positive limits, allows no allocation beyond its device limit,
-- and stays below a tebibyte for memory and 64 mebibytes for a transfer.
pub normalize_memory_policy-IsPolicy :
    (v : Value) {p : Policy} → normalize_memory_policy v ≡ returned p → IsPolicy p
unfolding normalize_memory_policy
normalize_memory_policy-IsPolicy v {p} h = elim (Option-cases (plain_fields (given_options v))) [
  | inl bad ↦ absurd (ground arith)
  | inr (fs, plain) ↦
      let device = limit fs (text "maxDeviceBytes") (256 * mib) tib in
      let allocation = limit fs (text "maxAllocationBytes") (128 * mib) tib in
      let transfer = limit fs (text "maxTransferBytes") (16 * mib) (64 * mib) in
      elim (Outcome-cases device) [
        | inr (f, bad) ↦ absurd (ground arith)
        | inl (d, hd) ↦ elim (Outcome-cases allocation) [
          | inr (f, bad) ↦ absurd (ground arith)
          | inl (a, ha) ↦ elim (Outcome-cases transfer) [
            | inr (f, bad) ↦ absurd (ground arith)
            | inl (t, ht) ↦ accepted fs d a t hd ha ht (ground arith) (ground arith)
          ]
        ]
      ]
]
  where
    accepted :
        (fs : Fields) (d a t : ℕ)
        → limit fs (text "maxDeviceBytes") (256 * mib) tib ≡ returned d
        → limit fs (text "maxAllocationBytes") (128 * mib) tib ≡ returned a
        → limit fs (text "maxTransferBytes") (16 * mib) (64 * mib) ≡ returned t
        → p ≡ record { max_device_bytes = d; max_allocation_bytes = a; max_transfer_bytes = t }
        → ltb d a ≡ false
        → IsPolicy p
    accepted fs d a t hd ha ht same ordered =
        let (d1, d2) = limit_bounds fs (text "maxDeviceBytes") (256 * mib) tib hd in
        let (a1, a2) = limit_bounds fs (text "maxAllocationBytes") (128 * mib) tib ha in
        let (t1, t2) = limit_bounds fs (text "maxTransferBytes") (16 * mib) (64 * mib) ht in
        rw same (record {
          device = d2;
          allocation_positive = a1;
          allocation_fits = ground arith;
          transfer_positive = t1;
          transfer = t2;
        })

-- `byteLength(value)`, and the same with `positive: false`.
unfoldable pub byte_length : Value → Outcome Failure ℕ
unfolding positive_safe_integer
byte_length v = or_throw (positive_safe_integer v) (failure "MEMORY_RANGE_INVALID" validation)

unfoldable pub byte_offset : Value → Outcome Failure ℕ
unfolding nonnegative_safe_integer
byte_offset v = or_throw (nonnegative_safe_integer v) (failure "MEMORY_RANGE_INVALID" validation)

-- `checkedRange`: the offset and the length of a range within the allocation.
unfoldable pub checked_range : ℕ → Value → Value → Outcome Failure (ℕ × ℕ)
unfolding byte_length byte_offset
checked_range allocation_length device_offset transfer_length = do
  offset ← byte_offset device_offset
  len ← byte_length transfer_length
  reject (ltb allocation_length offset || ltb (allocation_length - offset) len)
      (failure "MEMORY_RANGE_OUT_OF_BOUNDS" validation)
  returned (offset, len)

-- A range is accepted exactly if it is an offset and a positive length, both safe integers, whose
-- sum is within the allocation.
pub checked_range_iff :
    (allocation_length : ℕ) (u v : Value) (offset len : ℕ)
    → (checked_range allocation_length u v ≡ returned (offset, len)) ↔ (
        (u ≡ natural offset)
        × (v ≡ natural len)
        × (1 ≤ len)
        × (offset ≤ max_safe)
        × (len ≤ max_safe)
        × (offset + len ≤ allocation_length))
unfolding checked_range byte_length byte_offset positive_safe_integer nonnegative_safe_integer
checked_range_iff allocation_length u v offset len = ground arith
