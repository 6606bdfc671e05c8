-- ===== src/Memory/Transfers.antt =====
-- `write`, `read`, `acquireForExecution` and `acquireRangeForTransfer`: a lease on an allocation,
-- and a range within it. A transfer is cut at the await of the driver.
use cuda_js.Base.{ℕ, ◌-◌, Option, none, some, List, ltb, ◌==◌, if◌then◌else◌, length}
use cuda_js.Base.Outcome.{Outcome, returned, thrown, ◌>>=◌, ◌>>◌, require, or_throw}
use cuda_js.Js.{text, Value, undefined, natural, bytes}
use cuda_js.Failure.{Failure, failure, validation, pressure, internal}
use cuda_js.Registry.State.{Registry}
use cuda_js.Registry.Access.{Lease, acquire, release}
use cuda_js.Memory.Policy.{Policy, byte_length, byte_offset, checked_range}
use cuda_js.Memory.Books.{Content, device}

-- A range of bytes of an allocation, under a lease.
pub record Range {ℓ} (N : Type ℓ) : Type ℓ where
  pub native : N
  pub allocation_length : ℕ
  pub device_offset : ℕ
  pub transfer_length : ℕ
  pub lease : Lease (Content N)

-- The default of an offset, `= 0`.
abbrev pub or_zero : Value → Value
or_zero undefined = natural 0
or_zero v = v

-- `value instanceof Uint8Array && !Buffer.isBuffer(value)`
abbrev pub bytes_of_value : Value → Option (List ℕ)
bytes_of_value (bytes bs) = some bs
bytes_of_value _ = none

module _ {ℓ} {N : Type ℓ} where
  -- The record of a device allocation; an entry of that kind holds nothing else while it is live.
  abbrev pub device_of : Option (Content N) → Option (N × ℕ)
  device_of (some (device native len)) = some (native, len)
  device_of _ = none

  -- `lease.release()`, whose result is dropped.
  unfoldable pub give_back : Registry (Content N) → Lease (Content N) → Registry (Content N)
  unfolding release
  give_back r l = elim (release r l) [ returned (r', l') ↦ r' | thrown f ↦ r ]

  unfoldable pub whole_range : Lease (Content N) → Value → Value → Outcome Failure (Range N)
  unfolding checked_range
  whole_range l device_offset transfer_length = do
    d ← or_throw (device_of l.value) (failure "MEMORY_RECORD_INVALID" internal)
    range ← checked_range d.1 device_offset transfer_length
    returned (record {
      native = d.0;
      allocation_length = d.1;
      device_offset = range.0;
      transfer_length = range.1;
      lease = l;
    })

  -- `acquireRangeForTransfer`, which is also how `write` and `read` begin: a range that is refused
  -- gives its lease back.
  unfoldable pub acquire_range_for_transfer :
      Registry (Content N)
      → Value
      → Value
      → Value
      → Registry (Content N) × Outcome Failure (Range N)
  unfolding acquire give_back whole_range
  acquire_range_for_transfer r token device_offset transfer_length =
      elim (acquire r token (some (text "device-memory"))) [
        | thrown f ↦ (r, thrown f)
        | returned (r', l) ↦ elim (whole_range l device_offset transfer_length) [
          | thrown f ↦ (give_back r' l, thrown f)
          | returned range ↦ (r', returned range)
        ]
      ]

  -- `write` up to the driver's call.
  unfoldable pub begin_write :
      Registry (Content N)
      → Policy
      → Value
      → Value
      → Value
      → Registry (Content N) × Outcome Failure (Range N)
  unfolding acquire_range_for_transfer
  begin_write r policy token data_ device_offset = elim (bytes_of_value data_) [
    | none ↦ (r, thrown (failure "MEMORY_BYTES_INVALID" validation))
    | some bs ↦
        if ltb policy.max_transfer_bytes (length bs)
        then (r, thrown (failure "MEMORY_TRANSFER_LIMIT" pressure))
        else acquire_range_for_transfer r token (or_zero device_offset) (natural (length bs))
  ]

  -- `read` up to the driver's call.
  unfoldable pub begin_read :
      Registry (Content N)
      → Policy
      → Value
      → Value
      → Value
      → Registry (Content N) × Outcome Failure (Range N)
  unfolding acquire_range_for_transfer byte_length
  begin_read r policy token requested device_offset = elim (byte_length requested) [
    | thrown f ↦ (r, thrown f)
    | returned len ↦
        if ltb policy.max_transfer_bytes len
        then (r, thrown (failure "MEMORY_TRANSFER_LIMIT" pressure))
        else acquire_range_for_transfer r token (or_zero device_offset) (natural len)
  ]

  -- `read` behind the driver's call, for what the driver has returned.
  unfoldable pub finish_read :
      Registry (Content N) → Range N → Value → Registry (Content N) × Outcome Failure (List ℕ)
  unfolding give_back
  finish_read r range answer = (
    give_back r range.lease,
    elim (bytes_of_value answer) [
      | none ↦ thrown (failure "MEMORY_BACKEND_BYTES_INVALID" internal)
      | some bs ↦
          if length bs == range.transfer_length
          then returned bs
          else thrown (failure "MEMORY_BACKEND_BYTES_INVALID" internal)
    ],
  )

  -- A byte within the allocation.
  abbrev pub inside : Lease (Content N) → ℕ → Outcome Failure (Range N)
  inside l offset = do
    d ← or_throw (device_of l.value) (failure "MEMORY_RECORD_INVALID" internal)
    require (ltb offset d.1) (failure "MEMORY_RANGE_OUT_OF_BOUNDS" validation)
    returned (record {
      native = d.0;
      allocation_length = d.1;
      device_offset = offset;
      transfer_length = d.1 - offset;
      lease = l;
    })

  -- `acquireForExecution`
  unfoldable pub acquire_for_execution :
      Registry (Content N) → Value → Value → Registry (Content N) × Outcome Failure (Range N)
  unfolding byte_offset acquire give_back
  acquire_for_execution r token requested = elim (byte_offset (or_zero requested)) [
    | thrown f ↦ (r, thrown f)
    | returned offset ↦ elim (acquire r token (some (text "device-memory"))) [
      | thrown f ↦ (r, thrown f)
      | returned (r', l) ↦ elim (inside l offset) [
        | thrown f ↦ (give_back r' l, thrown f)
        | returned range ↦ (r', returned range)
      ]
    ]
  ]
