-- ===== src/Memory/Executions.antt =====
-- `acquireForExecution` of components/memory/src/memory-manager.mjs: what it does to the leases, and
-- the bytes that it accepts.
use cuda_js.Base.{
  ℕ, ◌+◌, ◌-◌, ◌<◌, ◌≡◌, refl, ap, sym, ◌∙◌, some, arith, ltb, inl, inr, Option-cases, Bool-cases,
  subst,
}
use cuda_js.Base.Outcome.{Outcome, returned, thrown, Outcome-cases}
use cuda_js.Js.{text, Value}
use cuda_js.Failure.{Failure}
use cuda_js.Registry.State.{Registry}
use cuda_js.Registry.Access.{Lease, acquire}
use cuda_js.Registry.Steps.{World}
use cuda_js.Registry.Invariant.{IsSound}
use cuda_js.Memory.Policy.{byte_offset}
use cuda_js.Memory.Books.{Content, device}
use cuda_js.Memory.Transfers.{Range, device_of, give_back, inside, or_zero, acquire_for_execution}
use cuda_js.Memory.Leases.{device_of_inv, acquire_inv, give_back_lem, leased}

-- All bytes of the allocation from an offset on, of which there is one at least.
pub record IsRest {ℓ} {N : Type ℓ} (range : Range N) : Type ℓ where
  pub starts : range.device_offset < range.allocation_length
  pub ends : range.device_offset + range.transfer_length ≡ range.allocation_length
  pub holds : range.lease.value ≡ some (device range.native range.allocation_length)

inside_inv {ℓ} :
    {N : Type ℓ} (l : Lease (Content N)) (offset : ℕ) {range : Range N}
    → inside l offset ≡ returned range
    → IsRest range × (range.lease ≡ l)
inside_inv l offset {range} h = elim (Option-cases (device_of l.value)) [
  | inl bad ↦ absurd (ground arith)
  | inr ((n, size), good) ↦ elim (Bool-cases (ltb offset size)) [
    | inr bad ↦ absurd (ground arith)
    | inl below ↦
        let same : record {
          native = n;
          allocation_length = size;
          device_offset = offset;
          transfer_length = size - offset;
          lease = l;
        }
            ≡ range =
          ground arith in
        subst (λ y. IsRest y × (y.lease ≡ l)) same
          (
            record {
              starts = ground arith;
              ends = ground arith;
              holds = device_of_inv l.value good;
            },
            refl,
          )
  ]
]

module _ {ℓ} {N : Type ℓ} (w : World (Content N)) (v : IsSound w) where
  given_back :
      (token : Value) {r : Registry (Content N)} {l : Lease (Content N)}
      → acquire w.registry token (some (text "device-memory")) ≡ returned (r, l)
      → give_back r l ≡ w.registry
  given_back token {r} {l} got =
      let (e, found, re, le) = acquire_inv w v token (some (text "device-memory")) got in
      ap (λ r. give_back r l) re ∙ ap (give_back (leased w v e)) le ∙ give_back_lem w v e found

  -- An execution that is refused, for whatever reason, leaves the registry exactly as it was; one
  -- that is accepted has the bytes of the allocation from the offset on, at least one, under a lease
  -- of that allocation, and only the count of that lease has changed.
  pub acquire_for_execution_lem :
      (token requested : Value) {r : Registry (Content N)} {x : Outcome Failure (Range N)}
      → acquire_for_execution w.registry token requested ≡ (r, x)
      → ((f : Failure) → x ≡ thrown f → r ≡ w.registry)
        × ((range : Range N)
            → x ≡ returned range
            → IsRest range
              × (acquire w.registry token (some (text "device-memory"))
                  ≡ returned (r, range.lease)))
  unfolding acquire_for_execution
  acquire_for_execution_lem token requested {r} {x} h =
      elim (Outcome-cases (byte_offset (or_zero requested))) [
        | inr (g, bad) ↦ (λ f e. ground arith, λ range e. absurd (ground arith))
        | inl (offset, placed) ↦
            elim (Outcome-cases (acquire w.registry token (some (text "device-memory")))) [
              | inr (g, bad) ↦ (λ f e. ground arith, λ range e. absurd (ground arith))
              | inl ((r', l), got) ↦ elim (Outcome-cases (inside l offset)) [
                | inr (g, bad) ↦ (
                  λ f e.
                      let back : give_back r' l ≡ r = ground arith in
                      sym back ∙ given_back token got,
                  λ range e. absurd (ground arith),
                )
                | inl (range', good) ↦ (
                  λ f e. absurd (ground arith),
                  λ range e.
                      let same : range' ≡ range = ground arith in
                      let after : r' ≡ r = ground arith in
                      let (rest, its) = inside_inv l offset (good ∙ ap returned same) in
                      (rest, rw (got, after) (ap (λ l. returned (r, l)) (sym its))),
                )
              ]
            ]
      ]
