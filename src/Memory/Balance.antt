-- ===== src/Memory/Balance.antt =====
-- The books of a memory manager balance: what is reserved is what is allocated, awaited or lost.
use cuda_js.Base.{
  ℕ, zero, suc, ◌+◌, ◌-◌, ◌≤◌, ◌≡◌, refl, sym, ◌∙◌, false, Option, some, List, [], ◌∷◌, arith,
  get_elem?, inl, inr, Option-cases, ltb,
}
use cuda_js.Base.Outcome.{returned, Outcome-cases}
use cuda_js.Js.{Text, Value}
use cuda_js.Failure.{Failure}
use cuda_js.Registry.Steps.{World, remove_at}
use cuda_js.Registry.Invariant.{IsSound}
use cuda_js.Registry.Safety.{start-IsSound}
use cuda_js.Registry.Weights.{total}
use cuda_js.Memory.Policy.{Policy, IsPolicy, byte_length}
use cuda_js.Memory.Books.{Content, device, Books, reserve, unreserve}
use cuda_js.Memory.Steps.{Memory, open_memory}

abbrev pub sum : List ℕ → ℕ
sum [] = 0
sum (n ∷ ns) = n + sum ns

pub sum-remove_at :
    (ns : List ℕ) (i : ℕ) {n : ℕ} → get_elem? ns i ≡ some n → sum (remove_at ns i) + n ≡ sum ns
sum-remove_at [] i h = cc
sum-remove_at (x ∷ ns) zero {n} h = let same : x ≡ n = ground arith in omega arith
sum-remove_at (x ∷ ns) (suc i) h = omega (arith, sum-remove_at ns i h)

-- The lengths that wait to be freed.
abbrev pub lengths : List (ℕ × Failure) → List ℕ
lengths [] = []
lengths (x ∷ xs) = x.0 ∷ lengths xs

pub sum-lengths :
    (fs : List (ℕ × Failure)) (i : ℕ) {len : ℕ} {f : Failure}
    → get_elem? fs i ≡ some (len, f)
    → sum (lengths (remove_at fs i)) + len ≡ sum (lengths fs)
sum-lengths [] i h = cc
sum-lengths (x ∷ fs) zero {len} h = let same : x.0 ≡ len = ground arith in omega arith
sum-lengths (x ∷ fs) (suc i) h = omega (arith, sum-lengths fs i h)

-- What `reserve` has tested when it returns.
pub reserve_inv :
    (b : Books) (value : Value) {b' : Books} {len : ℕ}
    → reserve b value ≡ returned (b', len)
    → (b' ≡ record b { reserved_bytes = b.reserved_bytes + len })
      × (len ≤ b.policy.max_allocation_bytes)
      × (ltb (b.policy.max_device_bytes - len) b.reserved_bytes ≡ false)
unfolding reserve
reserve_inv b value {b'} {len} h = elim (Option-cases b.rollback_failure) [
  | inr (f, stop) ↦ absurd (ground arith)
  | inl fine ↦ elim (Outcome-cases (byte_length value)) [
    | inr (f, bad) ↦ absurd (ground arith)
    | inl (n, good) ↦ ground arith
  ]
]

module _ {ℓ} {N : Type ℓ} where
  abbrev pub bytes_of : Option (Content N) → ℕ
  bytes_of (some (device native len)) = len
  bytes_of _ = 0

  abbrev pub unit_of : Option (Content N) → ℕ
  unit_of (some (device native len)) = 1
  unit_of _ = 0

  pub record IsBalanced (m : Memory N) : Type ℓ where
    pub sound : IsSound m.world
    pub policy : IsPolicy m.books.policy
    -- What is reserved: the driver is asked for it, an entry that is not closed holds it, the driver
    -- is asked to free it, or it could not be freed.
    pub reserved :
        m.books.reserved_bytes
        ≡ sum m.allocating
          + total bytes_of m.world.registry.entries
          + sum (lengths m.freeing)
          + m.unproved
    pub counted : m.books.allocation_count ≡ total unit_of m.world.registry.entries
    pub quota : m.books.reserved_bytes ≤ m.books.policy.max_device_bytes

  pub open-IsBalanced :
      (runtime_id : Text) (epoch : ℕ) (p : Policy)
      → IsPolicy p
      → IsBalanced (open_memory runtime_id epoch p)
  open-IsBalanced runtime_id epoch p ok = record {
    sound = start-IsSound runtime_id epoch;
    policy = ok;
    reserved = omega arith;
    counted = refl;
    quota = omega arith;
  }

  module _ (m : Memory N) (v : IsBalanced m) where
    pub reserves-IsBalanced :
        (value : Value) (b : Books) (len : ℕ)
        → reserve m.books value ≡ returned (b, len)
        → IsBalanced (record m { books = b; allocating = len ∷ m.allocating })
    reserves-IsBalanced value b len h =
        let (same, small, room) = reserve_inv m.books value h in
        rw same (record {
          sound = v.sound;
          policy = v.policy;
          reserved = omega (arith, v.reserved);
          counted = v.counted;
          quota = ground (arith, v.policy.allocation_fits);
        })

    pub refuses-IsBalanced :
        (i len : ℕ)
        → get_elem? m.allocating i ≡ some len
        → IsBalanced
            (record m { books = unreserve m.books len; allocating = remove_at m.allocating i })
    unfolding unreserve
    refuses-IsBalanced i len h = record {
      sound = v.sound;
      policy = v.policy;
      reserved = omega (arith, v.reserved, sum-remove_at m.allocating i h);
      counted = v.counted;
      quota = omega (arith, v.quota);
    }

    -- The books after a change of the registry that leaves the sums as they are.
    pub same_sums :
        (w : World (Content N))
        → IsSound w
        → total bytes_of w.registry.entries ≡ total bytes_of m.world.registry.entries
        → total unit_of w.registry.entries ≡ total unit_of m.world.registry.entries
        → IsBalanced (record m { world = w })
    same_sums w sound bytes units = record {
      sound = sound;
      policy = v.policy;
      reserved = omega (arith, v.reserved, bytes);
      counted = v.counted ∙ sym units;
      quota = v.quota;
    }
