-- ===== src/Execution/Conflicts.antt =====
-- Accesses of one operation that must not run beside those of another: `rangesOverlap`,
-- `atomicCompatible` and `ordinaryConflict`.
use cuda_js.Base.{
  ℕ, ◌≤◌, ◌<◌, ◌≡◌, ◌↔◌, ◌⊎◌, inl, inr, refl, Bool, true, false, not, ◌&&◌, Option, none, some,
  List, any_of, ltb, ◌==◌, Bool-cases, arith,
}

pub data Mode : Type 0 where
  reads writes reads_writes atomic_observes atomic_updates : Mode

pub data AtomicType : Type 0 where
  u32 u64 : AtomicType

-- The bytes from `start` up to `stop` of a native allocation.
pub record Access : Type 0 where
  pub native : ℕ
  pub start : ℕ
  pub stop : ℕ
  pub mode : Mode
  pub dtype : Option AtomicType

-- `mode.startsWith('atomic-')`
abbrev pub is_atomic : Mode → Bool
is_atomic atomic_observes = true
is_atomic atomic_updates = true
is_atomic _ = false

abbrev is_read : Mode → Bool
is_read reads = true
is_read _ = false

abbrev same_dtype : Option AtomicType → Option AtomicType → Bool
same_dtype none none = true
same_dtype (some u32) (some u32) = true
same_dtype (some u64) (some u64) = true
same_dtype _ _ = false

-- `rangesOverlap`
unfoldable pub ranges_overlap : Access → Access → Bool
ranges_overlap l r = l.native == r.native && (ltb l.start r.stop && ltb r.start l.stop)

-- `atomicCompatible`
unfoldable atomic_compatible : Access → Access → Bool
atomic_compatible l r = is_atomic l.mode && (is_atomic r.mode && same_dtype l.dtype r.dtype)

-- `ordinaryConflict`
unfoldable pub ordinary_conflict : Access → Access → Bool
unfolding ranges_overlap atomic_compatible
ordinary_conflict l r =
    ranges_overlap l r && (not (atomic_compatible l r) && not (is_read l.mode && is_read r.mode))

-- Some access of the one list conflicts with some of the other.
unfoldable pub any_conflict : List Access → List Access → Bool
unfolding ordinary_conflict
any_conflict ls rs = any_of (λ l. any_of (ordinary_conflict l) rs) ls

-- A byte of an allocation that an access reaches.
pub record Touches (a : Access) (native byte : ℕ) : Type 0 where
  pub same : a.native ≡ native
  pub from : a.start ≤ byte
  pub until : byte < a.stop

-- Both only read, or both are atomic on the same type.
abbrev pub Harmless : Access → Access → Type 0
Harmless l r =
    ((l.mode ≡ reads) × (r.mode ≡ reads))
    ⊎ ((is_atomic l.mode ≡ true) × (is_atomic r.mode ≡ true) × (same_dtype l.dtype r.dtype ≡ true))

is_read_iff : (m : Mode) → (is_read m ≡ true) ↔ (m ≡ reads)
is_read_iff reads = (λ h. refl, λ h. refl)
is_read_iff writes = (λ h. cc, λ h. cc)
is_read_iff reads_writes = (λ h. cc, λ h. cc)
is_read_iff atomic_observes = (λ h. cc, λ h. cc)
is_read_iff atomic_updates = (λ h. cc, λ h. cc)

-- Where two accesses do not conflict, a byte that both reach is harmless.
pub no_conflict :
    (l r : Access) (native byte : ℕ)
    → ordinary_conflict l r ≡ false
    → Touches l native byte
    → Touches r native byte
    → Harmless l r
unfolding ordinary_conflict
no_conflict l r native byte h p q = elim (Bool-cases (is_read l.mode && is_read r.mode)) [
  | inl both ↦ inl ((is_read_iff l.mode).0 (ground arith), (is_read_iff r.mode).0 (ground arith))
  | inr other ↦ inr (ground (arith, p.same, q.same, p.from, p.until, q.from, q.until))
]
