-- ===== src/Execution/Contained.antt =====
-- The accesses that a launch declares stay within the memory that it has leased.
use cuda_js.Base.{
  ℕ, ◌+◌, ◌-◌, ◌%◌, ◌≤◌, ◌<◌, ◌≡◌, true, false, Option, none, some, List, [], ◌∷◌, contains, ◌==◌,
  length, if◌then◌else◌,
}
use cuda_js.Base.Counts.{count}
use cuda_js.Execution.Conflicts.{Mode, AtomicType, Access, is_atomic}
use cuda_js.Execution.Accesses.{Lease, requested_view_access, view_allows, width_of, find_lease}

pub record IsTyped (mode : Mode) (start len : ℕ) (dtype : Option AtomicType) : Type 0 where
  pub ordinary : is_atomic mode ≡ false → dtype ≡ none
  pub aligned :
      is_atomic mode ≡ true
      → (t : AtomicType) × (dtype ≡ some t) × (start % width_of t ≡ 0) × (len % width_of t ≡ 0)

-- At least one byte, all within the lease, as its role allows.
pub record IsContained (l : Lease) (a : Access) : Type 0 where
  pub same : a.native ≡ l.native
  pub from : l.byte_offset ≤ a.start
  pub not_empty : a.start < a.stop
  pub until : a.stop ≤ l.limit
  pub allowed : view_allows l.view_access (requested_view_access a.mode) ≡ true
  pub typed : IsTyped a.mode a.start (a.stop - a.start) a.dtype

-- Each access stays within the lease of the argument that it names.
abbrev pub AllContained : List Lease → List ℕ → List Access → Type 0
AllContained leases [] [] = Unit
AllContained leases (i ∷ is) (a ∷ rest) =
    ((l : Lease) × (find_lease leases i ≡ some l) × IsContained l a) × AllContained leases is rest
AllContained leases _ _ = ⊥

-- How often an argument occurs.
abbrev pub times : ℕ → List ℕ → ℕ
times = count ◌==◌

-- The arguments that are leased.
abbrev pub arguments_of : List Lease → List ℕ
arguments_of [] = []
arguments_of (l ∷ ls) = l.argument_index ∷ arguments_of ls

-- Accesses that name different arguments, none of them seen before.
record EachOnce (leases : List Lease) (seen : List ℕ) (many : ℕ) (accesses : List Access)
    : Type 0 where
  pub indexes : List ℕ
  pub named : length indexes ≡ many
  pub once : (i : ℕ) → times i indexes + (if contains i seen then 1 else 0) ≤ 1
  pub kept : AllContained leases indexes accesses

-- Accesses, one for each leased argument and each within the lease of the argument that it names.
pub record OneForEach (leases : List Lease) (accesses : List Access) : Type 0 where
  pub indexes : List ℕ
  pub kept : AllContained leases indexes accesses
  pub distinct : (i : ℕ) → times i indexes ≤ 1
  pub covers : (i : ℕ) → times i indexes ≡ times i (arguments_of leases)
