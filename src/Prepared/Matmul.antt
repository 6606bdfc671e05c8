-- ===== src/Prepared/Matmul.antt =====
-- A prepared cuBLASLt node: its plan, and its matrices, scalars and workspace.
use cuda_js.Base.{
  ℕ, ◌*◌, ◌^◌, ◌-◌, Bool, true, false, ◌&&◌, Option, none, some, List, [], ◌∷◌, ◌==◌, leb, ltb,
}
use cuda_js.Base.Outcome.{Outcome, returned, ◌>>=◌, ◌>>◌, require, or_throw}
use cuda_js.Js.{
  Text, text, Value, null, boolean, field, string_of, nonnegative_safe_integer,
  positive_safe_integer, max_safe,
}
use cuda_js.Failure.{Failure}
use cuda_js.Mailbox.Lanes.{is_exact}
use cuda_js.Prepared.Fields.{invalid, is_printable_name}
use cuda_js.Prepared.Arguments.{Argument, Kinds, is_the_text, prepared_binding, prepared_scalar}

-- The elements that the matrices a, b, c and d hold.
pub record Requirements : Type 0 where
  pub a : ℕ
  pub b : ℕ
  pub c : ℕ
  pub d : ℕ

pub record Provider : Type 0 where
  pub name : Text
  pub version : Text
  pub qualification : Text

pub record Plan : Type 0 where
  pub m : ℕ
  pub n : ℕ
  pub k : ℕ
  pub transpose_a : Bool
  pub transpose_b : Bool
  pub max_workspace_bytes : ℕ
  pub workspace_bytes : ℕ
  pub requirements : Requirements
  pub provider : Provider

abbrev pub bad_plan : Failure
bad_plan = invalid "PREPARED_DAG_CUBLASLT_PLAN_INVALID"

unfoldable pub bool_of : Value → Option Bool
bool_of (boolean b) = some b
bool_of _ = none

-- One of m, n and k.
unfoldable pub plan_dimension : Value → Text → Outcome Failure ℕ
unfolding field positive_safe_integer
plan_dimension v key = do
  n ← or_throw (positive_safe_integer (field v key)) bad_plan
  require (leb n (2 ^ 31 - 1)) bad_plan
  returned n

unfoldable pub read_requirements : Value → Outcome Failure Requirements
unfolding field positive_safe_integer is_exact
read_requirements v = do
  require (is_exact v (text "a" ∷ text "b" ∷ text "c" ∷ text "d" ∷ [])) bad_plan
  a ← or_throw (positive_safe_integer (field v (text "a"))) bad_plan
  b ← or_throw (positive_safe_integer (field v (text "b"))) bad_plan
  c ← or_throw (positive_safe_integer (field v (text "c"))) bad_plan
  d ← or_throw (positive_safe_integer (field v (text "d"))) bad_plan
  returned (record { a = a; b = b; c = c; d = d })

unfoldable pub provider_text : Value → Text → Outcome Failure Text
unfolding field string_of is_printable_name
provider_text v key = do
  t ← or_throw (string_of (field v key)) bad_plan
  require (is_printable_name 128 t) bad_plan
  returned t

unfoldable pub read_provider : Value → Outcome Failure Provider
unfolding field is_exact provider_text positive_safe_integer
read_provider v = do
  require
      (is_exact v
        (text "name" ∷ text "version" ∷ text "qualification" ∷ text "workspaceAlignmentBytes" ∷ []))
      bad_plan
  name ← provider_text v (text "name")
  version ← provider_text v (text "version")
  qualification ← provider_text v (text "qualification")
  alignment ← or_throw (positive_safe_integer (field v (text "workspaceAlignmentBytes"))) bad_plan
  require (alignment == 256) bad_plan
  returned (record { name = name; version = version; qualification = qualification })

-- The test on `expectedRequirements`, whose products are of safe integers below 2 ^ 31.
unfoldable pub requirements_match : ℕ → ℕ → ℕ → Requirements → Bool
requirements_match m n k r =
    leb (m * k) max_safe
    && (leb (k * n) max_safe
        && (leb (m * n) max_safe
            && (r.a == m * k && (r.b == k * n && (r.c == m * n && r.d == m * n)))))

abbrev pub plan_fields : List Text
plan_fields =
    text "contract"
    ∷ text "m"
    ∷ text "n"
    ∷ text "k"
    ∷ text "transposeA"
    ∷ text "transposeB"
    ∷ text "maxWorkspaceBytes"
    ∷ text "workspaceBytes"
    ∷ text "requirements"
    ∷ text "provider"
    ∷ []

-- `normalizeCublasLtPlan`
unfoldable pub normalize_plan : Value → Outcome Failure Plan
unfolding is_exact is_the_text field plan_dimension bool_of nonnegative_safe_integer
    read_requirements read_provider requirements_match
normalize_plan v = do
  require
      (is_exact v plan_fields
        && is_the_text (field v (text "contract"))
            (text "SPEC-0029-cublaslt-f32-row-major-matmul-v1"))
      bad_plan
  m ← plan_dimension v (text "m")
  n ← plan_dimension v (text "n")
  k ← plan_dimension v (text "k")
  transpose_a ← or_throw (bool_of (field v (text "transposeA"))) bad_plan
  transpose_b ← or_throw (bool_of (field v (text "transposeB"))) bad_plan
  most ← or_throw (nonnegative_safe_integer (field v (text "maxWorkspaceBytes"))) bad_plan
  require (leb most (256 * 1048576)) bad_plan
  bytes_needed ← or_throw (nonnegative_safe_integer (field v (text "workspaceBytes"))) bad_plan
  require (leb bytes_needed most) bad_plan
  requirements ← read_requirements (field v (text "requirements"))
  provider ← read_provider (field v (text "provider"))
  require (requirements_match m n k requirements) bad_plan
  returned (record {
    m = m;
    n = n;
    k = k;
    transpose_a = transpose_a;
    transpose_b = transpose_b;
    max_workspace_bytes = most;
    workspace_bytes = bytes_needed;
    requirements = requirements;
    provider = provider;
  })

pub record Matmul : Type 0 where
  pub plan : Plan
  pub a : Text
  pub b : Text
  pub c : Text
  pub d : Text
  pub alpha : Argument
  pub beta : Argument
  pub workspace : Option Text

abbrev pub device_memory : Text
device_memory = text "device-memory"

unfoldable pub read_workspace : Kinds → Value → Outcome Failure (Option Text × Kinds)
unfolding prepared_binding
read_workspace kinds null = returned (none, kinds)
read_workspace kinds v =
    prepared_binding kinds v device_memory >>= λ (name, kinds'). returned (some name, kinds')

abbrev pub is_some : Option Text → Bool
is_some none = false
is_some (some t) = true

abbrev pub same_bool : Bool → Bool → Bool
same_bool true b = b
same_bool false true = false
same_bool false false = true

abbrev pub matmul_fields : List Text
matmul_fields =
    text "id"
    ∷ text "kind"
    ∷ text "after"
    ∷ text "plan"
    ∷ text "a"
    ∷ text "b"
    ∷ text "c"
    ∷ text "d"
    ∷ text "alpha"
    ∷ text "beta"
    ∷ text "workspace"
    ∷ []

-- `normalizeCublasLtNode`, behind its id and predecessors.
unfoldable pub normalize_matmul : Kinds → Value → Outcome Failure (Matmul × Kinds)
unfolding is_exact field normalize_plan prepared_binding read_workspace prepared_scalar
normalize_matmul kinds entry = do
  require (is_exact entry matmul_fields) (invalid "PREPARED_DAG_NODE_INVALID")
  plan ← normalize_plan (field entry (text "plan"))
  bound_a ← prepared_binding kinds (field entry (text "a")) device_memory
  bound_b ← prepared_binding bound_a.1 (field entry (text "b")) device_memory
  bound_c ← prepared_binding bound_b.1 (field entry (text "c")) device_memory
  bound_d ← prepared_binding bound_c.1 (field entry (text "d")) device_memory
  space ← read_workspace bound_d.1 (field entry (text "workspace"))
  require (same_bool (ltb 0 plan.workspace_bytes) (is_some space.0))
      (invalid "PREPARED_DAG_CUBLASLT_WORKSPACE_INVALID")
  alpha ← prepared_scalar space.1 (field entry (text "alpha"))
  beta ← prepared_scalar alpha.1 (field entry (text "beta"))
  returned (
    record {
      plan = plan;
      a = bound_a.0;
      b = bound_b.0;
      c = bound_c.0;
      d = bound_d.0;
      alpha = alpha.0;
      beta = beta.0;
      workspace = space.0;
    },
    beta.1,
  )
