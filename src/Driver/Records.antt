-- ===== src/Driver/Records.antt =====
-- `assertPublicRecord`: what a worker's answer may hold, and how much of it.
use cuda_js.Base.{ℕ, suc, ◌*◌, Bool, false, leb, ltb, length, String}
use cuda_js.Base.Outcome.{Outcome, returned, ◌>>=◌, ◌>>◌, require, reject}
use cuda_js.Js.{
  Value, undefined, null, fraction, not_finite, callable, boolean, natural, negative, string, bytes,
  shared, bigint, array, object, exotic, Items, end, item, Fields, bare, entry, max_safe,
}
use cuda_js.Failure.{Failure, failure, validation}

pub record Bounds : Type 0 where
  pub max_depth : ℕ
  pub max_nodes : ℕ
  pub max_byte_length : ℕ

abbrev pub default_bounds : Bounds
default_bounds = record { max_depth = 12; max_nodes = 2000; max_byte_length = 16 * 1048576 }

abbrev pub unfit : String → Failure
unfit code = failure code validation

-- The head of `visit`: one node more, at a depth.
unfoldable pub enter : Bounds → ℕ → ℕ → Outcome Failure ℕ
enter b depth nodes = do
  reject (ltb b.max_nodes (suc nodes)) (unfit "DRIVER_RESULT_BOUNDS")
  reject (ltb b.max_depth depth) (unfit "DRIVER_RESULT_BOUNDS")
  returned (suc nodes)

-- A node that has no children, under a test.
unfoldable pub leaf : Bounds → ℕ → ℕ → Bool → String → Outcome Failure ℕ
unfolding enter
leaf b depth nodes ok code = enter b depth nodes >>= λ n. require ok (unfit code) >> returned n

unfoldable mutual
  unfolding enter leaf

  -- `visit`, from a count of nodes to the next.
  pub visit : Bounds → ℕ → ℕ → Value → Outcome Failure ℕ
  visit b depth nodes null = enter b depth nodes
  visit b depth nodes (boolean t) = enter b depth nodes
  visit b depth nodes (natural n) = leaf b depth nodes (leb n max_safe) "DRIVER_RESULT_NUMBER"
  visit b depth nodes (negative n) = leaf b depth nodes (ltb n max_safe) "DRIVER_RESULT_NUMBER"
  visit b depth nodes fraction = leaf b depth nodes false "DRIVER_RESULT_NUMBER"
  visit b depth nodes not_finite = leaf b depth nodes false "DRIVER_RESULT_NUMBER"
  visit b depth nodes (string t) = leaf b depth nodes (leb (length t) 4096) "DRIVER_RESULT_STRING"
  visit b depth nodes undefined = leaf b depth nodes false "DRIVER_RESULT_NATIVE_VALUE"
  visit b depth nodes callable = leaf b depth nodes false "DRIVER_RESULT_NATIVE_VALUE"
  visit b depth nodes (bigint n) = leaf b depth nodes false "DRIVER_RESULT_NATIVE_VALUE"
  visit b depth nodes (bytes bs) =
      leaf b depth nodes (leb (length bs) b.max_byte_length) "DRIVER_RESULT_BOUNDS"
  visit b depth nodes (shared n) = leaf b depth nodes false "DRIVER_RESULT_NATIVE_VALUE"
  visit b depth nodes (exotic fs) = leaf b depth nodes false "DRIVER_RESULT_OBJECT"
  visit b depth nodes (array vs) = enter b depth nodes >>= λ n. visit_items b (suc depth) n vs
  visit b depth nodes (object fs) = enter b depth nodes >>= λ n. visit_fields b (suc depth) n fs

  pub visit_items : Bounds → ℕ → ℕ → Items → Outcome Failure ℕ
  visit_items b depth nodes end = returned nodes
  visit_items b depth nodes (item v vs) = visit b depth nodes v >>= λ n. visit_items b depth n vs

  pub visit_fields : Bounds → ℕ → ℕ → Fields → Outcome Failure ℕ
  visit_fields b depth nodes bare = returned nodes
  visit_fields b depth nodes (entry k v fs) =
      require (leb (length k) 128) (unfit "DRIVER_RESULT_KEY")
      >> (visit b depth nodes v >>= λ n. visit_fields b depth n fs)

-- `assertPublicRecord`, which returns its value.
unfoldable pub assert_public_record : Bounds → Value → Outcome Failure Value
unfolding visit
assert_public_record b v = visit b 0 0 v >>= λ n. returned v
