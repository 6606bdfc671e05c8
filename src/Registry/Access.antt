-- ===== src/Registry/Access.antt =====
-- `#locate`, `#assertLive`, `#resolve`, `get` and `acquire`, and the lease that `acquire` returns.
use cuda_js.Base.{
  ℕ, ◌+◌, ◌-◌, Bool, true, false, not, ◌&&◌, ◌||◌, Option, none, some, ltb, ◌==◌, get_elem?, modify,
}
use cuda_js.Base.Outcome.{Outcome, returned, thrown, ◌>>=◌, ◌>>◌, require, reject, or_throw}
use cuda_js.Js.{Text, text_eq, Value}
use cuda_js.Failure.{Failure, failure, stale_resource, internal}
use cuda_js.Registry.State.{State, live, closing, closed, orphaned, Entry, Registry, Token}
use cuda_js.Registry.Tokens.{read_token}

abbrev pub kind_expected : Option Text → Text → Bool
kind_expected none kind = true
kind_expected (some expected) kind = text_eq kind expected

abbrev pub assert_live : State → Outcome Failure (Unit {0})
assert_live live = returned tt
assert_live closing = thrown (failure "RESOURCE_CLOSING" stale_resource)
assert_live closed = thrown (failure "RESOURCE_CLOSED" stale_resource)
assert_live orphaned = thrown (failure "RESOURCE_ORPHANED" stale_resource)

-- What the object that `acquire` returns closes over.
pub record Lease {ℓ} (V : Type ℓ) : Type ℓ where
  pub slot : ℕ
  pub generation : ℕ
  pub value : Option V
  pub released : Bool

module _ {ℓ} {V : Type ℓ} where
  -- `#locate` behind the test of the token's shape. A state is one of the four by its type.
  unfoldable pub locate_token : Registry V → Token → Option Text → Bool → Outcome Failure (Entry V)
  locate_token r t expected allow_dead = do
    require (text_eq t.runtime_id r.runtime_id) (failure "RESOURCE_WRONG_RUNTIME" stale_resource)
    reject (not (t.epoch == r.epoch) || (r.dead && not allow_dead))
        (failure "RESOURCE_DEAD_EPOCH" stale_resource)
    e ← or_throw (get_elem? r.entries t.slot) (failure "RESOURCE_STALE" stale_resource)
    require (t.generation == e.generation) (failure "RESOURCE_STALE" stale_resource)
    require (text_eq t.kind e.kind && kind_expected expected e.kind)
        (failure "RESOURCE_WRONG_KIND" stale_resource)
    require (text_eq t.nonce e.nonce) (failure "RESOURCE_FORGED" stale_resource)
    returned e

  unfoldable pub locate : Registry V → Value → Option Text → Bool → Outcome Failure (Entry V)
  unfolding locate_token
  locate r v expected allow_dead = do
    t ← or_throw (read_token v) (failure "RESOURCE_TOKEN_INVALID" stale_resource)
    locate_token r t expected allow_dead

  unfoldable pub resolve : Registry V → Value → Option Text → Outcome Failure (Entry V)
  unfolding locate
  resolve r v expected = do e ← locate r v expected false; assert_live e.state; returned e

  -- `get`
  unfoldable pub get : Registry V → Value → Option Text → Outcome Failure (Option V)
  unfolding resolve
  get r v expected = do e ← resolve r v expected; returned e.value

  abbrev pub count_lease : Entry V → Entry V
  count_lease e = record e { leases = e.leases + 1 }

  abbrev pub drop_lease : Entry V → Entry V
  drop_lease e = record e { leases = e.leases - 1 }

  unfoldable pub acquire : Registry V → Value → Option Text → Outcome Failure (Registry V × Lease V)
  unfolding resolve
  acquire r v expected = do
    e ← resolve r v expected
    returned (
      record r { entries = modify r.entries e.slot count_lease },
      record { slot = e.slot; generation = e.generation; value = e.value; released = false },
    )

  -- `lease.release()`. The assertion that the count does not fall below zero is a failure here.
  unfoldable pub release : Registry V → Lease V → Outcome Failure (Registry V × Lease V)
  release r l = do
    reject l.released (failure "RESOURCE_LEASE_RELEASED" stale_resource)
    e ← or_throw (get_elem? r.entries l.slot) (failure "ERR_ASSERTION" internal)
    require (ltb 0 e.leases) (failure "ERR_ASSERTION" internal)
    returned
        (record r { entries = modify r.entries l.slot drop_lease }, record l { released = true })
