-- ===== src/Registry/Closing.antt =====
-- `close`, as the two halves around its `await entry.dispose(…)`, `markEpochDead`, and the order of
-- steps in which an owner uses a registry. Between the halves anything else may run.
use cuda_js.Base.{ℕ, true, Option, none, some, map, ltb, if◌then◌else◌, modify, length}
use cuda_js.Base.Outcome.{Outcome, returned, thrown, ◌>>=◌, ◌>>◌, reject}
use cuda_js.Js.{Value}
use cuda_js.Failure.{Failure, failure, stale_resource}
use cuda_js.Registry.Forest.{delete_slot, free_slot}
use cuda_js.Registry.Prune.{at_parent}
use cuda_js.Registry.State.{
  State, live, closing, closed, orphaned, unproved, disposal_failed, owner_lost, Entry, Registry,
}
use cuda_js.Registry.Access.{locate, assert_live}
use cuda_js.Registry.Disposal.{Disposal, resolved, rejected, normalize_disposal_failure}

-- `if (entry.state === 'orphaned' && entry.disposalFailure) throw entry.disposalFailure;`
abbrev pub rethrow : State → Option Failure → Outcome Failure (Unit {0})
rethrow orphaned (some f) = thrown f
rethrow _ _ = returned tt

module _ {ℓ} {V : Type ℓ} where
  abbrev pub start_closing : Entry V → Entry V
  start_closing e = record e { state = closing }

  -- The tests that `close` makes of a located entry, and the change to `closing`.
  unfoldable pub start_close : Registry V → Entry V → Outcome Failure (Registry V × Entry V)
  start_close r e = do
    rethrow e.state e.disposal_failure
    reject r.dead (failure "RESOURCE_DEAD_EPOCH" stale_resource)
    assert_live e.state
    reject (ltb 0 (length e.children)) (failure "RESOURCE_HAS_CHILDREN" stale_resource)
    reject (ltb 0 e.leases) (failure "RESOURCE_BUSY" stale_resource)
    returned (record r { entries = modify r.entries e.slot start_closing }, e)

  -- `close` up to its await: the registry with the entry closing, and the entry.
  unfoldable pub begin_close : Registry V → Value → Outcome Failure (Registry V × Entry V)
  unfolding locate start_close
  begin_close r v = do e ← locate r v none true; start_close r e

  abbrev pub finish : Entry V → Entry V
  finish e = record e { value = none; state = closed }

  abbrev pub disown : ℕ → Entry V → Entry V
  disown s e = record e { children = delete_slot s e.children }

  unfoldable pub keep_failure : Value → Entry V → Entry V
  keep_failure error e =
      let (f, disposition) = normalize_disposal_failure error in
      record e {
        state = orphaned;
        disposal_failure = some f;
        orphan_disposition = some disposition;
        orphan_reason = some disposal_failed;
      }

  -- `close` behind its await, for the slot of the entry that is closing, and its parent's.
  unfoldable pub settle :
      Registry V → ℕ → Option ℕ → Disposal → Registry V × Outcome Failure (Unit {0})
  settle r s parent resolved = (
    record r {
      entries = at_parent (modify r.entries s finish) parent (disown s);
      free_slots = free_slot s r.free_slots;
    },
    returned tt,
  )
  settle r s parent (rejected error) = (
    record r { entries = modify r.entries s (keep_failure error) },
    thrown (normalize_disposal_failure error).0,
  )

  -- `close` with nothing in between.
  unfoldable pub close : Registry V → Value → Disposal → Registry V × Outcome Failure (Unit {0})
  unfolding begin_close settle
  close r v d = elim (begin_close r v) [
    | thrown f ↦ (r, thrown f)
    | returned (r', e) ↦ settle r' e.slot e.parent_slot d
  ]

  abbrev pub lose : Entry V → Entry V
  lose e = record e {
    state = orphaned;
    orphan_disposition = some unproved;
    orphan_reason = some owner_lost;
  }

  abbrev pub lose_if : State → Entry V → Entry V
  lose_if live e = lose e
  lose_if closing e = lose e
  lose_if _ e = e

  -- `markEpochDead`
  unfoldable pub mark_epoch_dead : Registry V → Registry V
  mark_epoch_dead r =
      if r.dead
      then r
      else record r { dead = true; entries = map (λ e. lose_if e.state e) r.entries }
