-- ===== src/Harvest/Gates/Decision.antt =====
-- consumer.py: what the gates decide, and that they change nothing.
use dialogue_microservices.Prelude.{
  ◌≡◌, refl, inl, inr, Bool, not, ◌&&◌, any, any-filter, any-sort_by, filter, leb, text_eq,
  Bool-cases, ◌==◌,
}
use dialogue_microservices.Prelude.Dict
use dialogue_microservices.Prelude.Dict.{values}
use dialogue_microservices.Prelude.TextDict
use dialogue_microservices.Prelude.Action.{ok, pure, gets, ◌>>=◌}
use dialogue_microservices.Harvest.Domain.{SweepHistory, is_running}
use dialogue_microservices.Harvest.Messages.{SweepTask}
use dialogue_microservices.Harvest.Store.{
  Datastore, get_run_state, get_target, list_history, is_query,
}
use dialogue_microservices.Harvest.World.{World, on_ds}
use dialogue_microservices.Harvest.Gates.{gate_sweep, is_current}

-- The history has a row of this query of this dispatch, in its corpus and jurisdiction.
unfoldable pub is_completed : SweepTask → Datastore → Bool
is_completed task s =
    any
      (λ (h : SweepHistory).
        (text_eq h.corpus task.corpus && h.jurisdiction_id == task.jurisdiction_id)
        && is_query task.dispatch_id task.query_seq h)
      (values s.history)

-- The corpus is running, the target is in this very dispatch, and the history of the corpus and the
-- jurisdiction has no row of the query.
unfoldable pub is_wanted : SweepTask → Datastore → Bool
is_wanted task s =
    is_running (TextDict.get s.run_switches task.corpus)
    && is_current (Dict.get s.targets task.sweep_target_id) task.dispatch_id
    && not (is_completed task s)

-- `gate_sweep` lets a task through exactly where it is wanted, and changes nothing.
pub gate_sweep-decides :
    (task : SweepTask) (w : World) → gate_sweep task w ≡ (ok (is_wanted task w.ds), w)
unfolding gate_sweep is_wanted is_completed get_run_state get_target list_history gets on_ds pure
    ◌>>=◌
gate_sweep-decides task w =
    let own : SweepHistory → Bool =
      (λ h. text_eq h.corpus task.corpus && h.jurisdiction_id == task.jurisdiction_id) in
    elim (Bool-cases (is_running (TextDict.get w.ds.run_switches task.corpus))) [
      | inr stopped ↦ rw stopped refl
      | inl running ↦
          rw running
            (elim (Bool-cases
              (is_current (Dict.get w.ds.targets task.sweep_target_id) task.dispatch_id)) [
                | inr stale ↦ rw stale refl
                | inl current ↦
                    rw
                      (
                        current,
                        any-sort_by (is_query task.dispatch_id task.query_seq)
                            (λ (a b : SweepHistory). leb a.id b.id)
                            (filter own (values w.ds.history)),
                        any-filter (is_query task.dispatch_id task.query_seq) own
                            (values w.ds.history),
                      )
                      refl
              ])
    ]
