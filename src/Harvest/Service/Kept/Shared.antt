-- ===== src/Harvest/Service/Kept/Shared.antt =====
-- staging.py, fanin.py and a round of a loop, under an invariant of the datastore.
use dialogue_microservices.Prelude.{ℕ, List, [], ◌∷◌, Bool, Text}
use dialogue_microservices.Prelude.Action.{Action}
use dialogue_microservices.Prelude.Preserves.{Preserves, preserves_rules, Preserves-bind}
use dialogue_microservices.Core.Queue.{QueueMessage}
use dialogue_microservices.Harvest.Store.{Datastore}
use dialogue_microservices.Harvest.World.{Env, World, QueueName}
use dialogue_microservices.Harvest.Frame.{DsHas, ds_rules, with_queue-ds}
use dialogue_microservices.Harvest.Gates.{receive_from, run_once}
use dialogue_microservices.Harvest.Staging.{
  Candidate, stage_candidate, stage_all, publish_staged, heal,
}
use dialogue_microservices.Harvest.Fanin.{record_query_done, count_query, expire_counter}
use dialogue_microservices.Harvest.Service.Kept.Interface.{Kept}

module _ {Q : Datastore → Type 0} {Free : ℕ → Type 0} (kept : Kept Q Free) where
  pub stage_candidate-Kept :
      (env : Env) (corpus : Text) (j : ℕ) (origin : Text) (c : Candidate)
      → Preserves (DsHas Q) (stage_candidate env corpus j origin c)
  unfolding stage_candidate publish_staged heal
  stage_candidate-Kept env corpus j origin c =
      let insert = kept.insert_artifact in
      let stamp = kept.stamp_artifact in search (preserves_rules, ds_rules, insert, stamp) depth 12

  pub stage_all-Kept :
      (env : Env) (corpus : Text) (j : ℕ) (origin : Text) (cs : List Candidate)
      → Preserves (DsHas Q) (stage_all env corpus j origin cs)
  unfolding stage_all
  stage_all-Kept env corpus j origin [] = search (preserves_rules)
  stage_all-Kept env corpus j origin (c ∷ cs) =
      Preserves-bind _ _ (stage_candidate-Kept env corpus j origin c) (λ new.
        Preserves-bind _ _ (stage_all-Kept env corpus j origin cs) (λ n. search (preserves_rules)))

  pub record_query_done-Kept :
      (i : ℕ) (d : Text) (n staged : ℕ) (errored : Bool) (at days : ℕ)
      → Preserves (DsHas Q) (record_query_done i d n staged errored at days)
  unfolding record_query_done count_query expire_counter
  record_query_done-Kept i d n staged errored at days =
      let finalize = kept.finalize_target in search (preserves_rules, ds_rules, finalize) depth 12

  receive_from-Kept : (q : QueueName) (n : ℕ) → Preserves (DsHas Q) (receive_from q n)
  unfolding receive_from
  receive_from-Kept q n = record {
    from = λ w h. record { holds = rw (with_queue-ds q _ w) h.holds };
  }

  pub run_once-Kept :
      (q : QueueName) (handler : List QueueMessage → Action World Unit) (n : ℕ)
      → ((ms : List QueueMessage) → Preserves (DsHas Q) (handler ms))
      → Preserves (DsHas Q) (run_once q handler n)
  unfolding run_once
  run_once-Kept q handler n k = search (preserves_rules, receive_from-Kept, k) depth 8
