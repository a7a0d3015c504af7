-- ===== src/Harvest/Service/Kept/Crawling.antt =====
-- The code worker, under an invariant of the datastore.
use dialogue_microservices.Prelude.{ℕ, List, [], ◌∷◌, Text}
use dialogue_microservices.Prelude.Action.{pure, ◌>>◌}
use dialogue_microservices.Prelude.Preserves.{
  Preserves, preserves_rules, Preserves-pure, Preserves-raise, Preserves-bind, Preserves-if,
  Preserves-try_else,
}
use dialogue_microservices.Core.Queue.{QueueMessage}
use dialogue_microservices.Harvest.Domain.{Publisher}
use dialogue_microservices.Harvest.Messages.{Task, CodeTask}
use dialogue_microservices.Harvest.Store.{Datastore}
use dialogue_microservices.Harvest.Store.Reads.{read_rules}
use dialogue_microservices.Harvest.World.{Env, QueueName}
use dialogue_microservices.Harvest.Frame.{DsHas, ds_rules, DsHas-ask, DsHas-describe}
use dialogue_microservices.Harvest.Gates.{
  gate_code, start_heartbeat, expired, maybe_beat, Heartbeat, run_once,
}
use dialogue_microservices.Harvest.Code
use dialogue_microservices.Harvest.Code.{crawl, Crawl, finish_crawl, crawl_portals}
use dialogue_microservices.Harvest.Service.Kept.Interface.{Kept}
use dialogue_microservices.Harvest.Service.Kept.Shared.{stage_all-Kept, run_once-Kept}

module _ {Q : Datastore → Type 0} {Free : ℕ → Type 0} (kept : Kept Q Free) where
  maybe_beat-Kept :
      (q : QueueName) (m : QueueMessage) (h : Heartbeat) → Preserves (DsHas Q) (maybe_beat q m h)
  unfolding maybe_beat
  maybe_beat-Kept q m h = search (preserves_rules, ds_rules) depth 8

  expired-Kept : (h : Heartbeat) → Preserves (DsHas Q) (expired h)
  unfolding expired
  expired-Kept h = search (preserves_rules, ds_rules) depth 8

  start_heartbeat-Kept : (i e d : ℕ) → Preserves (DsHas Q) (start_heartbeat i e d)
  unfolding start_heartbeat
  start_heartbeat-Kept i e d = search (preserves_rules, ds_rules) depth 8

  crawl-Kept :
      (env : Env) (m : QueueMessage) (t : CodeTask) (h : Heartbeat) (c : Crawl)
      → (groups : List (Publisher × List Text)) → Preserves (DsHas Q) (crawl env m t h c groups)
  unfolding crawl
  crawl-Kept env m t h c [] = search (preserves_rules)
  crawl-Kept env m t h c ((publisher, urls) ∷ groups) =
      Preserves-bind _ _ (maybe_beat-Kept _ m h) (λ h1.
        Preserves-bind _ _ (expired-Kept h1) (λ over. Preserves-if _ _ _ (Preserves-pure _) (
          Preserves-try_else _ _ _ (DsHas-ask _)
            (λ r. Preserves-bind _ _ (stage_all-Kept kept env _ _ _ _) (λ n.
              Preserves-bind _ _ (maybe_beat-Kept _ m h1) (λ h2. crawl-Kept env m t h2 _ groups)))
            (λ e. Preserves-if _ _ _ (Preserves-pure _) (
              Preserves-if _ _ _
                (Preserves-bind _ _ (DsHas-describe env e) (λ text. crawl-Kept env m t h1 _ groups))
                (Preserves-raise e))))))

  finish_crawl-Kept :
      (env : Env) (m : QueueMessage) (t : CodeTask) (c : Crawl)
      → Preserves (DsHas Q) (finish_crawl env m t c)
  unfolding finish_crawl
  finish_crawl-Kept env m t c =
      let insert = kept.insert_history in
      let finalize = kept.finalize_target in
      search (preserves_rules, ds_rules, insert, finalize) depth 12

  gate_code-Kept : (t : CodeTask) → Preserves (DsHas Q) (gate_code t)
  unfolding gate_code
  gate_code-Kept t = search (preserves_rules, ds_rules, read_rules) depth 12

  code_task-Kept :
      (env : Env) (m : QueueMessage) (t : Task) → Preserves (DsHas Q) (Code.handle_task env m t)
  unfolding Code.handle_task crawl_portals
  code_task-Kept env m (Task.code t) =
      search
        (
          preserves_rules, ds_rules, read_rules, gate_code-Kept, start_heartbeat-Kept, crawl-Kept,
          finish_crawl-Kept,
        )
        depth 12
  code_task-Kept env m (Task.sweep t) = search (preserves_rules, ds_rules) depth 6
  code_task-Kept env m (Task.fetch t) = search (preserves_rules, ds_rules) depth 6

  code_batch-Kept :
      (env : Env) (ms : List QueueMessage) → Preserves (DsHas Q) (Code.handle_batch env ms)
  unfolding Code.handle_batch Code.handle_one
  code_batch-Kept env [] = search (preserves_rules)
  code_batch-Kept env (m ∷ ms) =
      Preserves-bind _ _ (search (preserves_rules, ds_rules, code_task-Kept) depth 8)
        (λ done. code_batch-Kept env ms)

  pub code_round-Kept :
      (env : Env) (n : ℕ)
      → Preserves (DsHas Q) (run_once QueueName.codes (Code.handle_batch env) n >> pure tt)
  code_round-Kept env n =
      Preserves-bind _ _ (run_once-Kept kept _ _ n (code_batch-Kept env))
        (λ done. search (preserves_rules))
