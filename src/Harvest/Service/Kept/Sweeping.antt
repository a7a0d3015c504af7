-- ===== src/Harvest/Service/Kept/Sweeping.antt =====
-- The sweep worker, under an invariant of the datastore.
use dialogue_microservices.Prelude.{ℕ, List, [], ◌∷◌, Text}
use dialogue_microservices.Prelude.Action.{Error, pure, ◌>>◌}
use dialogue_microservices.Prelude.Preserves.{
  Preserves, preserves_rules, Preserves-bind, Preserves-if, Preserves-try_else,
}
use dialogue_microservices.Core.Queue.{QueueMessage}
use dialogue_microservices.Harvest.Messages.{Task, SweepTask}
use dialogue_microservices.Harvest.Store.{Datastore}
use dialogue_microservices.Harvest.Store.Reads.{read_rules}
use dialogue_microservices.Harvest.World.{Env, QueueName, SearchResult, TriageVerdict}
use dialogue_microservices.Harvest.Frame.{DsHas, ds_rules}
use dialogue_microservices.Harvest.Gates.{gate_sweep, run_once}
use dialogue_microservices.Harvest.Staging.{Candidate}
use dialogue_microservices.Harvest.Sweep
use dialogue_microservices.Harvest.Sweep.{
  Item, drop, gate_task, gate_message, gate_items, search_failed, search_item, search_items,
  triage_failed, triage_chunk, triage_chunks, page_links, find_candidates, stage_until,
  extraction_failed, stage_found, work, Work, write_back, complete, complete_all,
}
use dialogue_microservices.Harvest.Service.Kept.Interface.{Kept}
use dialogue_microservices.Harvest.Service.Kept.Shared.{
  stage_candidate-Kept, record_query_done-Kept, run_once-Kept,
}

module _ {Q : Datastore → Type 0} {Free : ℕ → Type 0} (kept : Kept Q Free) where
  gate_sweep-Kept : (task : SweepTask) → Preserves (DsHas Q) (gate_sweep task)
  unfolding gate_sweep
  gate_sweep-Kept task = search (preserves_rules, ds_rules, read_rules) depth 12

  gate_task-Kept :
      (env : Env) (m : QueueMessage) (t : Task) → Preserves (DsHas Q) (gate_task env m t)
  unfolding gate_task drop
  gate_task-Kept env m (Task.sweep t) =
      search (preserves_rules, ds_rules, read_rules, gate_sweep-Kept) depth 12
  gate_task-Kept env m (Task.code t) = search (preserves_rules, ds_rules) depth 6
  gate_task-Kept env m (Task.fetch t) = search (preserves_rules, ds_rules) depth 6

  gate_message-Kept : (env : Env) (m : QueueMessage) → Preserves (DsHas Q) (gate_message env m)
  unfolding gate_message drop
  gate_message-Kept env m = search (preserves_rules, ds_rules, gate_task-Kept) depth 8

  gate_items-Kept : (env : Env) (ms : List QueueMessage) → Preserves (DsHas Q) (gate_items env ms)
  unfolding gate_items
  gate_items-Kept env [] = search (preserves_rules)
  gate_items-Kept env (m ∷ ms) =
      Preserves-bind _ _ (gate_message-Kept env m)
        (λ i. Preserves-bind _ _ (gate_items-Kept env ms) (λ is. search (preserves_rules)))

  search_failed-Kept :
      (env : Env) (i : Item) (e : Error) → Preserves (DsHas Q) (search_failed env i e)
  unfolding search_failed
  search_failed-Kept env i Error.rate_limited = search (preserves_rules)
  search_failed-Kept env i e = search (preserves_rules, ds_rules) depth 6

  search_items-Kept : (env : Env) (is : List Item) → Preserves (DsHas Q) (search_items env is)
  unfolding search_items search_item
  search_items-Kept env [] = search (preserves_rules)
  search_items-Kept env (i ∷ is) =
      Preserves-bind _ _ (search (preserves_rules, ds_rules, search_failed-Kept) depth 8)
        (λ item. Preserves-bind _ _ (search_items-Kept env is) (λ rest. search (preserves_rules)))

  triage_failed-Kept : (env : Env) (e : Error) → Preserves (DsHas Q) (triage_failed env e)
  unfolding triage_failed
  triage_failed-Kept env Error.triage_error = search (preserves_rules)
  triage_failed-Kept env e = search (preserves_rules)

  triage_chunks-Kept :
      (env : Env) (cs : List (List Item)) → Preserves (DsHas Q) (triage_chunks env cs)
  unfolding triage_chunks triage_chunk
  triage_chunks-Kept env [] = search (preserves_rules)
  triage_chunks-Kept env (c ∷ cs) =
      Preserves-bind _ _ (search (preserves_rules, ds_rules, triage_failed-Kept) depth 8)
        (λ done. Preserves-bind _ _ (triage_chunks-Kept env cs) (λ rest. search (preserves_rules)))

  page_links-Kept : (env : Env) (url : Text) → Preserves (DsHas Q) (page_links env url)
  unfolding page_links
  page_links-Kept env url = search (preserves_rules, ds_rules) depth 8

  find_candidates-Kept :
      (env : Env) (rs : List SearchResult) (vs : List TriageVerdict)
      → Preserves (DsHas Q) (find_candidates env rs vs)
  unfolding find_candidates
  find_candidates-Kept env [] [] = search (preserves_rules)
  find_candidates-Kept env [] (v ∷ vs) = search (preserves_rules)
  find_candidates-Kept env (r ∷ rs) [] = search (preserves_rules)
  find_candidates-Kept env (r ∷ rs) (v ∷ vs) =
      let rest = find_candidates-Kept env rs vs in
      Preserves-if _ _ _ rest (
        Preserves-if _ _ _ (Preserves-bind _ _ rest (λ f. search (preserves_rules))) (
          Preserves-bind _ _ (page_links-Kept env r.url)
            (λ links. Preserves-bind _ _ rest (λ f. search (preserves_rules)))))

  stage_until-Kept :
      (env : Env) (corpus : Text) (j n : ℕ) (cs : List Candidate)
      → Preserves (DsHas Q) (stage_until env corpus j n cs)
  unfolding stage_until
  stage_until-Kept env corpus j n [] = search (preserves_rules)
  stage_until-Kept env corpus j n (c ∷ cs) =
      Preserves-try_else _ _ _ (stage_candidate-Kept kept env corpus j _ c)
        (λ new. stage_until-Kept env corpus j _ cs) (λ e. search (preserves_rules))

  work-Kept : (env : Env) (i : Item) → Preserves (DsHas Q) (work env i)
  unfolding work stage_found extraction_failed
  work-Kept env i =
      search (preserves_rules, ds_rules, find_candidates-Kept, stage_until-Kept) depth 12

  write_back-Kept :
      (env : Env) (i : Item) (done : Work) → Preserves (DsHas Q) (write_back env i done)
  unfolding write_back
  write_back-Kept env i done =
      let insert = kept.insert_history in
      search (preserves_rules, ds_rules, record_query_done-Kept, insert) depth 12

  complete_all-Kept : (env : Env) (is : List Item) → Preserves (DsHas Q) (complete_all env is)
  unfolding complete_all complete
  complete_all-Kept env [] = search (preserves_rules)
  complete_all-Kept env (i ∷ is) =
      Preserves-bind _ _ (Preserves-bind _ _ (work-Kept env i) (write_back-Kept env i))
        (λ done. complete_all-Kept env is)

  sweep_batch-Kept :
      (env : Env) (ms : List QueueMessage) → Preserves (DsHas Q) (Sweep.handle_batch env ms)
  unfolding Sweep.handle_batch
  sweep_batch-Kept env ms =
      search
        (preserves_rules, gate_items-Kept, search_items-Kept, triage_chunks-Kept, complete_all-Kept)
        depth 8

  pub sweep_round-Kept :
      (env : Env) (n : ℕ)
      → Preserves (DsHas Q) (run_once QueueName.sweeps (Sweep.handle_batch env) n >> pure tt)
  sweep_round-Kept env n =
      Preserves-bind _ _ (run_once-Kept kept _ _ n (sweep_batch-Kept env))
        (λ done. search (preserves_rules))
