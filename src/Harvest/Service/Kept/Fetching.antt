-- ===== src/Harvest/Service/Kept/Fetching.antt =====
-- The fetch worker, under an invariant of the datastore.
use dialogue_microservices.Prelude.{
  ℕ, ◌≡◌, refl, inl, inr, ◌⊎◌, List, [], ◌∷◌, none, some, true, ◌&&◌, Text, Option-cases,
  Bool-cases,
}
use native.Mathlib.Omega.{arith}
use dialogue_microservices.Prelude.Dict.{get}
use dialogue_microservices.Prelude.TextDict
use dialogue_microservices.Prelude.Action.{
  Error, Action, Result-cases, ok, pure, gets, lift, ◌>>=◌, ◌>>◌,
}
use dialogue_microservices.Prelude.Preserves.{
  Preserves, preserves_rules, Preserves-bind, Preserves-if,
}
use dialogue_microservices.Core.Queue.{QueueMessage}
use dialogue_microservices.Harvest.Domain.{
  Artifact, ArtifactStatus, is_pending, is_running, check_transition,
}
use dialogue_microservices.Harvest.Messages.{Task, FetchTask}
use dialogue_microservices.Harvest.Store.{
  Datastore, update_artifact, get_run_state, get_artifact, same_text,
}
use dialogue_microservices.Harvest.Store.Reads.{read_rules}
use dialogue_microservices.Harvest.World.{Env, World, QueueName, FetchResponse, on_ds}
use dialogue_microservices.Harvest.Frame.{DsHas, ds_rules, DsHas-on_ds, DsHas-on_objects}
use dialogue_microservices.Harvest.Gates.{gate_fetch, workable, run_once}
use dialogue_microservices.Harvest.Fetch
use dialogue_microservices.Harvest.Fetch.{
  wait, wait_rounds, move, record_attempt, reject, settle_duplicate, store_document, is_duplicate,
  keep_content, handle_response, handle_failure, fetch_artifact, retried,
}
use dialogue_microservices.Harvest.Fetch.Throttle.{wait-alone}
use dialogue_microservices.Harvest.Service.Kept.Interface.{Kept}
use dialogue_microservices.Harvest.Service.Kept.Shared.{run_once-Kept}

module _ {Q : Datastore → Type 0} {Free : ℕ → Type 0} (kept : Kept Q Free) where
  wait-Kept : (env : Env) (url : Text) → Preserves (DsHas Q) (wait env url)
  wait-Kept env url = record {
    from = λ w h. rw (wait-alone env url w) (record { holds = h.holds });
  }

  -- The rest of a handler after a move of the state machine, which keeps the id.
  after_move-Kept :
      (status : ArtifactStatus) (a : Artifact) (f : Artifact → Action World Unit)
      → ((b : Artifact) → b.id ≡ a.id → Preserves (DsHas Q) (f b))
      → Preserves (DsHas Q) (move status a >>= f)
  unfolding move lift pure ◌>>=◌
  after_move-Kept status a f k = record {
    from = λ w h. elim (Result-cases (check_transition a.status status)) [
      | inl (u, moved) ↦ rw moved ((k (record a { status = status }) refl).from w h)
      | inr (e, refused) ↦ rw refused h
    ];
  }

  update-Kept :
      (b : Artifact) (i : ℕ) → b.id ≡ i → Free i → Preserves (DsHas Q) (on_ds (update_artifact b))
  update-Kept b i same free =
      let here : Free b.id = rw same free in DsHas-on_ds _ (kept.update_artifact b here)

  record_attempt-Kept :
      (a : Artifact) (error : Text) → Free a.id → Preserves (DsHas Q) (record_attempt a error)
  unfolding record_attempt
  record_attempt-Kept a error free =
      Preserves-if _ _ _ (after_move-Kept _ _ _ (λ b same. update-Kept b a.id same free))
        (update-Kept _ a.id refl free)

  reject-Kept : (a : Artifact) (r : FetchResponse) → Free a.id → Preserves (DsHas Q) (reject a r)
  unfolding reject
  reject-Kept a r free = after_move-Kept _ _ _ (λ b same. update-Kept _ a.id same free)

  settle_duplicate-Kept :
      (a : Artifact) (sha : Text) → Free a.id → Preserves (DsHas Q) (settle_duplicate a sha)
  unfolding settle_duplicate
  settle_duplicate-Kept a sha free = after_move-Kept _ _ _ (λ b same. update-Kept _ a.id same free)

  store_document-Kept :
      (env : Env) (corpus : Text) (a : Artifact) (r : FetchResponse) (ext sha : Text)
      → Free a.id
      → Preserves (DsHas Q) (store_document env corpus a r ext sha)
  unfolding store_document
  store_document-Kept env corpus a r ext sha free =
      Preserves-bind _ _ (search (ds_rules, read_rules)) (λ known.
        Preserves-bind _ _ (DsHas-on_objects _) (λ stored. after_move-Kept _ _ _ (λ b same.
          Preserves-bind _ _ (update-Kept _ a.id same free)
            (λ done. search (preserves_rules, ds_rules) depth 6))))

  is_duplicate-Kept :
      (corpus : Text) (a : Artifact) (sha : Text)
      → (env : Env) → Preserves (DsHas Q) (is_duplicate env corpus a sha)
  unfolding is_duplicate
  is_duplicate-Kept corpus a sha env = search (preserves_rules, ds_rules, read_rules) depth 12

  keep_content-Kept :
      (env : Env) (corpus : Text) (a : Artifact) (r : FetchResponse)
      → Free a.id
      → Preserves (DsHas Q) (keep_content env corpus a r)
  unfolding keep_content
  keep_content-Kept env corpus a r free =
      search
        (
          preserves_rules, ds_rules, reject-Kept, is_duplicate-Kept, settle_duplicate-Kept,
          store_document-Kept,
        )
        depth 12

  handle_response-Kept :
      (env : Env) (corpus : Text) (a : Artifact) (r : FetchResponse)
      → Free a.id
      → Preserves (DsHas Q) (handle_response env corpus a r)
  unfolding handle_response
  handle_response-Kept env corpus a r free =
      let remove = kept.delete_artifact in
      search (preserves_rules, ds_rules, remove, record_attempt-Kept, keep_content-Kept) depth 12

  handle_failure-Kept :
      (env : Env) (a : Artifact) (e : Error)
      → Free a.id
      → Preserves (DsHas Q) (handle_failure env a e)
  unfolding handle_failure
  handle_failure-Kept env a Error.unreachable_host free =
      DsHas-on_ds _ (kept.delete_artifact a.id free)
  handle_failure-Kept env a Error.fetch_error free =
      search (preserves_rules, ds_rules, record_attempt-Kept) depth 8
  handle_failure-Kept env a e free = search (preserves_rules)

  fetch_artifact-Kept :
      (env : Env) (t : FetchTask) (a : Artifact)
      → Free a.id
      → Preserves (DsHas Q) (fetch_artifact env t a)
  unfolding fetch_artifact
  fetch_artifact-Kept env t a free =
      search (preserves_rules, ds_rules, wait-Kept, handle_response-Kept, handle_failure-Kept) depth
        12

  -- The gate hands out a pending artifact, or none.
  gate_fetch-free :
      (t : FetchTask) (w : World)
      → Q w.ds
      → (gate_fetch t w ≡ (ok none, w))
        ⊎ ((a : Artifact) × (gate_fetch t w ≡ (ok (some a), w)) × Free a.id)
  unfolding gate_fetch workable get_run_state get_artifact gets pure on_ds ◌>>=◌
  gate_fetch-free t w h = elim (Bool-cases (is_running (TextDict.get w.ds.run_switches t.corpus))) [
    | inr stopped ↦ rw stopped (inl refl)
    | inl running ↦ rw running (elim (Option-cases (get w.ds.artifacts t.artifact_id)) [
      | inl gone ↦ rw gone (inl refl)
      | inr (a, there) ↦
          rw there
            (elim (Bool-cases
              (is_pending a.status && same_text a.dispatch_id (some t.dispatch_id))) [
                | inr stale ↦ rw stale (inl refl)
                | inl current ↦
                    (let pending : is_pending a.status ≡ true = ground arith in
                      let free = kept.pending_is_free w.ds t.artifact_id a h there pending in
                      rw current (inr (a, refl, free)))
              ])
    ])
  ]

  fetch_task-Kept : (env : Env) (t : Task) → Preserves (DsHas Q) (Fetch.handle_task env t)
  unfolding Fetch.handle_task ◌>>=◌ pure
  fetch_task-Kept env (Task.fetch t) = record {
    from = λ w h. elim (gate_fetch-free t w h.holds) [
      | inl dropped ↦ rw dropped h
      | inr (a, worked, free) ↦ rw worked ((fetch_artifact-Kept env t a free).from w h)
    ];
  }
  fetch_task-Kept env (Task.sweep t) = search (preserves_rules)
  fetch_task-Kept env (Task.code t) = search (preserves_rules)

  fetch_batch-Kept :
      (env : Env) (ms : List QueueMessage) → Preserves (DsHas Q) (Fetch.handle_batch env ms)
  unfolding Fetch.handle_batch Fetch.handle_one
  fetch_batch-Kept env [] = search (preserves_rules)
  fetch_batch-Kept env (m ∷ ms) =
      Preserves-bind _ _ (search (preserves_rules, ds_rules, fetch_task-Kept) depth 8)
        (λ done. fetch_batch-Kept env ms)

  pub fetch_round-Kept :
      (env : Env) (n : ℕ)
      → Preserves (DsHas Q) (run_once QueueName.fetches (Fetch.handle_batch env) n >> pure tt)
  fetch_round-Kept env n =
      Preserves-bind _ _ (run_once-Kept kept _ _ n (fetch_batch-Kept env))
        (λ done. search (preserves_rules))
