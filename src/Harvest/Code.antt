-- ===== src/Harvest/Code.antt =====
-- harvester/src/harvest_harvester/code.py: one portal crawl for each task.
use dialogue_microservices.Prelude.{
  ℕ, ◌+◌, ◌*◌, List, [], ◌∷◌, ◌++◌, Option, none, some, Bool, true, false, not, ◌&&◌, Text, codes,
  join, ltb, maybe, map, nonempty, ◌==◌, if◌then◌else◌,
}
use dialogue_microservices.Prelude.TextDict
use dialogue_microservices.Prelude.TextDict.{TextDict}
use dialogue_microservices.Prelude.Action.{
  Error, Action, pure, raise, attempt, ◌>>=◌, ◌>>◌, try_else,
}
use dialogue_microservices.Core.Queue.{QueueMessage}
use dialogue_microservices.Harvest.Domain.{
  CodeSource, Publisher, SweepHistory, SweepResult, Source, same_publisher,
}
use dialogue_microservices.Harvest.Messages.{Task, CodeTask}
use dialogue_microservices.Harvest.Store.{list_code_sources, insert_history, finalize_target}
use dialogue_microservices.Harvest.World.{
  Env, World, QueueName, DiscoveryResult, PortalCandidate, on_ds, now, ask, describe, delete,
  second, day,
}
use dialogue_microservices.Harvest.Gates.{
  Heartbeat, start_heartbeat, maybe_beat, expired, gate_code,
}
use dialogue_microservices.Harvest.Fanin.{error_retry}
use dialogue_microservices.Harvest.Staging.{Candidate, stage_all}

-- `{s.url: s.publisher for s in …}`
unfoldable pub publishers : List CodeSource → TextDict Publisher → TextDict Publisher
publishers [] d = d
publishers (s ∷ sources) d = publishers sources (TextDict.put s.url s.publisher d)

-- `groups[publisher].append(url)`
unfoldable pub add_url :
    Publisher → Text → List (Publisher × List Text) → List (Publisher × List Text)
add_url p url [] = (p, url ∷ []) ∷ []
add_url p url ((q, urls) ∷ groups) =
    if same_publisher q p then (q, urls ++ url ∷ []) ∷ groups else (q, urls) ∷ add_url p url groups

unfoldable pub group_urls :
    TextDict Publisher → List Text → List (Publisher × List Text) → List (Publisher × List Text)
unfolding add_url
group_urls by_url [] groups = groups
group_urls by_url (url ∷ urls) groups =
    group_urls by_url urls
      (add_url (maybe (TextDict.get by_url url) Publisher.other (λ p. p)) url groups)

-- What the loop over the publishers has gathered.
pub record Crawl : Type 0 where
  pub staged : ℕ
  pub complete : Bool
  pub errors : List Text
  pub details : List Text

abbrev pub first_crawl : Crawl
first_crawl = record { staged = 0; complete = true; errors = []; details = [] }

-- The crawl with the result of one publisher.
unfoldable pub with_result : DiscoveryResult → ℕ → Crawl → Crawl
with_result r n c = record c {
  staged = c.staged + n;
  complete = c.complete && r.complete;
  details = if not r.complete && nonempty r.detail then c.details ++ r.detail ∷ [] else c.details;
}

unfoldable pub some_errors : List Text → Bool
some_errors [] = false
some_errors (e ∷ errors) = true

-- The result of the task, when its target is due again, and the details.
unfoldable pub verdict : Crawl → ℕ → ℕ → SweepResult × ℕ × List Text
unfolding some_errors
verdict c at resweep_interval_days =
    let found = if ltb 0 c.staged then SweepResult.candidates else SweepResult.not_found in
    if some_errors c.errors && c.staged == 0 && c.complete
    then (SweepResult.error, at + error_retry, c.details ++ c.errors)
    else if not c.complete
    then (
      (if ltb 0 c.staged then SweepResult.candidates else SweepResult.error),
      at + error_retry,
      c.details ++ codes "truncated; resuming in 1 day" ∷ [],
    )
    else (found, at + resweep_interval_days * day, c.details)

unfoldable pub is_transient : Error → Bool
is_transient Error.transient_portal_error = true
is_transient _ = false

unfoldable pub is_portal_error : Error → Bool
is_portal_error Error.portal_error = true
is_portal_error _ = false

abbrev pub to_candidate : PortalCandidate → Candidate
to_candidate c = record { url = c.url; context = c.context }

module _ (env : Env) (message : QueueMessage) (task : CodeTask) where
  -- The loop over the publishers; none where a transient failure leaves the message as it is.
  unfoldable pub crawl :
      Heartbeat → Crawl → List (Publisher × List Text) → Action World (Option Crawl)
  crawl heartbeat c [] = pure (some c)
  crawl heartbeat c ((publisher, urls) ∷ groups) = do
    h ← maybe_beat QueueName.codes message heartbeat
    over ← expired h
    if over
        then pure (
            some (record c {
              complete = false;
              details = c.details ++ codes "deadline hit before all portals were crawled" ∷ [];
            }))
        else try_else
            (ask (λ n. env.discover n urls publisher env.config.code_max_pages h.deadline))
            (λ result. do
              n ←
                  stage_all env task.corpus task.jurisdiction_id (codes "legal_codes")
                    (map to_candidate result.candidates)
              h' ← maybe_beat QueueName.codes message h
              crawl h' (with_result result n c) groups)
            (λ e.
              if is_transient e
              then pure none
              else if is_portal_error e
              then (do
                text ← describe env e
                crawl h (record c { errors = c.errors ++ text ∷ [] }) groups)
              else raise e)

  -- `" | ".join(details) if details else "portal crawl"`
  unfoldable pub detail_of : List Text → Text
  detail_of [] = codes "portal crawl"
  detail_of (d ∷ details) = join (codes " | ") (d ∷ details)

  unfoldable pub crawl_row : SweepResult → List Text → ℕ → ℕ → SweepHistory
  crawl_row result details staged at = record {
    id = 0;
    corpus = task.corpus;
    jurisdiction_id = task.jurisdiction_id;
    source = Source.legal_codes;
    dispatch_id = task.dispatch_id;
    query_seq = 0;
    result = result;
    topic = none;
    results_seen = 0;
    results_triaged_relevant = 0;
    candidates_staged = staged;
    detail = detail_of details;
    swept_at = at;
  }

  -- The history commit, the target, the delete.
  unfoldable pub finish_crawl : Crawl → Action World Unit
  finish_crawl c = do
    at ← now
    let (result, next_due, details) = verdict c at env.config.resweep_interval_days
    inserted ← on_ds (insert_history (crawl_row result details c.staged at))
    if inserted
        then on_ds (finalize_target task.sweep_target_id task.dispatch_id result next_due)
        else pure false
    delete QueueName.codes message

  unfoldable pub crawl_portals : Action World Unit
  crawl_portals = do
    heartbeat ← start_heartbeat (300 * second) (900 * second) (3600 * second)
    sources ← on_ds (list_code_sources (some task.jurisdiction_id) false)
    done ← crawl heartbeat first_crawl (group_urls (publishers sources []) task.portal_urls [])
    maybe done (pure tt) finish_crawl

module _ (env : Env) where
  unfoldable pub handle_task : QueueMessage → Task → Action World Unit
  handle_task m (Task.code task) = do
    current ← gate_code task
    if current then crawl_portals env m task else delete QueueName.codes m
  handle_task m (Task.sweep task) = delete QueueName.codes m
  handle_task m (Task.fetch task) = delete QueueName.codes m

  unfoldable pub handle_one : QueueMessage → Action World Unit
  handle_one m = attempt (env.parse_task m.body) (handle_task m) (λ e. delete QueueName.codes m)

  unfoldable pub handle_batch : List QueueMessage → Action World Unit
  handle_batch [] = pure tt
  handle_batch (m ∷ messages) = do handle_one m; handle_batch messages
