-- ===== src/Harvest/Tests.antt =====
-- The theorems of the harvest at concrete inputs.
use dialogue_microservices.Prelude.{
  ℕ, ◌≡◌, refl, inl, inr, Bool-cases, sum_by, filter, strip, ◌≤◌, ◌+◌, List, [], ◌∷◌, none, some,
  true, false, Text, codes, arith, any, text_eq, if◌then◌else◌,
}
use dialogue_microservices.Prelude.Dict.{get, put, values}
use dialogue_microservices.Prelude.TextDict
use dialogue_microservices.Prelude.TextDict.{TextDict, has_key}
use dialogue_microservices.Prelude.Action.{Error, ok, err}
use dialogue_microservices.Core.Queue.{QueueMessage}
use dialogue_microservices.Core.KeyValue
use dialogue_microservices.Harvest.Domain.{Artifact, SweepResult, SweepTarget, is_running}
use dialogue_microservices.Harvest.Store.{
  stamp_target, finalize_target, select_due, same_text, released, is_query,
}
use dialogue_microservices.Harvest.Store.Stamped.{
  dispatched, stamp_target-exclusive, finalize_target-gated,
}
use dialogue_microservices.Harvest.Store.Due.{Selects, select_due-Selects, stamp_target-recovered}
use dialogue_microservices.Harvest.World.{Env}
use dialogue_microservices.Harvest.Links.{extract_document_links}
use dialogue_microservices.Harvest.Links.Distinct.{
  IsDocumentLinks, extract_document_links-IsDocumentLinks,
}
use dialogue_microservices.Harvest.Sniff.{sniff}
use dialogue_microservices.Harvest.Sniff.Stored.{Stored, sniff-Stored}
use dialogue_microservices.Harvest.Staging.{Candidate, stage_candidate, url_key}
use dialogue_microservices.Harvest.Staging.Once.{stage_candidate-again}
use dialogue_microservices.Harvest.Gates.{gate_sweep, is_current}
use dialogue_microservices.Harvest.Gates.Decision.{is_completed, is_wanted, gate_sweep-decides}
use dialogue_microservices.Harvest.Fetch.{Others, idle, wait, wait_rounds, fetch_spacing}
use dialogue_microservices.Harvest.Fetch.Throttle.{
  admitted, IsBooked, wait_rounds-IsBooked, wait-spaced,
}
use dialogue_microservices.Harvest.Sweep.{handle_batch, chunks, new_item, Item}
use dialogue_microservices.Harvest.Sweep.Chunks.{IsSplit, chunks-IsSplit}
use dialogue_microservices.Harvest.Sweep.Deferred.{Unrecorded, handle_batch-rate_limited}
use dialogue_microservices.Harvest.Sweep.Redelivery.{is_worked, without, handle_batch-filter}
use dialogue_microservices.Harvest.Orchestrator.{clamp, dispatch_timeouts}
use dialogue_microservices.Harvest.Orchestrator.Generate.Clamped.{IsClamped, clamp-IsClamped}
use dialogue_microservices.Harvest.Service.{Call, serve}
use dialogue_microservices.Harvest.Service.Artifacts.{Unmoved, serve-worked}
use dialogue_microservices.Harvest.Service.History.{Grows, count_query, serve-Grows}
use dialogue_microservices.Harvest.Sample.{
  city, completed_world, corpus_name, done_row, ds, env, fetch_env, fetched, hit, limited_env,
  message, query_task, raw_queries, target, world,
}

abbrev calls : List (Env × Call)
calls =
    (env, Call.sweep_round 10) ∷ (fetch_env, Call.fetch_round 10) ∷ (env, Call.orchestrate 60) ∷ []

serve-worked_example :
    (a : Artifact) × (get (serve calls world).ds.artifacts 3 ≡ some a) × Unmoved fetched a
unfolding get
serve-worked_example =
    serve-worked calls world (ground arith, (ground arith, tt)) (refl, (refl, tt)) 3 fetched refl
      refl

one_row : (d : Text) (q : ℕ) → count_query d q (values completed_world.ds.history) ≤ 1
unfolding values sum_by
one_row d q = elim (Bool-cases (is_query d q done_row)) [
  | inl same ↦ rw same (ground arith)
  | inr other ↦ rw other (ground arith)
]

serve-Grows_example : Grows completed_world.ds (serve calls completed_world).ds
unfolding values
serve-Grows_example = serve-Grows calls completed_world (ground arith, tt) one_row

handle_batch-rate_limited_example :
    Unrecorded limited_env (message ∷ []) world (handle_batch limited_env (message ∷ []) world).1
handle_batch-rate_limited_example =
    handle_batch-rate_limited limited_env (message ∷ []) world (λ n q c. refl)

-- A query that is wanted, among messages that do not parse.
abbrev mixed_env : Env
mixed_env = record env {
  parse_task =
      λ body. if text_eq body (codes "{}") then env.parse_task body else err Error.value_error;
}

abbrev mixed_batch : List QueueMessage
mixed_batch =
    record message { id = 2; body = codes "?" }
    ∷ message
    ∷ record message { id = 3; body = codes "?" }
    ∷ []

handle_batch-filter_example :
    handle_batch mixed_env mixed_batch world
    ≡ handle_batch mixed_env (message ∷ []) (
        without
          (record message { id = 2; body = codes "?" }
            ∷ record message { id = 3; body = codes "?" }
            ∷ [])
          world)
unfolding filter is_wanted is_completed is_query any text_eq values TextDict.get get is_running
    is_current same_text
handle_batch-filter_example = handle_batch-filter mixed_env mixed_batch world

-- A query that is completed is not worked.
completed_batch : filter (is_worked env completed_world.ds) (message ∷ message ∷ []) ≡ []
unfolding filter is_wanted is_completed is_query any text_eq values TextDict.get get is_running
    is_current same_text
completed_batch = refl

gate_sweep-decides_example :
    gate_sweep query_task world ≡ (ok (is_wanted query_task world.ds), world)
gate_sweep-decides_example = gate_sweep-decides query_task world

stamp_target-exclusive_example :
    let s' = record ds { targets = put 2 (dispatched 9 (codes "d2") 1 target) ds.targets } in
    (stamp_target 2 9 (codes "d2") 1 (some (codes "d1")) (some 5000000) ds ≡ (ok true, s'))
    × (stamp_target 2 9 (codes "d3") 1 (some (codes "d1")) (some 5000000) s' ≡ (ok false, s'))
unfolding get same_text text_eq
stamp_target-exclusive_example =
    stamp_target-exclusive 2 9 9 (codes "d2") (codes "d3") 1 1 ds target refl refl

finalize_target-gated_example : finalize_target 2 (codes "d0") SweepResult.error 99 ds ≡ (
    if text_eq (codes "d1") (codes "d0")
    then (ok true, record ds { targets = put 2 (released 99 SweepResult.error target) ds.targets })
    else (ok false, ds))
unfolding get
finalize_target-gated_example =
    finalize_target-gated 2 5000000 0 (codes "d1") (codes "d0") 1 0 ds target SweepResult.error 99
      refl

select_due-Selects_example :
    (out : List SweepTarget) × (select_due corpus_name 9 dispatch_timeouts 10 ds ≡ (ok out, ds))
    × Selects corpus_name 9 dispatch_timeouts 10 ds out
select_due-Selects_example = select_due-Selects corpus_name 9 dispatch_timeouts 10 ds

stage_candidate-again_example :
    let c : Candidate = record { url = codes "http://a.gov/code.pdf"; context = [] } in
    let later = (stage_candidate env corpus_name 1 (codes "serper") c world).1 in
    stage_candidate env corpus_name 2 (codes "legal_codes") c later ≡ (
      ok false,
      record later { kv = (KeyValue.get later.clock (url_key env corpus_name c.url) later.kv).1 },
    )
unfolding has_key TextDict.get
stage_candidate-again_example =
    stage_candidate-again env corpus_name 1 2 (codes "serper") (codes "legal_codes")
      (record { url = codes "http://a.gov/code.pdf"; context = [] })
      (record { url = codes "http://a.gov/code.pdf"; context = [] }) world
      (record { lasting = refl; no_hash = refl }) refl

-- The target as it was before its dispatch.
abbrev undispatched : SweepTarget
undispatched = record target { dispatched_at = none; dispatch_id = none; query_count = none }

stamp_target-recovered_example :
    (out : List SweepTarget) × ((select_due corpus_name 2000000000 dispatch_timeouts 10
        (stamp_target 2 9 (codes "d2") 1 (some (codes "d1")) (some 5000000) ds).1).0
      ≡ ok out)
    × (any (λ (t : SweepTarget). same_text t.dispatch_id (some (codes "d2"))) out ≡ true)
unfolding get put values text_eq same_text
stamp_target-recovered_example =
    stamp_target-recovered corpus_name 2 9 2000000000 1 10 (codes "d2") dispatch_timeouts ds target
      refl refl (ground arith) (ground arith) (ground arith)
      (λ (t : SweepTarget). same_text t.dispatch_id (some (codes "d2"))) refl

clamp-IsClamped_example :
    IsClamped 2 (codes "noise" ∷ []) ((codes "noise", codes "noise code") ∷ [])
unfolding clamp filter TextDict.get text_eq strip
clamp-IsClamped_example =
    clamp-IsClamped 2 raw_queries (codes "noise" ∷ []) ((codes "noise", codes "noise code") ∷ [])
      refl

abbrev item : Item
item = record (new_item message query_task city) { results = hit ∷ [] }

chunks-IsSplit_example : IsSplit 1 (item ∷ item ∷ []) (chunks 1 [] 0 (item ∷ item ∷ []))
chunks-IsSplit_example = chunks-IsSplit 1 (item ∷ item ∷ [])

extract_document_links-IsDocumentLinks_example :
    IsDocumentLinks env (extract_document_links env [] (codes "http://a.gov"))
extract_document_links-IsDocumentLinks_example =
    extract_document_links-IsDocumentLinks env [] (codes "http://a.gov")

sniff-Stored_example : Stored (sniff env (codes "%PDF-1.7") none (codes "http://a.gov/code"))
sniff-Stored_example = sniff-Stored env (codes "%PDF-1.7") none (codes "http://a.gov/code")

-- Another thread of the pool, which books the host at its own time.
abbrev rival : Others
rival w = admitted (codes "a.gov") w.clock w

wait_rounds-IsBooked_example :
    IsBooked (codes "a.gov") (wait_rounds (rival ∷ rival ∷ idle ∷ rival ∷ []) (codes "a.gov") world)
wait_rounds-IsBooked_example =
    wait_rounds-IsBooked (codes "a.gov") (rival ∷ rival ∷ []) idle rival [] world
      (record { kept = λ w. refl; onward = λ w. ground arith })

wait-spaced_example :
    (wait env (codes "http://a.gov/x") world).1.clock + fetch_spacing
    ≤ (wait env (codes "http://a.gov/y") (wait env (codes "http://a.gov/x") world).1).1.clock
wait-spaced_example =
    wait-spaced env (codes "http://a.gov/x") (codes "http://a.gov/y") world
      (wait env (codes "http://a.gov/x") world).1 refl refl
