-- ===== src/Harvest/Fanin.antt =====
-- harvester/src/harvest_harvester/fanin.py: the queries of a dispatch are counted as they are done,
-- and the one that completes the count finalizes the target.
use dialogue_microservices.Prelude.{
  ℕ, ◌+◌, ◌*◌, [], ◌∷◌, Bool, false, ◌&&◌, Text, codes, fstring, leb, ltb, ◌==◌, maybe, not,
  if◌then◌else◌,
}
use dialogue_microservices.Prelude.TextDict
use dialogue_microservices.Prelude.TextDict.{TextDict}
use dialogue_microservices.Prelude.Action.{Action, pure, ◌>>=◌, ◌>>◌}
use dialogue_microservices.Core.KeyValue
use dialogue_microservices.Harvest.Domain.{SweepResult}
use dialogue_microservices.Harvest.Store.{finalize_target}
use dialogue_microservices.Harvest.World.{World, on_ds, on_kv, second, day}

unfoldable pub counter_key : Text → Text
counter_key dispatch_id = fstring (codes "sweep:" ∷ dispatch_id ∷ [])

-- `FANIN_COUNTER_TTL_S` and `ERROR_RETRY_DAYS`
abbrev pub fanin_counter_ttl : ℕ
fanin_counter_ttl = 1800 * second

abbrev pub error_retry : ℕ
error_retry = 1 * day

-- `counts.get(field, 0)`
abbrev pub count_of : Text → TextDict ℕ → ℕ
count_of field counts = maybe (TextDict.get counts field) 0 (λ n. n)

-- The aggregate of a complete dispatch: the result, and when the target is due again.
unfoldable pub aggregate : TextDict ℕ → ℕ → ℕ → ℕ → SweepResult × ℕ
aggregate counts query_count at resweep_interval_days =
    if leb query_count (count_of (codes "errors") counts)
      && count_of (codes "candidates") counts == 0
    then (SweepResult.error, at + error_retry)
    else (
      (if ltb 0 (count_of (codes "candidates") counts)
          then SweepResult.candidates
          else SweepResult.not_found),
      at + resweep_interval_days * day,
    )

-- `hincrby` takes no clock of its own: it reads that of the store.
unfoldable pub count_query : Text → ℕ → Bool → Action World (TextDict ℕ)
count_query dispatch_id candidates_staged errored = on_kv (λ t.
    KeyValue.hincrby t (counter_key dispatch_id) (
      (codes "done", 1)
      ∷ (codes "candidates", candidates_staged)
      ∷ (codes "errors", if errored then 1 else 0)
      ∷ []))

unfoldable pub expire_counter : Text → Action World Unit
expire_counter dispatch_id =
    on_kv (λ t kv. (tt, KeyValue.expire t (counter_key dispatch_id) fanin_counter_ttl kv))

unfoldable pub record_query_done : ℕ → Text → ℕ → ℕ → Bool → ℕ → ℕ → Action World Bool
record_query_done sweep_target_id dispatch_id query_count candidates_staged errored at days = do
  counts ← count_query dispatch_id candidates_staged errored
  expire_counter dispatch_id
  if not (count_of (codes "done") counts == query_count)
      then pure false
      else (let (result, next_due) = aggregate counts query_count at days in
          on_ds (finalize_target sweep_target_id dispatch_id result next_due))
