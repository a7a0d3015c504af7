-- ===== src/Harvest/Orchestrator/Dispatch.antt =====
-- orchestrator/src/harvest_orchestrator/dispatch.py: generate, stamp, send.
pub mod Loser
use dialogue_microservices.Prelude.{
  ℕ, zero, suc, ◌+◌, ◌*◌, List, Option, some, [], ◌∷◌, Bool, true, false, Text, length, map, maybe,
  if◌then◌else◌,
}
use dialogue_microservices.Prelude.Action.{
  Error, Action, pure, raise, except, ◌>>=◌, ◌>>◌, try_else,
}
use dialogue_microservices.Harvest.Domain.{
  CodeSource, Jurisdiction, Source, SweepResult, SweepTarget,
}
use dialogue_microservices.Harvest.Messages.{Task}
use dialogue_microservices.Harvest.Store.{
  get_jurisdiction, select_due, stamp_target, park_target, list_code_sources,
}
use dialogue_microservices.Harvest.World.{Env, World, QueueName, on_ds, uuid4, send, second, day}
use dialogue_microservices.Harvest.Orchestrator.Generate.{generate_queries}

-- `DISPATCH_TIMEOUTS`
abbrev pub dispatch_timeouts : Source → ℕ
dispatch_timeouts Source.serper = 1800 * second
dispatch_timeouts Source.legal_codes = 7200 * second

unfoldable pub is_generation_error : Error → Bool
is_generation_error Error.generation_error = true
is_generation_error _ = false

module _ (env : Env) (at : ℕ) (target : SweepTarget) where
  -- The loop of sends, from query `seq` on.
  unfoldable pub send_queries : Jurisdiction → Text → ℕ → ℕ → List (Text × Text) → Action World Unit
  send_queries j dispatch_id query_count seq [] = pure tt
  send_queries j dispatch_id query_count seq ((topic, query) ∷ pairs) = do
    send env QueueName.sweeps (
        Task.sweep (record {
          corpus = env.config.name;
          sweep_target_id = target.id;
          jurisdiction_id = j.id;
          topic = topic;
          query_text = query;
          dispatch_id = dispatch_id;
          query_seq = seq;
          query_count = query_count;
          dispatched_at = at;
        }))
    send_queries j dispatch_id query_count (suc seq) pairs

  -- The compare-and-set, against the target as it was selected.
  unfoldable pub stamp : Text → ℕ → Action World Bool
  stamp dispatch_id query_count =
      on_ds
        (stamp_target target.id at dispatch_id query_count target.dispatch_id target.dispatched_at)

  unfoldable pub send_stamped : Jurisdiction → List (Text × Text) → Action World Bool
  send_stamped j pairs = do
    dispatch_id ← uuid4 env
    won ← stamp dispatch_id (length pairs)
    if won then (do send_queries j dispatch_id (length pairs) 0 pairs; pure true) else pure false

  unfoldable pub dispatch_serper : Action World Bool
  dispatch_serper = do
    known ← on_ds (get_jurisdiction target.jurisdiction_id)
    maybe known (pure false) λ j.
        try_else (generate_queries env j) (send_stamped j) (except is_generation_error (pure false))

  unfoldable pub send_seeds : List CodeSource → Action World Bool
  send_seeds seeds = do
    dispatch_id ← uuid4 env
    won ← stamp dispatch_id 1
    if won
        then (do
          send env QueueName.codes (
              Task.code (record {
                corpus = env.config.name;
                sweep_target_id = target.id;
                jurisdiction_id = target.jurisdiction_id;
                portal_urls = map (λ (s : CodeSource). s.url) seeds;
                dispatch_id = dispatch_id;
                dispatched_at = at;
              }))
          pure true)
        else pure false

  -- No seed is enabled: the target is parked.
  unfoldable pub park : Action World Bool
  park = do
    on_ds (park_target target.id (at + env.config.resweep_interval_days * day) SweepResult.error)
    pure false

  unfoldable pub seeds_or_park : List CodeSource → Action World Bool
  seeds_or_park [] = park
  seeds_or_park (s ∷ seeds) = send_seeds (s ∷ seeds)

  unfoldable pub dispatch_code : Action World Bool
  dispatch_code = on_ds (list_code_sources (some target.jurisdiction_id) true) >>= seeds_or_park

  unfoldable pub dispatch_by : Source → Action World Bool
  dispatch_by Source.serper = dispatch_serper
  dispatch_by Source.legal_codes = dispatch_code

-- The loop: whatever one dispatch raises, the next goes on.
unfoldable pub dispatch_all : Env → ℕ → List SweepTarget → Action World ℕ
dispatch_all env at [] = pure 0
dispatch_all env at (t ∷ due) = do
  done ← try_else (dispatch_by env at t t.source) pure (λ e. pure false)
  dispatched ← dispatch_all env at due
  pure (if done then suc dispatched else dispatched)

unfoldable pub dispatch_cycle : Env → ℕ → Action World ℕ
dispatch_cycle env at = do
  due ← on_ds (select_due env.config.name at dispatch_timeouts env.config.max_sweeps_per_dispatch)
  dispatch_all env at due
