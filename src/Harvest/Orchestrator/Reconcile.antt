-- ===== src/Harvest/Orchestrator/Reconcile.antt =====
-- orchestrator/src/harvest_orchestrator/reconcile.py: fetch tasks that were lost are published again.
use dialogue_microservices.Prelude.{ℕ, suc, ◌*◌, List, [], ◌∷◌, Bool, true, false, if◌then◌else◌}
use dialogue_microservices.Prelude.Action.{Action, pure, ◌>>=◌, ◌>>◌, try_else}
use dialogue_microservices.Harvest.Domain.{Artifact}
use dialogue_microservices.Harvest.Messages.{Task}
use dialogue_microservices.Harvest.Store.{select_pending_stale, stamp_artifact}
use dialogue_microservices.Harvest.World.{Env, World, QueueName, on_ds, uuid4, send, second}

-- `DISPATCH_TIMEOUT_S`
abbrev pub dispatch_timeout : ℕ
dispatch_timeout = 1800 * second

-- True where the task was sent; else the stamp goes stale again.
unfoldable pub republish : Env → ℕ → Artifact → Action World Bool
republish env at a = do
  dispatch_id ← uuid4 env
  on_ds (stamp_artifact a.id at dispatch_id)
  try_else
      (send env QueueName.fetches (
        Task.fetch (record {
          corpus = env.config.name;
          artifact_id = a.id;
          dispatch_id = dispatch_id;
          dispatched_at = at;
        })))
      (λ _. pure true) (λ e. pure false)

unfoldable pub republish_all : Env → ℕ → List Artifact → Action World ℕ
republish_all env at [] = pure 0
republish_all env at (a ∷ stale) = do
  sent ← republish env at a
  republished ← republish_all env at stale
  pure (if sent then suc republished else republished)

unfoldable pub reconcile_fetch : Env → ℕ → Action World ℕ
reconcile_fetch env at = do
  stale ←
      on_ds
        (select_pending_stale env.config.name at dispatch_timeout env.config.max_fetch_redispatch)
  republish_all env at stale
