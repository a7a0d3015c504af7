-- ===== src/Harvest/Orchestrator.antt =====
-- orchestrator/src/harvest_orchestrator/loop.py and ops.py: one cycle of the loop, and the kill of a
-- corpus. The health marker is left out: it is of the module harvest_core.health, which the
-- repository does not hold.
pub mod Generate
pub mod Dispatch
mod Reconcile
mod Census
mod Scope
mod Seeding
unfoldable pub use Generate.*
unfoldable pub use Dispatch.*
unfoldable pub use Reconcile.*
unfoldable pub use Census.*
unfoldable pub use Scope.*
unfoldable pub use Seeding.*
use dialogue_microservices.Prelude.{
  ℕ, ◌+◌, List, [], ◌∷◌, Bool, not, Text, codes, fstring, if◌then◌else◌,
}
use dialogue_microservices.Prelude.Action.{Action, pure, ◌>>=◌, ◌>>◌, try_else}
use dialogue_microservices.Core.KeyValue
use dialogue_microservices.Core.ObjectStore
use dialogue_microservices.Core.Storage.{slugify}
use dialogue_microservices.Harvest.Domain.{is_running}
use dialogue_microservices.Harvest.Store.{CorpusCounts, get_run_state, purge_corpus}
use dialogue_microservices.Harvest.World.{Env, World, on_ds, on_kv, on_objects, now, sleep}

pub record Counters : Type 0 where
  pub dispatched : ℕ
  pub republished : ℕ
  pub seeded : ℕ

-- Dispatch and reconcile, after the seeding.
unfoldable pub send_out : Env → ℕ → Action World Counters
send_out env seeded = do
  at ← now
  dispatched ← dispatch_cycle env at
  later ← now
  republished ← reconcile_fetch env later
  pure (record { dispatched = dispatched; republished = republished; seeded = seeded })

unfoldable pub run_cycle : Env → Action World Counters
run_cycle env = do
  state ← on_ds (get_run_state env.config.name)
  if not (is_running state)
      then pure (record { dispatched = 0; republished = 0; seeded = 0 })
      else (do
        loaded ← ensure_states env env.config.scope.states
        seeded ← (if loaded then seed_now env else pure 0)
        send_out env seeded)

-- One turn of `run_forever`: an exception of the cycle is logged.
unfoldable pub turn : Env → ℕ → Action World Unit
turn env interval = do try_else (run_cycle env) (λ counters. pure tt) (λ e. pure tt); sleep interval

pub record KillCounts : Type 0 where
  pub rows : CorpusCounts
  pub s3_objects : ℕ
  pub redis_keys : ℕ

-- `purge_corpus` of ops.py
unfoldable pub kill_corpus : Text → Action World KillCounts
kill_corpus corpus = do
  rows ← on_ds (purge_corpus corpus)
  s3_objects ← on_objects (ObjectStore.delete_prefix (fstring (slugify corpus ∷ codes "/" ∷ [])))
  urls ← on_kv (λ t. KeyValue.delete_prefix (fstring (codes "url:" ∷ corpus ∷ codes ":" ∷ [])))
  docs ← on_kv (λ t. KeyValue.delete_prefix (fstring (codes "doc:" ∷ corpus ∷ codes ":" ∷ [])))
  pure (record { rows = rows; s3_objects = s3_objects; redis_keys = urls + docs })
