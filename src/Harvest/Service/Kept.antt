-- ===== src/Harvest/Service/Kept.antt =====
-- What every call keeps, from what the methods of the datastore keep: an invariant of the datastore
-- that the methods preserve which the workers and the orchestrator call is preserved by any run.
mod Interface
mod Shared
mod Sweeping
mod Crawling
mod Fetching
mod Passes
pub use Interface.{Kept}
use dialogue_microservices.Prelude.{ℕ, List, [], ◌∷◌}
use dialogue_microservices.Prelude.Preserves.{Preserves, preserves_rules}
use dialogue_microservices.Harvest.Store.{Datastore}
use dialogue_microservices.Harvest.World.{Env, World}
use dialogue_microservices.Harvest.Frame.{DsHas, ds_rules}
use dialogue_microservices.Harvest.Service.{Call, perform, serve}
use Sweeping.{sweep_round-Kept}
use Crawling.{code_round-Kept}
use Fetching.{fetch_round-Kept}
use Passes.{turn-Kept}

module _ {Q : Datastore → Type 0} {Free : ℕ → Type 0} (kept : Kept Q Free) where
  perform-Kept : (env : Env) (c : Call) → Preserves (DsHas Q) (perform env c)
  unfolding perform
  perform-Kept env (Call.sweep_round n) = sweep_round-Kept kept env n
  perform-Kept env (Call.code_round n) = code_round-Kept kept env n
  perform-Kept env (Call.fetch_round n) = fetch_round-Kept kept env n
  perform-Kept env (Call.orchestrate interval) = turn-Kept kept env interval

  pub serve-Kept : (calls : List (Env × Call)) (w : World) → Q w.ds → Q (serve calls w).ds
  unfolding serve
  serve-Kept [] w h = h
  serve-Kept ((env, c) ∷ calls) w h =
      serve-Kept calls (perform env c w).1
        ((perform-Kept env c).from w (record { holds = h })).holds
