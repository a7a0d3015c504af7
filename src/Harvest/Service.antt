-- ===== src/Harvest/Service.antt =====
-- The harvest as a whole: rounds of the consumer loops (service.py wires them) and turns of the
-- orchestrator's loop, in any order, one at a time. Each comes with the answers that the outside
-- world gives during it.
pub mod Kept
pub mod Artifacts
pub mod History
use dialogue_microservices.Prelude.{ℕ, List, [], ◌∷◌}
use dialogue_microservices.Prelude.Action.{Action, pure, ◌>>=◌, ◌>>◌}
use dialogue_microservices.Harvest.World.{Env, World, QueueName}
use dialogue_microservices.Harvest.Gates.{run_once}
use dialogue_microservices.Harvest.Sweep
use dialogue_microservices.Harvest.Code
use dialogue_microservices.Harvest.Fetch
use dialogue_microservices.Harvest.Orchestrator.{turn}

-- A round of one of the three loops with its batch size, or a turn with its interval.
pub data Call : Type 0 where
  sweep_round code_round fetch_round orchestrate : ℕ → Call

unfoldable pub perform : Env → Call → Action World Unit
perform env (Call.sweep_round n) = run_once QueueName.sweeps (Sweep.handle_batch env) n >> pure tt
perform env (Call.code_round n) = run_once QueueName.codes (Code.handle_batch env) n >> pure tt
perform env (Call.fetch_round n) = run_once QueueName.fetches (Fetch.handle_batch env) n >> pure tt
perform env (Call.orchestrate interval) = turn env interval

unfoldable pub serve : List (Env × Call) → World → World
serve [] w = w
serve ((env, c) ∷ calls) w = serve calls (perform env c w).1
