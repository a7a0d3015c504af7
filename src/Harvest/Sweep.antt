-- ===== src/Harvest/Sweep.antt =====
-- harvester/src/harvest_harvester/sweep.py: a batch of query tasks.
mod Items
mod Complete
pub mod Chunks
pub mod Redelivery
pub mod Deferred
unfoldable pub use Items.*
unfoldable pub use Complete.*
use dialogue_microservices.Prelude.{List, [], ◌∷◌, ◌++◌, filter, not}
use dialogue_microservices.Prelude.Action.{Action, pure, ◌>>=◌, ◌>>◌}
use dialogue_microservices.Core.Queue.{QueueMessage}
use dialogue_microservices.Harvest.World.{Env, World}

-- Steps 4 to 6, for each item.
unfoldable pub complete_all : Env → List Item → Action World Unit
complete_all env [] = pure tt
complete_all env (i ∷ items) = do complete env i; complete_all env items

unfoldable pub handle_batch : Env → List QueueMessage → Action World Unit
handle_batch env messages = do
  items ← gate_items env messages
  searched ← search_items env items
  let cap = env.config.triage_batch_max_results
  triaged ← triage_chunks env (chunks cap [] 0 (filter (λ (i : Item). not i.errored) searched))
  complete_all env (triaged ++ filter (λ (i : Item). i.errored) searched)
