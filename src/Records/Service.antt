-- ===== src/Records/Service.antt =====
-- The service as a whole: handlers and periodic passes in any order. Each call comes with the
-- answers that the outside world gives during it; a raise ends only its own call, as in
-- `process_queue` (consumer.py) and `_run_concern` (orchestrator.py).
pub mod Threads
use dialogue_microservices.Prelude.{List, [], ◌∷◌, Text}
use dialogue_microservices.Prelude.Action.{Action, pure, ◌>>=◌, ◌>>◌}
use dialogue_microservices.Records.World.{Env, World}
use dialogue_microservices.Records.Sender.{handle_contact, handle_followup_job}
use dialogue_microservices.Records.Receiver.{handle_inbound}
use dialogue_microservices.Records.Orchestrator.{seed_pass, poll_mail, followup_scan}

-- A handler with the body of its message, or a pass of the orchestrator.
pub data Call : Type 0 where
  contact followup_job inbound : Text → Call
  seed : List Text → Call
  poll scan : Call

unfoldable pub perform : Env → Call → Action World Unit
perform env (Call.contact body) = handle_contact env body >> pure tt
perform env (Call.followup_job body) = handle_followup_job env body >> pure tt
perform env (Call.inbound body) = handle_inbound env body >> pure tt
perform env (Call.seed all_states) = seed_pass env all_states >> pure tt
perform env Call.poll = poll_mail env >> pure tt
perform env Call.scan = followup_scan env >> pure tt

unfoldable pub serve : List (Env × Call) → World → World
serve [] w = w
serve ((env, c) ∷ calls) w = serve calls (perform env c w).1
