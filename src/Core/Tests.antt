-- ===== src/Core/Tests.antt =====
-- A queue with two messages, one of them at its delivery limit, and the theorems at it.
use dialogue_microservices.Prelude.{
  ℕ, maybe, List, ◌+◌, ◌≤◌, ◌≡◌, [], ◌∷◌, none, false, Text, codes, arith, length, All,
}
use dialogue_microservices.Core.Queue.{Queue, StoredMessage, receive, pending_count}
use dialogue_microservices.Prelude.Action.{Error, ok, err}
use dialogue_microservices.Core.ObjectStore
use dialogue_microservices.Core.ObjectStore.{empty_objects}
use dialogue_microservices.Core.ObjectStore.Map.{Command, run, run_in, run-refines}
use dialogue_microservices.Core.Queue.Receive.{Counted, receive-fair, receive-hidden}

abbrev message : ℕ → Text → ℕ → StoredMessage
message i body count = record {
  id = i;
  body = body;
  receive_count = count;
  invisible_until = none;
  deleted = false;
}

abbrev two_messages : Queue
two_messages = record {
  visibility_timeout = 300;
  max_receive_count = 3;
  dlq = [];
  messages = message 1 (codes "a") 3 ∷ message 2 (codes "b") 0 ∷ [];
  next_id = 3;
}

receive-fair_example :
    let (out, q') = receive 1000 10 two_messages in
    (length out ≤ 10)
    × All (Counted 3) out
    × (pending_count q' + length q'.dlq ≡ pending_count two_messages + 0)
receive-fair_example = receive-fair 1000 10 two_messages

receive-hidden_example : (receive 1000 10 (receive 1000 10 two_messages).1).0 ≡ []
receive-hidden_example = receive-hidden 1000 10 10 two_messages (ground arith) (ground arith)

abbrev commands : List Command
commands =
    Command.put_object (codes "a/1") (codes "x") (codes "text/plain")
    ∷ Command.put_object (codes "b/1") (codes "y") (codes "text/plain")
    ∷ Command.delete_objects (codes "a/")
    ∷ []

run-refines_example :
    (ObjectStore.get (codes "b/1") (run commands empty_objects)).0
    ≡ maybe (run_in commands (λ _. none) (codes "b/1")) (err Error.object_not_found) ok
run-refines_example = run-refines commands (codes "b/1")
