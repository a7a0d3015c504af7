-- ===== src/Records/Consumer.antt =====
-- records/src/public_records/consumer.py: one receive pass over a queue, and the watcher of the
-- dead letters. A handler returns true when its message may be deleted; a raise leaves it.
use dialogue_microservices.Prelude.{
  ℕ, suc, List, [], ◌∷◌, Option, none, some, Bool, false, Text, codes, take, fstring, maybe,
  if◌then◌else◌,
}
use dialogue_microservices.Prelude.Action.{ok, Action, pure, modify, ◌>>=◌, ◌>>◌, try_else}
use dialogue_microservices.Core.Queue
use dialogue_microservices.Core.Queue.{Queue, QueueMessage}
use dialogue_microservices.Records.Domain.{EscalationReason, EmailThread}
use dialogue_microservices.Records.Store.{get_thread}
use dialogue_microservices.Records.World.{Env, World, on_store, escalate}

-- One of the world's queues, as the consumer of it sees it: a view and an update.
pub record Lens : Type 0 where
  pub view : World → Queue
  pub update : Queue → World → World

-- `BATCH_RECEIVE`
abbrev pub batch_receive : ℕ
batch_receive = 10

unfoldable pub receive_from : Lens → ℕ → ℕ → Action World (List QueueMessage)
receive_from queue now max_messages w =
    let (out, q) = Queue.receive now max_messages (queue.view w) in (ok out, queue.update q w)

unfoldable pub delete_from : Lens → ℕ → Action World Unit
delete_from queue message_id = modify (λ w. queue.update (Queue.delete message_id (queue.view w)) w)

-- The loop over the messages received; returns how many were handled.
unfoldable pub handle_all : Lens → (Text → Action World Bool) → List QueueMessage → Action World ℕ
handle_all queue handler [] = pure 0
handle_all queue handler (m ∷ messages) = do
  done ← try_else (handler m.body) pure (λ _. pure false)
  if done then delete_from queue m.id else pure tt
  n ← handle_all queue handler messages
  pure (suc n)

-- `process_queue`, with no stop event set
unfoldable pub process_queue : Lens → ℕ → (Text → Action World Bool) → ℕ → Action World ℕ
process_queue queue now handler max_messages = do
  messages ← receive_from queue now max_messages
  handle_all queue handler messages

-- What `json.loads` finds in a dead letter: the ids that it names, or an exception.
pub record Payload : Type 0 where
  pub campaign_id : Option ℕ
  pub thread_id : Option ℕ

abbrev no_payload : Payload
no_payload = record { campaign_id = none; thread_id = none }

-- The campaign of a dead letter that names only its thread.
unfoldable pub campaign_of : Payload → Action World (Option ℕ)
campaign_of p =
    maybe p.campaign_id
      (maybe p.thread_id (pure none) λ t. do
        known ← on_store (get_thread t)
        pure (maybe known none (λ (thread : EmailThread). some thread.campaign_id)))
      (λ c. pure (some c))

module _ (env : Env) (loads : Text → Option Payload) (queue_name : Text) (dlq : Lens) where
  unfoldable pub drain_one : QueueMessage → Action World Unit
  drain_one m = do
    let payload = maybe (loads m.body) no_payload (λ p. p)
    campaign_id ← campaign_of payload
    escalate env campaign_id payload.thread_id EscalationReason.other (
        fstring
          (codes "message dead-lettered from " ∷ queue_name ∷ codes ": " ∷ take 500 m.body ∷ []))
    delete_from dlq m.id

  unfoldable pub drain_all : List QueueMessage → Action World ℕ
  drain_all [] = pure 0
  drain_all (m ∷ messages) = do drain_one m; n ← drain_all messages; pure (suc n)

  unfoldable pub drain_dlq : Action World ℕ
  drain_dlq = do messages ← receive_from dlq env.now batch_receive; drain_all messages
