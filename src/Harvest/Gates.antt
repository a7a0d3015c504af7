-- ===== src/Harvest/Gates.antt =====
-- harvester/src/harvest_harvester/consumer.py: the idempotency gates, the heartbeat and one round of
-- a polling loop.
pub mod Decision
use dialogue_microservices.Prelude.{
  ℕ, ◌+◌, List, [], ◌∷◌, Option, none, some, Bool, true, false, ◌&&◌, any, length, leb, ltb, maybe,
  not, Text, if◌then◌else◌,
}
use dialogue_microservices.Prelude.Action.{Action, ok, pure, ◌>>=◌, ◌>>◌, try_else}
use dialogue_microservices.Core.Queue
use dialogue_microservices.Core.Queue.{QueueMessage}
use dialogue_microservices.Harvest.Domain.{
  Artifact, SweepTarget, SweepHistory, is_running, is_pending,
}
use dialogue_microservices.Harvest.Messages.{SweepTask, CodeTask, FetchTask}
use dialogue_microservices.Harvest.Store.{
  get_run_state, get_target, get_artifact, list_history, is_query, same_text,
}
use dialogue_microservices.Harvest.World.{
  World, QueueName, queue_of, with_queue, on_ds, now, change_visibility,
}

-- `target is not None and target.dispatch_id == dispatch_id`
unfoldable pub is_current : Option SweepTarget → Text → Bool
is_current known dispatch_id = maybe known false (λ t. same_text t.dispatch_id (some dispatch_id))

unfoldable pub gate_sweep : SweepTask → Action World Bool
gate_sweep task = do
  state ← on_ds (get_run_state task.corpus)
  if not (is_running state) then pure false else do
    target ← on_ds (get_target task.sweep_target_id)
    if not (is_current target task.dispatch_id) then pure false else do
      rows ← on_ds (list_history task.corpus (some task.jurisdiction_id))
      pure (not (any (is_query task.dispatch_id task.query_seq) rows))

unfoldable pub gate_code : CodeTask → Action World Bool
gate_code task = do
  state ← on_ds (get_run_state task.corpus)
  if not (is_running state) then pure false else do
    target ← on_ds (get_target task.sweep_target_id)
    pure (is_current target task.dispatch_id)

-- The artifact if it is pending under this dispatch.
unfoldable pub workable : Text → Artifact → Option Artifact
workable dispatch_id a =
    if is_pending a.status && same_text a.dispatch_id (some dispatch_id) then some a else none

unfoldable pub gate_fetch : FetchTask → Action World (Option Artifact)
gate_fetch task = do
  state ← on_ds (get_run_state task.corpus)
  if not (is_running state) then pure none else do
    known ← on_ds (get_artifact task.artifact_id)
    pure (maybe known none (workable task.dispatch_id))

pub record Heartbeat : Type 0 where
  pub interval : ℕ
  pub extension : ℕ
  pub deadline : ℕ
  pub next_beat : ℕ

unfoldable pub start_heartbeat : ℕ → ℕ → ℕ → Action World Heartbeat
start_heartbeat interval extension deadline = do
  started ← now
  pure (record {
    interval = interval;
    extension = extension;
    deadline = started + deadline;
    next_beat = started + interval;
  })

unfoldable pub expired : Heartbeat → Action World Bool
expired h = do t ← now; pure (leb h.deadline t)

unfoldable pub maybe_beat : QueueName → QueueMessage → Heartbeat → Action World Heartbeat
maybe_beat queue message h = do
  t ← now
  if leb h.next_beat t && ltb t h.deadline
      then (do
        change_visibility queue message h.extension
        pure (record h { next_beat = t + h.interval }))
      else pure h

unfoldable pub receive_from : QueueName → ℕ → Action World (List QueueMessage)
receive_from queue max_messages w =
    let (out, q) = Queue.receive w.clock max_messages (queue_of queue w) in
    (ok out, with_queue queue (λ _. q) w)

-- `ConsumerLoop.run_once`: whatever the handler raises is logged.
unfoldable pub run_once : QueueName → (List QueueMessage → Action World Unit) → ℕ → Action World ℕ
run_once queue handler batch_size = do
  messages ← receive_from queue batch_size
  if leb (length messages) 0
      then pure 0
      else try_else (handler messages) (λ _. pure (length messages)) (λ _. pure (length messages))
