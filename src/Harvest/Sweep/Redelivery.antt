-- ===== src/Harvest/Sweep/Redelivery.antt =====
-- sweep.py and consumer.py: the messages of a batch that are not worked, redeliveries among them.
use dialogue_microservices.Prelude.{
  ◌≡◌, refl, inl, inr, List, [], ◌∷◌, Option, none, some, Bool, not, is_some, maybe, filter,
  Bool-cases, Option-cases, if◌then◌else◌,
}
use dialogue_microservices.Prelude.Dict
use dialogue_microservices.Prelude.Action.{Result, Result-cases, ok, err, pure, gets, modify, ◌>>=◌}
use dialogue_microservices.Core.Queue
use dialogue_microservices.Core.Queue.{QueueMessage}
use dialogue_microservices.Harvest.Messages.{Task}
use dialogue_microservices.Harvest.Store.{Datastore, get_jurisdiction}
use dialogue_microservices.Harvest.World.{Env, World, delete, on_ds}
use dialogue_microservices.Harvest.Gates.Decision.{is_wanted, gate_sweep-decides}
use dialogue_microservices.Harvest.Sweep.Items.{
  Item, new_item, cons_some, drop, gate_items, gate_message, gate_task,
}
use dialogue_microservices.Harvest.Sweep.{handle_batch}

-- The item of a task: of a query that is wanted, in a jurisdiction that is known. A query with a
-- history row, of another dispatch or of a corpus that does not run is not wanted.
abbrev pub item_of_task : Datastore → QueueMessage → Task → Option Item
item_of_task s m (Task.sweep task) =
    if is_wanted task s
    then maybe (Dict.get s.jurisdictions task.jurisdiction_id) none (λ j. some (new_item m task j))
    else none
item_of_task s m (Task.code task) = none
item_of_task s m (Task.fetch task) = none

abbrev pub item_of : Datastore → QueueMessage → Result Task → Option Item
item_of s m (ok task) = item_of_task s m task
item_of s m (err e) = none

-- A message that is worked.
abbrev pub is_worked : Env → Datastore → QueueMessage → Bool
is_worked env s m = is_some (item_of s m (env.parse_task m.body))

-- The sweep queue without the messages.
abbrev pub delete_all : List QueueMessage → Queue.Queue → Queue.Queue
delete_all [] q = q
delete_all (m ∷ messages) q = delete_all messages (Queue.delete m.id q)

abbrev pub without : List QueueMessage → World → World
without messages w = record w { sweep_queue = delete_all messages w.sweep_queue }

-- What the gate does with one message.
abbrev gated : QueueMessage → Option Item → World → Result (Option Item) × World
gated m none w = (ok none, without (m ∷ []) w)
gated m (some i) w = (ok (some i), w)

module _ (env : Env) where
  gate_task-gated :
      (m : QueueMessage) (task : Task) (w : World)
      → gate_task env m task w ≡ gated m (item_of_task w.ds m task) w
  unfolding gate_task drop delete modify on_ds get_jurisdiction gets pure ◌>>=◌
  gate_task-gated m (Task.code task) w = refl
  gate_task-gated m (Task.fetch task) w = refl
  gate_task-gated m (Task.sweep task) w =
      rw (gate_sweep-decides task w) (elim (Bool-cases (is_wanted task w.ds)) [
        | inr unwanted ↦ rw unwanted refl
        | inl wanted ↦
            rw wanted (elim (Option-cases (Dict.get w.ds.jurisdictions task.jurisdiction_id)) [
              | inl unknown ↦ rw unknown refl
              | inr (j, known) ↦ rw known refl
            ])
      ])

  gate_message-gated :
      (m : QueueMessage) (w : World)
      → gate_message env m w ≡ gated m (item_of w.ds m (env.parse_task m.body)) w
  unfolding gate_message drop delete modify pure ◌>>=◌
  gate_message-gated m w = elim (Result-cases (env.parse_task m.body)) [
    | inl (task, e) ↦ rw e (gate_task-gated m task w)
    | inr (x, e) ↦ rw e refl
  ]

  items_of : Datastore → List QueueMessage → List Item
  items_of s [] = []
  items_of s (m ∷ messages) = cons_some (item_of s m (env.parse_task m.body)) (items_of s messages)

  gate_items-items_of :
      (messages : List QueueMessage) (w : World)
      → gate_items env messages w ≡ (
        ok (items_of w.ds messages),
        without (filter (λ m. not (is_worked env w.ds m)) messages) w,
      )
  unfolding gate_items items_of filter pure ◌>>=◌
  gate_items-items_of [] w = refl
  gate_items-items_of (m ∷ messages) w =
      elim (Option-cases (item_of w.ds m (env.parse_task m.body))) [
        | inl unworked ↦
            rw (gate_message-gated m w, unworked, gate_items-items_of messages (without (m ∷ []) w))
              refl
        | inr (i, worked) ↦ rw (gate_message-gated m w, worked, gate_items-items_of messages w) refl
      ]

  items_of-worked :
      (s : Datastore) (messages : List QueueMessage)
      → items_of s (filter (is_worked env s) messages) ≡ items_of s messages
  unfolding items_of filter
  items_of-worked s [] = refl
  items_of-worked s (m ∷ messages) = elim (Option-cases (item_of s m (env.parse_task m.body))) [
    | inl unworked ↦ rw unworked (items_of-worked s messages)
    | inr (i, worked) ↦ rw (worked, worked, items_of-worked s messages) refl
  ]

  none_unworked :
      (s : Datastore) (messages : List QueueMessage)
      → filter (λ m. not (is_worked env s m)) (filter (is_worked env s) messages) ≡ []
  unfolding filter
  none_unworked s [] = refl
  none_unworked s (m ∷ messages) = elim (Bool-cases (is_worked env s m)) [
    | inl worked ↦ rw (worked, worked) (none_unworked s messages)
    | inr unworked ↦ rw unworked (none_unworked s messages)
  ]

  -- A batch is worked as if it held only the messages that are worked, in a world whose sweep queue
  -- has lost all the others: a message that does not parse or is no query, and a query that is of
  -- another dispatch or a stopped corpus, has its history row already or an unknown jurisdiction,
  -- is deleted and has no other effect, whatever else is in the batch.
  pub handle_batch-filter :
      (messages : List QueueMessage) (w : World)
      → handle_batch env messages w
        ≡ handle_batch env
            (filter (is_worked env w.ds) messages)
            (without (filter (λ m. not (is_worked env w.ds m)) messages) w)
  unfolding handle_batch ◌>>=◌
  handle_batch-filter messages w =
      let rest = without (filter (λ m. not (is_worked env w.ds m)) messages) w in
      rw
        (
          gate_items-items_of messages w,
          gate_items-items_of (filter (is_worked env w.ds) messages) rest,
          items_of-worked w.ds messages,
          none_unworked w.ds messages,
        )
        refl
