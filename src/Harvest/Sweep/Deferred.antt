-- ===== src/Harvest/Sweep/Deferred.antt =====
-- sweep.py: what a transient failure records. A query that is rate limited and a chunk whose triage
-- fails are left for redelivery.
use dialogue_microservices.Prelude.{
  ℕ, ◌≡◌, refl, ap, ◌∙◌, inl, inr, List, [], ◌∷◌, ◌++◌, none, not, Text, filter,
}
use dialogue_microservices.Prelude.Action.{
  Error, ok, err, Action, Result-cases, pure, gets, modify, try_else, ◌>>=◌,
}
use dialogue_microservices.Prelude.Preserves.{Preserves, preserves_rules, Preserves-bind}
use dialogue_microservices.Core.Queue
use dialogue_microservices.Core.Queue.{QueueMessage}
use dialogue_microservices.Harvest.Messages.{SweepTask, Task}
use dialogue_microservices.Harvest.Store.{
  Datastore, get_run_state, get_target, list_history, get_jurisdiction,
}
use dialogue_microservices.Harvest.Gates.{gate_sweep}
use dialogue_microservices.Harvest.World.{Env, World, Answer, QueueName, ask, delete, on_ds}
use dialogue_microservices.Harvest.Sweep.Items.{
  Item, drop, gate_items, gate_message, gate_task, search_item, search_items, search_failed, chunks,
  triage_chunks,
}
use dialogue_microservices.Harvest.Sweep.{handle_batch, complete_all}

-- Only time has passed, and calls were made: all the rest of the world is as it was.
pub record Waited (w w' : World) : Type 0 where
  pub same : w' ≡ record w { clock = w'.clock; calls = w'.calls }

pub Waited-refl : (w : World) → Waited w w
Waited-refl w = record { same = refl }

pub Waited-trans : {u v w : World} → Waited u v → Waited v w → Waited u w
Waited-trans {w} p q = record {
  same = q.same ∙ ap (λ (x : World). record x { clock = w.clock; calls = w.calls }) p.same;
}

-- `m` returns a value of which `R` holds, and only waits.
record Waits {A : Type 0} (R : A → Type 0) (m : Action World A) : Type 0 where
  from : (w : World) → ((a : A) × ((m w).0 ≡ ok a) × R a) × Waited w (m w).1

Waits-pure : {A : Type 0} (R : A → Type 0) (a : A) → R a → Waits R (pure a)
unfolding pure
Waits-pure R a r = record { from = λ w. ((a, refl, r), Waited-refl w) }

Waits-bind :
    {A B : Type 0} (R : A → Type 0) (R' : B → Type 0) (m : Action World A) (f : A → Action World B)
    → Waits R m
    → ((a : A) → R a → Waits R' (f a))
    → Waits R' (m >>= f)
unfolding ◌>>=◌
Waits-bind R R' m f km kf = record {
  from = λ w.
      let ((a, e, r), waited) = km.from w in
      let (there, later) = (kf a r).from (m w).1 in rw e (there, Waited-trans waited later);
}

ask-Waited : {A : Type 0} (f : ℕ → Answer A) (w : World) → Waited w (ask f w).1
unfolding ask
ask-Waited f w = record { same = refl }

-- What the gate may do: take messages off the sweep queue.
record Gated (w w' : World) : Type 0 where
  same : w' ≡ record w { sweep_queue = w'.sweep_queue }

module _ (w0 : World) where
  Gated-delete : (m : QueueMessage) → Preserves (Gated w0) (delete QueueName.sweeps m)
  unfolding delete modify
  Gated-delete m = record {
    from = λ w h. record {
      same = ap (λ (x : World). record x { sweep_queue = Queue.delete m.id w.sweep_queue }) h.same;
    };
  }

  -- A method that only reads.
  Gated-read : {A : Type 0} (f : Datastore → A) → Preserves (Gated w0) (on_ds (gets f))
  unfolding on_ds gets
  Gated-read f = record { from = λ w h. record { same = h.same } }

  gate_sweep-Gated : (task : SweepTask) → Preserves (Gated w0) (gate_sweep task)
  unfolding gate_sweep get_run_state get_target list_history
  gate_sweep-Gated task = search (preserves_rules, Gated-read) depth 12

  gate_task-Gated :
      (env : Env) (m : QueueMessage) (t : Task) → Preserves (Gated w0) (gate_task env m t)
  unfolding gate_task drop get_jurisdiction
  gate_task-Gated env m (Task.sweep t) =
      search (preserves_rules, Gated-read, Gated-delete, gate_sweep-Gated) depth 12
  gate_task-Gated env m (Task.code t) = search (preserves_rules, Gated-delete) depth 6
  gate_task-Gated env m (Task.fetch t) = search (preserves_rules, Gated-delete) depth 6

  gate_message-Gated : (env : Env) (m : QueueMessage) → Preserves (Gated w0) (gate_message env m)
  unfolding gate_message drop
  gate_message-Gated env m = search (preserves_rules, Gated-delete, gate_task-Gated) depth 8

  gate_items-Gated : (env : Env) (ms : List QueueMessage) → Preserves (Gated w0) (gate_items env ms)
  unfolding gate_items
  gate_items-Gated env [] = search (preserves_rules)
  gate_items-Gated env (m ∷ ms) =
      Preserves-bind _ _ (gate_message-Gated env m)
        (λ i. Preserves-bind _ _ (gate_items-Gated env ms) (λ is. search (preserves_rules)))

-- Nothing is recorded: messages dropped by the gate aside, only time has passed.
pub record Unrecorded (env : Env) (messages : List QueueMessage) (w w' : World) : Type 0 where
  pub same : w' ≡ record w {
    sweep_queue = (gate_items env messages w).1.sweep_queue;
    clock = w'.clock;
    calls = w'.calls;
  }

after_gate : Env → List Item → Action World Unit
after_gate env items = do
  searched ← search_items env items
  let cap = env.config.triage_batch_max_results
  triaged ← triage_chunks env (chunks cap [] 0 (filter (λ (i : Item). not i.errored) searched))
  complete_all env (triaged ++ filter (λ (i : Item). i.errored) searched)

Waited-after :
    (w w1 w2 : World)
    → Gated w w1
    → Waited w1 w2
    → w2 ≡ record w { sweep_queue = w1.sweep_queue; clock = w2.clock; calls = w2.calls }
Waited-after w w1 w2 gated waited =
    waited.same ∙ ap (λ (x : World). record x { clock = w2.clock; calls = w2.calls }) gated.same

-- What follows the gate only waits: then nothing is recorded.
unrecorded :
    (env : Env) (messages : List QueueMessage) (w : World)
    → ((items : List Item)
        → (gate_items env messages w).0 ≡ ok items
        → Waits (λ _. Unit) (after_gate env items))
    → Unrecorded env messages w (handle_batch env messages w).1
unfolding handle_batch after_gate ◌>>=◌
unrecorded env messages w k =
    let gated = (gate_items-Gated w env messages).from w (record { same = refl }) in
    elim (Result-cases (gate_items env messages w).0) [
      | inr (e, raised) ↦
          rw raised
            (record { same = Waited-after w _ _ gated (Waited-refl (gate_items env messages w).1) })
      | inl (items, passed) ↦ rw passed (record {
        same = Waited-after w _ _ gated ((k items passed).from (gate_items env messages w).1).1;
      })
    ]

search_item-limited :
    (env : Env)
    → ((n : ℕ) (q : Text) (c : ℕ) → (env.search n q c).result ≡ err Error.rate_limited)
    → (i : Item) → Waits (λ o. o ≡ none) (search_item env i)
unfolding search_item try_else ask search_failed pure
search_item-limited env limited i = record {
  from = λ w.
      rw (limited w.calls i.task.query_text env.config.search_count)
        ((none, refl, refl), record { same = refl });
}

search_items-limited :
    (env : Env)
    → ((n : ℕ) (q : Text) (c : ℕ) → (env.search n q c).result ≡ err Error.rate_limited)
    → (items : List Item) → Waits (λ is. is ≡ []) (search_items env items)
unfolding search_items
search_items-limited env limited [] = Waits-pure _ _ refl
search_items-limited env limited (i ∷ items) =
    Waits-bind (λ o. o ≡ none) _ _ _ (search_item-limited env limited i)
      (λ o gone.
        Waits-bind _ _ _ _ (search_items-limited env limited items)
          (λ rest empty. Waits-pure _ _ (rw (gone, empty) refl)))

after_gate-limited :
    (env : Env)
    → ((n : ℕ) (q : Text) (c : ℕ) → (env.search n q c).result ≡ err Error.rate_limited)
    → (items : List Item) → Waits (λ _. Unit) (after_gate env items)
unfolding after_gate chunks filter triage_chunks complete_all ◌>>=◌ pure
after_gate-limited env limited items =
    Waits-bind (λ is. is ≡ []) _ _ _ (search_items-limited env limited items)
      (λ searched none_left. rw none_left (record { from = λ w. ((tt, refl, tt), Waited-refl w) }))

-- The rate-limit invariant: where every search is answered by a 429, a batch records nothing. The
-- datastore, the caches, the objects and the other queues are as they were, and of the sweep queue
-- only the messages that the gate drops are gone.
pub handle_batch-rate_limited :
    (env : Env) (messages : List QueueMessage) (w : World)
    → ((n : ℕ) (q : Text) (c : ℕ) → (env.search n q c).result ≡ err Error.rate_limited)
    → Unrecorded env messages w (handle_batch env messages w).1
handle_batch-rate_limited env messages w limited =
    unrecorded env messages w (λ items passed. after_gate-limited env limited items)
