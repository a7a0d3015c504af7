-- ===== src/Harvest/Sweep/Items.antt =====
-- sweep.py: the messages of a batch, gated, searched and triaged.
use dialogue_microservices.Prelude.{
  ℕ, ◌+◌, List, [], ◌∷◌, ◌++◌, Option, none, some, Bool, true, false, not, ◌&&◌, Text, codes,
  fstring, length, ltb, maybe, map, if◌then◌else◌,
}
use dialogue_microservices.Prelude.Action.{
  Error, Result, ok, err, Action, pure, raise, lift, attempt, ◌>>=◌, ◌>>◌, try_else,
}
use dialogue_microservices.Core.Queue.{QueueMessage}
use dialogue_microservices.Harvest.Domain.{Jurisdiction}
use dialogue_microservices.Harvest.Messages.{Task, SweepTask}
use dialogue_microservices.Harvest.Store.{get_jurisdiction}
use dialogue_microservices.Harvest.World.{
  Env, World, QueueName, SearchResult, TriageRequest, TriageVerdict, on_ds, ask, describe, delete,
}
use dialogue_microservices.Harvest.Gates.{gate_sweep}

-- `_Item`
pub record Item : Type 0 where
  pub message : QueueMessage
  pub task : SweepTask
  pub jurisdiction : Jurisdiction
  pub results : List SearchResult
  pub verdicts : List TriageVerdict
  pub errored : Bool
  pub error_detail : Text

abbrev pub new_item : QueueMessage → SweepTask → Jurisdiction → Item
new_item message task jurisdiction = record {
  message = message;
  task = task;
  jurisdiction = jurisdiction;
  results = [];
  verdicts = [];
  errored = false;
  error_detail = [];
}

-- `append`, where there is something to append
abbrev pub cons_some {ℓ} : {A : Type ℓ} → Option A → List A → List A
cons_some none xs = xs
cons_some (some x) xs = x ∷ xs

module _ (env : Env) where
  -- The message is dropped: deleted unworked.
  unfoldable pub drop : QueueMessage → Action World (Option Item)
  drop m = do delete QueueName.sweeps m; pure none

  unfoldable pub gate_task : QueueMessage → Task → Action World (Option Item)
  gate_task m (Task.sweep task) = do
    current ← gate_sweep task
    if not current then drop m else do
      known ← on_ds (get_jurisdiction task.jurisdiction_id)
      maybe known (drop m) (λ j. pure (some (new_item m task j)))
  gate_task m (Task.code task) = drop m
  gate_task m (Task.fetch task) = drop m

  unfoldable pub gate_message : QueueMessage → Action World (Option Item)
  gate_message m = attempt (env.parse_task m.body) (gate_task m) (λ e. drop m)

  -- Step 1.
  unfoldable pub gate_items : List QueueMessage → Action World (List Item)
  gate_items [] = pure []
  gate_items (m ∷ messages) = do
    item ← gate_message m
    items ← gate_items messages
    pure (cons_some item items)

  -- `except RateLimited`: the message is left as it is; `except Exception`: the item is in error.
  unfoldable pub search_failed : Item → Error → Action World (Option Item)
  search_failed item Error.rate_limited = pure none
  search_failed item e = do
    text ← describe env e
    pure (
        some (record item {
          errored = true;
          error_detail = fstring (codes "search error: " ∷ text ∷ []);
        }))

  unfoldable pub search_item : Item → Action World (Option Item)
  search_item item =
      try_else (ask (λ n. env.search n item.task.query_text env.config.search_count))
        (λ results. pure (some (record item { results = results }))) (search_failed item)

  -- Step 2.
  unfoldable pub search_items : List Item → Action World (List Item)
  search_items [] = pure []
  search_items (i ∷ items) = do
    item ← search_item i
    rest ← search_items items
    pure (cons_some item rest)

abbrev pub some_items : List Item → Bool
some_items [] = false
some_items (i ∷ items) = true

-- `_triage_chunks`: `current` is the chunk under way, with `count` results.
unfoldable pub chunks : ℕ → List Item → ℕ → List Item → List (List Item)
chunks cap current count [] = if some_items current then current ∷ [] else []
chunks cap current count (i ∷ items) =
    let cut = current ∷ chunks cap (i ∷ []) (length i.results) items in
    let grown = chunks cap (current ++ i ∷ []) (count + length i.results) items in
    if some_items current && ltb cap (count + length i.results) then cut else grown

abbrev pub paired : Item → List TriageVerdict → Result (List Item) → Result (List Item)
paired i v (ok items) = ok (record i { verdicts = v } ∷ items)
paired i v (err e) = err e

-- `zip(chunk, verdict_lists, strict=True)`
unfoldable pub with_verdicts : List Item → List (List TriageVerdict) → Result (List Item)
with_verdicts [] [] = ok []
with_verdicts (i ∷ items) [] = err Error.value_error
with_verdicts [] (v ∷ verdicts) = err Error.value_error
with_verdicts (i ∷ items) (v ∷ verdicts) = paired i v (with_verdicts items verdicts)

unfoldable pub request : Item → TriageRequest
request i = record {
  jurisdiction_name = i.jurisdiction.name;
  state = i.jurisdiction.state;
  level = i.jurisdiction.level;
  topic = i.task.topic;
  results = i.results;
}

module _ (env : Env) where
  -- `except TriageError`: the chunk is left for redelivery.
  unfoldable pub triage_failed : Error → Action World (List Item)
  triage_failed Error.triage_error = pure []
  triage_failed e = raise e

  unfoldable pub triage_chunk : List Item → Action World (List Item)
  triage_chunk chunk =
      try_else (ask (λ n. env.triage n (map request chunk)))
        (λ lists. lift (with_verdicts chunk lists)) triage_failed

  -- Step 3.
  unfoldable pub triage_chunks : List (List Item) → Action World (List Item)
  triage_chunks [] = pure []
  triage_chunks (chunk ∷ rest) = do
    triaged ← triage_chunk chunk
    others ← triage_chunks rest
    pure (triaged ++ others)
