-- ===== src/Harvest/Store/Targets.antt =====
-- FakeDatastore, the sweep targets: the queue of due work and its compare-and-set stamps.
use dialogue_microservices.Prelude.{
  ℕ, suc, ◌+◌, Option, none, some, Bool, true, false, ◌&&◌, ◌||◌, not, List, Text, text_eq, any,
  filter, sort_by, take, leb, ltb, ◌==◌, maybe, if◌then◌else◌,
}
use dialogue_microservices.Prelude.Dict.{get, put, values}
use dialogue_microservices.Prelude.Action.{
  Error, Action, pure, raise, gets, modify, require, ◌>>=◌, ◌>>◌,
}
use dialogue_microservices.Harvest.Domain.{SweepTarget, Source, SweepResult, same_source}
use dialogue_microservices.Harvest.Store.State.{Datastore, same_text, same_time}

unfoldable pub get_target : ℕ → Action Datastore (Option SweepTarget)
get_target target_id = gets (λ s. get s.targets target_id)

unfoldable pub is_target_of : Text → ℕ → Source → SweepTarget → Bool
is_target_of corpus jurisdiction_id source t =
    text_eq t.corpus corpus && t.jurisdiction_id == jurisdiction_id && same_source t.source source

unfoldable pub insert_target : Text → ℕ → Source → ℕ → ℕ → Action Datastore SweepTarget
unfolding is_target_of
insert_target corpus jurisdiction_id source priority next_due_at s =
    if any (is_target_of corpus jurisdiction_id source) (values s.targets)
    then raise Error.unique_violation s
    else (let row : SweepTarget = record {
      id = s.next_id;
      corpus = corpus;
      jurisdiction_id = jurisdiction_id;
      source = source;
      priority = priority;
      next_due_at = next_due_at;
      last_result = none;
      dispatched_at = none;
      dispatch_id = none;
      query_count = none;
    } in
        pure row (record s { targets = put s.next_id row s.targets; next_id = suc s.next_id }))

unfoldable pub list_targets : Text → Option Source → Action Datastore (List SweepTarget)
list_targets corpus source = gets (λ s.
    sort_by (λ (a b : SweepTarget). leb a.id b.id)
      (filter
        (λ (t : SweepTarget). text_eq t.corpus corpus && maybe source true (same_source t.source))
        (values s.targets)))

-- `t.dispatched_at > now - timeout`: stamped inside the window
unfoldable pub in_flight : ℕ → (Source → ℕ) → SweepTarget → Bool
in_flight now timeouts t = maybe t.dispatched_at false (λ at. ltb now (at + timeouts t.source))

unfoldable pub is_due : Text → ℕ → (Source → ℕ) → SweepTarget → Bool
unfolding in_flight
is_due corpus now timeouts t =
    text_eq t.corpus corpus && leb t.next_due_at now && not (in_flight now timeouts t)

-- The sort key `(t.priority, t.next_due_at, t.id)`
unfoldable pub due_before : SweepTarget → SweepTarget → Bool
due_before a b =
    ltb a.priority b.priority
    || (a.priority == b.priority
        && (ltb a.next_due_at b.next_due_at || (a.next_due_at == b.next_due_at && leb a.id b.id)))

unfoldable pub select_due : Text → ℕ → (Source → ℕ) → ℕ → Action Datastore (List SweepTarget)
unfolding is_due due_before
select_due corpus now timeouts limit =
    gets (λ s.
      take limit (sort_by due_before (filter (is_due corpus now timeouts) (values s.targets))))

unfoldable pub write_target : ℕ → SweepTarget → Action Datastore Unit
write_target target_id t = modify (λ s. record s { targets = put target_id t s.targets })

-- `(t.dispatch_id, t.dispatched_at) == (expected_dispatch_id, expected_dispatched_at)`
unfoldable pub is_expected : Option Text → Option ℕ → SweepTarget → Bool
unfolding same_text same_time
is_expected dispatch_id dispatched_at t =
    same_text t.dispatch_id dispatch_id && same_time t.dispatched_at dispatched_at

unfoldable pub stamp_target : ℕ → ℕ → Text → ℕ → Option Text → Option ℕ → Action Datastore Bool
unfolding is_expected write_target
stamp_target target_id dispatched_at dispatch_id query_count expected_id expected_at = do
  t ← require Error.key_error (λ (s : Datastore). get s.targets target_id)
  if is_expected expected_id expected_at t
      then (do
        write_target target_id (record t {
          dispatched_at = some dispatched_at;
          dispatch_id = some dispatch_id;
          query_count = some query_count;
        })
        pure true)
      else pure false

-- A target whose dispatch is over.
abbrev pub released : ℕ → SweepResult → SweepTarget → SweepTarget
released next_due_at last_result t = record t {
  last_result = some last_result;
  next_due_at = next_due_at;
  dispatched_at = none;
  dispatch_id = none;
  query_count = none;
}

unfoldable pub finalize_target : ℕ → Text → SweepResult → ℕ → Action Datastore Bool
unfolding same_text write_target
finalize_target target_id dispatch_id last_result next_due_at = do
  known ← gets (λ (s : Datastore). get s.targets target_id)
  maybe known (pure false) λ t.
      if same_text t.dispatch_id (some dispatch_id)
      then (do write_target target_id (released next_due_at last_result t); pure true)
      else pure false

unfoldable pub park_target : ℕ → ℕ → SweepResult → Action Datastore Unit
unfolding write_target
park_target target_id next_due_at last_result = do
  t ← require Error.key_error (λ (s : Datastore). get s.targets target_id)
  write_target target_id (released next_due_at last_result t)
