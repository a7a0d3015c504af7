-- ===== src/Records/Store/Targets.antt =====
-- FakeRecordsStore, search targets.
use dialogue_microservices.Prelude.{
  ℕ, suc, List, [], ◌∷◌, ◌++◌, Option, some, Bool, true, false, ◌&&◌, any, find, length, ltb, leb,
  ◌==◌, if◌then◌else◌,
}
use dialogue_microservices.Prelude.Dict.{get, put, values}
use dialogue_microservices.Prelude.Action.{
  Error, Action, pure, raise, gets, modify, require, ◌>>=◌, ◌>>◌,
}
use dialogue_microservices.Records.Domain.{SearchTarget}
use dialogue_microservices.Records.Store.State.{Store}

unfoldable pub is_target : ℕ → ℕ → SearchTarget → Bool
is_target campaign_id jurisdiction_id t =
    t.campaign_id == campaign_id && t.jurisdiction_id == jurisdiction_id

unfoldable pub insert_search_target : ℕ → ℕ → ℕ → Action Store SearchTarget
unfolding is_target
insert_search_target campaign_id jurisdiction_id created_at s =
    if any (is_target campaign_id jurisdiction_id) (values s.targets)
    then raise Error.unique_violation s
    else (let t : SearchTarget = record {
      id = s.next_target;
      campaign_id = campaign_id;
      jurisdiction_id = jurisdiction_id;
      queries_enqueued = 0;
      consumed_indexes = [];
      resolved = false;
      created_at = some created_at;
    } in
        pure t
          (record s { targets = put s.next_target t s.targets; next_target = suc s.next_target }))

unfoldable pub get_search_target : ℕ → Action Store (Option SearchTarget)
get_search_target target_id = gets (λ s. get s.targets target_id)

unfoldable pub find_search_target : ℕ → ℕ → Action Store (Option SearchTarget)
unfolding is_target
find_search_target campaign_id jurisdiction_id =
    gets (λ s. find (is_target campaign_id jurisdiction_id) (values s.targets))

-- `self._targets[target_id]`
unfoldable pub require_target : ℕ → Action Store SearchTarget
require_target target_id = require Error.key_error (λ s. get s.targets target_id)

unfoldable pub write_target : ℕ → SearchTarget → Action Store Unit
write_target target_id t = modify (λ s. record s { targets = put target_id t s.targets })

unfoldable pub set_target_queries_enqueued : ℕ → ℕ → Action Store Unit
unfolding require_target write_target
set_target_queries_enqueued target_id count = do
  t ← require_target target_id
  write_target target_id (record t { queries_enqueued = count })

unfoldable pub resolve_target : ℕ → Action Store Bool
unfolding require_target write_target
resolve_target target_id = do
  t ← require_target target_id
  if t.resolved
      then pure false
      else do write_target target_id (record t { resolved = true }); pure true

unfoldable pub add_consumed : ℕ → List ℕ → List ℕ
add_consumed query_index indexes =
    if any (λ i. i == query_index) indexes then indexes else indexes ++ query_index ∷ []

unfoldable pub mark_query_consumed : ℕ → ℕ → Action Store Bool
unfolding require_target write_target add_consumed
mark_query_consumed target_id query_index = do
  t ← require_target target_id
  let indexes = add_consumed query_index t.consumed_indexes
  write_target target_id (record t { consumed_indexes = indexes })
  pure (ltb 0 t.queries_enqueued && leb t.queries_enqueued (length indexes))
