-- ===== src/Records/Orchestrator/Scope.antt =====
-- census.py, and orchestrator.py: `resolve_scope` and `_queries_for`.
use dialogue_microservices.Prelude.{
  ℕ, suc, List, [], ◌∷◌, ◌++◌, map, Option, none, some, Bool, true, false, not, ◌&&◌, Text, codes,
  nonempty, any, text_eq, filter, take, lower, fstring, ◌==◌, if◌then◌else◌,
}
use dialogue_microservices.Prelude.Action.{
  Error, Action, Result, pure, lift, ◌>>=◌, ◌>>◌, attempt, try_else,
}
use dialogue_microservices.Records.Domain.{Campaign, Jurisdiction}
use dialogue_microservices.Records.Domain.Config.{ScopeConfig}
use dialogue_microservices.Records.Store.{state_row_exists, insert_jurisdiction, list_jurisdictions}
use dialogue_microservices.Records.World.{
  Env, World, Place, StateData, on_store, except, is_unique_violation,
}

-- `"ALL" in states`
unfoldable pub names_all : List Text → Bool
names_all states = any (text_eq (codes "ALL")) states

-- An insert whose lost race is harmless.
unfoldable pub insert_place : Text → Text → Text → Option Text → Action World Unit
insert_place name state level parent_name =
    try_else (on_store (insert_jurisdiction name state level parent_name)) (λ _. pure tt)
      (except is_unique_violation (pure tt))

unfoldable pub insert_places : Text → List Place → Action World Unit
insert_places state [] = pure tt
insert_places state (p ∷ places) = do
  insert_place p.name state p.level p.parent_name
  insert_places state places

-- One state whose row is missing.
unfoldable pub load_one : (Text → Result StateData) → Text → Action World Unit
load_one load_state state = do
  found ← lift (load_state state)
  insert_place found.state_name state (codes "state") none
  insert_places state found.places

-- `ensure_states`, over the states that it wants
unfoldable pub load_states : (Text → Result StateData) → List Text → Action World ℕ
load_states load_state [] = pure 0
load_states load_state (state ∷ states) = do
  loaded ← on_store (state_row_exists state)
  if loaded then pure tt else load_one load_state state
  rest ← load_states load_state states
  pure (if loaded then rest else suc rest)

-- `all_states` is `ALL_STATES` of the core's constants.
unfoldable pub ensure_states : List Text → (Text → Result StateData) → List Text → Action World ℕ
ensure_states all_states load_state states =
    load_states load_state (if names_all states then all_states else states)

-- `"," not in j.name`
unfoldable pub has_comma : Text → Bool
has_comma = any (λ c. c == b',')

-- `scope.only is None`, or the name is on the list, case aside
unfoldable pub is_allowed : Option (List Text) → Text → Bool
is_allowed none name = true
is_allowed (some names) name = any (text_eq (lower name)) (map lower names)

unfoldable pub in_scope : ScopeConfig → Jurisdiction → Bool
in_scope scope j = not (has_comma j.name) && is_allowed scope.only j.name

unfoldable pub resolve_scope : ScopeConfig → Action World (List Jurisdiction)
resolve_scope scope = do
  jurisdictions ← on_store (
      list_jurisdictions (if names_all scope.states then none else some scope.states)
        (some scope.levels))
  pure (filter (in_scope scope) jurisdictions)

unfoldable pub fallback_query : Jurisdiction → Text
fallback_query j =
    fstring (j.name ∷ codes " " ∷ j.state ∷ codes " public records request CPRA email clerk" ∷ [])

unfoldable pub is_generation_error : Error → Bool
is_generation_error Error.generation_error = true
is_generation_error _ = false

-- `for query in generated: if query and query not in queries: queries.append(query)`
unfoldable pub add_queries : List Text → List Text → List Text
add_queries queries [] = queries
add_queries queries (q ∷ generated) =
    add_queries (if nonempty q && not (any (text_eq q) queries) then queries ++ q ∷ [] else queries)
      generated

-- `QUERIES_PER_TARGET_MAX`
abbrev pub queries_per_target_max : ℕ
queries_per_target_max = 3

-- The queries of one target, from what the generator gave.
unfoldable pub queries_from : Jurisdiction → List Text → List Text
queries_from j generated =
    take queries_per_target_max (add_queries (fallback_query j ∷ []) generated)

-- `_queries_for`
unfoldable pub queries_for : Env → Campaign → Jurisdiction → Action World (List Text)
queries_for env campaign j =
    attempt (env.generate_queries j campaign.config.record_type)
      (λ generated. pure (queries_from j generated))
      (except is_generation_error (pure (queries_from j [])))
