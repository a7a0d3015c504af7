-- ===== src/Harvest/Orchestrator/Scope.antt =====
-- orchestrator/src/harvest_orchestrator/seeding.py, `resolve_scope`: the jurisdictions of a corpus.
use dialogue_microservices.Prelude.{
  List, [], ◌∷◌, ◌++◌, Option, none, some, Bool, true, false, not, ◌&&◌, ◌||◌, Text, codes, any,
  contains, filter, lower, map, maybe, nonempty, text_eq, ◌==◌, if◌then◌else◌,
}
use dialogue_microservices.Prelude.Action.{Action, pure, ◌>>=◌}
use dialogue_microservices.Harvest.Domain.{Jurisdiction}
use dialogue_microservices.Harvest.Store.{get_jurisdiction, list_jurisdictions}
use dialogue_microservices.Harvest.World.{World, ScopeConfig, on_ds}
use dialogue_microservices.Harvest.Orchestrator.Census.{ensure_federal_anchor, is_all}

-- `name in names`
abbrev pub among : List Text → Text → Bool
among names name = any (text_eq name) names

abbrev pub some_names : List Text → Bool
some_names [] = false
some_names (n ∷ names) = true

-- A region matches a name that it holds or that holds it.
unfoldable pub matches_region : Text → Jurisdiction → Bool
matches_region needle j = contains needle (lower j.name) || contains (lower j.name) needle

-- The anchor at the end of the pool, unless it is there.
unfoldable pub with_anchor : Option Jurisdiction → List Jurisdiction → List Jurisdiction
with_anchor none pool = pool
with_anchor (some anchor) pool =
    if any (λ (j : Jurisdiction). j.id == anchor.id) pool then pool else pool ++ anchor ∷ []

unfoldable pub pool_of : ScopeConfig → Action World (List Jurisdiction)
pool_of scope =
    if nonempty scope.region_query
    then (do
      all ← on_ds (list_jurisdictions none none)
      pure (filter (matches_region (lower scope.region_query)) all))
    else (do
      pool ← on_ds (
          list_jurisdictions (if is_all scope.states then none else some scope.states)
            (some scope.levels))
      if among scope.levels (codes "federal")
          then (do
            anchor_id ← ensure_federal_anchor
            anchor ← on_ds (get_jurisdiction anchor_id)
            pure (with_anchor anchor pool))
          else pure pool)

unfoldable pub is_within : List Text → Jurisdiction → Bool
is_within within j =
    not (some_names within)
    || among (map lower within) (lower j.name)
    || among (map lower within) (lower (maybe j.parent_name [] (λ p. p)))
    || text_eq j.level (codes "federal")

unfoldable pub is_named_only : List Text → Jurisdiction → Bool
is_named_only only j = not (some_names only) || among only j.name

-- A county row that the census did not split; it stays in the table.
unfoldable pub is_unsplit : Jurisdiction → Bool
is_unsplit j = text_eq j.level (codes "county") && any (λ c. c == b',') j.name

unfoldable pub in_scope : ScopeConfig → Jurisdiction → Bool
unfolding is_within is_named_only is_unsplit
in_scope scope j = is_within scope.within j && is_named_only scope.only j && not (is_unsplit j)

unfoldable pub resolve_scope : ScopeConfig → Action World (List Jurisdiction)
resolve_scope scope = do pool ← pool_of scope; pure (filter (in_scope scope) pool)
