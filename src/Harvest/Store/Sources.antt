-- ===== src/Harvest/Store/Sources.antt =====
-- FakeDatastore, the seeds of portal crawls and the run switches.
use dialogue_microservices.Prelude.{
  ℕ, suc, Option, Bool, true, ◌&&◌, ◌||◌, not, List, Text, text_eq, any, filter, sort_by, leb, ◌==◌,
  maybe, if◌then◌else◌,
}
use dialogue_microservices.Prelude.Dict.{get, put, values}
use dialogue_microservices.Prelude.TextDict
use dialogue_microservices.Prelude.Action.{Error, Action, pure, raise, gets, modify, require, ◌>>=◌}
use dialogue_microservices.Harvest.Domain.{CodeSource, Publisher, RunState}
use dialogue_microservices.Harvest.Store.State.{Datastore}

unfoldable pub insert_code_source :
    ℕ → Text → Publisher → Bool → Option Text → ℕ → Action Datastore CodeSource
insert_code_source jurisdiction_id url publisher enabled added_by added_at s =
    if any (λ (c : CodeSource). c.jurisdiction_id == jurisdiction_id && text_eq c.url url)
      (values s.code_sources)
    then raise Error.unique_violation s
    else (let row : CodeSource = record {
      id = s.next_id;
      jurisdiction_id = jurisdiction_id;
      url = url;
      publisher = publisher;
      enabled = enabled;
      added_by = added_by;
      added_at = added_at;
    } in
        pure row
          (record s { code_sources = put s.next_id row s.code_sources; next_id = suc s.next_id }))

unfoldable pub list_code_sources : Option ℕ → Bool → Action Datastore (List CodeSource)
list_code_sources jurisdiction_id enabled_only = gets (λ s.
    sort_by (λ (a b : CodeSource). leb a.id b.id)
      (filter
        (λ (c : CodeSource).
          maybe jurisdiction_id true (λ j. c.jurisdiction_id == j)
          && (not enabled_only || c.enabled))
        (values s.code_sources)))

unfoldable pub set_code_source_enabled : ℕ → Bool → Action Datastore Unit
set_code_source_enabled code_source_id enabled = do
  c ← require Error.key_error (λ (s : Datastore). get s.code_sources code_source_id)
  modify (λ s. record s {
    code_sources = put code_source_id (record c { enabled = enabled }) s.code_sources;
  })

unfoldable pub get_run_state : Text → Action Datastore (Option RunState)
get_run_state name = gets (λ s. TextDict.get s.run_switches name)

unfoldable pub set_run_state : Text → RunState → Action Datastore Unit
set_run_state name state =
    modify (λ s. record s { run_switches = TextDict.put name state s.run_switches })
