-- ===== src/Harvest/Store/Jurisdictions.antt =====
-- FakeDatastore, the jurisdictions.
use dialogue_microservices.Prelude.{
  ℕ, suc, Option, Bool, true, ◌&&◌, List, Text, codes, text_eq, any, find, filter, sort_by, leb,
  maybe, if◌then◌else◌,
}
use dialogue_microservices.Prelude.Dict.{get, put, values}
use dialogue_microservices.Prelude.Action.{Error, Action, pure, raise, gets}
use dialogue_microservices.Harvest.Domain.{Jurisdiction}
use dialogue_microservices.Harvest.Store.State.{Datastore}

unfoldable pub get_jurisdiction : ℕ → Action Datastore (Option Jurisdiction)
get_jurisdiction jurisdiction_id = gets (λ s. get s.jurisdictions jurisdiction_id)

unfoldable pub is_named : Text → Text → Text → Jurisdiction → Bool
is_named level state name j = text_eq j.level level && text_eq j.state state && text_eq j.name name

unfoldable pub insert_jurisdiction :
    Text → Text → Text → Option Text → Option ℕ → Option Text → Action Datastore Jurisdiction
unfolding is_named
insert_jurisdiction name state level fips parent_id parent_name s =
    if any (is_named level state name) (values s.jurisdictions)
    then raise Error.unique_violation s
    else (let row : Jurisdiction = record {
      id = s.next_id;
      name = name;
      state = state;
      level = level;
      fips = fips;
      parent_id = parent_id;
      parent_name = parent_name;
    } in
        pure row
          (record s { jurisdictions = put s.next_id row s.jurisdictions; next_id = suc s.next_id }))

unfoldable pub state_row_exists : Text → Action Datastore Bool
state_row_exists state = gets (λ s.
    any (λ (j : Jurisdiction). text_eq j.level (codes "state") && text_eq j.state state)
      (values s.jurisdictions))

-- `states is None or j.state in states`, and the same for the levels
unfoldable pub is_listed : Option (List Text) → Option (List Text) → Jurisdiction → Bool
is_listed states levels j =
    maybe states true (any (text_eq j.state)) && maybe levels true (any (text_eq j.level))

unfoldable pub list_jurisdictions :
    Option (List Text) → Option (List Text) → Action Datastore (List Jurisdiction)
unfolding is_listed
list_jurisdictions states levels = gets (λ s.
    sort_by (λ (a b : Jurisdiction). leb a.id b.id)
      (filter (is_listed states levels) (values s.jurisdictions)))

unfoldable pub get_federal_anchor : Action Datastore (Option Jurisdiction)
get_federal_anchor =
    gets
      (λ s. find (λ (j : Jurisdiction). text_eq j.level (codes "federal")) (values s.jurisdictions))
