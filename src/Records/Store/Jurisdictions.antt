-- ===== src/Records/Store/Jurisdictions.antt =====
-- FakeRecordsStore, jurisdictions.
use dialogue_microservices.Prelude.{
  ℕ, suc, List, Option, none, some, Bool, true, false, ◌&&◌, Text, codes, text_eq, any, find,
  filter, leb, sort_by, if◌then◌else◌,
}
use dialogue_microservices.Prelude.Dict.{get, put, values}
use dialogue_microservices.Prelude.Action.{Error, Action, pure, raise, gets, modify, require, ◌>>=◌}
use dialogue_microservices.Records.Domain.{Jurisdiction}
use dialogue_microservices.Records.Store.State.{Store}

-- `(j.level, j.state, j.name) == (level, state, name)`
unfoldable pub is_place : Text → Text → Text → Jurisdiction → Bool
is_place name state level j = text_eq j.level level && text_eq j.state state && text_eq j.name name

unfoldable pub insert_jurisdiction : Text → Text → Text → Option Text → Action Store Jurisdiction
unfolding is_place
insert_jurisdiction name state level parent_name s =
    if any (is_place name state level) (values s.jurisdictions)
    then raise Error.unique_violation s
    else (let j : Jurisdiction = record {
      id = s.next_jurisdiction;
      name = name;
      state = state;
      level = level;
      parent_name = parent_name;
      contact_email = none;
      contact_name = none;
      contact_url = none;
      contact_verified = false;
      last_contacted_at = none;
    } in
        pure j (record s {
          jurisdictions = put s.next_jurisdiction j s.jurisdictions;
          next_jurisdiction = suc s.next_jurisdiction;
        }))

unfoldable pub get_jurisdiction : ℕ → Action Store (Option Jurisdiction)
get_jurisdiction jurisdiction_id = gets (λ s. get s.jurisdictions jurisdiction_id)

unfoldable pub find_jurisdiction : Text → Text → Text → Action Store (Option Jurisdiction)
unfolding is_place
find_jurisdiction name state level =
    gets (λ s. find (is_place name state level) (values s.jurisdictions))

-- `states is None or j.state in states`
unfoldable pub is_listed : Option (List Text) → Text → Bool
is_listed none t = true
is_listed (some ts) t = any (text_eq t) ts

unfoldable pub list_jurisdictions :
    Option (List Text) → Option (List Text) → Action Store (List Jurisdiction)
unfolding is_listed
list_jurisdictions states levels = gets (λ s.
    sort_by (λ (a b : Jurisdiction). leb a.id b.id)
      (filter (λ (j : Jurisdiction). is_listed states j.state && is_listed levels j.level)
        (values s.jurisdictions)))

unfoldable pub state_row_exists : Text → Action Store Bool
state_row_exists state = gets (λ s.
    any (λ (j : Jurisdiction). text_eq j.level (codes "state") && text_eq j.state state)
      (values s.jurisdictions))

unfoldable pub update_jurisdiction : ℕ → (Jurisdiction → Jurisdiction) → Action Store Unit
update_jurisdiction jurisdiction_id f = do
  j ← require Error.key_error (λ s. get s.jurisdictions jurisdiction_id)
  modify (λ s. record s { jurisdictions = put jurisdiction_id (f j) s.jurisdictions })

unfoldable pub set_jurisdiction_contact : ℕ → Text → Option Text → Option Text → Action Store Unit
unfolding update_jurisdiction
set_jurisdiction_contact jurisdiction_id email name url = update_jurisdiction jurisdiction_id (λ j.
    record j {
      contact_email = some email;
      contact_name = name;
      contact_url = url;
      contact_verified = false;
    })

unfoldable pub stamp_last_contacted : ℕ → ℕ → Action Store Unit
unfolding update_jurisdiction
stamp_last_contacted jurisdiction_id at =
    update_jurisdiction jurisdiction_id (λ j. record j { last_contacted_at = some at })
