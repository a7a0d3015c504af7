-- ===== src/Harvest/Orchestrator/Census.antt =====
-- orchestrator/src/harvest_orchestrator/census.py: the jurisdictions of a state, loaded once.
use dialogue_microservices.Prelude.{
  ℕ, ◌+◌, ◌*◌, List, [], ◌∷◌, none, some, Bool, true, false, Text, codes, ltb, map, maybe, text_eq,
  if◌then◌else◌,
}
use dialogue_microservices.Prelude.TextDict
use dialogue_microservices.Prelude.TextDict.{TextDict}
use dialogue_microservices.Prelude.Action.{
  Error, Action, pure, gets, modify, or_raise, except, is_unique_violation, ◌>>=◌, ◌>>◌, try_else,
}
use dialogue_microservices.Harvest.Domain.{Jurisdiction}
use dialogue_microservices.Harvest.Store.{insert_jurisdiction, state_row_exists, get_federal_anchor}
use dialogue_microservices.Harvest.World.{Env, World, CensusPlace, on_ds, now, ask, second}

-- `ALL_STATES`
abbrev pub all_states : List Text
all_states = map codes (
    "AL" ∷ "AK" ∷ "AZ" ∷ "AR" ∷ "CA" ∷ "CO" ∷ "CT" ∷ "DE" ∷ "DC" ∷ "FL" ∷ "GA" ∷ "HI" ∷ "ID" ∷ "IL"
    ∷ "IN" ∷ "IA" ∷ "KS" ∷ "KY" ∷ "LA" ∷ "ME" ∷ "MD" ∷ "MA" ∷ "MI" ∷ "MN" ∷ "MS" ∷ "MO" ∷ "MT"
    ∷ "NE" ∷ "NV" ∷ "NH" ∷ "NJ" ∷ "NM" ∷ "NY" ∷ "NC" ∷ "ND" ∷ "OH" ∷ "OK" ∷ "OR" ∷ "PA" ∷ "RI"
    ∷ "SC" ∷ "SD" ∷ "TN" ∷ "TX" ∷ "UT" ∷ "VT" ∷ "VA" ∷ "WA" ∷ "WV" ∷ "WI" ∷ "WY" ∷ [])

-- `SEED_THROTTLE_S`
abbrev pub seed_throttle : ℕ
seed_throttle = 600 * second

abbrev pub is_county : CensusPlace → Bool
is_county place = text_eq place.level (codes "county")

-- A county, and its id under its name; a county that is there already is passed over.
unfoldable pub insert_county : Text → TextDict ℕ → CensusPlace → Action World (TextDict ℕ)
insert_county state county_ids place =
    if is_county place
    then try_else
        (on_ds (insert_jurisdiction place.name state (codes "county") place.fips none none))
        (λ (row : Jurisdiction). pure (TextDict.put place.name row.id county_ids))
        (except is_unique_violation (pure county_ids))
    else pure county_ids

unfoldable pub insert_counties : Text → TextDict ℕ → List CensusPlace → Action World (TextDict ℕ)
insert_counties state county_ids [] = pure county_ids
insert_counties state county_ids (place ∷ places) = do
  more ← insert_county state county_ids place
  insert_counties state more places

unfoldable pub insert_place : Text → TextDict ℕ → CensusPlace → Action World Unit
insert_place state county_ids place =
    if is_county place
    then pure tt
    else try_else
        (on_ds (
          insert_jurisdiction place.name state place.level place.fips
            (TextDict.get county_ids (maybe place.parent_name [] (λ name. name)))
            place.parent_name))
        (λ _. pure tt) (except is_unique_violation (pure tt))

unfoldable pub insert_places : Text → TextDict ℕ → List CensusPlace → Action World Unit
insert_places state county_ids [] = pure tt
insert_places state county_ids (place ∷ places) = do
  insert_place state county_ids place
  insert_places state county_ids places

-- The state row last: it marks the state as loaded.
unfoldable pub load_state : Env → Text → Action World Unit
load_state env state = do
  data_of ← ask (λ n. env.load_state n state)
  county_ids ← insert_counties state [] data_of.places
  insert_places state county_ids data_of.places
  try_else (on_ds (insert_jurisdiction data_of.state_name state (codes "state") none none none))
      (λ _. pure tt) (except is_unique_violation (pure tt))

unfoldable pub load_states : Env → List Text → Action World Unit
load_states env [] = pure tt
load_states env (state ∷ states) = do
  there ← on_ds (state_row_exists state)
  if there then pure tt else load_state env state
  load_states env states

-- `states == ["ALL"]`
unfoldable pub is_all : List Text → Bool
is_all (state ∷ []) = text_eq state (codes "ALL")
is_all _ = false

unfoldable pub ensure_states : Env → List Text → Action World Bool
ensure_states env states = do
  at ← now
  last ← gets (λ (w : World). w.last_seeded)
  if maybe last false (λ t. ltb at (t + seed_throttle)) then pure false else do
    modify (λ w. record w { last_seeded = some at })
    load_states env (if is_all states then all_states else states)
    pure true

unfoldable pub insert_anchor : Action World ℕ
insert_anchor =
    try_else
      (on_ds
        (insert_jurisdiction (codes "United States") (codes "US") (codes "federal") none none none))
      (λ (row : Jurisdiction). pure row.id)
      (except is_unique_violation (do
        existing ← on_ds get_federal_anchor
        row ← or_raise Error.assertion_error existing
        pure row.id))

unfoldable pub ensure_federal_anchor : Action World ℕ
ensure_federal_anchor = do
  anchor ← on_ds get_federal_anchor
  maybe anchor insert_anchor (λ (j : Jurisdiction). pure j.id)
