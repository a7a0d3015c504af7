-- ===== src/Records/Domain/Config.antt =====
-- records/src/public_records/config.py: the per-campaign configuration. Counts and day numbers
-- are natural; the fee budget is the value of the property `fee_budget_cents`, an integer.
use dialogue_microservices.Prelude.{ℕ, Option, List, [], ◌∷◌, Bool, true, false, Text}

pub record RequesterConfig : Type 0 where
  pub name : Text
  pub email : Text
  pub organization : Option Text
  pub phone : Option Text
  pub mailing_address : Option Text
  pub anonymous : Bool
  pub consent_confirmed : Bool

pub record ScopeConfig : Type 0 where
  pub levels : List Text
  pub states : List Text
  pub only : Option (List Text)

pub record LimitsConfig : Type 0 where
  pub max_concurrent_sends : ℕ
  pub per_office_cooldown_days : ℕ
  pub max_followups : ℕ
  pub followup_interval_days : ℕ
  pub daily_send_cap : ℕ
  pub fee_budget_cents : ℕ

pub record TestContact : Type 0 where
  pub jurisdiction : Text
  pub state : Text
  pub email : Text
  pub level : Text

pub record CampaignConfig : Type 0 where
  pub name : Text
  pub record_type : Text
  pub record_description : Text
  pub legal_basis : Text
  pub requester : RequesterConfig
  pub scope : ScopeConfig
  pub limits : LimitsConfig
  -- `contacts.min_confidence`, in millionths
  pub min_confidence : ℕ
  pub test_contacts : List TestContact
  pub dry_run : Bool
  pub notify_email : Option Text

-- `bool(self.test_contacts)`
unfoldable pub has_contacts : List TestContact → Bool
has_contacts [] = false
has_contacts (c ∷ cs) = true

unfoldable pub is_test : CampaignConfig → Bool
unfolding has_contacts
is_test config = has_contacts config.test_contacts
