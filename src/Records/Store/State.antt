-- ===== src/Records/Store/State.antt =====
-- The tables of FakeRecordsStore, each a dict keyed by id, and the next id of each.
use dialogue_microservices.Prelude.{
  ℕ, [], Option, none, some, Bool, true, false, ◌==◌, Text, text_eq,
}
use dialogue_microservices.Prelude.Dict.{Dict}
use dialogue_microservices.Records.Domain.{
  Campaign, Jurisdiction, SearchTarget, EmailThread, EmailRecord, Escalation, SpendEntry,
}

pub record Store : Type 0 where
  pub campaigns : Dict Campaign
  pub jurisdictions : Dict Jurisdiction
  pub targets : Dict SearchTarget
  pub threads : Dict EmailThread
  pub emails : Dict EmailRecord
  pub escalations : Dict Escalation
  pub spend : Dict SpendEntry
  pub next_campaign : ℕ
  pub next_jurisdiction : ℕ
  pub next_target : ℕ
  pub next_thread : ℕ
  pub next_email : ℕ
  pub next_escalation : ℕ
  pub next_spend : ℕ

-- `FakeRecordsStore()`: the counters begin at 1.
abbrev pub empty_store : Store
empty_store = record {
  campaigns = [];
  jurisdictions = [];
  targets = [];
  threads = [];
  emails = [];
  escalations = [];
  spend = [];
  next_campaign = 1;
  next_jurisdiction = 1;
  next_target = 1;
  next_thread = 1;
  next_email = 1;
  next_escalation = 1;
  next_spend = 1;
}

-- `==` on optional ids, and between an optional text and a text
unfoldable pub same_id : Option ℕ → Option ℕ → Bool
same_id none none = true
same_id none (some b) = false
same_id (some a) none = false
same_id (some a) (some b) = a == b

unfoldable pub is_text : Option Text → Text → Bool
is_text none t = false
is_text (some s) t = text_eq s t
