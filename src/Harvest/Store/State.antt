-- ===== src/Harvest/Store/State.antt =====
-- The tables of FakeDatastore, each a dict keyed by id.
use dialogue_microservices.Prelude.{
  ℕ, [], Option, none, some, Bool, true, false, Text, text_eq, ◌==◌,
}
use dialogue_microservices.Prelude.Dict.{Dict}
use dialogue_microservices.Prelude.TextDict.{TextDict}
use dialogue_microservices.Harvest.Domain.{
  Jurisdiction, SweepTarget, Artifact, SweepHistory, CodeSource, RunState,
}

pub record Datastore : Type 0 where
  pub jurisdictions : Dict Jurisdiction
  pub targets : Dict SweepTarget
  pub artifacts : Dict Artifact
  pub history : Dict SweepHistory
  pub code_sources : Dict CodeSource
  pub run_switches : TextDict RunState
  pub next_id : ℕ

-- `FakeDatastore()`: the counter begins at 1.
abbrev pub empty_datastore : Datastore
empty_datastore = record {
  jurisdictions = [];
  targets = [];
  artifacts = [];
  history = [];
  code_sources = [];
  run_switches = [];
  next_id = 1;
}

-- `==` on optional texts and on optional times
unfoldable pub same_text : Option Text → Option Text → Bool
same_text none none = true
same_text none (some b) = false
same_text (some a) none = false
same_text (some a) (some b) = text_eq a b

unfoldable pub same_time : Option ℕ → Option ℕ → Bool
same_time none none = true
same_time none (some b) = false
same_time (some a) none = false
same_time (some a) (some b) = a == b
