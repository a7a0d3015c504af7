-- ===== src/Harvest/Store/Reads.antt =====
-- FakeDatastore, the methods that only read.
use dialogue_microservices.Prelude.{ℕ, Option, Bool, List, Text}
use dialogue_microservices.Prelude.Preserves.{Preserves, Preserves-gets}
use dialogue_microservices.Harvest.Domain.{Source}
use dialogue_microservices.Harvest.Store.State.{Datastore}
use dialogue_microservices.Harvest.Store.Jurisdictions.{
  get_jurisdiction, state_row_exists, list_jurisdictions, get_federal_anchor,
}
use dialogue_microservices.Harvest.Store.Targets.{get_target, list_targets, select_due}
use dialogue_microservices.Harvest.Store.Artifacts.{
  get_artifact, corpus_has_sha256, select_pending_stale,
}
use dialogue_microservices.Harvest.Store.History.{list_history}
use dialogue_microservices.Harvest.Store.Sources.{list_code_sources, get_run_state}

module _ {Q : Datastore → Type 0} where
  pub Preserves-get_jurisdiction : (i : ℕ) → Preserves Q (get_jurisdiction i)
  unfolding get_jurisdiction
  Preserves-get_jurisdiction i = Preserves-gets _

  pub Preserves-state_row_exists : (s : Text) → Preserves Q (state_row_exists s)
  unfolding state_row_exists
  Preserves-state_row_exists s = Preserves-gets _

  pub Preserves-list_jurisdictions :
      (s l : Option (List Text)) → Preserves Q (list_jurisdictions s l)
  unfolding list_jurisdictions
  Preserves-list_jurisdictions s l = Preserves-gets _

  pub Preserves-get_federal_anchor : Preserves Q get_federal_anchor
  unfolding get_federal_anchor
  Preserves-get_federal_anchor = Preserves-gets _

  pub Preserves-get_target : (i : ℕ) → Preserves Q (get_target i)
  unfolding get_target
  Preserves-get_target i = Preserves-gets _

  pub Preserves-list_targets : (c : Text) (s : Option Source) → Preserves Q (list_targets c s)
  unfolding list_targets
  Preserves-list_targets c s = Preserves-gets _

  pub Preserves-select_due :
      (c : Text) (at : ℕ) (ts : Source → ℕ) (n : ℕ) → Preserves Q (select_due c at ts n)
  unfolding select_due
  Preserves-select_due c at ts n = Preserves-gets _

  pub Preserves-get_artifact : (i : ℕ) → Preserves Q (get_artifact i)
  unfolding get_artifact
  Preserves-get_artifact i = Preserves-gets _

  pub Preserves-corpus_has_sha256 : (c h : Text) (i : ℕ) → Preserves Q (corpus_has_sha256 c h i)
  unfolding corpus_has_sha256
  Preserves-corpus_has_sha256 c h i = Preserves-gets _

  pub Preserves-select_pending_stale :
      (c : Text) (at t n : ℕ) → Preserves Q (select_pending_stale c at t n)
  unfolding select_pending_stale
  Preserves-select_pending_stale c at t n = Preserves-gets _

  pub Preserves-list_history : (c : Text) (j : Option ℕ) → Preserves Q (list_history c j)
  unfolding list_history
  Preserves-list_history c j = Preserves-gets _

  pub Preserves-list_code_sources : (j : Option ℕ) (b : Bool) → Preserves Q (list_code_sources j b)
  unfolding list_code_sources
  Preserves-list_code_sources j b = Preserves-gets _

  pub Preserves-get_run_state : (c : Text) → Preserves Q (get_run_state c)
  unfolding get_run_state
  Preserves-get_run_state c = Preserves-gets _

pub ruleset read_rules = (
  Preserves-get_jurisdiction, Preserves-state_row_exists, Preserves-list_jurisdictions,
  Preserves-get_federal_anchor, Preserves-get_target, Preserves-list_targets, Preserves-select_due,
  Preserves-get_artifact, Preserves-corpus_has_sha256, Preserves-select_pending_stale,
  Preserves-list_history, Preserves-list_code_sources, Preserves-get_run_state,
)
