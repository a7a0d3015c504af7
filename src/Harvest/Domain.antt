-- ===== src/Harvest/Domain.antt =====
-- core/src/harvest_core/domain.py: the rows of the harvest tables and the artifact state machine.
-- Times are in microseconds. The columns kept for a later stage are not modelled: the code neither
-- reads nor writes them.
pub mod Transitions
use dialogue_microservices.Prelude.{
  ℕ, List, [], ◌∷◌, Option, none, some, Bool, true, false, Text, codes, text_eq, if◌then◌else◌,
}
use dialogue_microservices.Prelude.Action.{Error, Result, ok, err}

pub data Source : Type 0 where
  serper legal_codes : Source

unfoldable pub same_source : Source → Source → Bool
same_source Source.serper Source.serper = true
same_source Source.legal_codes Source.legal_codes = true
same_source _ _ = false

pub data SweepResult : Type 0 where
  candidates not_found error : SweepResult

pub data ArtifactStatus : Type 0 where
  pending fetched failed not_document duplicate cataloged rejected : ArtifactStatus

-- `new in _ALLOWED_TRANSITIONS[current]`
unfoldable pub allowed_transition : ArtifactStatus → ArtifactStatus → Bool
allowed_transition ArtifactStatus.pending ArtifactStatus.fetched = true
allowed_transition ArtifactStatus.pending ArtifactStatus.failed = true
allowed_transition ArtifactStatus.pending ArtifactStatus.not_document = true
allowed_transition ArtifactStatus.pending ArtifactStatus.duplicate = true
allowed_transition ArtifactStatus.fetched ArtifactStatus.cataloged = true
allowed_transition ArtifactStatus.fetched ArtifactStatus.rejected = true
allowed_transition _ _ = false

unfoldable pub check_transition : ArtifactStatus → ArtifactStatus → Result (Unit {0})
unfolding allowed_transition
check_transition current new =
    if allowed_transition current new then ok tt else err Error.illegal_transition

-- `status == ArtifactStatus.PENDING`
unfoldable pub is_pending : ArtifactStatus → Bool
is_pending ArtifactStatus.pending = true
is_pending _ = false

-- `LEVEL_PRIORITIES.get(level, DEFAULT_PRIORITY)`
unfoldable pub level_priority : Text → ℕ
level_priority level =
    if text_eq level (codes "federal")
    then 0
    else if text_eq level (codes "state")
    then 1
    else if text_eq level (codes "county")
    then 2
    else if text_eq level (codes "city")
    then 3
    else 9

pub data Publisher : Type 0 where
  municode amlegal ecode360 other : Publisher

unfoldable pub same_publisher : Publisher → Publisher → Bool
same_publisher Publisher.municode Publisher.municode = true
same_publisher Publisher.amlegal Publisher.amlegal = true
same_publisher Publisher.ecode360 Publisher.ecode360 = true
same_publisher Publisher.other Publisher.other = true
same_publisher _ _ = false

pub data RunState : Type 0 where
  running stopped : RunState

unfoldable pub is_running : Option RunState → Bool
is_running (some RunState.running) = true
is_running _ = false

pub record Jurisdiction : Type 0 where
  pub id : ℕ
  pub name : Text
  pub state : Text
  pub level : Text
  pub fips : Option Text
  pub parent_id : Option ℕ
  pub parent_name : Option Text

pub record SweepTarget : Type 0 where
  pub id : ℕ
  pub corpus : Text
  pub jurisdiction_id : ℕ
  pub source : Source
  pub priority : ℕ
  pub next_due_at : ℕ
  pub last_result : Option SweepResult
  pub dispatched_at : Option ℕ
  pub dispatch_id : Option Text
  pub query_count : Option ℕ

pub record Artifact : Type 0 where
  pub id : ℕ
  pub corpus : Text
  pub jurisdiction_id : ℕ
  pub origin : Text
  pub source_url : Text
  pub context : Text
  pub status : ArtifactStatus
  pub attempts : ℕ
  pub last_error : Option Text
  pub filename : Option Text
  pub ext : Option Text
  pub content_type : Option Text
  pub sha256 : Option Text
  pub path : Option Text
  pub size_bytes : Option ℕ
  pub extracted_text : Option Text
  pub dispatched_at : Option ℕ
  pub dispatch_id : Option Text
  pub created_at : Option ℕ

pub record SweepHistory : Type 0 where
  pub id : ℕ
  pub corpus : Text
  pub jurisdiction_id : ℕ
  pub source : Source
  pub dispatch_id : Text
  pub query_seq : ℕ
  pub result : SweepResult
  pub topic : Option Text
  pub results_seen : ℕ
  pub results_triaged_relevant : ℕ
  pub candidates_staged : ℕ
  pub detail : Text
  pub swept_at : ℕ

pub record CodeSource : Type 0 where
  pub id : ℕ
  pub jurisdiction_id : ℕ
  pub url : Text
  pub publisher : Publisher
  pub enabled : Bool
  pub added_by : Option Text
  pub added_at : ℕ
