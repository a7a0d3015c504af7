-- ===== src/Records/Domain.antt =====
-- records/src/public_records/domain.py and config.py: enumerations, table rows and the thread
-- state machine. Times are microseconds since the epoch, ids and amounts natural numbers.
pub mod Transitions
pub mod Address
pub mod Config
use dialogue_microservices.Prelude.{
  ℕ, Option, List, Bool, true, false, ◌≡◌, ◌||◌, Text, if◌then◌else◌,
}
use dialogue_microservices.Prelude.Action.{Error, Result, ok, err}
use Config.{CampaignConfig}

pub data ThreadStatus : Type 0 where
  pending_send request_sent awaiting_reply fulfilled referred needs_human failed : ThreadStatus

-- `old is new`
unfoldable pub same_status : ThreadStatus → ThreadStatus → Bool
same_status ThreadStatus.pending_send ThreadStatus.pending_send = true
same_status ThreadStatus.request_sent ThreadStatus.request_sent = true
same_status ThreadStatus.awaiting_reply ThreadStatus.awaiting_reply = true
same_status ThreadStatus.fulfilled ThreadStatus.fulfilled = true
same_status ThreadStatus.referred ThreadStatus.referred = true
same_status ThreadStatus.needs_human ThreadStatus.needs_human = true
same_status ThreadStatus.failed ThreadStatus.failed = true
same_status _ _ = false

-- `new in _AUTO_TRANSITIONS[old]`
unfoldable pub auto_transition : ThreadStatus → ThreadStatus → Bool
auto_transition ThreadStatus.pending_send ThreadStatus.request_sent = true
auto_transition ThreadStatus.pending_send ThreadStatus.needs_human = true
auto_transition ThreadStatus.request_sent ThreadStatus.awaiting_reply = true
auto_transition ThreadStatus.request_sent ThreadStatus.fulfilled = true
auto_transition ThreadStatus.request_sent ThreadStatus.referred = true
auto_transition ThreadStatus.request_sent ThreadStatus.needs_human = true
auto_transition ThreadStatus.awaiting_reply ThreadStatus.awaiting_reply = true
auto_transition ThreadStatus.awaiting_reply ThreadStatus.fulfilled = true
auto_transition ThreadStatus.awaiting_reply ThreadStatus.referred = true
auto_transition ThreadStatus.awaiting_reply ThreadStatus.needs_human = true
auto_transition _ _ = false

unfoldable pub check_transition : ThreadStatus → ThreadStatus → Bool → Result (Unit {0})
unfolding same_status auto_transition
check_transition old new by_human =
    if same_status old new
    then ok tt
    else if by_human
    then ok tt
    else if auto_transition old new
    then ok tt
    else err Error.illegal_transition

-- `status in (REQUEST_SENT, AWAITING_REPLY)`
unfoldable pub is_open : ThreadStatus → Bool
is_open ThreadStatus.request_sent = true
is_open ThreadStatus.awaiting_reply = true
is_open _ = false

pub data EmailDirection : Type 0 where
  inbound outbound : EmailDirection

unfoldable pub is_outbound : EmailDirection → Bool
is_outbound EmailDirection.outbound = true
is_outbound EmailDirection.inbound = false

pub data OutboundKind : Type 0 where
  initial_request followup clarification_reply fee_agreement : OutboundKind

-- `e.kind is kind`
unfoldable pub same_kind : OutboundKind → OutboundKind → Bool
same_kind OutboundKind.initial_request OutboundKind.initial_request = true
same_kind OutboundKind.followup OutboundKind.followup = true
same_kind OutboundKind.clarification_reply OutboundKind.clarification_reply = true
same_kind OutboundKind.fee_agreement OutboundKind.fee_agreement = true
same_kind _ _ = false

pub data EscalationReason : Type 0 where
  payment_required referral_no_address denial unclear_reply no_response : EscalationReason
  no_contact_found contact_needs_review other : EscalationReason

pub data EscalationStatus : Type 0 where
  open_case resolved : EscalationStatus

pub data InboundCategory : Type 0 where
  data_provided payment_required needs_clarification denial referral : InboundCategory
  acknowledgment unclear : InboundCategory

-- The confidence is in millionths; it is recorded and never compared here.
pub record Classification : Type 0 where
  pub category : InboundCategory
  pub summary : Text
  pub confidence : ℕ
  pub referral_email : Option Text

pub record Campaign : Type 0 where
  pub id : ℕ
  pub config : CampaignConfig
  pub active : Bool
  pub seeded : Bool
  pub created_at : Option ℕ

pub record Jurisdiction : Type 0 where
  pub id : ℕ
  pub name : Text
  pub state : Text
  pub level : Text
  pub parent_name : Option Text
  pub contact_email : Option Text
  pub contact_name : Option Text
  pub contact_url : Option Text
  pub contact_verified : Bool
  pub last_contacted_at : Option ℕ

pub record EmailThread : Type 0 where
  pub id : ℕ
  pub campaign_id : ℕ
  pub jurisdiction_id : ℕ
  pub thread_token : Text
  pub contact_email : Text
  pub status : ThreadStatus
  pub parent_thread_id : Option ℕ
  pub followups_sent : ℕ
  pub next_action_at : Option ℕ
  pub attachment_keys : List Text
  pub notes : Text
  pub created_at : Option ℕ
  pub updated_at : Option ℕ

-- One attachment of an inbound email, as the row records it (a dict of strings in the source).
pub data AttachmentStatus : Type 0 where
  rejected duplicate stored : AttachmentStatus

pub record AttachmentRef : Type 0 where
  pub filename : Text
  pub content_type : Text
  pub status : AttachmentStatus
  pub note : Text

pub record EmailRecord : Type 0 where
  pub id : ℕ
  pub thread_id : Option ℕ
  pub campaign_id : Option ℕ
  pub direction : EmailDirection
  pub from_address : Text
  pub to_address : Text
  pub subject : Text
  pub body : Text
  pub kind : Option OutboundKind
  pub classification : Option Classification
  pub message_id : Option Text
  pub source_key : Option Text
  pub resend_id : Option Text
  pub in_reply_to_email_id : Option ℕ
  pub attachment_refs : List AttachmentRef
  pub created_at : Option ℕ

pub record Escalation : Type 0 where
  pub id : ℕ
  pub campaign_id : Option ℕ
  pub thread_id : Option ℕ
  pub reason : EscalationReason
  pub details : Text
  pub status : EscalationStatus
  pub resolution : Text
  pub notified : Bool
  pub created_at : Option ℕ
  pub resolved_at : Option ℕ

pub record SpendEntry : Type 0 where
  pub id : ℕ
  pub campaign_id : ℕ
  pub thread_id : Option ℕ
  pub amount_cents : ℕ
  pub kind : Text
  pub note : Text
  pub remitted : Bool
  pub notified : Bool
  pub created_at : Option ℕ

pub record SearchTarget : Type 0 where
  pub id : ℕ
  pub campaign_id : ℕ
  pub jurisdiction_id : ℕ
  pub queries_enqueued : ℕ
  pub consumed_indexes : List ℕ
  pub resolved : Bool
  pub created_at : Option ℕ
