-- ===== src/Records/Messages.antt =====
-- records/src/public_records/messages.py: the queue messages. A body is a text; how pydantic writes
-- and reads it is a parameter of the world (Records/World).
use dialogue_microservices.Prelude.{ℕ, Option, List, Bool, Text}

pub record SearchQueryMessage : Type 0 where
  pub campaign_id : ℕ
  pub jurisdiction_id : ℕ
  pub search_target_id : ℕ
  pub query : Text
  pub query_index : ℕ

pub data ContactSource : Type 0 where
  scraper seeded referral human_approved : ContactSource

pub record ContactMessage : Type 0 where
  pub campaign_id : ℕ
  pub jurisdiction_id : ℕ
  pub contact_email : Text
  pub source : ContactSource
  pub bypass_cooldown : Bool
  pub parent_thread_id : Option ℕ

pub data FollowupKind : Type 0 where
  followup clarification_reply fee_agreement : FollowupKind

pub record FollowupJobMessage : Type 0 where
  pub thread_id : ℕ
  pub kind : FollowupKind
  pub followup_index : Option ℕ
  pub inbound_email_id : Option ℕ
  pub amount_cents : Option ℕ

pub record InboundAttachment : Type 0 where
  pub filename : Text
  pub content_type : Text
  pub s3_tmp_key : Text

pub record InboundMailMessage : Type 0 where
  pub source_key : Text
  pub message_id : Text
  pub thread_token : Option Text
  pub from_address : Text
  pub subject : Text
  pub body : Text
  pub attachments : List InboundAttachment
