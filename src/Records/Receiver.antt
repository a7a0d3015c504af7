-- ===== src/Records/Receiver.antt =====
-- records/src/public_records/receiver.py: match, classify, log, react.
pub mod Dedupe
pub mod Keeps
mod Filed
use dialogue_microservices.Prelude.{
  ℕ, List, [], ◌∷◌, ◌++◌, Option, none, some, Bool, true, false, ◌||◌, Text, codes, nonempty, take,
  fstring, ltb, maybe, if◌then◌else◌,
}
use dialogue_microservices.Prelude.Action.{Error, Action, pure, lift, ◌>>=◌, ◌>>◌, attempt}
use dialogue_microservices.Records.Domain.{
  Campaign, Jurisdiction, EmailThread, EmailRecord, EmailDirection, Classification, InboundCategory,
  EscalationReason, ThreadStatus, AttachmentRef,
}
use dialogue_microservices.Records.Messages.{
  ContactMessage, ContactSource, FollowupJobMessage, FollowupKind, InboundMailMessage,
}
use dialogue_microservices.Records.Store.{
  get_campaign, get_jurisdiction, get_thread_by_token, find_open_thread_by_contact, has_message_id,
  insert_email, update_attachment_refs, set_thread_status,
}
use dialogue_microservices.Records.World.{
  Env, World, on_store, send_contact, send_followup_job, escalate, except, next_action_time,
}
use dialogue_microservices.Records.Attachments.{store_attachments, delete_spooled}
use dialogue_microservices.Records.Fees.{handle_payment_required}

-- `CLASSIFY_BODY_CHARS` and `ESCALATION_DETAIL_CHARS`
abbrev pub classify_body_chars : ℕ
classify_body_chars = 6000

abbrev pub detail_chars : ℕ
detail_chars = 2000

-- `_match_thread`: the token first, else the sender's address against an open thread
unfoldable pub match_thread : InboundMailMessage → Action World (Option EmailThread)
match_thread msg = do
  by_token ←
      maybe msg.thread_token (pure none)
        (λ t. if nonempty t then on_store (get_thread_by_token t) else pure none)
  maybe by_token (on_store (find_open_thread_by_contact msg.from_address)) (λ t. pure (some t))

unfoldable pub is_classify_error : Error → Bool
is_classify_error Error.classify_error = true
is_classify_error _ = false

-- The row of an inbound mail.
abbrev pub inbound_row :
    Env → InboundMailMessage → Option ℕ → Option ℕ → Option Classification → EmailRecord
inbound_row env msg thread_id campaign_id classification = record {
  id = 0;
  thread_id = thread_id;
  campaign_id = campaign_id;
  direction = EmailDirection.inbound;
  from_address = msg.from_address;
  to_address = env.from_address;
  subject = msg.subject;
  body = msg.body;
  kind = none;
  classification = classification;
  message_id = some msg.message_id;
  source_key = some msg.source_key;
  resend_id = none;
  in_reply_to_email_id = none;
  attachment_refs = [];
  created_at = some env.now;
}

-- `if refs: …`
abbrev pub update_refs : ℕ → List AttachmentRef → Action World Unit
update_refs email_id [] = pure tt
update_refs email_id (r ∷ refs) = on_store (update_attachment_refs email_id (r ∷ refs))

unfoldable pub is_data : InboundCategory → Bool
is_data InboundCategory.data_provided = true
is_data _ = false

module _ (env : Env) (campaign : Campaign) (thread : EmailThread) (inbound : EmailRecord) where
  -- An answer was wanted or has been promised: the thread waits on.
  unfoldable pub keep_waiting : Action World Unit
  keep_waiting = on_store (
      set_thread_status thread.id ThreadStatus.awaiting_reply (some (next_action_time env campaign))
        false)

  -- data_provided and acknowledgment
  unfoldable pub react_documents : InboundMailMessage → InboundCategory → Action World Unit
  react_documents msg category = do
    known_jurisdiction ← on_store (get_jurisdiction thread.jurisdiction_id)
    let name = maybe known_jurisdiction (codes "unknown") (λ (j : Jurisdiction). j.name)
    (refs, stored) ← store_attachments env campaign name thread.id msg.attachments
    update_refs inbound.id refs
    if is_data category || ltb 0 stored
        then on_store (set_thread_status thread.id ThreadStatus.fulfilled none false)
        else keep_waiting

  -- referral
  unfoldable pub refer_to : Text → Action World Unit
  refer_to address = do
    send_contact env (record {
      campaign_id = campaign.id;
      jurisdiction_id = thread.jurisdiction_id;
      contact_email = address;
      source = ContactSource.referral;
      bypass_cooldown = true;
      parent_thread_id = some thread.id;
    })
    on_store (set_thread_status thread.id ThreadStatus.referred none false)

  unfoldable pub hand_over : EscalationReason → List Text → Action World Unit
  hand_over reason details =
      escalate env (some campaign.id) (some thread.id) reason (fstring details)

  unfoldable pub react_referral : Option Text → Action World Unit
  react_referral none =
      hand_over EscalationReason.referral_no_address
        (codes "Office redirected us without an address.\n\n" ∷ inbound.body ∷ [])
  react_referral (some address) =
      if nonempty address
      then refer_to address
      else hand_over EscalationReason.referral_no_address
          (codes "Office redirected us without an address.\n\n" ∷ inbound.body ∷ [])

  -- needs_clarification
  unfoldable pub ask_for_clarification : Action World Unit
  ask_for_clarification = do
    send_followup_job env (record {
      thread_id = thread.id;
      kind = FollowupKind.clarification_reply;
      followup_index = none;
      inbound_email_id = some inbound.id;
      amount_cents = none;
    })
    keep_waiting

  -- `_react`
  unfoldable pub react : InboundMailMessage → InboundCategory → Option Text → Action World Unit
  react msg InboundCategory.data_provided referral_email =
      react_documents msg InboundCategory.data_provided
  react msg InboundCategory.acknowledgment referral_email =
      react_documents msg InboundCategory.acknowledgment
  react msg InboundCategory.payment_required referral_email =
      handle_payment_required env campaign thread inbound
  react msg InboundCategory.referral referral_email = react_referral referral_email
  react msg InboundCategory.denial referral_email =
      hand_over EscalationReason.denial (codes "Request denied.\n\n" ∷ inbound.body ∷ [])
  react msg InboundCategory.needs_clarification referral_email = ask_for_clarification
  react msg InboundCategory.unclear referral_email =
      hand_over EscalationReason.unclear_reply
        (codes "Unclear reply.\n\n" ∷ take detail_chars inbound.body ∷ [])

-- An unmatched mail: a row without campaign and thread.
unfoldable pub file_unmatched : Env → InboundMailMessage → Action World Bool
file_unmatched env msg = do
  on_store (insert_email (inbound_row env msg none none none))
  delete_spooled msg.attachments
  pure true

-- A matched mail: the row is written before any reaction.
unfoldable pub classify_and_react :
    Env → InboundMailMessage → Campaign → EmailThread → Action World Bool
classify_and_react env msg campaign thread =
    attempt (env.classify msg.subject (take classify_body_chars msg.body))
      (λ c. do
        inbound ←
            on_store
              (insert_email (inbound_row env msg (some thread.id) (some campaign.id) (some c)))
        react env campaign thread inbound msg c.category c.referral_email
        delete_spooled msg.attachments
        pure true)
      (except is_classify_error (pure false))

-- The thread and its campaign, where both are known.
abbrev pub pair_up : Option EmailThread → Option Campaign → Option (EmailThread × Campaign)
pair_up (some thread) (some campaign) = some (thread, campaign)
pair_up _ _ = none

unfoldable pub handle_inbound : Env → Text → Action World Bool
handle_inbound env body = do
  msg ← lift (env.inbound_mail.from_json body)
  thread ← match_thread msg
  campaign ← maybe thread (pure none) (λ (t : EmailThread). on_store (get_campaign t.campaign_id))
  seen ←
      on_store (has_message_id (maybe campaign none (λ (c : Campaign). some c.id)) msg.message_id)
  if seen
      then pure true
      else maybe (pair_up thread campaign) (file_unmatched env msg)
          (λ both. classify_and_react env msg both.1 both.0)
