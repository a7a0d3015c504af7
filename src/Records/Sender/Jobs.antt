-- ===== src/Records/Sender/Jobs.antt =====
-- sender.py, `handle_followup_job`: follow-ups and replies on a thread.
use dialogue_microservices.Prelude.{
  ℕ, ◌+◌, ◌*◌, [], ◌∷◌, Option, none, some, Bool, true, false, not, Text, take, ltb, maybe,
  if◌then◌else◌,
}
use dialogue_microservices.Prelude.Action.{
  Error, Action, Result, pure, raise, lift, ◌>>=◌, ◌>>◌, attempt, try_else,
}
use dialogue_microservices.Records.Domain.{
  Campaign, EmailThread, EmailRecord, ThreadStatus, OutboundKind, is_open,
}
use dialogue_microservices.Records.Messages.{FollowupJobMessage, FollowupKind}
use dialogue_microservices.Records.Store.{
  get_campaign, get_thread, get_email, first_outbound_subject, outbound_reply_exists,
  record_thread_send,
}
use dialogue_microservices.Records.World.{
  Env, World, OutboundEmail, on_store, except, next_action_time,
}
use dialogue_microservices.Records.Sender.Mail.{
  token_header, deliver, or_default, default_subject, reply_subject, is_draft_error,
  is_send_transient,
}

-- `CLARIFICATION_CONTEXT_CHARS`
abbrev pub clarification_context_chars : ℕ
clarification_context_chars = 4000

module _ (env : Env) (campaign : Campaign) (thread : EmailThread) where
  unfoldable pub thread_mail : Text → Text → OutboundEmail
  thread_mail subject drafted = record {
    from_address = env.from_address;
    to_address = thread.contact_email;
    subject = reply_subject subject thread.thread_token;
    body = drafted;
    headers = (token_header, thread.thread_token) ∷ [];
  }

  -- The commit of a delivered email on the thread.
  unfoldable pub commit_send :
      OutboundKind → Option ℕ → Option ℕ → Bool → OutboundEmail → Option Text → Action World Bool
  commit_send kind in_reply_to next_action_at increment email resend_id = do
    on_store (
        record_thread_send (record {
          thread_id = thread.id;
          kind = kind;
          from_address = email.from_address;
          to_address = email.to_address;
          subject = email.subject;
          body = email.body;
          resend_id = resend_id;
          in_reply_to_email_id = in_reply_to;
          new_status = ThreadStatus.awaiting_reply;
          next_action_at = next_action_at;
          increment_followups = increment;
          now = env.now;
        }))
    pure true

  -- Draft, deliver, commit.
  unfoldable pub send_on_thread :
      Result Text → Text → OutboundKind → Option ℕ → Option ℕ → Bool → Action World Bool
  send_on_thread draft subject kind in_reply_to next_action_at increment =
      attempt draft
        (λ drafted.
          let email = thread_mail subject drafted in
          try_else (deliver env campaign email)
            (commit_send kind in_reply_to next_action_at increment email)
            (except is_send_transient (pure false)))
        (except is_draft_error (pure false))

-- `_send_followup`; the thread is read again, and `assert thread is not None`
unfoldable pub send_followup : Env → Campaign → ℕ → FollowupJobMessage → Action World Bool
send_followup env campaign thread_id msg = do
  known_thread ← on_store (get_thread thread_id)
  maybe known_thread (raise Error.assertion_error) λ thread.
      if maybe msg.followup_index false (λ i. ltb i thread.followups_sent) then pure true else do
        first_subject ← on_store (first_outbound_subject thread.id)
        let subject =
            or_default (maybe first_subject [] (λ t. t)) (default_subject thread.thread_token)
        let interval = campaign.config.limits.followup_interval_days
        send_on_thread env campaign thread
            (env.draft_followup campaign subject (interval * (thread.followups_sent + 1))) subject
            OutboundKind.followup none thread.next_action_at true

-- The kind of a reply: anything but a clarification is a fee agreement.
unfoldable pub reply_kind : FollowupKind → OutboundKind
reply_kind FollowupKind.clarification_reply = OutboundKind.clarification_reply
reply_kind FollowupKind.followup = OutboundKind.fee_agreement
reply_kind FollowupKind.fee_agreement = OutboundKind.fee_agreement

-- From the draft of a reply on; a fee agreement without an amount is dropped.
unfoldable pub draft_and_send :
    Env
    → Campaign
    → EmailThread
    → FollowupJobMessage
    → OutboundKind
    → Text
    → Text
    → Action World Bool
draft_and_send env campaign thread msg OutboundKind.clarification_reply subject body =
    send_on_thread env campaign thread
      (env.draft_clarification campaign (take clarification_context_chars body)) subject
      OutboundKind.clarification_reply msg.inbound_email_id (some (next_action_time env campaign))
      false
draft_and_send env campaign thread msg kind subject body =
    maybe msg.amount_cents (pure true) λ amount.
      send_on_thread env campaign thread
        (env.draft_fee_agreement campaign amount (take clarification_context_chars body)) subject
        kind msg.inbound_email_id (some (next_action_time env campaign)) false

-- `_send_reply`
unfoldable pub send_reply : Env → Campaign → ℕ → FollowupJobMessage → Action World Bool
send_reply env campaign thread_id msg = do
  known_thread ← on_store (get_thread thread_id)
  maybe known_thread (raise Error.assertion_error) λ thread. do
    let kind = reply_kind msg.kind
    answered ←
        maybe msg.inbound_email_id (pure false)
          (λ i. on_store (outbound_reply_exists thread.id i kind))
    if answered then pure true else do
      inbound ← maybe msg.inbound_email_id (pure none) (λ i. on_store (get_email i))
      draft_and_send env campaign thread msg kind
          (maybe inbound [] (λ (e : EmailRecord). e.subject))
          (maybe inbound [] (λ (e : EmailRecord). e.body))

unfoldable pub is_followup : FollowupKind → Bool
is_followup FollowupKind.followup = true
is_followup _ = false

unfoldable pub handle_followup_job : Env → Text → Action World Bool
handle_followup_job env body = do
  msg ← lift (env.followup_job.from_json body)
  known_thread ← on_store (get_thread msg.thread_id)
  maybe known_thread (pure true) λ thread. do
    known_campaign ← on_store (get_campaign thread.campaign_id)
    maybe known_campaign (pure true) λ campaign.
        if not (is_open thread.status)
        then pure true
        else if is_followup msg.kind
        then send_followup env campaign thread.id msg
        else send_reply env campaign thread.id msg
