-- ===== src/Records/Sender/Contact.antt =====
-- sender.py, `handle_contact`: the initial request to one office.
use dialogue_microservices.Prelude.{
  ℕ, ◌+◌, ◌*◌, List, [], ◌∷◌, Option, none, some, Bool, true, false, not, ◌&&◌, Text, codes, any,
  text_eq, fstring, ltb, leb, maybe, if◌then◌else◌,
}
use dialogue_microservices.Prelude.Action.{Action, pure, lift, ◌>>=◌, ◌>>◌, attempt, try_else}
use dialogue_microservices.Records.Domain.{
  Campaign, Jurisdiction, EscalationReason, ThreadStatus, same_status,
}
use dialogue_microservices.Records.Domain.Config.{is_test}
use dialogue_microservices.Records.Messages.{ContactMessage}
use dialogue_microservices.Records.Store.{
  get_campaign, get_jurisdiction, find_thread, count_outbound_since, record_initial_send,
}
use dialogue_microservices.Records.World.{
  Env, World, OutboundEmail, on_store, escalate, except, next_action_time, day,
}
use dialogue_microservices.Records.Sender.Mail.{
  utc_midnight, assemble_body, token_header, deliver, is_draft_error, is_send_transient,
}

-- `ANON_BLOCKED_STATES` of constants.py
abbrev pub anon_blocked_states : List Text
anon_blocked_states =
    codes "AL" ∷ codes "AR" ∷ codes "TN" ∷ codes "VA" ∷ codes "DE" ∷ codes "NJ" ∷ codes "KY" ∷ []

unfoldable pub is_blocked : Campaign → Jurisdiction → Bool
is_blocked campaign jurisdiction =
    campaign.config.requester.anonymous && any (text_eq jurisdiction.state) anon_blocked_states

-- gate 3: the office was contacted less than the cooldown ago, and the message may not pass over it
unfoldable pub is_cooling : Env → ContactMessage → Campaign → Jurisdiction → Bool
is_cooling env msg campaign jurisdiction =
    not msg.bypass_cooldown
    && maybe jurisdiction.last_contacted_at false
        (λ at. ltb env.now (at + campaign.config.limits.per_office_cooldown_days * day))

unfoldable pub initial_subject : Campaign → Jurisdiction → Text → Text
initial_subject campaign jurisdiction thread_token = fstring (
    codes "Public Records Request — "
    ∷ campaign.config.record_type
    ∷ codes " — "
    ∷ jurisdiction.name
    ∷ codes ", "
    ∷ jurisdiction.state
    ∷ codes " [DLG-"
    ∷ thread_token
    ∷ codes "]"
    ∷ [])

unfoldable pub refusal : Jurisdiction → Text
refusal jurisdiction = fstring (
    codes "Anonymous request refused: "
    ∷ jurisdiction.state
    ∷ codes " requires requester identity ("
    ∷ jurisdiction.name
    ∷ codes "). Set requester.anonymous=false or drop this jurisdiction."
    ∷ [])

module _ (env : Env) (msg : ContactMessage) (campaign : Campaign)
    (jurisdiction : Jurisdiction) where
  unfoldable pub initial_mail : Text → Text → OutboundEmail
  initial_mail thread_token drafted = record {
    from_address = env.from_address;
    to_address = msg.contact_email;
    subject = initial_subject campaign jurisdiction thread_token;
    body = assemble_body campaign drafted env.from_address;
    headers = (token_header, thread_token) ∷ [];
  }

  -- The commit of a delivered request.
  unfoldable pub commit_initial : Option ℕ → Text → OutboundEmail → Option Text → Action World Bool
  commit_initial existing_thread_id thread_token email resend_id = do
    on_store (
        record_initial_send (record {
          campaign_id = campaign.id;
          jurisdiction_id = jurisdiction.id;
          thread_token = thread_token;
          contact_email = msg.contact_email;
          parent_thread_id = msg.parent_thread_id;
          existing_thread_id = existing_thread_id;
          from_address = env.from_address;
          to_address = msg.contact_email;
          subject = email.subject;
          body = email.body;
          resend_id = resend_id;
          next_action_at = next_action_time env campaign;
          now = env.now;
          stamp_cooldown = not (is_test campaign.config);
        }))
    pure true

  -- Draft, deliver, commit.
  unfoldable pub send_initial : Option ℕ → Text → Action World Bool
  send_initial existing_thread_id thread_token =
      attempt (env.draft_initial campaign jurisdiction)
        (λ drafted.
          let email = initial_mail thread_token drafted in
          try_else (deliver env campaign email)
            (commit_initial existing_thread_id thread_token email)
            (except is_send_transient (pure false)))
        (except is_draft_error (pure false))

  -- gate 4: a per-target refusal
  unfoldable pub refuse : Option ℕ → Action World Bool
  refuse existing_thread_id = do
    escalate env (some campaign.id) existing_thread_id EscalationReason.other (refusal jurisdiction)
    pure true

  -- The four gates, in order.
  unfoldable pub contact_gates : Option ℕ → Text → Action World Bool
  contact_gates existing_thread_id thread_token =
      if not (campaign.config.requester.consent_confirmed && campaign.active) then pure true else do
        sent ← on_store (count_outbound_since campaign.id (utc_midnight env.now))
        if leb campaign.config.limits.daily_send_cap sent
            then pure false
            else if is_cooling env msg campaign jurisdiction
            then pure false
            else if is_blocked campaign jurisdiction
            then refuse existing_thread_id
            else send_initial existing_thread_id thread_token

-- An existing thread that waits to be sent is a human-approved re-entry, and does send.
unfoldable pub handle_contact : Env → Text → Action World Bool
handle_contact env body = do
  msg ← lift (env.contact.from_json body)
  known_campaign ← on_store (get_campaign msg.campaign_id)
  maybe known_campaign (pure true) λ campaign. do
    known_jurisdiction ← on_store (get_jurisdiction msg.jurisdiction_id)
    maybe known_jurisdiction (pure true) λ jurisdiction. do
      existing ← on_store (find_thread campaign.id jurisdiction.id msg.contact_email)
      maybe existing (contact_gates env msg campaign jurisdiction none env.token_hex) λ thread.
          if not (same_status thread.status ThreadStatus.pending_send)
          then pure true
          else contact_gates env msg campaign jurisdiction (some thread.id) thread.thread_token
