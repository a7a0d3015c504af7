-- ===== src/Records/World.antt =====
-- records/src/public_records/world.py. `World` is what the handlers write to; `Env` is what they
-- call and cannot change: the clock, which stands still during one call of a handler, the random
-- source, the language models, the mail transport, the hash and the message formats. Code outside
-- the repository answers as any function may, so each of its answers is a parameter.
use dialogue_microservices.Prelude.{
  ◌≡◌, ℕ, ◌+◌, ◌*◌, List, Option, none, Bool, true, false, Text, take, maybe,
}
use dialogue_microservices.Prelude.Action.{Error, Result, ok, Action, pure, modify, ◌>>◌, try_else}
use dialogue_microservices.Core.Queue
use dialogue_microservices.Core.Queue.{Queue}
use dialogue_microservices.Core.KeyValue.{KeyValue}
use dialogue_microservices.Core.ObjectStore.{ObjectStore}
use dialogue_microservices.Records.Domain.{
  Campaign, Jurisdiction, EscalationReason, ThreadStatus, Classification,
}
use dialogue_microservices.Records.Messages.{
  SearchQueryMessage, ContactMessage, FollowupJobMessage, InboundMailMessage,
}
use dialogue_microservices.Records.Store.{Store, insert_escalation, set_thread_status}
unfoldable pub use dialogue_microservices.Prelude.Action.{except, is_unique_violation}

-- `OutboundEmail` of ports.py; the headers are pairs of a name and a value.
pub record OutboundEmail : Type 0 where
  pub from_address : Text
  pub to_address : Text
  pub subject : Text
  pub body : Text
  pub headers : List (Text × Text)

-- What pydantic does for one message schema: `to_json`, and `from_json`, which may raise.
pub record Codec (M : Type 0) : Type 0 where
  pub to_json : M → Text
  pub from_json : Text → Result M

-- A written message reads back as itself.
pub record IsRoundTrip {M : Type 0} (c : Codec M) : Type 0 where
  pub reads_back : (m : M) → c.from_json (c.to_json m) ≡ ok m

-- What a census source knows of one state, and what `parse_mime` finds in a raw mail.
pub record Place : Type 0 where
  pub name : Text
  pub level : Text
  pub parent_name : Option Text

pub record StateData : Type 0 where
  pub state_name : Text
  pub places : List Place

pub record ParsedAttachment : Type 0 where
  pub filename : Text
  pub content_type : Text
  pub payload : List ℕ

pub record ParsedMail : Type 0 where
  pub message_id : Option Text
  pub from_address : Text
  pub subject : Text
  pub body : Text
  pub headers : List (Text × Text)
  pub attachments : List ParsedAttachment

-- The answers from outside; the hash, the coding and the MIME parser are taken to raise nothing.
pub record Env : Type 0 where
  pub now : ℕ
  pub token_hex : Text
  pub from_address : Text
  pub draft_initial : Campaign → Jurisdiction → Result Text
  pub draft_followup : Campaign → Text → ℕ → Result Text
  pub draft_clarification : Campaign → Text → Result Text
  pub draft_fee_agreement : Campaign → ℕ → Text → Result Text
  pub classify : Text → Text → Result Classification
  pub generate_queries : Jurisdiction → Text → Result (List Text)
  pub transport : OutboundEmail → Result Text
  pub hexdigest : List ℕ → Text
  pub encode : Text → List ℕ
  pub parse_mime : List ℕ → ParsedMail
  pub mail_bucket : ObjectStore
  pub census : Option (Text → Result StateData)
  pub search_query : Codec SearchQueryMessage
  pub contact : Codec ContactMessage
  pub followup_job : Codec FollowupJobMessage
  pub inbound_mail : Codec InboundMailMessage

-- `submitted` are the emails handed to the transport so far.
pub record World : Type 0 where
  pub store : Store
  pub kv : KeyValue
  pub documents : ObjectStore
  pub search_queue : Queue
  pub contacts_queue : Queue
  pub followups_queue : Queue
  pub inbound_queue : Queue
  pub submitted : List OutboundEmail

-- A call of a method of `world.store`.
unfoldable pub on_store : {A : Type 0} → Action Store A → Action World A
on_store m w = let (r, s') = m w.store in (r, record w { store = s' })

unfoldable pub on_documents : {A : Type 0} → Action ObjectStore A → Action World A
on_documents m w = let (r, o') = m w.documents in (r, record w { documents = o' })

unfoldable pub on_kv : {A : Type 0} → (KeyValue → A × KeyValue) → Action World A
on_kv m w = let (a, kv') = m w.kv in (ok a, record w { kv = kv' })

unfoldable pub send_contact : Env → ContactMessage → Action World Unit
send_contact env m =
    modify (λ w. record w { contacts_queue = Queue.send (env.contact.to_json m) w.contacts_queue })

unfoldable pub send_followup_job : Env → FollowupJobMessage → Action World Unit
send_followup_job env m =
    modify (λ w. record w {
      followups_queue = Queue.send (env.followup_job.to_json m) w.followups_queue;
    })

unfoldable pub send_search_query : Env → SearchQueryMessage → Action World Unit
send_search_query env m =
    modify (λ w. record w { search_queue = Queue.send (env.search_query.to_json m) w.search_queue })

unfoldable pub is_illegal_transition : Error → Bool
is_illegal_transition Error.illegal_transition = true
is_illegal_transition _ = false

-- `ESCALATION_DETAIL_CHARS`, and a day in microseconds
abbrev pub escalation_detail_chars : ℕ
escalation_detail_chars = 2000

abbrev pub day : ℕ
day = 86400000000

-- `if thread_id is not None: …`, the second half of `escalate`
unfoldable pub park_thread : ℕ → Action World Unit
park_thread thread_id =
    try_else (on_store (set_thread_status thread_id ThreadStatus.needs_human none false)) pure
      (except is_illegal_transition (pure tt))

unfoldable pub escalate : Env → Option ℕ → Option ℕ → EscalationReason → Text → Action World Unit
escalate env campaign_id thread_id reason details = do
  on_store (
      insert_escalation campaign_id thread_id reason (take escalation_detail_chars details) env.now)
  maybe thread_id (pure tt) park_thread

unfoldable pub next_action_time : Env → Campaign → ℕ
next_action_time env campaign = env.now + campaign.config.limits.followup_interval_days * day
