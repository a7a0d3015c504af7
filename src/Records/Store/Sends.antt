-- ===== src/Records/Store/Sends.antt =====
-- FakeRecordsStore, the composite send commits. Their keyword arguments come as a record.
use dialogue_microservices.Prelude.{
  ℕ, suc, ◌+◌, [], Option, none, some, Bool, false, Text, text_eq, any, maybe, if◌then◌else◌,
}
use dialogue_microservices.Prelude.Dict.{put, values}
use dialogue_microservices.Prelude.Action.{Error, Action, pure, raise, lift, ◌>>=◌, ◌>>◌}
use dialogue_microservices.Records.Domain.{
  EmailThread, EmailRecord, ThreadStatus, EmailDirection, OutboundKind, check_transition,
}
use dialogue_microservices.Records.Store.State.{Store}
use dialogue_microservices.Records.Store.Jurisdictions.{stamp_last_contacted}
use dialogue_microservices.Records.Store.Threads.{require_thread, write_thread}
use dialogue_microservices.Records.Store.Emails.{insert_email}

pub record InitialSend : Type 0 where
  pub campaign_id : ℕ
  pub jurisdiction_id : ℕ
  pub thread_token : Text
  pub contact_email : Text
  pub parent_thread_id : Option ℕ
  pub existing_thread_id : Option ℕ
  pub from_address : Text
  pub to_address : Text
  pub subject : Text
  pub body : Text
  pub resend_id : Option Text
  pub next_action_at : ℕ
  pub now : ℕ
  pub stamp_cooldown : Bool

pub record ThreadSend : Type 0 where
  pub thread_id : ℕ
  pub kind : OutboundKind
  pub from_address : Text
  pub to_address : Text
  pub subject : Text
  pub body : Text
  pub resend_id : Option Text
  pub in_reply_to_email_id : Option ℕ
  pub new_status : ThreadStatus
  pub next_action_at : Option ℕ
  pub increment_followups : Bool
  pub now : ℕ

-- `EmailThread(id=next(…), …)`, put into the table, unless the token is taken
unfoldable pub insert_thread : InitialSend → Action Store EmailThread
insert_thread a s =
    if any (λ (t : EmailThread). text_eq t.thread_token a.thread_token) (values s.threads)
    then raise Error.unique_violation s
    else (let thread : EmailThread = record {
      id = s.next_thread;
      campaign_id = a.campaign_id;
      jurisdiction_id = a.jurisdiction_id;
      thread_token = a.thread_token;
      contact_email = a.contact_email;
      status = ThreadStatus.request_sent;
      parent_thread_id = a.parent_thread_id;
      followups_sent = 0;
      next_action_at = some a.next_action_at;
      attachment_keys = [];
      notes = [];
      created_at = some a.now;
      updated_at = some a.now;
    } in
        pure thread (record s {
          threads = put s.next_thread thread s.threads;
          next_thread = suc s.next_thread;
        }))

-- The human-approved re-entry of a thread that waits to be sent.
unfoldable pub reopen_thread : InitialSend → ℕ → Action Store EmailThread
unfolding require_thread write_thread
reopen_thread a thread_id = do
  t ← require_thread thread_id
  lift (check_transition t.status ThreadStatus.request_sent false)
  let t' = record t {
    status = ThreadStatus.request_sent;
    contact_email = a.contact_email;
    next_action_at = some a.next_action_at;
    updated_at = some a.now;
  }
  write_thread thread_id t'
  pure t'

abbrev pub initial_email : InitialSend → EmailThread → EmailRecord
initial_email a thread = record {
  id = 0;
  thread_id = some thread.id;
  campaign_id = some a.campaign_id;
  direction = EmailDirection.outbound;
  from_address = a.from_address;
  to_address = a.to_address;
  subject = a.subject;
  body = a.body;
  kind = some OutboundKind.initial_request;
  classification = none;
  message_id = none;
  source_key = none;
  resend_id = a.resend_id;
  in_reply_to_email_id = none;
  attachment_refs = [];
  created_at = some a.now;
}

unfoldable pub record_initial_send : InitialSend → Action Store (EmailThread × EmailRecord)
unfolding insert_thread reopen_thread insert_email stamp_last_contacted
record_initial_send a = do
  thread ← maybe a.existing_thread_id (insert_thread a) (reopen_thread a)
  email ← insert_email (initial_email a thread)
  if a.stamp_cooldown then stamp_last_contacted a.jurisdiction_id a.now else pure tt
  pure (thread, email)

abbrev pub thread_email : ThreadSend → EmailThread → EmailRecord
thread_email a thread = record {
  id = 0;
  thread_id = some a.thread_id;
  campaign_id = some thread.campaign_id;
  direction = EmailDirection.outbound;
  from_address = a.from_address;
  to_address = a.to_address;
  subject = a.subject;
  body = a.body;
  kind = some a.kind;
  classification = none;
  message_id = none;
  source_key = none;
  resend_id = a.resend_id;
  in_reply_to_email_id = a.in_reply_to_email_id;
  attachment_refs = [];
  created_at = some a.now;
}

unfoldable pub record_thread_send : ThreadSend → Action Store EmailRecord
unfolding require_thread write_thread insert_email
record_thread_send a = do
  thread ← require_thread a.thread_id
  lift (check_transition thread.status a.new_status false)
  email ← insert_email (thread_email a thread)
  write_thread a.thread_id (record thread {
    status = a.new_status;
    next_action_at = a.next_action_at;
    updated_at = some a.now;
    followups_sent =
        if a.increment_followups then thread.followups_sent + 1 else thread.followups_sent;
  })
  pure email
