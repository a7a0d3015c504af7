-- ===== src/Records/Store/Emails.antt =====
-- FakeRecordsStore, emails. The keyword arguments of `insert_email` come as a row, whose id the
-- store replaces by its next one.
use dialogue_microservices.Prelude.{
  ℕ, suc, List, Option, none, some, Bool, true, false, ◌&&◌, Text, any, filter, find, leb, sort_by,
  maybe, if◌then◌else◌,
}
use dialogue_microservices.Prelude.Dict.{get, put, values}
use dialogue_microservices.Prelude.Action.{Error, Action, pure, raise, gets, modify, require, ◌>>=◌}
use dialogue_microservices.Records.Domain.{
  EmailRecord, OutboundKind, AttachmentRef, is_outbound, same_kind,
}
use dialogue_microservices.Records.Store.State.{Store, same_id, is_text}

unfoldable pub has_source_key : Text → Action Store Bool
unfolding is_text
has_source_key source_key =
    gets (λ s. any (λ (e : EmailRecord). is_text e.source_key source_key) (values s.emails))

unfoldable pub is_message : Option ℕ → Text → EmailRecord → Bool
unfolding is_text same_id
is_message campaign_id message_id e =
    is_text e.message_id message_id && same_id e.campaign_id campaign_id

unfoldable pub has_message_id : Option ℕ → Text → Action Store Bool
unfolding is_message
has_message_id campaign_id message_id =
    gets (λ s. any (is_message campaign_id message_id) (values s.emails))

-- `message_id is not None and self.has_message_id(campaign_id, message_id)`
unfoldable pub is_taken : Option ℕ → Option Text → Store → Bool
unfolding is_message
is_taken campaign_id none s = false
is_taken campaign_id (some message_id) s = any (is_message campaign_id message_id) (values s.emails)

unfoldable pub insert_email : EmailRecord → Action Store EmailRecord
unfolding is_taken
insert_email fields s =
    if is_taken fields.campaign_id fields.message_id s
    then raise Error.unique_violation s
    else (let e = record fields { id = s.next_email } in
        pure e (record s { emails = put s.next_email e s.emails; next_email = suc s.next_email }))

unfoldable pub get_email : ℕ → Action Store (Option EmailRecord)
get_email email_id = gets (λ s. get s.emails email_id)

unfoldable pub update_attachment_refs : ℕ → List AttachmentRef → Action Store Unit
update_attachment_refs email_id refs = do
  e ← require Error.key_error (λ s. get s.emails email_id)
  modify (λ s. record s { emails = put email_id (record e { attachment_refs = refs }) s.emails })

-- The first of the sorted outbound emails of the thread.
unfoldable pub first_outbound_subject : ℕ → Action Store (Option Text)
unfolding same_id is_outbound
first_outbound_subject thread_id = gets (λ s.
    let outbound =
      sort_by (λ (a b : EmailRecord). leb a.id b.id)
        (filter
          (λ (e : EmailRecord). same_id e.thread_id (some thread_id) && is_outbound e.direction)
          (values s.emails)) in
    maybe (find (λ (e : EmailRecord). true) outbound) none (λ e. some e.subject))

unfoldable pub is_reply_to : ℕ → ℕ → OutboundKind → EmailRecord → Bool
unfolding same_id is_outbound same_kind
is_reply_to thread_id inbound_email_id kind e =
    same_id e.thread_id (some thread_id)
    && is_outbound e.direction
    && maybe e.kind false (λ k. same_kind k kind)
    && same_id e.in_reply_to_email_id (some inbound_email_id)

unfoldable pub outbound_reply_exists : ℕ → ℕ → OutboundKind → Action Store Bool
unfolding is_reply_to
outbound_reply_exists thread_id inbound_email_id kind =
    gets (λ s. any (is_reply_to thread_id inbound_email_id kind) (values s.emails))

unfoldable pub list_emails : Option ℕ → Option ℕ → Action Store (List EmailRecord)
unfolding same_id
list_emails thread_id campaign_id = gets (λ s.
    sort_by (λ (a b : EmailRecord). leb a.id b.id)
      (filter
        (λ (e : EmailRecord).
          maybe thread_id true (λ t. same_id e.thread_id (some t))
          && maybe campaign_id true (λ c. same_id e.campaign_id (some c)))
        (values s.emails)))
