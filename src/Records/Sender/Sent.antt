-- ===== src/Records/Sender/Sent.antt =====
-- sender.py: what a thread job leaves in the store when it is acknowledged.
use dialogue_microservices.Prelude.{
  take, ℕ, ◌+◌, ◌≡◌, refl, ◌⊎◌, inl, inr, Option, none, some, Bool, true, false, ==_refl, Text, any,
  ltb, maybe, if◌then◌else◌, Bool-cases, Option-cases, if_either,
}
use dialogue_microservices.Prelude.Dict.{get, values, get-put}
use dialogue_microservices.Prelude.Action.{
  Action, Result, Result-cases, ok, err, pure, raise, require, or_raise, modify, gets, lift,
  try_else, err_ne_ok, ◌>>=◌,
}
use dialogue_microservices.Records.Domain.{
  Campaign, EmailThread, OutboundKind, ThreadStatus, check_transition,
}
use dialogue_microservices.Records.Messages.{FollowupJobMessage}
use dialogue_microservices.Records.Store.{
  Store, get_thread, outbound_reply_exists, is_reply_to, record_thread_send, require_thread,
  write_thread, insert_email, is_taken, first_outbound_subject, get_email,
}
use dialogue_microservices.Records.Store.Rows.{any-put, is_reply_to-own}
use dialogue_microservices.Records.Acknowledged.{IfTrue, except-IfTrue}
use dialogue_microservices.Records.World.{next_action_time, Env, World, OutboundEmail, on_store}
use dialogue_microservices.Records.Sender.{
  clarification_context_chars, commit_send, thread_mail, deliver, is_draft_error, is_send_transient,
  send_on_thread, draft_and_send, send_followup, send_reply, reply_kind,
}

-- What the store holds after a send on the thread.
pub record Sent (t : EmailThread) (kind : OutboundKind) (in_reply_to : Option ℕ) (increment : Bool)
    (s s' : Store) : Type 0 where
  pub later : EmailThread
  pub row : get s'.threads t.id ≡ some later
  pub own_id : later.id ≡ t.id
  pub campaign : later.campaign_id ≡ t.campaign_id
  pub counter :
      later.followups_sent ≡ (if increment then t.followups_sent + 1 else t.followups_sent)
  pub campaigns : s'.campaigns ≡ s.campaigns
  pub email :
      (i : ℕ) → in_reply_to ≡ some i → any (is_reply_to t.id i kind) (values s'.emails) ≡ true

module _ (env : Env) (c : Campaign) (t : EmailThread) where
  commit_send-Sent :
      (kind : OutboundKind) (irt at : Option ℕ) (inc : Bool) (m : OutboundEmail) (rid : Option Text)
      (w : World)
      → get w.store.threads t.id ≡ some t
      → IfTrue
          (λ w'. Sent t kind irt inc w.store w'.store)
          (commit_send env c t kind irt at inc m rid w)
  unfolding commit_send record_thread_send require_thread write_thread insert_email is_taken require
      or_raise lift modify raise on_store pure ◌>>=◌
  commit_send-Sent kind irt at inc m rid w there =
      rw there (elim (Result-cases (check_transition t.status ThreadStatus.awaiting_reply false)) [
        | inr (e, refused) ↦ rw refused (λ q. absurd (err_ne_ok q))
        | inl (_, passed) ↦ rw passed (λ q. record {
          later = record t {
            status = ThreadStatus.awaiting_reply;
            next_action_at = at;
            updated_at = some env.now;
            followups_sent = if inc then t.followups_sent + 1 else t.followups_sent;
          };
          row = rw (get-put, ==_refl t.id) refl;
          own_id = refl;
          campaign = refl;
          counter = refl;
          campaigns = refl;
          email = λ i e. any-put _ _ _ _ (is_reply_to-own t.id i kind irt _ e refl refl refl refl);
        })
      ])

  deliver-store : (m : OutboundEmail) (w : World) → (deliver env c m w).1.store ≡ w.store
  unfolding deliver modify lift pure ◌>>=◌
  deliver-store m w =
      if_either (λ (run : Action World (Option Text)). (run w).1.store ≡ w.store) c.config.dry_run _
        _ refl
        (elim (Result-cases (env.transport m)) [
          | inl (rid, sent) ↦ rw sent refl
          | inr (e, failed) ↦ rw failed refl
        ])

  -- Draft, deliver, commit: only the commit touches the store.
  send_on_thread-Sent :
      (draft : Result Text) (subject : Text) (kind : OutboundKind) (irt at : Option ℕ) (inc : Bool)
      (w : World)
      → get w.store.threads t.id ≡ some t
      → IfTrue
          (λ w'. Sent t kind irt inc w.store w'.store)
          (send_on_thread env c t draft subject kind irt at inc w)
  unfolding send_on_thread try_else
  send_on_thread-Sent (err e) subject kind irt at inc w there =
      except-IfTrue (λ w'. Sent t kind irt inc w.store w'.store) is_draft_error e w
  send_on_thread-Sent (ok drafted) subject kind irt at inc w there =
      let m = thread_mail env c t subject drafted in
      elim (Result-cases (deliver env c m w).0) [
        | inl (rid, sent) ↦ rw sent (
            rw (deliver-store m w) at (
              commit_send-Sent kind irt at inc m rid (deliver env c m w).1
                (rw (deliver-store m w) there)))
        | inr (e, failed) ↦ rw failed (
            except-IfTrue (λ w'. Sent t kind irt inc w.store w'.store) is_send_transient e
              (deliver env c m w).1)
      ]

  -- Nothing was done, nor would a run at any other time do anything; or the email was sent and
  -- committed.
  abbrev pub Worked :
      OutboundKind → Option ℕ → Bool → (Env → Result Bool × World) → World → World → Type 0
  Worked kind irt inc run w w' =
      ((w' ≡ w) × ((later : Env) → run later ≡ (ok true, w))) ⊎ Sent t kind irt inc w.store w'.store

  module _ (msg : FollowupJobMessage) (w : World) (there : get w.store.threads t.id ≡ some t) where
    pub send_followup-Worked :
        IfTrue
          (Worked OutboundKind.followup none true (λ later. send_followup later c t.id msg w) w)
          (send_followup env c t.id msg w)
    unfolding send_followup get_thread first_outbound_subject on_store gets pure ◌>>=◌
    send_followup-Worked =
        rw there (elim (Bool-cases (maybe msg.followup_index false (λ i. ltb i t.followups_sent))) [
          | inl past ↦ rw past (λ q. inl (refl, λ later. refl))
          | inr ahead ↦ rw ahead (λ q.
              inr (
                send_on_thread-Sent _ _ OutboundKind.followup none t.next_action_at true w there q))
        ])

    abbrev agreement : OutboundKind → Text → Text → Env → Result Bool × World
    agreement kind subject body later =
        maybe msg.amount_cents (pure true)
          (λ amount.
            send_on_thread later c t
              (later.draft_fee_agreement c amount (take clarification_context_chars body)) subject
              kind msg.inbound_email_id (some (next_action_time later c)) false)
          w

    agreement-Worked :
        (kind : OutboundKind) (subject body : Text)
        → IfTrue
            (Worked kind msg.inbound_email_id false (agreement kind subject body) w)
            (agreement kind subject body env)
    unfolding pure
    agreement-Worked kind subject body = elim (Option-cases msg.amount_cents) [
      | inl nothing ↦ rw nothing (λ q. inl (refl, λ later. refl))
      | inr (a, e) ↦ rw e (λ q. inr (send_on_thread-Sent _ _ kind _ _ false w there q))
    ]

    draft_and_send-Worked :
        (kind : OutboundKind) (subject body : Text)
        → IfTrue
            (Worked kind msg.inbound_email_id false
              (λ later. draft_and_send later c t msg kind subject body w)
              w)
            (draft_and_send env c t msg kind subject body w)
    unfolding draft_and_send
    draft_and_send-Worked OutboundKind.clarification_reply subject body =
        λ q. inr (send_on_thread-Sent _ _ OutboundKind.clarification_reply _ _ false w there q)
    draft_and_send-Worked OutboundKind.initial_request subject body =
        agreement-Worked _ subject body
    draft_and_send-Worked OutboundKind.followup subject body = agreement-Worked _ subject body
    draft_and_send-Worked OutboundKind.fee_agreement subject body = agreement-Worked _ subject body

    reads_reply :
        (o : Option ℕ) (i : ℕ) (kind : OutboundKind)
        → o ≡ some i
        → maybe o (pure false) (λ n. on_store (outbound_reply_exists t.id n kind)) w
          ≡ (ok (any (is_reply_to t.id i kind) (values w.store.emails)), w)
    unfolding outbound_reply_exists on_store gets
    reads_reply o i kind given = rw given refl

    reads_mail :
        (o : Option ℕ) (i : ℕ)
        → o ≡ some i
        → maybe o (pure none) (λ n. on_store (get_email n)) w ≡ (ok (get w.store.emails i), w)
    unfolding get_email on_store gets
    reads_mail o i given = rw given refl

    pub send_reply-Worked :
        (i : ℕ)
        → msg.inbound_email_id ≡ some i
        → IfTrue
            (Worked
              (reply_kind msg.kind)
              msg.inbound_email_id
              false
              (λ later. send_reply later c t.id msg w)
              w)
            (send_reply env c t.id msg w)
    unfolding send_reply get_thread on_store gets pure ◌>>=◌
    send_reply-Worked i mail =
        let asked = reads_reply msg.inbound_email_id i (reply_kind msg.kind) mail in
        elim (Bool-cases (any (is_reply_to t.id i (reply_kind msg.kind)) (values w.store.emails))) [
          | inl found ↦ rw (there, asked, found) (λ q. inl (refl, λ later. refl))
          | inr missing ↦
              rw (there, asked, missing, reads_mail msg.inbound_email_id i mail)
                (draft_and_send-Worked (reply_kind msg.kind) _ _)
        ]
