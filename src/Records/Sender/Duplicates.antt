-- ===== src/Records/Sender/Duplicates.antt =====
-- Thread jobs that are delivered again: sender.py, `handle_followup_job`.
use dialogue_microservices.Prelude.{
  ℕ, ◌<◌, ◌≤◌, ◌≡◌, ◌∙◌, ap, refl, sym, ◌⊎◌, inl, inr, none, some, Bool, true, false, Text, any,
  arith, ltb, if◌then◌else◌, Bool-cases, Option-cases,
}
use dialogue_microservices.Prelude.Dict.{get, values}
use dialogue_microservices.Prelude.Action.{Result, ok, pure, gets, lift, ◌>>=◌}
use dialogue_microservices.Records.Domain.{Campaign, EmailThread, OutboundKind, is_open}
use dialogue_microservices.Records.Messages.{FollowupJobMessage}
use dialogue_microservices.Records.Store.{
  Store, get_thread, get_campaign, outbound_reply_exists, is_reply_to,
}
use dialogue_microservices.Records.Sender.Sent.{Sent, send_followup-Worked, send_reply-Worked}
use dialogue_microservices.Records.Acknowledged.{IfTrue}
use dialogue_microservices.Records.World.{Env, World, on_store}
use dialogue_microservices.Records.Sender.{
  handle_followup_job, send_followup, send_reply, is_followup, reply_kind,
}

-- A job whose work is done: a follow-up whose index is behind the counter of its thread, or an
-- answer to a mail that an outbound email of that kind already answers.
data IsDone (s : Store) (t : EmailThread) (msg : FollowupJobMessage) : Type 0 where
  behind :
      (i : ℕ)
      → is_followup msg.kind ≡ true
      → msg.followup_index ≡ some i
      → i < t.followups_sent
      → IsDone s t msg
  answered :
      (i : ℕ)
      → is_followup msg.kind ≡ false
      → msg.inbound_email_id ≡ some i
      → any (is_reply_to t.id i (reply_kind msg.kind)) (values s.emails) ≡ true
      → IsDone s t msg

module _ (env : Env) (body : Text) (w : World) (msg : FollowupJobMessage) (t : EmailThread)
    (c : Campaign) where
  dispatched :
      get w.store.threads t.id ≡ some t
      → IsDone w.store t msg
      → (if is_followup msg.kind then send_followup env c t.id msg else send_reply env c t.id msg) w
        ≡ (ok true, w)
  unfolding send_followup send_reply get_thread outbound_reply_exists on_store gets pure ◌>>=◌
  dispatched there (behind i kind index lower) =
      let earlier : ltb i t.followups_sent ≡ true = ground arith in
      rw (kind, there, index, earlier) refl
  dispatched there (answered i kind mail found) = rw (kind, there, mail, found) refl

  -- A job whose work is done.
  handle_followup_job-IsDone :
      env.followup_job.from_json body ≡ ok msg
      → get w.store.threads msg.thread_id ≡ some t
      → t.id ≡ msg.thread_id
      → get w.store.campaigns t.campaign_id ≡ some c
      → IsDone w.store t msg
      → handle_followup_job env body w ≡ (ok true, w)
  unfolding handle_followup_job get_thread get_campaign on_store gets lift pure ◌>>=◌
  handle_followup_job-IsDone decoded there same known done =
      rw (decoded, there, known)
        (elim (Bool-cases (is_open t.status)) [
          | inl is_waiting ↦ rw is_waiting (dispatched (ap (get w.store.threads) same ∙ there) done)
          | inr closed ↦ rw closed refl
        ])

-- A job as the orchestrator and the receiver write them: a follow-up for a turn that the thread has
-- reached, or the answer to one mail.
pub data IsAddressed (t : EmailThread) (msg : FollowupJobMessage) : Type 0 where
  turn :
      (i : ℕ)
      → is_followup msg.kind ≡ true
      → msg.followup_index ≡ some i
      → i ≤ t.followups_sent
      → IsAddressed t msg
  answer :
      (i : ℕ) → is_followup msg.kind ≡ false → msg.inbound_email_id ≡ some i → IsAddressed t msg

module _ (env : Env) (body : Text) (w : World) (msg : FollowupJobMessage) (t : EmailThread)
    (decoded : env.followup_job.from_json body ≡ ok msg)
    (there : get w.store.threads msg.thread_id ≡ some t) (same : t.id ≡ msg.thread_id) where
  abbrev first_run : Result Bool × World
  first_run = handle_followup_job env body w

  -- What makes the job done in a later world.
  record DoneIn (w' : World) : Type 0 where
    later : EmailThread
    row : get w'.store.threads t.id ≡ some later
    own_id : later.id ≡ t.id
    campaign : later.campaign_id ≡ t.campaign_id
    campaigns : w'.store.campaigns ≡ w.store.campaigns
    done : IsDone w'.store later msg

  after_turn :
      (i : ℕ) (w' : World)
      → is_followup msg.kind ≡ true
      → msg.followup_index ≡ some i
      → i ≤ t.followups_sent
      → Sent t OutboundKind.followup none true w.store w'.store
      → DoneIn w'
  after_turn i w' kind index reached sent = record {
    later = sent.later;
    row = sent.row;
    own_id = sent.own_id;
    campaign = sent.campaign;
    campaigns = sent.campaigns;
    done = behind i kind index (let n = sent.counter in omega arith);
  }

  after_answer :
      (i : ℕ) (w' : World)
      → is_followup msg.kind ≡ false
      → msg.inbound_email_id ≡ some i
      → Sent t (reply_kind msg.kind) msg.inbound_email_id false w.store w'.store
      → DoneIn w'
  after_answer i w' kind mail sent = record {
    later = sent.later;
    row = sent.row;
    own_id = sent.own_id;
    campaign = sent.campaign;
    campaigns = sent.campaigns;
    done = answered i kind mail (rw sent.own_id (sent.email i mail));
  }

  own_row : get w.store.threads t.id ≡ some t
  own_row = ap (get w.store.threads) same ∙ there

  either_way : {A A' B B' : Type 0} → (A → A') → (B → B') → A ⊎ B → A' ⊎ B'
  either_way f g (inl a) = inl (f a)
  either_way f g (inr b) = inr (g b)

  abbrev dispatch : Campaign → Env → Result Bool × World
  dispatch c later =
      (if is_followup msg.kind then send_followup later c t.id msg else send_reply later c t.id msg)
        w

  dispatched-DoneIn :
      (c : Campaign)
      → IsAddressed t msg
      → IfTrue
          (λ w'. ((w' ≡ w) × ((later : Env) → dispatch c later ≡ (ok true, w))) ⊎ DoneIn w')
          (dispatch c env)
  dispatched-DoneIn c (turn i kind index reached) = rw kind (λ q.
      either_way (λ still. still) (after_turn i _ kind index reached)
        (send_followup-Worked env c t msg w own_row q))
  dispatched-DoneIn c (answer i kind mail) = rw kind (λ q.
      either_way (λ still. still) (after_answer i _ kind mail)
        (send_reply-Worked env c t msg w own_row i mail q))

  first_run-DoneIn :
      IsAddressed t msg
      → IfTrue
          (λ w'.
            ((w' ≡ w)
              × ((later : Env)
                  → later.followup_job.from_json body ≡ ok msg
                  → handle_followup_job later body w ≡ (ok true, w)))
            ⊎ (DoneIn w' × ((c : Campaign) × (get w.store.campaigns t.campaign_id ≡ some c))))
          first_run
  unfolding handle_followup_job get_thread get_campaign on_store gets lift pure ◌>>=◌
  first_run-DoneIn addressed =
      rw (decoded, there)
        (elim (Option-cases (get w.store.campaigns t.campaign_id)) [
          | inl unknown ↦ rw unknown (λ q. inl (refl, λ later d. rw (d, there, unknown) refl))
          | inr (c, known) ↦ rw known (elim (Bool-cases (is_open t.status)) [
            | inr closed ↦ rw closed (λ q. inl (refl, λ later d. rw (d, there, known, closed) refl))
            | inl is_waiting ↦ rw is_waiting (λ q.
                either_way
                  (λ still. (still.0, λ later d. rw (d, there, known, is_waiting) (still.1 later)))
                  (λ done. (done, (c, refl))) (dispatched-DoneIn c addressed q))
          ])
        ])

  -- A job is worked once: where its first delivery is acknowledged, a second delivery, at whatever
  -- time and with whatever answers from outside, is acknowledged too and changes nothing, so it sends
  -- no second email. The row of the thread carries its own id, and the job is a follow-up of a turn
  -- that the thread has reached, or the answer to one mail.
  pub handle_followup_job-again :
      (later : Env)
      → later.followup_job.from_json body ≡ ok msg
      → IsAddressed t msg
      → first_run.0 ≡ ok true
      → handle_followup_job later body first_run.1 ≡ (ok true, first_run.1)
  handle_followup_job-again later again addressed returned =
      elim (first_run-DoneIn addressed returned) [
        | inl (still, unworked) ↦ rw still (unworked later again)
        | inr (d, (c, known)) ↦
            handle_followup_job-IsDone later body first_run.1 msg d.later c again
              (ap (get first_run.1.store.threads) (sym same) ∙ d.row) (d.own_id ∙ same)
              (rw (d.campaign, d.campaigns) known) d.done
      ]
