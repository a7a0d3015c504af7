-- ===== src/Records/Lifecycle/Handlers/Sending.antt =====
-- The sender: records/src/public_records/sender.py.
use dialogue_microservices.Prelude.{ℕ, Bool, Option, Text}
use dialogue_microservices.Prelude.Action.{Result}
use dialogue_microservices.Records.Domain.{Campaign, Jurisdiction, EmailThread, OutboundKind}
use dialogue_microservices.Records.Messages.{ContactMessage, FollowupJobMessage}
use dialogue_microservices.Records.Sender.{
  commit_initial, send_initial, refuse, contact_gates, handle_contact, commit_send, send_on_thread,
  send_followup, draft_and_send, send_reply, handle_followup_job,
}
use dialogue_microservices.Prelude.Preserves.{Preserves}
use dialogue_microservices.Records.Store.{Store}
use dialogue_microservices.Records.World.{Env, OutboundEmail}
use dialogue_microservices.Records.StoreOnly.{StoreHas}
use dialogue_microservices.Records.Lifecycle.Rows.{Evolves}
use dialogue_microservices.Records.Lifecycle.Handlers.Base.{
  rules, escalate-Evolves, deliver-Evolves,
}

module _ (s0 : Store) (env : Env) where
  pub commit_initial-Evolves :
      (m : ContactMessage) (c : Campaign) (j : Jurisdiction) (i : Option ℕ) (t : Text)
      (e : OutboundEmail) (r : Option Text)
      → Preserves (StoreHas (Evolves s0)) (commit_initial env m c j i t e r)
  unfolding commit_initial
  commit_initial-Evolves m c j i t e r = search (rules) depth 8

  pub send_initial-Evolves :
      (m : ContactMessage) (c : Campaign) (j : Jurisdiction) (i : Option ℕ) (t : Text)
      → Preserves (StoreHas (Evolves s0)) (send_initial env m c j i t)
  unfolding send_initial
  send_initial-Evolves m c j i t = search (rules, commit_initial-Evolves, deliver-Evolves) depth 8

  pub refuse-Evolves :
      (m : ContactMessage) (c : Campaign) (j : Jurisdiction) (i : Option ℕ)
      → Preserves (StoreHas (Evolves s0)) (refuse env m c j i)
  unfolding refuse
  refuse-Evolves m c j i = search (rules, escalate-Evolves) depth 8

  pub contact_gates-Evolves :
      (m : ContactMessage) (c : Campaign) (j : Jurisdiction) (i : Option ℕ) (t : Text)
      → Preserves (StoreHas (Evolves s0)) (contact_gates env m c j i t)
  unfolding contact_gates
  contact_gates-Evolves m c j i t = search (rules, send_initial-Evolves, refuse-Evolves) depth 8

  pub handle_contact-Evolves :
      (body : Text) → Preserves (StoreHas (Evolves s0)) (handle_contact env body)
  unfolding handle_contact
  handle_contact-Evolves body = search (rules, contact_gates-Evolves) depth 12

  pub commit_send-Evolves :
      (c : Campaign) (t : EmailThread) (k : OutboundKind) (r n : Option ℕ) (b : Bool)
      (e : OutboundEmail) (i : Option Text)
      → Preserves (StoreHas (Evolves s0)) (commit_send env c t k r n b e i)
  unfolding commit_send
  commit_send-Evolves c t k r n b e i = search (rules) depth 8

  pub send_on_thread-Evolves :
      (c : Campaign) (t : EmailThread) (d : Result Text) (x : Text) (k : OutboundKind)
      (r n : Option ℕ) (b : Bool)
      → Preserves (StoreHas (Evolves s0)) (send_on_thread env c t d x k r n b)
  unfolding send_on_thread
  send_on_thread-Evolves c t d x k r n b =
      search (rules, commit_send-Evolves, deliver-Evolves) depth 8

  pub send_followup-Evolves :
      (c : Campaign) (i : ℕ) (m : FollowupJobMessage)
      → Preserves (StoreHas (Evolves s0)) (send_followup env c i m)
  unfolding send_followup
  send_followup-Evolves c i m = search (rules, send_on_thread-Evolves) depth 8

  pub draft_and_send-Evolves :
      (c : Campaign) (t : EmailThread) (m : FollowupJobMessage) (k : OutboundKind) (x b : Text)
      → Preserves (StoreHas (Evolves s0)) (draft_and_send env c t m k x b)
  unfolding draft_and_send
  draft_and_send-Evolves c t m OutboundKind.clarification_reply x b =
      search (rules, send_on_thread-Evolves) depth 8
  draft_and_send-Evolves c t m _ x b = search (rules, send_on_thread-Evolves) depth 8

  pub send_reply-Evolves :
      (c : Campaign) (i : ℕ) (m : FollowupJobMessage)
      → Preserves (StoreHas (Evolves s0)) (send_reply env c i m)
  unfolding send_reply
  send_reply-Evolves c i m = search (rules, draft_and_send-Evolves) depth 12

  pub handle_followup_job-Evolves :
      (body : Text) → Preserves (StoreHas (Evolves s0)) (handle_followup_job env body)
  unfolding handle_followup_job
  handle_followup_job-Evolves body =
      search (rules, send_followup-Evolves, send_reply-Evolves) depth 12
