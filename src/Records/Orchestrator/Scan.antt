-- ===== src/Records/Orchestrator/Scan.antt =====
-- orchestrator.py: `followup_scan`.
use dialogue_microservices.Prelude.{
  ℕ, ◌+◌, List, [], ◌∷◌, none, some, false, codes, fstring, to_decimal, leb, maybe, if◌then◌else◌,
}
use dialogue_microservices.Prelude.Action.{Action, pure, ◌>>=◌, ◌>>◌}
use dialogue_microservices.Records.Domain.{Campaign, EmailThread, EscalationReason}
use dialogue_microservices.Records.Messages.{FollowupKind}
use dialogue_microservices.Records.Store.{select_due_followups, get_campaign, set_thread_status}
use dialogue_microservices.Records.World.{
  Env, World, on_store, escalate, send_followup_job, next_action_time,
}

-- `FOLLOWUP_SCAN_BATCH`
abbrev pub followup_scan_batch : ℕ
followup_scan_batch = 50

-- A silent thread that has had all its follow-ups.
unfoldable pub exhaust : Env → Campaign → EmailThread → Action World Unit
exhaust env campaign thread =
    escalate env (some campaign.id) (some thread.id) EscalationReason.no_response (
      fstring
        (codes "No response after " ∷ to_decimal thread.followups_sent ∷ codes " follow-ups." ∷ []))

-- A follow-up is enqueued, and the thread rescheduled.
unfoldable pub schedule : Env → Campaign → EmailThread → Action World Unit
schedule env campaign thread = do
  send_followup_job env (record {
    thread_id = thread.id;
    kind = FollowupKind.followup;
    followup_index = some thread.followups_sent;
    inbound_email_id = none;
    amount_cents = none;
  })
  on_store (set_thread_status thread.id thread.status (some (next_action_time env campaign)) false)

-- The body of the loop: 1 if it acted.
unfoldable pub scan_thread : Env → EmailThread → Action World ℕ
scan_thread env thread = do
  known_campaign ← on_store (get_campaign thread.campaign_id)
  maybe known_campaign (pure 0) λ campaign. do
    if leb campaign.config.limits.max_followups thread.followups_sent
        then exhaust env campaign thread
        else schedule env campaign thread
    pure 1

unfoldable pub scan_threads : Env → List EmailThread → Action World ℕ
scan_threads env [] = pure 0
scan_threads env (t ∷ threads) = do
  n ← scan_thread env t
  m ← scan_threads env threads
  pure (n + m)

unfoldable pub followup_scan : Env → Action World ℕ
followup_scan env = do
  due ← on_store (select_due_followups env.now followup_scan_batch)
  scan_threads env due
