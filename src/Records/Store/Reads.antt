-- ===== src/Records/Store/Reads.antt =====
-- The store's reads change nothing, so they preserve every invariant.
use dialogue_microservices.Prelude.{ℕ, Option, List, Text}
use dialogue_microservices.Prelude.Preserves.{Preserves, Preserves-gets, Preserves-require}
use dialogue_microservices.Records.Domain.{OutboundKind}
use dialogue_microservices.Records.Store.State.{Store}
use dialogue_microservices.Records.Store.Campaigns.{
  get_campaign, get_campaign_by_name, list_campaigns, count_outbound_since,
}
use dialogue_microservices.Records.Store.Jurisdictions.{
  get_jurisdiction, find_jurisdiction, list_jurisdictions, state_row_exists,
}
use dialogue_microservices.Records.Store.Targets.{
  get_search_target, find_search_target, require_target,
}
use dialogue_microservices.Records.Store.Threads.{
  get_thread, get_thread_by_token, find_thread, find_open_thread_by_contact, require_thread,
  select_due_followups,
}
use dialogue_microservices.Records.Store.Emails.{
  has_source_key, has_message_id, get_email, first_outbound_subject, outbound_reply_exists,
}
use dialogue_microservices.Records.Store.Escalations.{get_escalation}
use dialogue_microservices.Records.Store.Spend.{committed_total_cents}

module _ {P : Store → Type 0} where
  pub Preserves-get_campaign : (i : ℕ) → Preserves P (get_campaign i)
  unfolding get_campaign
  Preserves-get_campaign i = Preserves-gets _

  pub Preserves-get_campaign_by_name : (n : Text) → Preserves P (get_campaign_by_name n)
  unfolding get_campaign_by_name
  Preserves-get_campaign_by_name n = Preserves-gets _

  pub Preserves-list_campaigns : Preserves P list_campaigns
  unfolding list_campaigns
  Preserves-list_campaigns = Preserves-gets _

  pub Preserves-count_outbound_since : (i since : ℕ) → Preserves P (count_outbound_since i since)
  unfolding count_outbound_since
  Preserves-count_outbound_since i since = Preserves-gets _

  pub Preserves-get_jurisdiction : (i : ℕ) → Preserves P (get_jurisdiction i)
  unfolding get_jurisdiction
  Preserves-get_jurisdiction i = Preserves-gets _

  pub Preserves-find_jurisdiction : (n s l : Text) → Preserves P (find_jurisdiction n s l)
  unfolding find_jurisdiction
  Preserves-find_jurisdiction n s l = Preserves-gets _

  pub Preserves-list_jurisdictions :
      (s l : Option (List Text)) → Preserves P (list_jurisdictions s l)
  unfolding list_jurisdictions
  Preserves-list_jurisdictions s l = Preserves-gets _

  pub Preserves-state_row_exists : (s : Text) → Preserves P (state_row_exists s)
  unfolding state_row_exists
  Preserves-state_row_exists s = Preserves-gets _

  pub Preserves-get_search_target : (i : ℕ) → Preserves P (get_search_target i)
  unfolding get_search_target
  Preserves-get_search_target i = Preserves-gets _

  pub Preserves-find_search_target : (c j : ℕ) → Preserves P (find_search_target c j)
  unfolding find_search_target
  Preserves-find_search_target c j = Preserves-gets _

  pub Preserves-require_target : (i : ℕ) → Preserves P (require_target i)
  unfolding require_target
  Preserves-require_target i = Preserves-require _ _

  pub Preserves-get_thread : (i : ℕ) → Preserves P (get_thread i)
  unfolding get_thread
  Preserves-get_thread i = Preserves-gets _

  pub Preserves-get_thread_by_token : (t : Text) → Preserves P (get_thread_by_token t)
  unfolding get_thread_by_token
  Preserves-get_thread_by_token t = Preserves-gets _

  pub Preserves-find_thread : (c j : ℕ) (t : Text) → Preserves P (find_thread c j t)
  unfolding find_thread
  Preserves-find_thread c j t = Preserves-gets _

  pub Preserves-find_open_thread_by_contact :
      (t : Text) → Preserves P (find_open_thread_by_contact t)
  unfolding find_open_thread_by_contact
  Preserves-find_open_thread_by_contact t = Preserves-gets _

  pub Preserves-require_thread : (i : ℕ) → Preserves P (require_thread i)
  unfolding require_thread
  Preserves-require_thread i = Preserves-require _ _

  pub Preserves-select_due_followups :
      (now limit : ℕ) → Preserves P (select_due_followups now limit)
  unfolding select_due_followups
  Preserves-select_due_followups now limit = Preserves-gets _

  pub Preserves-has_source_key : (k : Text) → Preserves P (has_source_key k)
  unfolding has_source_key
  Preserves-has_source_key k = Preserves-gets _

  pub Preserves-has_message_id : (c : Option ℕ) (m : Text) → Preserves P (has_message_id c m)
  unfolding has_message_id
  Preserves-has_message_id c m = Preserves-gets _

  pub Preserves-get_email : (i : ℕ) → Preserves P (get_email i)
  unfolding get_email
  Preserves-get_email i = Preserves-gets _

  pub Preserves-first_outbound_subject : (i : ℕ) → Preserves P (first_outbound_subject i)
  unfolding first_outbound_subject
  Preserves-first_outbound_subject i = Preserves-gets _

  pub Preserves-outbound_reply_exists :
      (t e : ℕ) (k : OutboundKind) → Preserves P (outbound_reply_exists t e k)
  unfolding outbound_reply_exists
  Preserves-outbound_reply_exists t e k = Preserves-gets _

  pub Preserves-get_escalation : (i : ℕ) → Preserves P (get_escalation i)
  unfolding get_escalation
  Preserves-get_escalation i = Preserves-gets _

  pub Preserves-committed_total_cents : (i : ℕ) → Preserves P (committed_total_cents i)
  unfolding committed_total_cents
  Preserves-committed_total_cents i = Preserves-gets _

pub ruleset reads = (
  Preserves-get_campaign, Preserves-get_campaign_by_name, Preserves-list_campaigns,
  Preserves-count_outbound_since, Preserves-get_jurisdiction, Preserves-find_jurisdiction,
  Preserves-list_jurisdictions, Preserves-state_row_exists, Preserves-get_search_target,
  Preserves-find_search_target, Preserves-require_target, Preserves-get_thread,
  Preserves-get_thread_by_token, Preserves-find_thread, Preserves-find_open_thread_by_contact,
  Preserves-require_thread, Preserves-select_due_followups, Preserves-has_source_key,
  Preserves-has_message_id, Preserves-get_email, Preserves-first_outbound_subject,
  Preserves-outbound_reply_exists, Preserves-get_escalation, Preserves-committed_total_cents,
)
