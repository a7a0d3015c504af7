-- ===== src/Records/Store/Purge.antt =====
-- FakeRecordsStore, the campaign kill. Every row stands under its own id, so no `del` misses.
use dialogue_microservices.Prelude.{
  ℕ, List, some, Bool, false, ◌||◌, map, filter, any, length, is_some, ◌==◌, maybe, if◌then◌else◌,
}
use dialogue_microservices.Prelude.Dict.{get, erase, erase_all, values}
use dialogue_microservices.Prelude.Action.{Action, pure}
use dialogue_microservices.Records.Domain.{
  EmailThread, EmailRecord, Escalation, SearchTarget, SpendEntry,
}
use dialogue_microservices.Records.Store.State.{Store, same_id}

pub record PurgeCounts : Type 0 where
  pub spend_entries : ℕ
  pub escalations : ℕ
  pub emails : ℕ
  pub threads : ℕ
  pub search_targets : ℕ
  pub campaigns : ℕ

abbrev pub spend_ids : ℕ → Store → List ℕ
spend_ids campaign_id s =
    map (λ (e : SpendEntry). e.id)
      (filter (λ (e : SpendEntry). e.campaign_id == campaign_id) (values s.spend))

abbrev pub escalation_ids : ℕ → Store → List ℕ
escalation_ids campaign_id s =
    map (λ (e : Escalation). e.id)
      (filter (λ (e : Escalation). same_id e.campaign_id (some campaign_id)) (values s.escalations))

abbrev pub thread_ids : ℕ → Store → List ℕ
thread_ids campaign_id s =
    map (λ (t : EmailThread). t.id)
      (filter (λ (t : EmailThread). t.campaign_id == campaign_id) (values s.threads))

-- `e.campaign_id == campaign_id or e.thread_id in thread_ids`
unfoldable pub is_email_of : ℕ → List ℕ → EmailRecord → Bool
unfolding same_id
is_email_of campaign_id threads e =
    same_id e.campaign_id (some campaign_id)
    || maybe e.thread_id false (λ t. any (λ i. i == t) threads)

abbrev pub email_ids : ℕ → Store → List ℕ
email_ids campaign_id s =
    map (λ (e : EmailRecord). e.id)
      (filter (is_email_of campaign_id (thread_ids campaign_id s)) (values s.emails))

abbrev pub target_ids : ℕ → Store → List ℕ
target_ids campaign_id s =
    map (λ (t : SearchTarget). t.id)
      (filter (λ (t : SearchTarget). t.campaign_id == campaign_id) (values s.targets))

unfoldable pub purge_campaign : ℕ → Action Store PurgeCounts
unfolding erase_all is_email_of same_id
purge_campaign campaign_id s =
    pure
      (record {
        spend_entries = length (spend_ids campaign_id s);
        escalations = length (escalation_ids campaign_id s);
        emails = length (email_ids campaign_id s);
        threads = length (thread_ids campaign_id s);
        search_targets = length (target_ids campaign_id s);
        campaigns = if is_some (get s.campaigns campaign_id) then 1 else 0;
      })
      (record s {
        spend = erase_all (spend_ids campaign_id s) s.spend;
        escalations = erase_all (escalation_ids campaign_id s) s.escalations;
        emails = erase_all (email_ids campaign_id s) s.emails;
        threads = erase_all (thread_ids campaign_id s) s.threads;
        targets = erase_all (target_ids campaign_id s) s.targets;
        campaigns = erase campaign_id s.campaigns;
      })
