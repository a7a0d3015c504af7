-- ===== src/Records/Store/Purged.antt =====
-- What a purge leaves of each table.
use dialogue_microservices.Prelude.{ℕ, ◌≡◌, some, not, filter, ◌==◌}
use dialogue_microservices.Prelude.Dict.{values}
use dialogue_microservices.Prelude.Keyed.{IsKeyed, erase_all-filter}
use dialogue_microservices.Prelude.Action.{pure}
use dialogue_microservices.Records.Domain.{
  SpendEntry, Escalation, EmailThread, EmailRecord, SearchTarget,
}
use dialogue_microservices.Records.Store.{Store, purge_campaign, is_email_of, thread_ids, same_id}

-- Every table of the store that a purge touches holds its rows under their ids.
pub record Keyed (s : Store) : Type 0 where
  pub spend : IsKeyed (λ (e : SpendEntry). e.id) s.spend
  pub escalations : IsKeyed (λ (e : Escalation). e.id) s.escalations
  pub emails : IsKeyed (λ (e : EmailRecord). e.id) s.emails
  pub threads : IsKeyed (λ (t : EmailThread). t.id) s.threads
  pub targets : IsKeyed (λ (t : SearchTarget). t.id) s.targets

-- The rows of `s'` are those of `s` that do not belong to the campaign.
pub record IsPurged (campaign_id : ℕ) (s s' : Store) : Type 0 where
  pub spend :
      values s'.spend
      ≡ filter (λ (e : SpendEntry). not (e.campaign_id == campaign_id)) (values s.spend)
  pub escalations :
      values s'.escalations
      ≡ filter
          (λ (e : Escalation). not (same_id e.campaign_id (some campaign_id)))
          (values s.escalations)
  pub emails :
      values s'.emails
      ≡ filter
          (λ (e : EmailRecord). not (is_email_of campaign_id (thread_ids campaign_id s) e))
          (values s.emails)
  pub threads :
      values s'.threads
      ≡ filter (λ (t : EmailThread). not (t.campaign_id == campaign_id)) (values s.threads)
  pub targets :
      values s'.targets
      ≡ filter (λ (t : SearchTarget). not (t.campaign_id == campaign_id)) (values s.targets)

-- A purge takes exactly the rows of the campaign out of the five tables of rows, an email also when
-- it belongs to a thread of the campaign; all other rows stay, in their order. Each row is to stand
-- under its own id.
pub purge_campaign-IsPurged :
    (campaign_id : ℕ) (s : Store)
    → Keyed s
    → IsPurged campaign_id s (purge_campaign campaign_id s).1
unfolding purge_campaign pure
purge_campaign-IsPurged i s keyed = record {
  spend = erase_all-filter _ _ s.spend keyed.spend;
  escalations = erase_all-filter _ _ s.escalations keyed.escalations;
  emails = erase_all-filter _ _ s.emails keyed.emails;
  threads = erase_all-filter _ _ s.threads keyed.threads;
  targets = erase_all-filter _ _ s.targets keyed.targets;
}
