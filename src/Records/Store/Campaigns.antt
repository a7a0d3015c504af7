-- ===== src/Records/Store/Campaigns.antt =====
-- FakeRecordsStore, campaigns.
use dialogue_microservices.Prelude.{
  ℕ, suc, List, Option, some, Bool, true, false, ◌&&◌, Text, text_eq, any, find, filter, length,
  leb, sort_by, maybe, if◌then◌else◌,
}
use dialogue_microservices.Prelude.Dict.{get, put, values}
use dialogue_microservices.Prelude.Action.{Error, Action, pure, raise, gets, modify, require, ◌>>=◌}
use dialogue_microservices.Records.Domain.{Campaign, EmailRecord, is_outbound}
use dialogue_microservices.Records.Domain.Config.{CampaignConfig}
use dialogue_microservices.Records.Store.State.{Store, same_id}

unfoldable pub insert_campaign : CampaignConfig → ℕ → Action Store Campaign
insert_campaign config created_at s =
    if any (λ (c : Campaign). text_eq c.config.name config.name) (values s.campaigns)
    then raise Error.unique_violation s
    else (let campaign : Campaign = record {
      id = s.next_campaign;
      config = config;
      active = false;
      seeded = false;
      created_at = some created_at;
    } in
        pure campaign (record s {
          campaigns = put s.next_campaign campaign s.campaigns;
          next_campaign = suc s.next_campaign;
        }))

unfoldable pub get_campaign : ℕ → Action Store (Option Campaign)
get_campaign campaign_id = gets (λ s. get s.campaigns campaign_id)

unfoldable pub get_campaign_by_name : Text → Action Store (Option Campaign)
get_campaign_by_name name =
    gets (λ s. find (λ (c : Campaign). text_eq c.config.name name) (values s.campaigns))

unfoldable pub list_campaigns : Action Store (List Campaign)
list_campaigns = gets (λ s. sort_by (λ (a b : Campaign). leb a.id b.id) (values s.campaigns))

-- `self._campaigns[campaign_id] = f(self._campaigns[campaign_id])`, the shape of an attribute write
unfoldable pub update_campaign : ℕ → (Campaign → Campaign) → Action Store Unit
update_campaign campaign_id f = do
  c ← require Error.key_error (λ s. get s.campaigns campaign_id)
  modify (λ s. record s { campaigns = put campaign_id (f c) s.campaigns })

unfoldable pub set_campaign_active : ℕ → Bool → Action Store Unit
unfolding update_campaign
set_campaign_active campaign_id active =
    update_campaign campaign_id (λ c. record c { active = active })

unfoldable pub set_campaign_seeded : ℕ → Action Store Unit
unfolding update_campaign
set_campaign_seeded campaign_id = update_campaign campaign_id (λ c. record c { seeded = true })

-- The stored name wins.
unfoldable pub update_campaign_config : ℕ → CampaignConfig → Action Store Unit
unfolding update_campaign
update_campaign_config campaign_id config =
    update_campaign campaign_id (λ c. record c { config = record config { name = c.config.name } })

-- An outbound email of the campaign, sent at `since` or later.
unfoldable pub is_sent_since : ℕ → ℕ → EmailRecord → Bool
unfolding same_id is_outbound
is_sent_since campaign_id since e =
    same_id e.campaign_id (some campaign_id)
    && is_outbound e.direction
    && maybe e.created_at false (λ at. leb since at)

unfoldable pub count_outbound_since : ℕ → ℕ → Action Store ℕ
unfolding is_sent_since
count_outbound_since campaign_id since =
    gets (λ s. length (filter (is_sent_since campaign_id since) (values s.emails)))
