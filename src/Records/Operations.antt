-- ===== src/Records/Operations.antt =====
-- records/src/public_records/ops.py: the operational surface.
use dialogue_microservices.Prelude.{
  ℕ, [], ◌∷◌, Option, none, Bool, true, Text, codes, fstring, maybe, if◌then◌else◌,
}
use dialogue_microservices.Prelude.Action.{Error, Action, pure, or_raise, ◌>>=◌, ◌>>◌}
use dialogue_microservices.Core.KeyValue
use dialogue_microservices.Core.ObjectStore
use dialogue_microservices.Records.Domain.{Campaign, ThreadStatus, same_status}
use dialogue_microservices.Records.Domain.Config.{CampaignConfig}
use dialogue_microservices.Records.Messages.{ContactSource}
use dialogue_microservices.Records.Store.{
  PurgeCounts, insert_campaign, get_campaign, get_campaign_by_name, set_campaign_active,
  get_escalation, resolve_escalation_row, set_thread_status, get_thread, purge_campaign,
}
use dialogue_microservices.Records.Keys.{slugify}
use dialogue_microservices.Records.World.{Env, World, on_store, on_documents, on_kv, send_contact}

unfoldable pub register_campaign : Env → CampaignConfig → Action World Campaign
register_campaign env config = on_store (insert_campaign config env.now)

unfoldable pub set_active : Text → Bool → Action World Campaign
set_active name active = do
  known ← on_store (get_campaign_by_name name)
  campaign ← or_raise Error.lookup_error known
  on_store (set_campaign_active campaign.id active)
  loaded ← on_store (get_campaign campaign.id)
  or_raise Error.assertion_error loaded

-- The reviewed contact goes back to the sender.
unfoldable pub requeue : Env → ℕ → Action World Unit
requeue env thread_id = do
  known ← on_store (get_thread thread_id)
  thread ← or_raise Error.assertion_error known
  send_contact env (record {
    campaign_id = thread.campaign_id;
    jurisdiction_id = thread.jurisdiction_id;
    contact_email = thread.contact_email;
    source = ContactSource.human_approved;
    bypass_cooldown = true;
    parent_thread_id = none;
  })

-- A human sets the thread to any status.
unfoldable pub resettle : Env → ℕ → ThreadStatus → Action World Unit
resettle env thread_id status = do
  on_store (set_thread_status thread_id status none true)
  if same_status status ThreadStatus.pending_send then requeue env thread_id else pure tt

unfoldable pub resolve_escalation : Env → ℕ → Text → Option ThreadStatus → Action World Unit
resolve_escalation env escalation_id resolution thread_status = do
  known ← on_store (get_escalation escalation_id)
  escalation ← or_raise Error.lookup_error known
  on_store (resolve_escalation_row escalation_id resolution env.now)
  maybe escalation.thread_id (pure tt)
      λ thread_id. maybe thread_status (pure tt) (resettle env thread_id)

pub record KillCounts : Type 0 where
  pub rows : PurgeCounts
  pub redis_keys : ℕ
  pub s3_objects : ℕ

unfoldable pub kill_campaign : Text → Action World KillCounts
kill_campaign name = do
  known ← on_store (get_campaign_by_name name)
  campaign ← or_raise Error.lookup_error known
  let slug = slugify campaign.config.name
  rows ← on_store (purge_campaign campaign.id)
  redis_keys ← on_kv (KeyValue.delete_prefix (fstring (codes "dedupe:" ∷ slug ∷ [])))
  s3_objects ← on_documents (ObjectStore.delete_prefix (fstring (slug ∷ codes "/" ∷ [])))
  pure (record { rows = rows; redis_keys = redis_keys; s3_objects = s3_objects })
