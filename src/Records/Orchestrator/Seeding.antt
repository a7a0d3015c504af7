-- ===== src/Records/Orchestrator/Seeding.antt =====
-- orchestrator.py: `_seed_test_contacts` and `seed_pass`.
use dialogue_microservices.Prelude.{
  ℕ, suc, ◌+◌, List, [], ◌∷◌, none, Bool, true, false, not, ◌&&◌, ◌||◌, Text, nonempty, length, ltb,
  maybe, if◌then◌else◌,
}
use dialogue_microservices.Prelude.Action.{Error, Action, pure, or_raise, ◌>>=◌, ◌>>◌, try_else}
use dialogue_microservices.Records.Domain.{Campaign, Jurisdiction, SearchTarget}
use dialogue_microservices.Records.Domain.Config.{TestContact, is_test}
use dialogue_microservices.Records.Messages.{ContactSource}
use dialogue_microservices.Records.Store.{
  list_campaigns, set_campaign_seeded, find_jurisdiction, insert_jurisdiction, find_search_target,
  insert_search_target, resolve_target, set_target_queries_enqueued,
}
use dialogue_microservices.Records.World.{
  Env, World, on_store, except, is_unique_violation, send_contact, send_search_query,
}
use dialogue_microservices.Records.Orchestrator.Scope.{ensure_states, resolve_scope, queries_for}

-- Found, or inserted, or found after a lost race, where `assert … is not None`.
unfoldable pub ensure_jurisdiction : TestContact → Action World Jurisdiction
ensure_jurisdiction contact = do
  let again = on_store (find_jurisdiction contact.jurisdiction contact.state contact.level)
  known ← again
  maybe known
      (try_else
        (on_store (insert_jurisdiction contact.jurisdiction contact.state contact.level none)) pure
        (except is_unique_violation (again >>= or_raise Error.assertion_error)))
      pure

unfoldable pub ensure_target : Env → ℕ → ℕ → Action World SearchTarget
ensure_target env campaign_id jurisdiction_id = do
  let again = on_store (find_search_target campaign_id jurisdiction_id)
  known ← again
  maybe known
      (try_else (on_store (insert_search_target campaign_id jurisdiction_id env.now)) pure
        (except is_unique_violation (again >>= or_raise Error.assertion_error)))
      pure

-- The crash-rerun skip marker.
unfoldable pub is_started : SearchTarget → Bool
is_started target = target.resolved || ltb 0 target.queries_enqueued

-- A contact that is given: the target is resolved first, and only the winner enqueues. Returns the
-- number of messages sent.
unfoldable pub send_seeded : Env → Campaign → ℕ → SearchTarget → Text → Bool → Action World ℕ
send_seeded env campaign jurisdiction_id target email bypass_cooldown = do
  won ← on_store (resolve_target target.id)
  if not won then pure 0 else do
    send_contact env (record {
      campaign_id = campaign.id;
      jurisdiction_id = jurisdiction_id;
      contact_email = email;
      source = ContactSource.seeded;
      bypass_cooldown = bypass_cooldown;
      parent_thread_id = none;
    })
    pure 1

-- One test contact.
unfoldable pub seed_test_contact : Env → Campaign → TestContact → Action World ℕ
seed_test_contact env campaign contact = do
  j ← ensure_jurisdiction contact
  target ← ensure_target env campaign.id j.id
  if is_started target then pure 0 else send_seeded env campaign j.id target contact.email true

-- `_seed_test_contacts`
unfoldable pub seed_test_contacts : Env → Campaign → List TestContact → Action World ℕ
seed_test_contacts env campaign [] = pure 0
seed_test_contacts env campaign (c ∷ contacts) = do
  n ← seed_test_contact env campaign c
  m ← seed_test_contacts env campaign contacts
  pure (n + m)

-- `for index, query in enumerate(queries): …`
unfoldable pub send_queries : Env → Campaign → ℕ → ℕ → ℕ → List Text → Action World Unit
send_queries env campaign jurisdiction_id target_id index [] = pure tt
send_queries env campaign jurisdiction_id target_id index (q ∷ queries) = do
  send_search_query env (record {
    campaign_id = campaign.id;
    jurisdiction_id = jurisdiction_id;
    search_target_id = target_id;
    query = q;
    query_index = index;
  })
  send_queries env campaign jurisdiction_id target_id (suc index) queries

-- The queries of one target, and then the mark that they are enqueued.
unfoldable pub search_for_contact : Env → Campaign → Jurisdiction → SearchTarget → Action World ℕ
search_for_contact env campaign j target = do
  queries ← queries_for env campaign j
  send_queries env campaign j.id target.id 0 queries
  on_store (set_target_queries_enqueued target.id (length queries))
  pure (length queries)

-- One jurisdiction of the scope.
unfoldable pub seed_jurisdiction : Env → Campaign → Jurisdiction → Action World ℕ
seed_jurisdiction env campaign j = do
  target ← ensure_target env campaign.id j.id
  if is_started target
      then pure 0
      else maybe j.contact_email (search_for_contact env campaign j target) λ email.
        if nonempty email
        then send_seeded env campaign j.id target email false
        else search_for_contact env campaign j target

unfoldable pub seed_jurisdictions : Env → Campaign → List Jurisdiction → Action World ℕ
seed_jurisdictions env campaign [] = pure 0
seed_jurisdictions env campaign (j ∷ js) = do
  n ← seed_jurisdiction env campaign j
  m ← seed_jurisdictions env campaign js
  pure (n + m)

-- `campaign.active and not campaign.seeded and campaign.consent_confirmed`
unfoldable pub wants_seeding : Campaign → Bool
wants_seeding c = c.active && not c.seeded && c.config.requester.consent_confirmed

-- The body of the loop, for a campaign that wants seeding; the mark comes last.
unfoldable pub seed_campaign : Env → List Text → Campaign → Action World ℕ
seed_campaign env all_states campaign = do
  n ←
      if is_test campaign.config
      then seed_test_contacts env campaign campaign.config.test_contacts
      else (do
        maybe env.census (pure 0)
            (λ load_state. ensure_states all_states load_state campaign.config.scope.states)
        jurisdictions ← resolve_scope campaign.config.scope
        seed_jurisdictions env campaign jurisdictions)
  on_store (set_campaign_seeded campaign.id)
  pure n

unfoldable pub seed_campaigns : Env → List Text → List Campaign → Action World ℕ
seed_campaigns env all_states [] = pure 0
seed_campaigns env all_states (c ∷ campaigns) = do
  n ← if wants_seeding c then seed_campaign env all_states c else pure 0
  m ← seed_campaigns env all_states campaigns
  pure (n + m)

unfoldable pub seed_pass : Env → List Text → Action World ℕ
seed_pass env all_states = do
  campaigns ← on_store list_campaigns
  seed_campaigns env all_states campaigns
