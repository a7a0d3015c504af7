-- ===== src/Harvest/Staging.antt =====
-- harvester/src/harvest_harvester/staging.py: one candidate url becomes an artifact and a fetch task.
pub mod Once
use dialogue_microservices.Prelude.{
  ℕ, suc, List, [], ◌∷◌, Bool, true, false, not, ◌&&◌, ◌||◌, Text, codes, filter, fstring, is_some,
  leb, take, ◌==◌, if◌then◌else◌,
}
use dialogue_microservices.Prelude.Action.{
  Action, pure, ◌>>=◌, ◌>>◌, try_else, except, is_unique_violation,
}
use dialogue_microservices.Core.KeyValue
use dialogue_microservices.Harvest.Domain.{Artifact}
use dialogue_microservices.Harvest.Messages.{Task}
use dialogue_microservices.Harvest.Store.{insert_artifact, stamp_artifact}
use dialogue_microservices.Harvest.World.{Env, World, QueueName, on_ds, on_kv, now, uuid4, send}

-- Neither a NUL nor a lone surrogate.
unfoldable pub is_storable : ℕ → Bool
is_storable c = not (c == 0) && not (leb 0xD800 c && leb c 0xDFFF)

unfoldable pub sanitize_text : Text → Text
unfolding is_storable
sanitize_text = filter is_storable

unfoldable pub url_key : Env → Text → Text → Text
url_key env corpus url =
    fstring (codes "url:" ∷ corpus ∷ codes ":" ∷ env.hexdigest (env.encode url) ∷ [])

pub record Candidate : Type 0 where
  pub url : Text
  pub context : Text

-- `SOURCE_URL_CHARS`
abbrev pub source_url_chars : ℕ
source_url_chars = 600

module _ (env : Env) (corpus : Text) where
  -- After the insert: the cache, the stamp, the task.
  unfoldable pub publish_staged : Text → ℕ → Artifact → Action World Bool
  publish_staged key at artifact = do
    on_kv (λ t. KeyValue.setnx t key (codes "1"))
    dispatch_id ← uuid4 env
    on_ds (stamp_artifact artifact.id at dispatch_id)
    send env QueueName.fetches (
        Task.fetch (record {
          corpus = corpus;
          artifact_id = artifact.id;
          dispatch_id = dispatch_id;
          dispatched_at = at;
        }))
    pure true

  -- The insert lost to an earlier one: heal the cache.
  unfoldable pub heal : Text → Action World Bool
  heal key = do on_kv (λ t. KeyValue.setnx t key (codes "1")); pure false

  unfoldable pub stage_candidate : ℕ → Text → Candidate → Action World Bool
  stage_candidate jurisdiction_id origin candidate = do
    let key = url_key env corpus candidate.url
    known ← on_kv (λ t. KeyValue.get t key)
    if is_some known then pure false else do
      at ← now
      try_else
          (on_ds (
            insert_artifact corpus jurisdiction_id origin (take source_url_chars candidate.url)
              (sanitize_text candidate.context) at))
          (publish_staged key at) (except is_unique_violation (heal key))

  -- `for c in candidates: if stage_candidate(…): staged += 1`
  unfoldable pub stage_all : ℕ → Text → List Candidate → Action World ℕ
  stage_all jurisdiction_id origin [] = pure 0
  stage_all jurisdiction_id origin (c ∷ candidates) = do
    new ← stage_candidate jurisdiction_id origin c
    staged ← stage_all jurisdiction_id origin candidates
    pure (if new then suc staged else staged)
