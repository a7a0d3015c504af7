-- ===== src/Harvest/Fetch.antt =====
-- harvester/src/harvest_harvester/fetch.py: one url task becomes a stored document.
pub mod Throttle
use dialogue_microservices.Prelude.{
  ℕ, zero, suc, ◌+◌, ◌-◌, ◌*◌, List, [], ◌∷◌, Option, none, some, Bool, true, false, not, ◌||◌,
  Text, codes, any, fstring, to_decimal, length, lower, nonempty, take, leb, ◌==◌, maybe, is_some,
  if◌then◌else◌,
}
use dialogue_microservices.Prelude.TextDict
use dialogue_microservices.Prelude.Action.{
  Error, Result, Action, ok, pure, raise, gets, modify, lift, attempt, ◌>>=◌, ◌>>◌, try_else,
}
use dialogue_microservices.Core.KeyValue
use dialogue_microservices.Core.ObjectStore
use dialogue_microservices.Core.Queue.{QueueMessage}
use dialogue_microservices.Core.Storage.{filename_from_url, object_key}
use dialogue_microservices.Harvest.Domain.{Artifact, ArtifactStatus, Jurisdiction, check_transition}
use dialogue_microservices.Harvest.Messages.{Task, FetchTask}
use dialogue_microservices.Harvest.Store.{
  update_artifact, delete_artifact, corpus_has_sha256, get_jurisdiction,
}
use dialogue_microservices.Harvest.World.{
  Env, World, QueueName, FetchResponse, on_ds, on_kv, on_objects, now, sleep, ask, describe, delete,
  second,
}
use dialogue_microservices.Harvest.Gates.{gate_fetch}
use dialogue_microservices.Harvest.Staging.{sanitize_text}
use dialogue_microservices.Harvest.Sniff.{sniff, ext_content_types}

-- `PER_HOST_FETCH_SPACING_S`, `DOCUMENT_BYTE_CAP`, `FETCH_ATTEMPT_LIMIT` and `LAST_ERROR_CHARS`
abbrev pub fetch_spacing : ℕ
fetch_spacing = 1 * second

abbrev pub document_byte_cap : ℕ
document_byte_cap = 20000000

abbrev pub fetch_attempt_limit : ℕ
fetch_attempt_limit = 3

abbrev pub last_error_chars : ℕ
last_error_chars = 2000

-- `status in DEAD_LINK_STATUSES`
unfoldable pub is_dead_link : ℕ → Bool
is_dead_link status =
    status == 400 || status == 401 || status == 403 || status == 404 || status == 410

-- A host that may be asked at `t`.
unfoldable pub may_ask : Text → ℕ → World → Bool
may_ask host t w = maybe (TextDict.get w.next_allowed host) true (λ at. leb at t)

-- How long a host is still to be left alone.
unfoldable pub time_left : Text → ℕ → World → ℕ
time_left host t w = maybe (TextDict.get w.next_allowed host) 0 (λ at. at - t)

-- What the other threads of the pool do to the world while this one sleeps.
abbrev pub Others : Type 0
Others = World → World

abbrev pub idle : Others
idle w = w

-- `HostThrottle.wait`: the rounds of the loop, each with what the other threads do in its sleep;
-- false where they run out. The test and the booking of a round are under the lock.
unfoldable pub wait_rounds : List Others → Text → Action World Bool
wait_rounds [] host = pure false
wait_rounds (others ∷ later) host = do
  t ← now
  free ← gets (may_ask host t)
  if free
      then (do
        modify
            (λ w. record w { next_allowed = TextDict.put host (t + fetch_spacing) w.next_allowed })
        pure true)
      else (do left ← gets (time_left host t); sleep left; modify others; wait_rounds later host)

-- One thread: a batch is worked by itself, and the second round finds the host free.
unfoldable pub wait : Env → Text → Action World Bool
wait env url = wait_rounds (idle ∷ idle ∷ []) (lower (env.urlsplit url).netloc)

unfoldable pub doc_key : Text → Text → Text
doc_key corpus sha256 = fstring (codes "doc:" ∷ corpus ∷ codes ":" ∷ sha256 ∷ [])

-- `check_transition(artifact.status, status)`, and the artifact in its new status
unfoldable pub move : ArtifactStatus → Artifact → Action World Artifact
move status a = do lift (check_transition a.status status); pure (record a { status = status })

-- The artifact of a failed attempt that is not the last.
abbrev pub retried : Artifact → Artifact
retried a = record a { dispatched_at = none; dispatch_id = none }

unfoldable pub record_attempt : Artifact → Text → Action World Unit
record_attempt artifact error = do
  let tried : Artifact = record artifact {
    attempts = suc artifact.attempts;
    last_error = some (take last_error_chars (sanitize_text error));
  }
  if leb fetch_attempt_limit tried.attempts
      then (do a ← move ArtifactStatus.failed tried; on_ds (update_artifact a))
      else on_ds (update_artifact (retried tried))

unfoldable pub reject : Artifact → FetchResponse → Action World Unit
reject artifact resp = do
  a ← move ArtifactStatus.not_document artifact
  on_ds (update_artifact (record a { content_type = resp.content_type }))

unfoldable pub settle_duplicate : Artifact → Text → Action World Unit
settle_duplicate artifact sha = do
  a ← move ArtifactStatus.duplicate artifact
  on_ds (update_artifact (record a { sha256 = some sha }))

-- `resp.content_type or EXT_CONTENT_TYPES.get(ext, "application/octet-stream")`
unfoldable pub stored_content_type : Text → Option Text → Text
stored_content_type ext given =
    let by_ext =
      maybe (TextDict.get ext_content_types ext) (codes "application/octet-stream") (λ t. t) in
    maybe given by_ext (λ t. if nonempty t then t else by_ext)

module _ (env : Env) where
  unfoldable pub store_document : Text → Artifact → FetchResponse → Text → Text → Action World Unit
  store_document corpus artifact resp ext sha = do
    known ← on_ds (get_jurisdiction artifact.jurisdiction_id)
    let name = maybe known (to_decimal artifact.jurisdiction_id) (λ (j : Jurisdiction). j.name)
    let filename = filename_from_url env.unquote (env.urlsplit artifact.source_url).path ext
    let storage_key = object_key corpus name sha filename
    let content_type = stored_content_type ext resp.content_type
    on_objects (ObjectStore.put storage_key resp.content content_type)
    a ← move ArtifactStatus.fetched artifact
    on_ds (
        update_artifact (record a {
          filename = some filename;
          ext = some ext;
          content_type = some content_type;
          sha256 = some sha;
          path = some storage_key;
          size_bytes = some (length resp.content);
          extracted_text = some (env.extract_text ext resp.content);
        }))
    on_kv (λ t. KeyValue.setnx t (doc_key corpus sha) (codes "1"))
    pure tt

  -- The cache, else the datastore, which heals the cache.
  unfoldable pub is_duplicate : Text → Artifact → Text → Action World Bool
  is_duplicate corpus artifact sha = do
    cached ← on_kv (λ t. KeyValue.get t (doc_key corpus sha))
    if is_some cached then pure true else do
      held ← on_ds (corpus_has_sha256 corpus sha artifact.id)
      if held
          then (do on_kv (λ t. KeyValue.setnx t (doc_key corpus sha) (codes "1")); pure true)
          else pure false

  unfoldable pub keep_content : Text → Artifact → FetchResponse → Action World Unit
  keep_content corpus artifact resp =
      maybe (sniff env resp.content resp.content_type artifact.source_url) (reject artifact resp)
        λ ext. do
          let sha = env.hexdigest resp.content
          seen ← is_duplicate corpus artifact sha
          if seen
              then settle_duplicate artifact sha
              else store_document corpus artifact resp ext sha

  -- A response of the host.
  unfoldable pub handle_response : Text → Artifact → FetchResponse → Action World Unit
  handle_response corpus artifact resp =
      if is_dead_link resp.status
      then on_ds (delete_artifact artifact.id)
      else if not (resp.status == 200)
      then record_attempt artifact (fstring (codes "http " ∷ to_decimal resp.status ∷ []))
      else keep_content corpus artifact resp

  -- The two exceptions of a fetch that are caught.
  unfoldable pub handle_failure : Artifact → Error → Action World Unit
  handle_failure artifact Error.unreachable_host = on_ds (delete_artifact artifact.id)
  handle_failure artifact Error.fetch_error = do
    text ← describe env Error.fetch_error
    record_attempt artifact text
  handle_failure artifact e = raise e

  unfoldable pub fetch_artifact : FetchTask → Artifact → Action World Unit
  fetch_artifact task artifact = do
    wait env artifact.source_url
    try_else (ask (λ n. env.fetch_page n artifact.source_url document_byte_cap))
        (handle_response task.corpus artifact) (handle_failure artifact)

  unfoldable pub handle_task : Task → Action World Unit
  handle_task (Task.fetch task) = do
    known ← gate_fetch task
    maybe known (pure tt) (fetch_artifact task)
  handle_task (Task.sweep task) = pure tt
  handle_task (Task.code task) = pure tt

  -- A message is deleted however its task ends, unless an exception escapes.
  unfoldable pub handle_one : QueueMessage → Action World Unit
  handle_one msg = do
    attempt (env.parse_task msg.body) handle_task (λ e. pure tt)
    delete QueueName.fetches msg

  unfoldable pub handle_batch : List QueueMessage → Action World Unit
  handle_batch [] = pure tt
  handle_batch (m ∷ messages) = do handle_one m; handle_batch messages
