-- ===== src/Harvest/Store/Artifacts.antt =====
-- FakeDatastore, the artifacts.
use dialogue_microservices.Prelude.{
  ℕ, suc, ◌+◌, Option, none, some, Bool, true, ◌&&◌, not, List, Text, text_eq, any, filter, sort_by,
  take, leb, ◌==◌, maybe, is_some, if◌then◌else◌,
}
use dialogue_microservices.Prelude.Dict.{get, put, erase, values}
use dialogue_microservices.Prelude.Action.{Error, Action, pure, raise, gets, modify}
use dialogue_microservices.Harvest.Domain.{Artifact, ArtifactStatus, is_pending}
use dialogue_microservices.Harvest.Store.State.{Datastore, same_text}

-- `(a.corpus, a.source_url) == (corpus, source_url)`
unfoldable pub is_artifact_of : Text → Text → Artifact → Bool
is_artifact_of corpus source_url a = text_eq a.corpus corpus && text_eq a.source_url source_url

abbrev pub new_artifact : ℕ → Text → ℕ → Text → Text → Text → ℕ → Artifact
new_artifact id corpus jurisdiction_id origin source_url context created_at = record {
  id = id;
  corpus = corpus;
  jurisdiction_id = jurisdiction_id;
  origin = origin;
  source_url = source_url;
  context = context;
  status = ArtifactStatus.pending;
  attempts = 0;
  last_error = none;
  filename = none;
  ext = none;
  content_type = none;
  sha256 = none;
  path = none;
  size_bytes = none;
  extracted_text = none;
  dispatched_at = none;
  dispatch_id = none;
  created_at = some created_at;
}

unfoldable pub insert_artifact : Text → ℕ → Text → Text → Text → ℕ → Action Datastore Artifact
unfolding is_artifact_of
insert_artifact corpus jurisdiction_id origin source_url context created_at s =
    if any (is_artifact_of corpus source_url) (values s.artifacts)
    then raise Error.unique_violation s
    else (let row =
          new_artifact s.next_id corpus jurisdiction_id origin source_url context created_at in
        pure row (record s { artifacts = put s.next_id row s.artifacts; next_id = suc s.next_id }))

unfoldable pub get_artifact : ℕ → Action Datastore (Option Artifact)
get_artifact artifact_id = gets (λ s. get s.artifacts artifact_id)

unfoldable pub update_artifact : Artifact → Action Datastore Unit
update_artifact a = modify (λ s.
    if is_some (get s.artifacts a.id) then record s { artifacts = put a.id a s.artifacts } else s)

unfoldable pub delete_artifact : ℕ → Action Datastore Unit
delete_artifact artifact_id = modify (λ s. record s { artifacts = erase artifact_id s.artifacts })

unfoldable pub is_other_copy : Text → Text → ℕ → Artifact → Bool
unfolding same_text
is_other_copy corpus sha256 exclude_artifact_id a =
    text_eq a.corpus corpus && same_text a.sha256 (some sha256) && not (a.id == exclude_artifact_id)

unfoldable pub corpus_has_sha256 : Text → Text → ℕ → Action Datastore Bool
unfolding is_other_copy
corpus_has_sha256 corpus sha256 exclude_artifact_id =
    gets (λ s. any (is_other_copy corpus sha256 exclude_artifact_id) (values s.artifacts))

-- `a.dispatched_at <= now - timeout` is written as a sum, since times stop at 0 here.
unfoldable pub is_stale : Text → ℕ → ℕ → Artifact → Bool
is_stale corpus now timeout a =
    text_eq a.corpus corpus
    && is_pending a.status
    && maybe a.dispatched_at true (λ at. leb (at + timeout) now)

unfoldable pub select_pending_stale : Text → ℕ → ℕ → ℕ → Action Datastore (List Artifact)
unfolding is_stale
select_pending_stale corpus now timeout limit = gets (λ s. take limit (
    sort_by (λ (a b : Artifact). leb a.id b.id)
      (filter (is_stale corpus now timeout) (values s.artifacts))))

abbrev pub stamped : ℕ → Text → Artifact → Artifact
stamped dispatched_at dispatch_id a = record a {
  dispatched_at = some dispatched_at;
  dispatch_id = some dispatch_id;
}

unfoldable pub stamp_artifact : ℕ → ℕ → Text → Action Datastore Unit
stamp_artifact artifact_id dispatched_at dispatch_id = modify (λ s.
    maybe (get s.artifacts artifact_id) s (λ a. record s {
      artifacts = put artifact_id (stamped dispatched_at dispatch_id a) s.artifacts;
    }))
