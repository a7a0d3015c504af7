-- ===== src/Harvest/Staging/Once.antt =====
-- staging.py: a url that was staged is not staged again.
use dialogue_microservices.Prelude.{
  ℕ, ◌≡◌, ◌⊎◌, codes, any, refl, inl, inr, false, Text, take, Option-cases, Bool-cases,
}
use dialogue_microservices.Prelude.Action.{
  Error, Action, ok, err, pure, raise, gets, try_else, is_unique_violation, ◌>>=◌,
}
use dialogue_microservices.Prelude.Preserves.{Preserves, preserves_rules, holds_after}
use dialogue_microservices.Core.KeyValue
use dialogue_microservices.Core.KeyValue.{KeyValue}
use dialogue_microservices.Core.KeyValue.Lasting.{
  IsPlain, IsCached, get-IsCached, get-IsPlain, get-found, setnx-IsCached,
}
use dialogue_microservices.Harvest.Domain.{Artifact}
use dialogue_microservices.Harvest.Messages.{Task}
use dialogue_microservices.Harvest.Store.{Datastore, insert_artifact, is_artifact_of}
use dialogue_microservices.Prelude.Dict.{values}
use dialogue_microservices.Harvest.World.{Env, World, QueueName, on_ds, on_kv, now, uuid4, send}
use dialogue_microservices.Harvest.Staging.{
  Candidate, url_key, stage_candidate, publish_staged, heal, sanitize_text, source_url_chars,
}

-- The url is in the cache of the corpus.
pub record HasCached (key : Text) (w : World) : Type 0 where
  pub holds : IsCached key w.kv

module _ {key : Text} where
  HasCached-on_ds : {A : Type 0} (m : Action Datastore A) → Preserves (HasCached key) (on_ds m)
  unfolding on_ds
  HasCached-on_ds m = record { from = λ w h. record { holds = h.holds } }

  HasCached-uuid4 : (env : Env) → Preserves (HasCached key) (uuid4 env)
  unfolding uuid4
  HasCached-uuid4 env = record { from = λ w h. record { holds = h.holds } }

  HasCached-send : (env : Env) (t : Task) → Preserves (HasCached key) (send env QueueName.fetches t)
  unfolding send
  HasCached-send env t = record {
    from = λ w h. record {
      holds = elim (Option-cases (env.send_fails w.calls)) [
        | inl sent ↦ rw sent h.holds
        | inr (e, failed) ↦ rw failed h.holds
      ];
    };
  }

-- The cache is filled, whatever the insert was answered.
filled :
    (key : Text) (w : World)
    → IsPlain key w.kv
    → HasCached key (on_kv (λ t. KeyValue.setnx t key (codes "1")) w).1
unfolding on_kv
filled key w plain = record { holds = setnx-IsCached w.clock key (codes "1") w.kv plain }

publish_staged-HasCached :
    (env : Env) (corpus key : Text) (at : ℕ) (a : Artifact) (w : World)
    → IsPlain key w.kv
    → HasCached key (publish_staged env corpus key at a w).1
unfolding publish_staged
publish_staged-HasCached env corpus key at a w plain =
    holds_after {P = HasCached key} _ _ w (filled key w plain)
      (λ _. search (preserves_rules, HasCached-on_ds, HasCached-uuid4, HasCached-send) depth 12)

heal-HasCached :
    (env : Env) (corpus key : Text) (w : World)
    → IsPlain key w.kv
    → HasCached key (heal env corpus key w).1
unfolding heal
heal-HasCached env corpus key w plain =
    holds_after {P = HasCached key} _ _ w (filled key w plain) (λ _. search (preserves_rules))

-- The only error of the insert is the constraint's.
insert_artifact-error :
    (corpus : Text) (j : ℕ) (origin url context : Text) (at : ℕ) (s : Datastore)
    → (insert_artifact corpus j origin url context at s ≡ (err Error.unique_violation, s))
      ⊎ ((a : Artifact) × (s' : Datastore) × (insert_artifact corpus j origin url context at s
            ≡ (ok a, s')))
unfolding insert_artifact pure raise
insert_artifact-error corpus j origin url context at s =
    elim (Bool-cases (any (is_artifact_of corpus url) (values s.artifacts))) [
      | inl taken ↦ rw taken (inl refl)
      | inr fresh ↦ rw fresh (inr (_, _, refl))
    ]

module _ (env : Env) (corpus : Text) where
  -- After a first call, whatever it returned or raised, the url is cached.
  stage_candidate-HasCached :
      (j : ℕ) (origin : Text) (c : Candidate) (w : World)
      → IsPlain (url_key env corpus c.url) w.kv
      → HasCached (url_key env corpus c.url) (stage_candidate env corpus j origin c w).1
  unfolding stage_candidate on_kv now gets try_else on_ds is_unique_violation pure ◌>>=◌
  stage_candidate-HasCached j origin c w plain =
      let key = url_key env corpus c.url in
      let after = get-IsPlain w.clock key key w.kv plain in
      elim (Option-cases (KeyValue.get w.clock key w.kv).0) [
        | inr (v, known) ↦
            rw known (record { holds = get-found w.clock key w.kv plain (rw known refl) })
        | inl unknown ↦
            rw unknown
              (elim (insert_artifact-error corpus j origin (take source_url_chars c.url)
                (sanitize_text c.context) w.clock w.ds) [
                  | inl lost ↦ rw lost (heal-HasCached env corpus key _ after)
                  | inr (a, s', stored) ↦
                      rw stored (publish_staged-HasCached env corpus key w.clock a _ after)
                ])
      ]

  stage_candidate-cached :
      (j : ℕ) (origin : Text) (c : Candidate) (key : Text) (w : World)
      → url_key env corpus c.url ≡ key
      → IsCached key w.kv
      → stage_candidate env corpus j origin c w
        ≡ (ok false, record w { kv = (KeyValue.get w.clock key w.kv).1 })
  unfolding stage_candidate on_kv pure ◌>>=◌
  stage_candidate-cached j origin c key w same cached =
      rw (same, (get-IsCached w.clock key w.kv cached).0) refl

  -- A url that was staged, or tried, is not staged again by a later call, for whatever jurisdiction
  -- and origin: it answers false, inserts nothing, sends nothing, and only reads the cache. Of the
  -- cache key of the url it is assumed that no deadline is set on it and no hash stands under it.
  pub stage_candidate-again :
      (j j' : ℕ) (origin origin' : Text) (c c' : Candidate) (w : World)
      → IsPlain (url_key env corpus c.url) w.kv
      → c'.url ≡ c.url
      → let later = (stage_candidate env corpus j origin c w).1 in
        stage_candidate env corpus j' origin' c' later ≡ (
          ok false,
          record later { kv = (KeyValue.get later.clock (url_key env corpus c.url) later.kv).1 },
        )
  stage_candidate-again j j' origin origin' c c' w plain same =
      let cached = (stage_candidate-HasCached j origin c w plain).holds in
      stage_candidate-cached j' origin' c' (url_key env corpus c.url) _ (rw same refl) cached
