-- ===== src/Harvest/Store/Purge.antt =====
-- FakeDatastore, the purge of a corpus.
use dialogue_microservices.Prelude.{ℕ, List, Text, text_eq, filter, length, map}
use dialogue_microservices.Prelude.Dict.{values, erase_all}
use dialogue_microservices.Prelude.Action.{Action, pure}
use dialogue_microservices.Harvest.Domain.{SweepTarget, Artifact, SweepHistory}
use dialogue_microservices.Harvest.Store.State.{Datastore}

pub record CorpusCounts : Type 0 where
  pub artifacts : ℕ
  pub harvest_sweeps : ℕ
  pub sweep_targets : ℕ

abbrev pub artifact_ids : Text → Datastore → List ℕ
artifact_ids corpus s =
    map (λ (a : Artifact). a.id)
      (filter (λ (a : Artifact). text_eq a.corpus corpus) (values s.artifacts))

abbrev pub history_ids : Text → Datastore → List ℕ
history_ids corpus s =
    map (λ (h : SweepHistory). h.id)
      (filter (λ (h : SweepHistory). text_eq h.corpus corpus) (values s.history))

abbrev pub target_ids : Text → Datastore → List ℕ
target_ids corpus s =
    map (λ (t : SweepTarget). t.id)
      (filter (λ (t : SweepTarget). text_eq t.corpus corpus) (values s.targets))

unfoldable pub purge_corpus : Text → Action Datastore CorpusCounts
unfolding erase_all
purge_corpus corpus s =
    pure
      (record {
        artifacts = length (artifact_ids corpus s);
        harvest_sweeps = length (history_ids corpus s);
        sweep_targets = length (target_ids corpus s);
      })
      (record s {
        artifacts = erase_all (artifact_ids corpus s) s.artifacts;
        history = erase_all (history_ids corpus s) s.history;
        targets = erase_all (target_ids corpus s) s.targets;
      })
