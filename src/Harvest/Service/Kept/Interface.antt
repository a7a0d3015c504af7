-- ===== src/Harvest/Service/Kept/Interface.antt =====
-- What an invariant of the datastore has to keep, for every run to keep it.
use dialogue_microservices.Prelude.{ℕ, ◌≡◌, Option, some, true, Text}
use dialogue_microservices.Prelude.Dict.{get}
use dialogue_microservices.Prelude.Preserves.{Preserves}
use dialogue_microservices.Harvest.Domain.{Artifact, Source, SweepHistory, SweepResult, is_pending}
use dialogue_microservices.Harvest.Store.{
  Datastore, insert_jurisdiction, insert_target, stamp_target, finalize_target, park_target,
  insert_artifact, update_artifact, delete_artifact, stamp_artifact, insert_history,
}

-- The methods of the datastore that change it keep `Q`; those that write a given artifact do so for
-- the `Free` ids, and the id of a pending artifact is free.
pub record Kept (Q : Datastore → Type 0) (Free : ℕ → Type 0) : Type 0 where
  pub insert_jurisdiction :
      (name state level : Text) (fips : Option Text) (parent_id : Option ℕ)
      (parent_name : Option Text)
      → Preserves Q (insert_jurisdiction name state level fips parent_id parent_name)
  pub insert_target :
      (corpus : Text) (jurisdiction_id : ℕ) (source : Source) (priority due : ℕ)
      → Preserves Q (insert_target corpus jurisdiction_id source priority due)
  pub stamp_target :
      (i at : ℕ) (d : Text) (n : ℕ) (e : Option Text) (e_at : Option ℕ)
      → Preserves Q (stamp_target i at d n e e_at)
  pub finalize_target :
      (i : ℕ) (d : Text) (r : SweepResult) (due : ℕ) → Preserves Q (finalize_target i d r due)
  pub park_target : (i due : ℕ) (r : SweepResult) → Preserves Q (park_target i due r)
  pub insert_history : (h : SweepHistory) → Preserves Q (insert_history h)
  pub insert_artifact :
      (corpus : Text) (jurisdiction_id : ℕ) (origin url context : Text) (at : ℕ)
      → Preserves Q (insert_artifact corpus jurisdiction_id origin url context at)
  pub stamp_artifact : (i at : ℕ) (d : Text) → Preserves Q (stamp_artifact i at d)
  pub update_artifact : (a : Artifact) → Free a.id → Preserves Q (update_artifact a)
  pub delete_artifact : (i : ℕ) → Free i → Preserves Q (delete_artifact i)
  pub pending_is_free :
      (s : Datastore) (i : ℕ) (a : Artifact)
      → Q s
      → get s.artifacts i ≡ some a
      → is_pending a.status ≡ true
      → Free a.id
