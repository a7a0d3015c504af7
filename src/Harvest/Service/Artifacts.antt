-- ===== src/Harvest/Service/Artifacts.antt =====
-- What any run does to the artifacts that are worked: nothing.
use dialogue_microservices.Prelude.{
  ℕ, suc, ◌≡◌, ◌≤◌, refl, sym, ap, ◌∙◌, inl, inr, arith, List, Option, some, true, false, Text, any,
  ◌==◌, ==_iff, Option-cases, Bool-cases,
}
use mathlib.Core.Bool.{true≢false}
use mathlib.Core.Option.{some_inj}
use dialogue_microservices.Prelude.Dict.{
  get, put, erase, values, KeysBelow, KeysBelow-mono, KeysBelow-put, KeysBelow-put_fresh,
  KeysBelow-erase, get-put, get-put_fresh, get-below, get-erase_other,
}
use dialogue_microservices.Prelude.Keyed.{IsOwn, IsOwn-put, IsOwn-erase, IsOwn-get}
use dialogue_microservices.Prelude.Action.{pure, raise, modify}
use dialogue_microservices.Prelude.Preserves.{Preserves, preserves_rules}
use dialogue_microservices.Harvest.Domain.{
  Artifact, ArtifactStatus, Source, SweepHistory, SweepResult, SweepTarget, is_pending,
}
use dialogue_microservices.Harvest.Domain.Transitions.{is_worked}
use dialogue_microservices.Harvest.Store.{
  Datastore, insert_jurisdiction, insert_target, stamp_target, finalize_target, park_target,
  insert_artifact, update_artifact, delete_artifact, stamp_artifact, insert_history, write_target,
  stamped, new_artifact, is_named, is_target_of, is_artifact_of, is_query,
}
use dialogue_microservices.Harvest.World.{Env, World}
use dialogue_microservices.Harvest.Service.{Call, serve}
use dialogue_microservices.Harvest.Service.Kept.{Kept, serve-Kept}

-- The same row, but for the stamp of its dispatch.
pub record Unmoved (a a' : Artifact) : Type 0 where
  pub same : a' ≡ record a { dispatched_at = a'.dispatched_at; dispatch_id = a'.dispatch_id }

-- Every worked artifact of `s0` stands unmoved in `s`, whose ids are in order.
pub record Settles (s0 s : Datastore) : Type 0 where
  pub below : KeysBelow s.next_id s.artifacts
  pub own : IsOwn (λ (a : Artifact). a.id) s.artifacts
  pub rows :
      (i : ℕ) (a : Artifact)
      → get s0.artifacts i ≡ some a
      → is_worked a.status ≡ true
      → (a' : Artifact) × (get s.artifacts i ≡ some a') × Unmoved a a'

-- No worked artifact of `s0` has this id.
abbrev Unworked : Datastore → ℕ → Type 0
Unworked s0 i = (a : Artifact) → get s0.artifacts i ≡ some a → is_worked a.status ≡ false

module _ (s0 : Datastore) where
  Settles-same :
      (s s' : Datastore)
      → s'.artifacts ≡ s.artifacts
      → s.next_id ≤ s'.next_id
      → Settles s0 s
      → Settles s0 s'
  Settles-same s s' p le h = record {
    below = rw p (KeysBelow-mono _ _ s.artifacts le h.below);
    own = rw p h.own;
    rows = λ i a e worked. rw p (h.rows i a e worked);
  }

  Settles-put :
      (s : Datastore) (i : ℕ) (b b' : Artifact)
      → get s.artifacts i ≡ some b
      → b'.id ≡ i
      → Unworked s0 i
      → Settles s0 s
      → Settles s0 (record s { artifacts = put i b' s.artifacts })
  Settles-put s i b b' known same free h = record {
    below =
        KeysBelow-put s.next_id i b' s.artifacts (get-below _ _ b s.artifacts h.below known)
          h.below;
    own = IsOwn-put (λ (a : Artifact). a.id) i b' s.artifacts same h.own;
    rows = λ j a e worked. elim (Bool-cases (i == j)) [
      | inl here ↦
          (let same_id = (==_iff i j).0 here in
            let unworked : is_worked a.status ≡ false = free a (rw same_id e) in
            absurd (true≢false (sym worked ∙ unworked)))
      | inr other ↦ rw (get-put i j b' s.artifacts, other) (h.rows j a e worked)
    ];
  }

  Settles-erase :
      (s : Datastore) (i : ℕ)
      → Unworked s0 i
      → Settles s0 s
      → Settles s0 (record s { artifacts = erase i s.artifacts })
  Settles-erase s i free h = record {
    below = KeysBelow-erase s.next_id i s.artifacts h.below;
    own = IsOwn-erase (λ (a : Artifact). a.id) i s.artifacts h.own;
    rows = λ j a e worked. elim (Bool-cases (i == j)) [
      | inl here ↦
          (let same_id = (==_iff i j).0 here in
            let unworked : is_worked a.status ≡ false = free a (rw same_id e) in
            absurd (true≢false (sym worked ∙ unworked)))
      | inr other ↦ rw (get-erase_other i j s.artifacts other) (h.rows j a e worked)
    ];
  }

  Settles-insert :
      (s : Datastore) (b : Artifact)
      → b.id ≡ s.next_id
      → Settles s0 s
      → Settles s0 (record s { artifacts = put s.next_id b s.artifacts; next_id = suc s.next_id })
  Settles-insert s b same h = record {
    below = KeysBelow-put_fresh s.next_id b s.artifacts h.below;
    own = IsOwn-put (λ (a : Artifact). a.id) s.next_id b s.artifacts same h.own;
    rows = λ j a e worked.
        let (a', there, unmoved) = h.rows j a e worked in
        (a', get-put_fresh s.next_id j b a' s.artifacts h.below there, unmoved);
  }

  Unmoved-stamped :
      (a a' : Artifact) (at : ℕ) (d : Text) → Unmoved a a' → Unmoved a (stamped at d a')
  Unmoved-stamped a a' at d u = record { same = ap (stamped at d) u.same }

  Settles-stamp :
      (s : Datastore) (i at : ℕ) (d : Text) (b : Artifact)
      → get s.artifacts i ≡ some b
      → Settles s0 s
      → Settles s0 (record s { artifacts = put i (stamped at d b) s.artifacts })
  Settles-stamp s i at d b known h = record {
    below =
        KeysBelow-put s.next_id i (stamped at d b) s.artifacts
          (get-below _ _ b s.artifacts h.below known) h.below;
    own =
        IsOwn-put (λ (a : Artifact). a.id) i (stamped at d b) s.artifacts
          (IsOwn-get (λ (a : Artifact). a.id) i b s.artifacts h.own known) h.own;
    rows = λ j a e worked.
        let (a', there, unmoved) = h.rows j a e worked in
        elim (Bool-cases (i == j)) [
          | inl here ↦
              (let same_id = (==_iff i j).0 here in
                let same_row : a' ≡ b = some_inj.0 (sym there ∙ rw (sym same_id) known) in
                (
                  stamped at d b,
                  rw (get-put i j (stamped at d b) s.artifacts, here) refl,
                  rw (sym same_row) (Unmoved-stamped a a' at d unmoved),
                ))
          | inr other ↦ (a', rw (get-put i j (stamped at d b) s.artifacts, other) there, unmoved)
        ];
  }

  -- Methods that leave the artifacts alone.
  write_target-Settles : (i : ℕ) (t : SweepTarget) → Preserves (Settles s0) (write_target i t)
  unfolding write_target modify
  write_target-Settles i t = record { from = λ s h. Settles-same s _ refl (omega arith) h }

  stamp_target-Settles :
      (i at : ℕ) (d : Text) (n : ℕ) (e : Option Text) (e_at : Option ℕ)
      → Preserves (Settles s0) (stamp_target i at d n e e_at)
  unfolding stamp_target
  stamp_target-Settles i at d n e e_at = search (preserves_rules, write_target-Settles) depth 8

  finalize_target-Settles :
      (i : ℕ) (d : Text) (r : SweepResult) (due : ℕ)
      → Preserves (Settles s0) (finalize_target i d r due)
  unfolding finalize_target
  finalize_target-Settles i d r due = search (preserves_rules, write_target-Settles) depth 8

  park_target-Settles : (i due : ℕ) (r : SweepResult) → Preserves (Settles s0) (park_target i due r)
  unfolding park_target
  park_target-Settles i due r = search (preserves_rules, write_target-Settles) depth 8

  insert_target-Settles :
      (corpus : Text) (j : ℕ) (source : Source) (priority due : ℕ)
      → Preserves (Settles s0) (insert_target corpus j source priority due)
  unfolding insert_target pure raise
  insert_target-Settles corpus j source priority due = record {
    from = λ s h. elim (Bool-cases (any (is_target_of corpus j source) (values s.targets))) [
      | inl taken ↦ rw taken h
      | inr fresh ↦ rw fresh (Settles-same s _ refl (omega arith) h)
    ];
  }

  insert_jurisdiction-Settles :
      (name state level : Text) (fips : Option Text) (parent : Option ℕ) (parent_name : Option Text)
      → Preserves (Settles s0) (insert_jurisdiction name state level fips parent parent_name)
  unfolding insert_jurisdiction pure raise
  insert_jurisdiction-Settles name state level fips parent parent_name = record {
    from = λ s h. elim (Bool-cases (any (is_named level state name) (values s.jurisdictions))) [
      | inl taken ↦ rw taken h
      | inr fresh ↦ rw fresh (Settles-same s _ refl (omega arith) h)
    ];
  }

  insert_history-Settles : (row : SweepHistory) → Preserves (Settles s0) (insert_history row)
  unfolding insert_history pure
  insert_history-Settles row = record {
    from = λ s h.
        elim (Bool-cases (any (is_query row.dispatch_id row.query_seq) (values s.history))) [
          | inl taken ↦ rw taken h
          | inr fresh ↦ rw fresh (Settles-same s _ refl (omega arith) h)
        ];
  }

  insert_artifact-Settles :
      (corpus : Text) (j : ℕ) (origin url context : Text) (at : ℕ)
      → Preserves (Settles s0) (insert_artifact corpus j origin url context at)
  unfolding insert_artifact pure raise
  insert_artifact-Settles corpus j origin url context at = record {
    from = λ s h. elim (Bool-cases (any (is_artifact_of corpus url) (values s.artifacts))) [
      | inl taken ↦ rw taken h
      | inr fresh ↦
          rw fresh (Settles-insert s (new_artifact s.next_id corpus j origin url context at) refl h)
    ];
  }

  stamp_artifact-Settles : (i at : ℕ) (d : Text) → Preserves (Settles s0) (stamp_artifact i at d)
  unfolding stamp_artifact modify
  stamp_artifact-Settles i at d = record {
    from = λ s h. elim (Option-cases (get s.artifacts i)) [
      | inl gone ↦ rw gone h
      | inr (b, known) ↦ rw known (Settles-stamp s i at d b known h)
    ];
  }

  update_artifact-Settles :
      (a : Artifact) → Unworked s0 a.id → Preserves (Settles s0) (update_artifact a)
  unfolding update_artifact modify
  update_artifact-Settles a free = record {
    from = λ s h. elim (Option-cases (get s.artifacts a.id)) [
      | inl gone ↦ rw gone h
      | inr (b, known) ↦ rw known (Settles-put s a.id b a known refl free h)
    ];
  }

  delete_artifact-Settles : (i : ℕ) → Unworked s0 i → Preserves (Settles s0) (delete_artifact i)
  unfolding delete_artifact modify
  delete_artifact-Settles i free = record { from = λ s h. Settles-erase s i free h }

  pending_not_worked :
      (status : ArtifactStatus) → is_pending status ≡ true → is_worked status ≡ false
  unfolding is_pending
  pending_not_worked status e = ground arith

  -- What is pending now was not worked before.
  pending-Unworked :
      (s : Datastore) (i : ℕ) (b : Artifact)
      → Settles s0 s
      → get s.artifacts i ≡ some b
      → is_pending b.status ≡ true
      → Unworked s0 b.id
  pending-Unworked s i b h known pending a e =
      let own = IsOwn-get (λ (x : Artifact). x.id) i b s.artifacts h.own known in
      elim (Bool-cases (is_worked a.status)) [
        | inr unworked ↦ unworked
        | inl worked ↦
            (let (a', there, unmoved) = h.rows i a (rw (sym own) e) worked in
              let same_row : a' ≡ b = some_inj.0 (sym there ∙ known) in
              let same_status : b.status ≡ a.status =
                ap (λ (x : Artifact). x.status) (sym same_row ∙ unmoved.same) in
              sym (ap is_worked same_status) ∙ pending_not_worked b.status pending)
      ]

  artifacts_kept : Kept (Settles s0) (Unworked s0)
  artifacts_kept = record {
    insert_jurisdiction = insert_jurisdiction-Settles;
    insert_target = insert_target-Settles;
    stamp_target = stamp_target-Settles;
    finalize_target = finalize_target-Settles;
    park_target = park_target-Settles;
    insert_history = insert_history-Settles;
    insert_artifact = insert_artifact-Settles;
    stamp_artifact = stamp_artifact-Settles;
    update_artifact = update_artifact-Settles;
    delete_artifact = delete_artifact-Settles;
    pending_is_free = pending-Unworked;
  }

-- Whatever rounds of the workers and turns of the orchestrator are run, in whatever order and with
-- whatever answers from outside, an artifact that is no longer pending is never deleted and never
-- written again, but for the stamp of its dispatch. The rows are to stand under their own ids, and
-- the next id is to be above the ids in use.
pub serve-worked :
    (calls : List (Env × Call)) (w : World)
    → KeysBelow w.ds.next_id w.ds.artifacts
    → IsOwn (λ (a : Artifact). a.id) w.ds.artifacts
    → (i : ℕ) (a : Artifact) → get w.ds.artifacts i ≡ some a
    → is_worked a.status ≡ true
    → (a' : Artifact) × (get (serve calls w).ds.artifacts i ≡ some a') × Unmoved a a'
serve-worked calls w below own i a there worked =
    let start : Settles w.ds w.ds = record {
      below = below;
      own = own;
      rows = λ j b e _. (b, e, record { same = refl });
    } in
    (serve-Kept (artifacts_kept w.ds) calls w start).rows i a there worked
