-- ===== src/Harvest/Service/History.antt =====
-- What any run does to the sweep history: each query of a dispatch is recorded at most once, and no
-- row is lost or changed.
use dialogue_microservices.Prelude.{
  ℕ, suc, ◌≡◌, ◌≤◌, ◌+◌, refl, sym, ap, ◌∙◌, inl, inr, arith, List, [], ◌∷◌, ◌++◌, Option, true,
  false, Text, any, sum_by, sum_by-append, take, text_eq, text_eq_iff, ◌==◌, ==_iff, Option-cases,
  Bool-cases, if◌then◌else◌,
}
use mathlib.Core.List.{append_assoc, append-nil}
use dialogue_microservices.Prelude.Dict.{
  get, put, values, values-put_fresh, KeysBelow, KeysBelow-mono, KeysBelow-put_fresh,
}
use dialogue_microservices.Prelude.Action.{pure, raise, modify}
use dialogue_microservices.Prelude.Preserves.{Preserves, preserves_rules}
use dialogue_microservices.Harvest.Domain.{Artifact, Source, SweepHistory, SweepResult, SweepTarget}
use dialogue_microservices.Harvest.Store.{
  Datastore, insert_jurisdiction, insert_target, stamp_target, finalize_target, park_target,
  insert_artifact, update_artifact, delete_artifact, stamp_artifact, insert_history, write_target,
  is_named, is_target_of, is_artifact_of, is_query, detail_chars,
}
use dialogue_microservices.Harvest.World.{Env, World}
use dialogue_microservices.Harvest.Service.{Call, serve}
use dialogue_microservices.Harvest.Service.Kept.{Kept, serve-Kept}

-- How many rows are of one query of a dispatch.
abbrev pub count_query : Text → ℕ → List SweepHistory → ℕ
count_query d q = sum_by (λ (h : SweepHistory). if is_query d q h then 1 else 0)

-- The history of `s` is that of `s0` with rows after it, and has no query twice.
pub record Grows (s0 s : Datastore) : Type 0 where
  pub below : KeysBelow s.next_id s.history
  pub once : (d : Text) (q : ℕ) → count_query d q (values s.history) ≤ 1
  pub appended : (new : List SweepHistory) × (values s.history ≡ values s0.history ++ new)

none_counted :
    (d : Text) (q : ℕ) (rows : List SweepHistory)
    → any (is_query d q) rows ≡ false
    → count_query d q rows ≡ 0
unfolding any sum_by
none_counted d q [] e = refl
none_counted d q (h ∷ rows) e = elim (Bool-cases (is_query d q h)) [
  | inl found ↦ ground arith
  | inr other ↦ (let rest = none_counted d q rows (ground arith) in ground arith)
]

count_query-append :
    (d : Text) (q : ℕ) (rows : List SweepHistory) (h : SweepHistory)
    → count_query d q (rows ++ h ∷ []) ≡ count_query d q rows + (if is_query d q h then 1 else 0)
unfolding sum_by
count_query-append d q rows h =
    let e = sum_by-append (λ (x : SweepHistory). if is_query d q x then 1 else 0) rows (h ∷ []) in
    ground arith

is_query-same :
    (d : Text) (q : ℕ) (h : SweepHistory)
    → is_query d q h ≡ true
    → (h.dispatch_id ≡ d) × (h.query_seq ≡ q)
unfolding is_query
is_query-same d q h e =
    let same_d : text_eq h.dispatch_id d ≡ true = ground arith in
    let same_q : (h.query_seq == q) ≡ true = ground arith in
    ((text_eq_iff h.dispatch_id d).0 same_d, (==_iff h.query_seq q).0 same_q)

-- A row of a query that is not there keeps every query single.
once-append :
    (rows : List SweepHistory) (h : SweepHistory)
    → any (is_query h.dispatch_id h.query_seq) rows ≡ false
    → ((d : Text) (q : ℕ) → count_query d q rows ≤ 1)
    → (d : Text) (q : ℕ) → count_query d q (rows ++ h ∷ []) ≤ 1
once-append rows h fresh once d q = elim (Bool-cases (is_query d q h)) [
  | inr other ↦ rw (count_query-append d q rows h, other) (let o = once d q in ground arith)
  | inl same ↦
      (let (same_d, same_q) = is_query-same d q h same in
        let absent : count_query d q rows ≡ 0 =
          rw (sym same_d, sym same_q) (none_counted _ _ rows fresh) in
        rw (count_query-append d q rows h, same, absent) (ground arith))
]

module _ (s0 : Datastore) where
  Grows-same :
      (s s' : Datastore)
      → s'.history ≡ s.history
      → s.next_id ≤ s'.next_id
      → Grows s0 s
      → Grows s0 s'
  Grows-same s s' p le h = record {
    below = rw p (KeysBelow-mono _ _ s.history le h.below);
    once = rw p h.once;
    appended = rw p h.appended;
  }

  Grows-insert :
      (s : Datastore) (row : SweepHistory)
      → any (is_query row.dispatch_id row.query_seq) (values s.history) ≡ false
      → Grows s0 s
      → Grows s0 (record s { history = put s.next_id row s.history; next_id = suc s.next_id })
  Grows-insert s row fresh h =
      let (new, e) = h.appended in
      record {
        below = KeysBelow-put_fresh s.next_id row s.history h.below;
        once =
            rw (values-put_fresh s.next_id row s.history h.below)
              (once-append (values s.history) row fresh h.once);
        appended = (
          new ++ row ∷ [],
          values-put_fresh s.next_id row s.history h.below
              ∙ ap (λ rows. rows ++ row ∷ []) e
              ∙ append_assoc (values s0.history) new (row ∷ []),
        );
      }

  -- Methods that leave the history alone.
  write_target-Grows : (i : ℕ) (t : SweepTarget) → Preserves (Grows s0) (write_target i t)
  unfolding write_target modify
  write_target-Grows i t = record { from = λ s h. Grows-same s _ refl (omega arith) h }

  stamp_target-Grows :
      (i at : ℕ) (d : Text) (n : ℕ) (e : Option Text) (e_at : Option ℕ)
      → Preserves (Grows s0) (stamp_target i at d n e e_at)
  unfolding stamp_target
  stamp_target-Grows i at d n e e_at = search (preserves_rules, write_target-Grows) depth 8

  finalize_target-Grows :
      (i : ℕ) (d : Text) (r : SweepResult) (due : ℕ)
      → Preserves (Grows s0) (finalize_target i d r due)
  unfolding finalize_target
  finalize_target-Grows i d r due = search (preserves_rules, write_target-Grows) depth 8

  park_target-Grows : (i due : ℕ) (r : SweepResult) → Preserves (Grows s0) (park_target i due r)
  unfolding park_target
  park_target-Grows i due r = search (preserves_rules, write_target-Grows) depth 8

  insert_target-Grows :
      (corpus : Text) (j : ℕ) (source : Source) (priority due : ℕ)
      → Preserves (Grows s0) (insert_target corpus j source priority due)
  unfolding insert_target pure raise
  insert_target-Grows corpus j source priority due = record {
    from = λ s h. elim (Bool-cases (any (is_target_of corpus j source) (values s.targets))) [
      | inl taken ↦ rw taken h
      | inr fresh ↦ rw fresh (Grows-same s _ refl (omega arith) h)
    ];
  }

  insert_jurisdiction-Grows :
      (name state level : Text) (fips : Option Text) (parent : Option ℕ) (parent_name : Option Text)
      → Preserves (Grows s0) (insert_jurisdiction name state level fips parent parent_name)
  unfolding insert_jurisdiction pure raise
  insert_jurisdiction-Grows name state level fips parent parent_name = record {
    from = λ s h. elim (Bool-cases (any (is_named level state name) (values s.jurisdictions))) [
      | inl taken ↦ rw taken h
      | inr fresh ↦ rw fresh (Grows-same s _ refl (omega arith) h)
    ];
  }

  insert_history-Grows : (row : SweepHistory) → Preserves (Grows s0) (insert_history row)
  unfolding insert_history pure
  insert_history-Grows row = record {
    from = λ s h.
        elim (Bool-cases (any (is_query row.dispatch_id row.query_seq) (values s.history))) [
          | inl taken ↦ rw taken h
          | inr fresh ↦ rw fresh (
              Grows-insert s (record row { id = s.next_id; detail = take detail_chars row.detail })
                fresh h)
        ];
  }

  insert_artifact-Grows :
      (corpus : Text) (j : ℕ) (origin url context : Text) (at : ℕ)
      → Preserves (Grows s0) (insert_artifact corpus j origin url context at)
  unfolding insert_artifact pure raise
  insert_artifact-Grows corpus j origin url context at = record {
    from = λ s h. elim (Bool-cases (any (is_artifact_of corpus url) (values s.artifacts))) [
      | inl taken ↦ rw taken h
      | inr fresh ↦ rw fresh (Grows-same s _ refl (omega arith) h)
    ];
  }

  stamp_artifact-Grows : (i at : ℕ) (d : Text) → Preserves (Grows s0) (stamp_artifact i at d)
  unfolding stamp_artifact modify
  stamp_artifact-Grows i at d = record {
    from = λ s h. elim (Option-cases (get s.artifacts i)) [
      | inl gone ↦ rw gone h
      | inr (b, known) ↦ rw known (Grows-same s _ refl (omega arith) h)
    ];
  }

  update_artifact-Grows : (a : Artifact) → Preserves (Grows s0) (update_artifact a)
  unfolding update_artifact modify
  update_artifact-Grows a = record {
    from = λ s h. elim (Option-cases (get s.artifacts a.id)) [
      | inl gone ↦ rw gone h
      | inr (b, known) ↦ rw known (Grows-same s _ refl (omega arith) h)
    ];
  }

  delete_artifact-Grows : (i : ℕ) → Preserves (Grows s0) (delete_artifact i)
  unfolding delete_artifact modify
  delete_artifact-Grows i = record { from = λ s h. Grows-same s _ refl (omega arith) h }

  history_kept : Kept (Grows s0) (λ i. Unit)
  history_kept = record {
    insert_jurisdiction = insert_jurisdiction-Grows;
    insert_target = insert_target-Grows;
    stamp_target = stamp_target-Grows;
    finalize_target = finalize_target-Grows;
    park_target = park_target-Grows;
    insert_history = insert_history-Grows;
    insert_artifact = insert_artifact-Grows;
    stamp_artifact = stamp_artifact-Grows;
    update_artifact = λ a free. update_artifact-Grows a;
    delete_artifact = λ i free. delete_artifact-Grows i;
    pending_is_free = λ s i a h e p. tt;
  }

-- Whatever rounds of the workers and turns of the orchestrator are run, in whatever order and with
-- whatever answers from outside, the history only grows at its end, and a query of a dispatch has at
-- most one row in it, where that was so before and the next id is above the ids in use.
pub serve-Grows :
    (calls : List (Env × Call)) (w : World)
    → KeysBelow w.ds.next_id w.ds.history
    → ((d : Text) (q : ℕ) → count_query d q (values w.ds.history) ≤ 1)
    → Grows w.ds (serve calls w).ds
serve-Grows calls w below once =
    let start : Grows w.ds w.ds = record {
      below = below;
      once = once;
      appended = ([], sym (append-nil (values w.ds.history)));
    } in
    serve-Kept (history_kept w.ds) calls w start
