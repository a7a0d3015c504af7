-- ===== src/Harvest/Orchestrator/Seeding.antt =====
-- orchestrator/src/harvest_orchestrator/seeding.py: the sweep targets of the jurisdictions in scope.
use dialogue_microservices.Prelude.{
  ℕ, ◌+◌, ◌*◌, List, [], ◌∷◌, Option, none, some, Bool, true, false, not, ◌&&◌, any, filter, leb,
  maybe, ◌==◌, if◌then◌else◌,
}
use dialogue_microservices.Prelude.Action.{
  Action, pure, except, is_unique_violation, ◌>>=◌, ◌>>◌, try_else,
}
use dialogue_microservices.Harvest.Domain.{
  CodeSource, Jurisdiction, Source, SweepHistory, SweepResult, SweepTarget, level_priority,
  same_source,
}
use dialogue_microservices.Harvest.Store.{
  insert_target, list_targets, list_history, list_code_sources, park_target,
}
use dialogue_microservices.Harvest.World.{Env, World, on_ds, now, day}
use dialogue_microservices.Harvest.Orchestrator.Scope.{resolve_scope}

unfoldable pub is_error : SweepResult → Bool
is_error SweepResult.error = true
is_error _ = false

-- `max(h.swept_at for h in rows)`, none of no rows
unfoldable pub newest : List SweepHistory → Option ℕ
newest [] = none
newest (h ∷ rows) =
    some (maybe (newest rows) h.swept_at (λ t. if leb t h.swept_at then h.swept_at else t))

-- `_backfill_due`, from the rows of the jurisdiction
unfoldable pub due_after : ℕ → ℕ → List SweepHistory → ℕ
unfolding newest is_error
due_after at resweep_interval_days rows =
    maybe (newest (filter (λ (h : SweepHistory). not (is_error h.result)) rows))
      (maybe (newest rows) at (λ t. t + 1 * day)) (λ t. t + resweep_interval_days * day)

unfoldable pub backfill_due : Env → ℕ → Source → ℕ → Action World ℕ
backfill_due env jurisdiction_id source at = do
  rows ← on_ds (list_history env.config.name (some jurisdiction_id))
  pure (
      due_after at env.config.resweep_interval_days
        (filter (λ (h : SweepHistory). same_source h.source source) rows))

-- `(jurisdiction_id, source) in existing`
unfoldable pub has_target : List SweepTarget → ℕ → Source → Bool
has_target existing jurisdiction_id source =
    any (λ (t : SweepTarget). t.jurisdiction_id == jurisdiction_id && same_source t.source source)
      existing

abbrev pub has_seed : List CodeSource → ℕ → Bool
has_seed seeds jurisdiction_id =
    any (λ (c : CodeSource). c.jurisdiction_id == jurisdiction_id) seeds

module _ (env : Env) (at : ℕ) (existing : List SweepTarget) (seeds : List CodeSource) where
  -- One wanted row: the number of rows inserted.
  unfoldable pub seed_source : Jurisdiction → Source → Action World ℕ
  seed_source j source = if has_target existing j.id source then pure 0 else do
    due ← backfill_due env j.id source at
    try_else (on_ds (insert_target env.config.name j.id source (level_priority j.level) due))
        (λ _. pure 1) (except is_unique_violation (pure 0))

  unfoldable pub seed_jurisdiction : Jurisdiction → Action World ℕ
  seed_jurisdiction j = do
    swept ← seed_source j Source.serper
    crawled ← (if has_seed seeds j.id then seed_source j Source.legal_codes else pure 0)
    pure (swept + crawled)

  unfoldable pub seed_all : List Jurisdiction → Action World ℕ
  seed_all [] = pure 0
  seed_all (j ∷ in_scope) = do
    here ← seed_jurisdiction j
    rest ← seed_all in_scope
    pure (here + rest)

  -- A due portal target whose seeds are all disabled.
  unfoldable pub is_orphan : SweepTarget → Bool
  is_orphan t =
      same_source t.source Source.legal_codes
      && not (has_seed seeds t.jurisdiction_id)
      && leb t.next_due_at at

  unfoldable pub park_orphans : List SweepTarget → Action World Unit
  park_orphans [] = pure tt
  park_orphans (t ∷ targets) = do
    if is_orphan t
        then on_ds
            (park_target t.id (at + env.config.resweep_interval_days * day) SweepResult.error)
        else pure tt
    park_orphans targets

unfoldable pub seed_targets : Env → ℕ → Action World ℕ
seed_targets env at = do
  in_scope ← resolve_scope env.config.scope
  existing ← on_ds (list_targets env.config.name none)
  seeds ← on_ds (list_code_sources none true)
  inserted ← seed_all env at existing seeds in_scope
  park_orphans env at existing seeds existing
  pure inserted

-- `seed_targets(…, self._clock.now())`
unfoldable pub seed_now : Env → Action World ℕ
seed_now env = do at ← now; seed_targets env at
