-- ===== src/Harvest/Service/Kept/Passes.antt =====
-- The orchestrator's turn, under an invariant of the datastore.
use dialogue_microservices.Prelude.{refl, ℕ, List, [], ◌∷◌, some, Text, if◌then◌else◌}
use dialogue_microservices.Prelude.TextDict.{TextDict}
use dialogue_microservices.Prelude.Preserves.{
  Preserves, preserves_rules, Preserves-pure, Preserves-gets, Preserves-bind, Preserves-if,
}
use dialogue_microservices.Harvest.Domain.{Artifact, CodeSource, Jurisdiction, Source, SweepTarget}
use dialogue_microservices.Harvest.Store.{Datastore}
use dialogue_microservices.Harvest.Store.Reads.{read_rules}
use dialogue_microservices.Harvest.World.{Env, World, CensusPlace, ScopeConfig}
use dialogue_microservices.Harvest.Frame.{DsHas, ds_rules, DsHas-modify, DsHas-now, DsHas-send}
use dialogue_microservices.Harvest.Orchestrator.{
  insert_county, insert_counties, insert_place, insert_places, load_state, load_states,
  ensure_states, insert_anchor, ensure_federal_anchor, generate_queries, send_queries, stamp,
  send_stamped, dispatch_serper, send_seeds, park, seeds_or_park, dispatch_code, dispatch_by,
  dispatch_all, dispatch_cycle, republish, republish_all, reconcile_fetch, backfill_due,
  seed_source, seed_jurisdiction, seed_all, park_orphans, seed_targets, seed_now, is_all,
  all_states, pool_of, resolve_scope, send_out, run_cycle, turn,
}
use dialogue_microservices.Harvest.Service.Kept.Interface.{Kept}

module _ {Q : Datastore → Type 0} {Free : ℕ → Type 0} (kept : Kept Q Free) where
  insert_county-Kept :
      (state : Text) (ids : TextDict ℕ) (p : CensusPlace)
      → Preserves (DsHas Q) (insert_county state ids p)
  unfolding insert_county
  insert_county-Kept state ids p =
      let insert = kept.insert_jurisdiction in search (preserves_rules, ds_rules, insert) depth 12

  insert_counties-Kept :
      (state : Text) (ids : TextDict ℕ) (ps : List CensusPlace)
      → Preserves (DsHas Q) (insert_counties state ids ps)
  unfolding insert_counties
  insert_counties-Kept state ids [] = search (preserves_rules)
  insert_counties-Kept state ids (p ∷ ps) =
      Preserves-bind _ _ (insert_county-Kept state ids p)
        (λ more. insert_counties-Kept state more ps)

  insert_places-Kept :
      (state : Text) (ids : TextDict ℕ) (ps : List CensusPlace)
      → Preserves (DsHas Q) (insert_places state ids ps)
  unfolding insert_places insert_place
  insert_places-Kept state ids [] = search (preserves_rules)
  insert_places-Kept state ids (p ∷ ps) =
      let insert = kept.insert_jurisdiction in
      Preserves-bind _ _ (search (preserves_rules, ds_rules, insert) depth 12)
        (λ done. insert_places-Kept state ids ps)

  load_states-Kept : (env : Env) (states : List Text) → Preserves (DsHas Q) (load_states env states)
  unfolding load_states load_state
  load_states-Kept env [] = search (preserves_rules)
  load_states-Kept env (s ∷ states) =
      let insert = kept.insert_jurisdiction in
      Preserves-bind _ _ (search (ds_rules, read_rules) depth 6) (λ there.
        Preserves-bind _ _
          (search (preserves_rules, ds_rules, insert, insert_counties-Kept, insert_places-Kept)
            depth 12)
          (λ done. load_states-Kept env states))

  ensure_states-Kept :
      (env : Env) (states : List Text) → Preserves (DsHas Q) (ensure_states env states)
  unfolding ensure_states
  ensure_states-Kept env states = Preserves-bind _ _ DsHas-now (λ at.
      Preserves-bind _ _ (Preserves-gets _) (λ last. Preserves-if _ _ _ (Preserves-pure _) (
        Preserves-bind _ _
          (DsHas-modify (λ (w : World). record w { last_seeded = some at }) (λ w. refl))
          (λ marked.
            Preserves-bind _ _ (load_states-Kept env (if is_all states then all_states else states))
              (λ done. Preserves-pure _)))))

  federal_anchor-Kept : Preserves (DsHas Q) ensure_federal_anchor
  unfolding ensure_federal_anchor insert_anchor
  federal_anchor-Kept =
      let insert = kept.insert_jurisdiction in
      search (preserves_rules, ds_rules, read_rules, insert) depth 16

  resolve_scope-Kept : (scope : ScopeConfig) → Preserves (DsHas Q) (resolve_scope scope)
  unfolding resolve_scope pool_of
  resolve_scope-Kept scope =
      search (preserves_rules, ds_rules, read_rules, federal_anchor-Kept) depth 16

  seed_source-Kept :
      (env : Env) (at : ℕ) (ts : List SweepTarget) (cs : List CodeSource) (j : Jurisdiction)
      (s : Source)
      → Preserves (DsHas Q) (seed_source env at ts cs j s)
  unfolding seed_source backfill_due
  seed_source-Kept env at ts cs j s =
      let insert = kept.insert_target in
      search (preserves_rules, ds_rules, read_rules, insert) depth 16

  seed_all-Kept :
      (env : Env) (at : ℕ) (ts : List SweepTarget) (cs : List CodeSource) (js : List Jurisdiction)
      → Preserves (DsHas Q) (seed_all env at ts cs js)
  unfolding seed_all seed_jurisdiction
  seed_all-Kept env at ts cs [] = search (preserves_rules)
  seed_all-Kept env at ts cs (j ∷ js) =
      Preserves-bind _ _ (search (preserves_rules, seed_source-Kept) depth 12) (λ here.
        Preserves-bind _ _ (seed_all-Kept env at ts cs js) (λ rest. search (preserves_rules)))

  park_orphans-Kept :
      (env : Env) (at : ℕ) (ts : List SweepTarget) (cs : List CodeSource) (os : List SweepTarget)
      → Preserves (DsHas Q) (park_orphans env at ts cs os)
  unfolding park_orphans
  park_orphans-Kept env at ts cs [] = search (preserves_rules)
  park_orphans-Kept env at ts cs (o ∷ os) =
      let park = kept.park_target in
      Preserves-bind _ _ (search (preserves_rules, ds_rules, park) depth 8)
        (λ done. park_orphans-Kept env at ts cs os)

  seed_now-Kept : (env : Env) → Preserves (DsHas Q) (seed_now env)
  unfolding seed_now seed_targets
  seed_now-Kept env =
      search
        (
          preserves_rules, ds_rules, read_rules, resolve_scope-Kept, seed_all-Kept,
          park_orphans-Kept,
        )
        depth 16

  send_queries-Kept :
      (env : Env) (at : ℕ) (t : SweepTarget) (j : Jurisdiction) (d : Text) (n seq : ℕ)
      → (pairs : List (Text × Text)) → Preserves (DsHas Q) (send_queries env at t j d n seq pairs)
  unfolding send_queries
  send_queries-Kept env at t j d n seq [] = search (preserves_rules)
  send_queries-Kept env at t j d n seq ((topic, q) ∷ pairs) =
      Preserves-bind _ _ (DsHas-send env _ _) (λ sent. send_queries-Kept env at t j d n _ pairs)

  dispatch_serper-Kept :
      (env : Env) (at : ℕ) (t : SweepTarget) → Preserves (DsHas Q) (dispatch_serper env at t)
  unfolding dispatch_serper send_stamped stamp generate_queries
  dispatch_serper-Kept env at t =
      let stamps = kept.stamp_target in
      search (preserves_rules, ds_rules, read_rules, stamps, send_queries-Kept) depth 16

  seeds_or_park-Kept :
      (env : Env) (at : ℕ) (t : SweepTarget) (cs : List CodeSource)
      → Preserves (DsHas Q) (seeds_or_park env at t cs)
  unfolding seeds_or_park send_seeds park stamp
  seeds_or_park-Kept env at t [] =
      let parks = kept.park_target in search (preserves_rules, ds_rules, parks) depth 8
  seeds_or_park-Kept env at t (c ∷ cs) =
      let stamps = kept.stamp_target in search (preserves_rules, ds_rules, stamps) depth 12

  dispatch_by-Kept :
      (env : Env) (at : ℕ) (t : SweepTarget) (s : Source)
      → Preserves (DsHas Q) (dispatch_by env at t s)
  unfolding dispatch_by dispatch_code
  dispatch_by-Kept env at t Source.serper = dispatch_serper-Kept env at t
  dispatch_by-Kept env at t Source.legal_codes =
      search (preserves_rules, ds_rules, read_rules, seeds_or_park-Kept) depth 8

  dispatch_all-Kept :
      (env : Env) (at : ℕ) (ts : List SweepTarget) → Preserves (DsHas Q) (dispatch_all env at ts)
  unfolding dispatch_all
  dispatch_all-Kept env at [] = search (preserves_rules)
  dispatch_all-Kept env at (t ∷ ts) =
      Preserves-bind _ _ (search (preserves_rules, dispatch_by-Kept) depth 8)
        (λ done. Preserves-bind _ _ (dispatch_all-Kept env at ts) (λ n. search (preserves_rules)))

  republish_all-Kept :
      (env : Env) (at : ℕ) (stale : List Artifact)
      → Preserves (DsHas Q) (republish_all env at stale)
  unfolding republish_all republish
  republish_all-Kept env at [] = search (preserves_rules)
  republish_all-Kept env at (a ∷ stale) =
      let stamps = kept.stamp_artifact in
      Preserves-bind _ _ (search (preserves_rules, ds_rules, stamps) depth 12) (λ sent.
        Preserves-bind _ _ (republish_all-Kept env at stale) (λ n. search (preserves_rules)))

  send_out-Kept : (env : Env) (n : ℕ) → Preserves (DsHas Q) (send_out env n)
  unfolding send_out dispatch_cycle reconcile_fetch
  send_out-Kept env n =
      search (preserves_rules, ds_rules, read_rules, dispatch_all-Kept, republish_all-Kept) depth 16

  pub turn-Kept : (env : Env) (interval : ℕ) → Preserves (DsHas Q) (turn env interval)
  unfolding turn run_cycle
  turn-Kept env interval =
      search
        (preserves_rules, ds_rules, read_rules, ensure_states-Kept, seed_now-Kept, send_out-Kept)
        depth 16
