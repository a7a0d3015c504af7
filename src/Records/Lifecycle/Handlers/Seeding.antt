-- ===== src/Records/Lifecycle/Handlers/Seeding.antt =====
-- The seeding pass: records/src/public_records/orchestrator.py and census.py.
use dialogue_microservices.Prelude.{ℕ, suc, List, [], ◌∷◌, Bool, Option, Text}
use dialogue_microservices.Prelude.Action.{Result, pure}
use dialogue_microservices.Prelude.Preserves.{Preserves, Preserves-bind, Preserves-if}
use dialogue_microservices.Records.Domain.{Campaign, Jurisdiction, SearchTarget}
use dialogue_microservices.Records.Domain.Config.{ScopeConfig, TestContact}
use dialogue_microservices.Records.Orchestrator.{
  insert_place, insert_places, load_one, load_states, ensure_states, resolve_scope, queries_for,
  ensure_jurisdiction, ensure_target, send_seeded, seed_test_contact, seed_test_contacts,
  send_queries, search_for_contact, seed_jurisdiction, seed_jurisdictions, seed_campaign,
  wants_seeding, seed_campaigns, seed_pass,
}
use dialogue_microservices.Records.Store.{Store}
use dialogue_microservices.Records.World.{Env, Place, StateData}
use dialogue_microservices.Records.StoreOnly.{StoreHas}
use dialogue_microservices.Records.Lifecycle.Rows.{Evolves}
use dialogue_microservices.Records.Lifecycle.Handlers.Base.{rules}

module _ (s0 : Store) (env : Env) where
  pub insert_place-Evolves :
      (n s l : Text) (p : Option Text) → Preserves (StoreHas (Evolves s0)) (insert_place n s l p)
  unfolding insert_place
  insert_place-Evolves n s l p = search (rules) depth 8

  insert_places-Evolves :
      (st : Text) (ps : List Place) → Preserves (StoreHas (Evolves s0)) (insert_places st ps)
  unfolding insert_places
  insert_places-Evolves st [] = search rules
  insert_places-Evolves st (p ∷ ps) =
      Preserves-bind _ _ (search (rules, insert_place-Evolves, insert_places-Evolves st ps))
        λ a. search (rules, insert_place-Evolves, insert_places-Evolves st ps) depth 8

  load_one-Evolves :
      (f : Text → Result StateData) (st : Text) → Preserves (StoreHas (Evolves s0)) (load_one f st)
  unfolding load_one
  load_one-Evolves f st = search (rules, insert_place-Evolves, insert_places-Evolves) depth 8

  load_states-Evolves :
      (f : Text → Result StateData) (sts : List Text)
      → Preserves (StoreHas (Evolves s0)) (load_states f sts)
  unfolding load_states
  load_states-Evolves f [] = search rules
  load_states-Evolves f (st ∷ sts) = Preserves-bind _ _ (search rules) λ a.
      Preserves-bind _ _
        (Preserves-if a (pure tt) (load_one f st) (search rules) (load_one-Evolves f st))
        λ b. search (rules, load_states-Evolves f sts) depth 8

  pub ensure_states-Evolves :
      (l : List Text) (f : Text → Result StateData) (sts : List Text)
      → Preserves (StoreHas (Evolves s0)) (ensure_states l f sts)
  unfolding ensure_states
  ensure_states-Evolves l f sts = search (rules, load_states-Evolves) depth 8

  pub resolve_scope-Evolves :
      (s : ScopeConfig) → Preserves (StoreHas (Evolves s0)) (resolve_scope s)
  unfolding resolve_scope
  resolve_scope-Evolves s = search (rules) depth 8

  pub queries_for-Evolves :
      (c : Campaign) (j : Jurisdiction) → Preserves (StoreHas (Evolves s0)) (queries_for env c j)
  unfolding queries_for
  queries_for-Evolves c j = search (rules) depth 8

  pub ensure_jurisdiction-Evolves :
      (c : TestContact) → Preserves (StoreHas (Evolves s0)) (ensure_jurisdiction c)
  unfolding ensure_jurisdiction
  ensure_jurisdiction-Evolves c = search (rules) depth 8

  pub ensure_target-Evolves : (c j : ℕ) → Preserves (StoreHas (Evolves s0)) (ensure_target env c j)
  unfolding ensure_target
  ensure_target-Evolves c j = search (rules) depth 8

  pub send_seeded-Evolves :
      (c : Campaign) (j : ℕ) (t : SearchTarget) (e : Text) (b : Bool)
      → Preserves (StoreHas (Evolves s0)) (send_seeded env c j t e b)
  unfolding send_seeded
  send_seeded-Evolves c j t e b = search (rules) depth 8

  pub seed_test_contact-Evolves :
      (c : Campaign) (x : TestContact)
      → Preserves (StoreHas (Evolves s0)) (seed_test_contact env c x)
  unfolding seed_test_contact
  seed_test_contact-Evolves c x =
      search (rules, ensure_jurisdiction-Evolves, ensure_target-Evolves, send_seeded-Evolves) depth
        8

  seed_test_contacts-Evolves :
      (c : Campaign) (xs : List TestContact)
      → Preserves (StoreHas (Evolves s0)) (seed_test_contacts env c xs)
  unfolding seed_test_contacts
  seed_test_contacts-Evolves c [] = search rules
  seed_test_contacts-Evolves c (x ∷ xs) =
      Preserves-bind _ _
        (search (rules, seed_test_contact-Evolves, seed_test_contacts-Evolves c xs))
        λ a. search (rules, seed_test_contact-Evolves, seed_test_contacts-Evolves c xs) depth 8

  send_queries-Evolves :
      (c : Campaign) (j t i : ℕ) (qs : List Text)
      → Preserves (StoreHas (Evolves s0)) (send_queries env c j t i qs)
  unfolding send_queries
  send_queries-Evolves c j t i [] = search rules
  send_queries-Evolves c j t i (q ∷ qs) =
      Preserves-bind _ _ (search (rules, send_queries-Evolves c j t (suc i) qs))
        λ a. search (rules, send_queries-Evolves c j t (suc i) qs) depth 8

  pub search_for_contact-Evolves :
      (c : Campaign) (j : Jurisdiction) (t : SearchTarget)
      → Preserves (StoreHas (Evolves s0)) (search_for_contact env c j t)
  unfolding search_for_contact
  search_for_contact-Evolves c j t =
      search (rules, queries_for-Evolves, send_queries-Evolves) depth 8

  pub seed_jurisdiction-Evolves :
      (c : Campaign) (j : Jurisdiction)
      → Preserves (StoreHas (Evolves s0)) (seed_jurisdiction env c j)
  unfolding seed_jurisdiction
  seed_jurisdiction-Evolves c j =
      search (rules, ensure_target-Evolves, send_seeded-Evolves, search_for_contact-Evolves) depth
        12

  seed_jurisdictions-Evolves :
      (c : Campaign) (js : List Jurisdiction)
      → Preserves (StoreHas (Evolves s0)) (seed_jurisdictions env c js)
  unfolding seed_jurisdictions
  seed_jurisdictions-Evolves c [] = search rules
  seed_jurisdictions-Evolves c (j ∷ js) =
      Preserves-bind _ _
        (search (rules, seed_jurisdiction-Evolves, seed_jurisdictions-Evolves c js))
        λ a. search (rules, seed_jurisdiction-Evolves, seed_jurisdictions-Evolves c js) depth 8

  pub seed_campaign-Evolves :
      (l : List Text) (c : Campaign) → Preserves (StoreHas (Evolves s0)) (seed_campaign env l c)
  unfolding seed_campaign
  seed_campaign-Evolves l c =
      search
        (
          rules, seed_test_contacts-Evolves, ensure_states-Evolves, resolve_scope-Evolves,
          seed_jurisdictions-Evolves,
        )
        depth 12

  seed_campaigns-Evolves :
      (l : List Text) (cs : List Campaign)
      → Preserves (StoreHas (Evolves s0)) (seed_campaigns env l cs)
  unfolding seed_campaigns
  seed_campaigns-Evolves l [] = search rules
  seed_campaigns-Evolves l (c ∷ cs) =
      Preserves-bind _ _
        (Preserves-if (wants_seeding c) (seed_campaign env l c) (pure 0) (seed_campaign-Evolves l c)
          (search rules))
        λ a. search (rules, seed_campaigns-Evolves l cs) depth 8

  pub seed_pass-Evolves : (l : List Text) → Preserves (StoreHas (Evolves s0)) (seed_pass env l)
  unfolding seed_pass
  seed_pass-Evolves l = search (rules, seed_campaigns-Evolves) depth 8
