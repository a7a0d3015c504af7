-- ===== src/Records/Service/Threads.antt =====
-- What any run of the service does to the thread rows.
use dialogue_microservices.Prelude.{ℕ, ◌≡◌, List, [], ◌∷◌, some, true}
use dialogue_microservices.Prelude.Dict.{get, KeysBelow}
use dialogue_microservices.Prelude.Preserves.{Preserves, preserves_rules}
use dialogue_microservices.Records.Domain.{EmailThread}
use dialogue_microservices.Records.Domain.Transitions.{is_settled, Leads-settled}
use dialogue_microservices.Records.Store.{Store}
use dialogue_microservices.Records.World.{Env, World}
use dialogue_microservices.Records.StoreOnly.{StoreHas}
use dialogue_microservices.Records.Lifecycle.Rows.{Evolves, Evolves-refl, Follows}
use dialogue_microservices.Records.Lifecycle.Handlers.Sending.{
  handle_contact-Evolves, handle_followup_job-Evolves,
}
use dialogue_microservices.Records.Lifecycle.Handlers.Receiving.{handle_inbound-Evolves}
use dialogue_microservices.Records.Lifecycle.Handlers.Passes.{
  poll_mail-Evolves, followup_scan-Evolves,
}
use dialogue_microservices.Records.Lifecycle.Handlers.Seeding.{seed_pass-Evolves}
use dialogue_microservices.Records.Service.{Call, perform, serve}

module _ (s0 : Store) where
  perform-Evolves : (env : Env) (c : Call) → Preserves (StoreHas (Evolves s0)) (perform env c)
  unfolding perform
  perform-Evolves env (Call.contact body) = search (preserves_rules, handle_contact-Evolves)
  perform-Evolves env (Call.followup_job body) =
      search (preserves_rules, handle_followup_job-Evolves)
  perform-Evolves env (Call.inbound body) = search (preserves_rules, handle_inbound-Evolves)
  perform-Evolves env (Call.seed l) = search (preserves_rules, seed_pass-Evolves)
  perform-Evolves env Call.poll = search (preserves_rules, poll_mail-Evolves)
  perform-Evolves env Call.scan = search (preserves_rules, followup_scan-Evolves)

  serve-Evolves :
      (calls : List (Env × Call)) (w : World)
      → StoreHas (Evolves s0) w
      → StoreHas (Evolves s0) (serve calls w)
  unfolding serve
  serve-Evolves [] w h = h
  serve-Evolves ((env, c) ∷ calls) w h =
      serve-Evolves calls (perform env c w).1 ((perform-Evolves env c).from w h)

-- Whatever calls the service performs, in whatever order and with whatever answers from outside,
-- every thread row that was there is there afterwards, in a later version: its status was reached by
-- automatic transitions, its campaign, jurisdiction and token are unchanged, and its counter of
-- follow-ups has not fallen. The next thread id is to be above the ids in use.
pub serve-rows :
    (calls : List (Env × Call)) (w : World)
    → KeysBelow w.store.next_thread w.store.threads
    → (i : ℕ) (t : EmailThread) → get w.store.threads i ≡ some t
    → (t' : EmailThread) × (get (serve calls w).store.threads i ≡ some t') × Follows t t'
serve-rows calls w below i t e =
    (serve-Evolves w.store calls w (record { holds = Evolves-refl w.store below })).holds.rows i t e

-- No run of the service moves a thread that is fulfilled, referred, parked with a human or failed:
-- its row keeps that status. The next thread id is to be above the ids in use.
pub serve-settled :
    (calls : List (Env × Call)) (w : World)
    → KeysBelow w.store.next_thread w.store.threads
    → (i : ℕ) (t : EmailThread) → get w.store.threads i ≡ some t
    → is_settled t.status ≡ true
    → (t' : EmailThread) × (get (serve calls w).store.threads i ≡ some t') × (t'.status ≡ t.status)
serve-settled calls w below i t e h =
    let (t', e', f) = serve-rows calls w below i t e in (t', e', Leads-settled f.status h)
