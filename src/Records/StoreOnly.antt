-- ===== src/Records/StoreOnly.antt =====
-- Invariants of a world that look at its store only.
use dialogue_microservices.Prelude.{◌≡◌, refl}
use dialogue_microservices.Prelude.Action.{Action, modify}
use dialogue_microservices.Prelude.Preserves.{Preserves}
use dialogue_microservices.Core.KeyValue.{KeyValue}
use dialogue_microservices.Core.ObjectStore.{ObjectStore}
use dialogue_microservices.Records.Messages.{ContactMessage, FollowupJobMessage, SearchQueryMessage}
use dialogue_microservices.Records.Store.{Store}
use dialogue_microservices.Records.World.{
  Env, World, on_store, on_documents, on_kv, send_contact, send_followup_job, send_search_query,
}

pub record StoreHas (Q : Store → Type 0) (w : World) : Type 0 where
  pub holds : Q w.store

module _ {Q : Store → Type 0} where
  pub StoreHas-on_store :
      {A : Type 0} (m : Action Store A) → Preserves Q m → Preserves (StoreHas Q) (on_store m)
  unfolding on_store
  StoreHas-on_store m k = record { from = λ w h. record { holds = k.from w.store h.holds } }

  pub StoreHas-on_documents :
      {A : Type 0} (m : Action ObjectStore A) → Preserves (StoreHas Q) (on_documents m)
  unfolding on_documents
  StoreHas-on_documents m = record { from = λ w h. record { holds = h.holds } }

  pub StoreHas-on_kv : {A : Type 0} (m : KeyValue → A × KeyValue) → Preserves (StoreHas Q) (on_kv m)
  unfolding on_kv
  StoreHas-on_kv m = record { from = λ w h. record { holds = h.holds } }

  -- A write of anything but the store.
  pub StoreHas-modify :
      (f : World → World)
      → ((w : World) → (f w).store ≡ w.store)
      → Preserves (StoreHas Q) (modify f)
  unfolding modify
  StoreHas-modify f same = record { from = λ w h. record { holds = rw (same w) h.holds } }

  pub StoreHas-send_contact :
      (env : Env) (m : ContactMessage) → Preserves (StoreHas Q) (send_contact env m)
  unfolding send_contact
  StoreHas-send_contact env m = StoreHas-modify _ (λ w. refl)

  pub StoreHas-send_followup_job :
      (env : Env) (m : FollowupJobMessage) → Preserves (StoreHas Q) (send_followup_job env m)
  unfolding send_followup_job
  StoreHas-send_followup_job env m = StoreHas-modify _ (λ w. refl)

  pub StoreHas-send_search_query :
      (env : Env) (m : SearchQueryMessage) → Preserves (StoreHas Q) (send_search_query env m)
  unfolding send_search_query
  StoreHas-send_search_query env m = StoreHas-modify _ (λ w. refl)

pub ruleset store_only_rules = (
  StoreHas-on_store, StoreHas-on_documents, StoreHas-on_kv, StoreHas-send_contact,
  StoreHas-send_followup_job, StoreHas-send_search_query,
)
