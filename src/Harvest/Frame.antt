-- ===== src/Harvest/Frame.antt =====
-- Invariants of the harvest world that look at its datastore only.
use dialogue_microservices.Prelude.{◌≡◌, refl, ℕ, Option-cases, inl, inr}
use dialogue_microservices.Prelude.Action.{Error, Action, modify, gets}
use dialogue_microservices.Prelude.Preserves.{Preserves}
use dialogue_microservices.Core.KeyValue.{KeyValue}
use dialogue_microservices.Core.ObjectStore.{ObjectStore}
use dialogue_microservices.Core.Queue.{Queue, QueueMessage}
use dialogue_microservices.Harvest.Messages.{Task}
use dialogue_microservices.Harvest.Store.{Datastore}
use dialogue_microservices.Harvest.World.{
  Env, World, Answer, QueueName, on_ds, on_kv, on_objects, now, sleep, ask, uuid4, describe, send,
  delete, change_visibility, with_queue,
}

pub record DsHas (Q : Datastore → Type 0) (w : World) : Type 0 where
  pub holds : Q w.ds

pub with_queue-ds : (q : QueueName) (f : Queue → Queue) (w : World) → (with_queue q f w).ds ≡ w.ds
with_queue-ds QueueName.sweeps f w = refl
with_queue-ds QueueName.codes f w = refl
with_queue-ds QueueName.fetches f w = refl

module _ {Q : Datastore → Type 0} where
  pub DsHas-on_ds :
      {A : Type 0} (m : Action Datastore A) → Preserves Q m → Preserves (DsHas Q) (on_ds m)
  unfolding on_ds
  DsHas-on_ds m k = record { from = λ w h. record { holds = k.from w.ds h.holds } }

  pub DsHas-on_kv : {A : Type 0} (m : ℕ → KeyValue → A × KeyValue) → Preserves (DsHas Q) (on_kv m)
  unfolding on_kv
  DsHas-on_kv m = record { from = λ w h. record { holds = h.holds } }

  pub DsHas-on_objects :
      {A : Type 0} (m : Action ObjectStore A) → Preserves (DsHas Q) (on_objects m)
  unfolding on_objects
  DsHas-on_objects m = record { from = λ w h. record { holds = h.holds } }

  pub DsHas-ask : {A : Type 0} (f : ℕ → Answer A) → Preserves (DsHas Q) (ask f)
  unfolding ask
  DsHas-ask f = record { from = λ w h. record { holds = h.holds } }

  pub DsHas-uuid4 : (env : Env) → Preserves (DsHas Q) (uuid4 env)
  unfolding uuid4
  DsHas-uuid4 env = record { from = λ w h. record { holds = h.holds } }

  pub DsHas-now : Preserves (DsHas Q) now
  unfolding now gets
  DsHas-now = record { from = λ w h. h }

  pub DsHas-describe : (env : Env) (e : Error) → Preserves (DsHas Q) (describe env e)
  unfolding describe gets
  DsHas-describe env e = record { from = λ w h. h }

  -- A write of anything but the datastore.
  pub DsHas-modify :
      (f : World → World) → ((w : World) → (f w).ds ≡ w.ds) → Preserves (DsHas Q) (modify f)
  unfolding modify
  DsHas-modify f same = record { from = λ w h. record { holds = rw (same w) h.holds } }

  pub DsHas-sleep : (t : ℕ) → Preserves (DsHas Q) (sleep t)
  unfolding sleep
  DsHas-sleep t = DsHas-modify _ (λ w. refl)

  pub DsHas-delete : (q : QueueName) (m : QueueMessage) → Preserves (DsHas Q) (delete q m)
  unfolding delete
  DsHas-delete q m = DsHas-modify _ (with_queue-ds q _)

  pub DsHas-change_visibility :
      (q : QueueName) (m : QueueMessage) (t : ℕ) → Preserves (DsHas Q) (change_visibility q m t)
  unfolding change_visibility
  DsHas-change_visibility q m t = DsHas-modify _ (λ w. with_queue-ds q _ w)

  pub DsHas-send : (env : Env) (q : QueueName) (t : Task) → Preserves (DsHas Q) (send env q t)
  unfolding send
  DsHas-send env q t = record {
    from = λ w h. record {
      holds = elim (Option-cases (env.send_fails w.calls)) [
        | inl sent ↦ rw (sent, with_queue-ds q _ w) h.holds
        | inr (e, failed) ↦ rw failed h.holds
      ];
    };
  }

pub ruleset ds_rules = (
  DsHas-on_ds, DsHas-on_kv, DsHas-on_objects, DsHas-ask, DsHas-uuid4, DsHas-now, DsHas-describe,
  DsHas-sleep, DsHas-delete, DsHas-change_visibility, DsHas-send,
)
