-- ===== src/Records/Lifecycle/Handlers/Base.antt =====
-- The rules for the parts that the handlers share.
use dialogue_microservices.Prelude.{ℕ, Option, Text}
use dialogue_microservices.Prelude.Preserves.{Preserves, preserves_rules}
use dialogue_microservices.Records.Domain.{Campaign, EscalationReason}
use dialogue_microservices.Records.Store.{Store}
use dialogue_microservices.Records.Store.Reads.{reads}
use dialogue_microservices.Records.World.{Env, OutboundEmail, park_thread, escalate}
use dialogue_microservices.Records.StoreOnly.{StoreHas, StoreHas-modify, store_only_rules}
use dialogue_microservices.Records.Lifecycle.Rows.{Evolves}
use dialogue_microservices.Records.Lifecycle.Rules.{evolves_rules}
use dialogue_microservices.Records.Sender.{deliver}

pub ruleset rules = (preserves_rules, reads, store_only_rules, evolves_rules)

module _ (s0 : Store) where
  pub park_thread-Evolves : (i : ℕ) → Preserves (StoreHas (Evolves s0)) (park_thread i)
  unfolding park_thread
  park_thread-Evolves i = search rules

module _ (s0 : Store) (env : Env) where
  pub escalate-Evolves :
      (c t : Option ℕ) (r : EscalationReason) (d : Text)
      → Preserves (StoreHas (Evolves s0)) (escalate env c t r d)
  unfolding escalate
  escalate-Evolves c t r d = search (rules, park_thread-Evolves)

  pub deliver-Evolves :
      (c : Campaign) (e : OutboundEmail) → Preserves (StoreHas (Evolves s0)) (deliver env c e)
  unfolding deliver
  deliver-Evolves c e = search (rules, StoreHas-modify)
