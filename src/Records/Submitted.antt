-- ===== src/Records/Submitted.antt =====
-- The emails handed to the transport: what leaves them alone, and what `deliver` adds.
use dialogue_microservices.Prelude.{
  ℕ, ◌≡◌, refl, List, [], ◌∷◌, ◌++◌, Option, inl, inr, Text, if◌then◌else◌, Bool-cases,
}
use dialogue_microservices.Prelude.Action.{Action, modify, pure}
use dialogue_microservices.Prelude.Preserves.{Preserves, preserves_rules, holds_after}
use dialogue_microservices.Records.Domain.{Campaign, EscalationReason}
use dialogue_microservices.Records.Store.{Store}
use dialogue_microservices.Records.World.{
  Env, World, OutboundEmail, on_store, escalate, park_thread,
}
use dialogue_microservices.Records.Sender.{deliver}

pub record Submitted (emails : List OutboundEmail) (w : World) : Type 0 where
  pub are : w.submitted ≡ emails

module _ {emails : List OutboundEmail} where
  pub on_store-Submitted :
      {A : Type 0} (m : Action Store A) → Preserves (Submitted emails) (on_store m)
  unfolding on_store
  on_store-Submitted m = record { from = λ w h. record { are = h.are } }

  pub escalate-Submitted :
      (env : Env) (c t : Option ℕ) (r : EscalationReason) (d : Text)
      → Preserves (Submitted emails) (escalate env c t r d)
  unfolding escalate park_thread
  escalate-Submitted env c t r d = search (preserves_rules, on_store-Submitted) depth 8

pub ruleset submitted_rules = (on_store-Submitted, escalate-Submitted)

-- `deliver` hands over the email it is given, unless the campaign is a dry run.
pub deliver-Submitted :
    (env : Env) (c : Campaign) (email : OutboundEmail) (w : World)
    → Submitted
        (if c.config.dry_run then w.submitted else w.submitted ++ email ∷ [])
        (deliver env c email w).1
unfolding deliver pure modify
deliver-Submitted env c email w = elim (Bool-cases c.config.dry_run) [
  | inl dry ↦ rw dry (record { are = refl })
  | inr live ↦ rw live (
      holds_after {P = Submitted (w.submitted ++ email ∷ [])} (modify _) _ w (record { are = refl })
        (λ u. search preserves_rules))
]
