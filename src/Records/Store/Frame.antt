-- ===== src/Records/Store/Frame.antt =====
-- What a method leaves alone: a view of the store that it does not write to keeps its value.
use dialogue_microservices.Prelude.{ℕ, ◌≡◌, ◌∙◌, false, Option, Text}
use dialogue_microservices.Prelude.Action.{modify, pure}
use dialogue_microservices.Prelude.Dict.{Dict}
use dialogue_microservices.Prelude.Preserves.{Preserves, preserves_rules}
use dialogue_microservices.Records.Domain.{EmailThread, Escalation, ThreadStatus, EscalationReason}
use dialogue_microservices.Records.Store.State.{Store}
use dialogue_microservices.Records.Store.Reads.{reads}
use dialogue_microservices.Records.Store.Threads.{set_thread_status, write_thread}
use dialogue_microservices.Records.Store.Escalations.{insert_escalation}

pub record Frame {X : Type 0} (view : Store → X) (x : X) (s : Store) : Type 0 where
  pub same : view s ≡ x

module _ {X : Type 0} (view : Store → X) (x : X) where
  pub Frame-modify :
      (f : Store → Store)
      → ((s : Store) → view (f s) ≡ view s)
      → Preserves (Frame view x) (modify f)
  unfolding modify
  Frame-modify f keeps = record { from = λ s h. record { same = keeps s ∙ h.same } }

  pub write_thread-Frame :
      ((s : Store) (ts : Dict EmailThread) → view (record s { threads = ts }) ≡ view s)
      → (i : ℕ) (t : EmailThread) → Preserves (Frame view x) (write_thread i t)
  unfolding write_thread
  write_thread-Frame off i t = Frame-modify _ (λ s. off s _)

  pub set_thread_status-Frame :
      ((s : Store) (ts : Dict EmailThread) → view (record s { threads = ts }) ≡ view s)
      → (i : ℕ) (status : ThreadStatus) (at : Option ℕ)
      → Preserves (Frame view x) (set_thread_status i status at false)
  unfolding set_thread_status
  set_thread_status-Frame off i status at = search (preserves_rules, reads, write_thread-Frame off)

  pub insert_escalation-Frame :
      ((s : Store) (es : Dict Escalation) (n : ℕ)
        → view (record s { escalations = es; next_escalation = n }) ≡ view s)
      → (c t : Option ℕ) (r : EscalationReason) (d : Text) (now : ℕ)
      → Preserves (Frame view x) (insert_escalation c t r d now)
  unfolding insert_escalation pure
  insert_escalation-Frame off c t r d now = record {
    from = λ s h. record { same = off s _ _ ∙ h.same };
  }
