-- ===== src/Records/Lifecycle/Handlers/Passes.antt =====
-- The follow-up scan and the mail poll: records/src/public_records/orchestrator.py.
use dialogue_microservices.Prelude.{ℕ, zero, suc, refl, List, [], ◌∷◌, Option, none, some, Text}
use dialogue_microservices.Prelude.Preserves.{Preserves, Preserves-bind, Preserves-if}
use dialogue_microservices.Records.Domain.{Campaign, EmailThread}
use dialogue_microservices.Records.Messages.{InboundMailMessage}
use dialogue_microservices.Records.Orchestrator.{
  exhaust, schedule, scan_thread, scan_threads, followup_scan, spool_slug, spool_attachments,
  send_inbound, enqueue_mail, poll_keys, poll_mail,
}
use dialogue_microservices.Records.Store.{Store}
use dialogue_microservices.Records.World.{Env, ParsedAttachment}
use dialogue_microservices.Records.StoreOnly.{StoreHas, StoreHas-modify}
use dialogue_microservices.Records.Lifecycle.Rows.{Evolves}
use dialogue_microservices.Records.Lifecycle.Handlers.Base.{rules, escalate-Evolves}

module _ (s0 : Store) (env : Env) where
  pub exhaust-Evolves :
      (c : Campaign) (t : EmailThread) → Preserves (StoreHas (Evolves s0)) (exhaust env c t)
  unfolding exhaust
  exhaust-Evolves c t = search (rules, escalate-Evolves) depth 8

  pub schedule-Evolves :
      (c : Campaign) (t : EmailThread) → Preserves (StoreHas (Evolves s0)) (schedule env c t)
  unfolding schedule
  schedule-Evolves c t = search (rules) depth 8

  pub scan_thread-Evolves :
      (t : EmailThread) → Preserves (StoreHas (Evolves s0)) (scan_thread env t)
  unfolding scan_thread
  scan_thread-Evolves t = search (rules, exhaust-Evolves, schedule-Evolves) depth 8

  scan_threads-Evolves :
      (ts : List EmailThread) → Preserves (StoreHas (Evolves s0)) (scan_threads env ts)
  unfolding scan_threads
  scan_threads-Evolves [] = search rules
  scan_threads-Evolves (t ∷ ts) =
      Preserves-bind _ _ (search (rules, scan_thread-Evolves, scan_threads-Evolves ts))
        λ a. search (rules, scan_thread-Evolves, scan_threads-Evolves ts) depth 8

  pub followup_scan-Evolves : Preserves (StoreHas (Evolves s0)) (followup_scan env)
  unfolding followup_scan
  followup_scan-Evolves = search (rules, scan_threads-Evolves) depth 8

  spool_slug-Evolves : (t : Option Text) → Preserves (StoreHas (Evolves s0)) (spool_slug t)
  unfolding spool_slug
  spool_slug-Evolves none = search rules
  spool_slug-Evolves (some t) = search rules depth 8

  spool_attachments-Evolves :
      (g : Text) (i : ℕ) (ps : List ParsedAttachment)
      → Preserves (StoreHas (Evolves s0)) (spool_attachments env g i ps)
  unfolding spool_attachments
  spool_attachments-Evolves g i [] = search rules
  spool_attachments-Evolves g i (p ∷ ps) =
      Preserves-bind _ _ (search rules)
        λ a. search (rules, spool_attachments-Evolves g (suc i) ps) depth 8

  send_inbound-Evolves :
      (m : InboundMailMessage) → Preserves (StoreHas (Evolves s0)) (send_inbound env m)
  unfolding send_inbound
  send_inbound-Evolves m = StoreHas-modify _ (λ w. refl)

  enqueue_mail-Evolves : (k : Text) → Preserves (StoreHas (Evolves s0)) (enqueue_mail env k)
  unfolding enqueue_mail
  enqueue_mail-Evolves k =
      search (rules, spool_slug-Evolves, spool_attachments-Evolves, send_inbound-Evolves) depth 12

  poll_keys-Evolves :
      (room : ℕ) (ks : List Text) → Preserves (StoreHas (Evolves s0)) (poll_keys env room ks)
  unfolding poll_keys
  poll_keys-Evolves room [] = search rules
  poll_keys-Evolves zero (k ∷ ks) = search rules
  poll_keys-Evolves (suc room) (k ∷ ks) = Preserves-bind _ _ (search rules) λ a.
      Preserves-if _ _ _ (poll_keys-Evolves (suc room) ks) (
        Preserves-if _ _ _ (poll_keys-Evolves (suc room) ks) (
          Preserves-bind _ _ (enqueue_mail-Evolves k)
            λ b. search (rules, poll_keys-Evolves room ks) depth 8))

  pub poll_mail-Evolves : Preserves (StoreHas (Evolves s0)) (poll_mail env)
  unfolding poll_mail
  poll_mail-Evolves = search (rules, poll_keys-Evolves) depth 8
