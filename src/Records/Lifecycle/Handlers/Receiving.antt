-- ===== src/Records/Lifecycle/Handlers/Receiving.antt =====
-- The receiver: records/src/public_records/receiver.py, with the fees and the attachments.
use dialogue_microservices.Prelude.{List, Option, Text}
use dialogue_microservices.Records.Domain.{Campaign, EmailThread, EmailRecord, InboundCategory}
use dialogue_microservices.Records.Messages.{InboundMailMessage, InboundAttachment}
use dialogue_microservices.Records.Attachments.{delete_spooled}
use dialogue_microservices.Records.Receiver.{
  match_thread, react, file_unmatched, classify_and_react, handle_inbound,
}
use dialogue_microservices.Prelude.Preserves.{Preserves}
use dialogue_microservices.Records.Store.{Store}
use dialogue_microservices.Records.Receiver.Keeps.{Keeps, react-keeps, delete_spooled-keeps}
use dialogue_microservices.Records.Lifecycle.Rules.{
  set_thread_status-Evolves, append_attachment_key-Evolves, update_attachment_refs-Evolves,
  insert_escalation-Evolves, book_fee-Evolves,
}
use dialogue_microservices.Records.World.{Env}
use dialogue_microservices.Records.StoreOnly.{StoreHas}
use dialogue_microservices.Records.Lifecycle.Rows.{Evolves}
use dialogue_microservices.Records.Lifecycle.Handlers.Base.{rules}

module _ (s0 : Store) (env : Env) where
  -- The writes of a reaction let the rows evolve.
  Evolves-Keeps : Keeps (Evolves s0)
  Evolves-Keeps = record {
    status = set_thread_status-Evolves s0;
    key = append_attachment_key-Evolves s0;
    refs = update_attachment_refs-Evolves s0;
    escalation = insert_escalation-Evolves s0;
    fee = book_fee-Evolves s0;
  }

  delete_spooled-Evolves :
      (as' : List InboundAttachment) → Preserves (StoreHas (Evolves s0)) (delete_spooled as')
  delete_spooled-Evolves = delete_spooled-keeps (Evolves s0) Evolves-Keeps env

  react-Evolves :
      (c : Campaign) (t : EmailThread) (e : EmailRecord) (m : InboundMailMessage)
      (k : InboundCategory) (a : Option Text)
      → Preserves (StoreHas (Evolves s0)) (react env c t e m k a)
  react-Evolves = react-keeps (Evolves s0) Evolves-Keeps env

  pub match_thread-Evolves :
      (m : InboundMailMessage) → Preserves (StoreHas (Evolves s0)) (match_thread m)
  unfolding match_thread
  match_thread-Evolves m = search (rules) depth 8

  pub file_unmatched-Evolves :
      (m : InboundMailMessage) → Preserves (StoreHas (Evolves s0)) (file_unmatched env m)
  unfolding file_unmatched
  file_unmatched-Evolves m = search (rules, delete_spooled-Evolves) depth 8

  pub classify_and_react-Evolves :
      (m : InboundMailMessage) (c : Campaign) (t : EmailThread)
      → Preserves (StoreHas (Evolves s0)) (classify_and_react env m c t)
  unfolding classify_and_react
  classify_and_react-Evolves m c t = search (rules, react-Evolves, delete_spooled-Evolves) depth 12

  pub handle_inbound-Evolves :
      (body : Text) → Preserves (StoreHas (Evolves s0)) (handle_inbound env body)
  unfolding handle_inbound
  handle_inbound-Evolves body =
      search (rules, match_thread-Evolves, file_unmatched-Evolves, classify_and_react-Evolves) depth
        14
