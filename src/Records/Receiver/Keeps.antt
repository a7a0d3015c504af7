-- ===== src/Records/Receiver/Keeps.antt =====
-- receiver.py: what the reactions to a mail keep, for any property of the store that the writes of
-- the receiver keep.
use dialogue_microservices.Prelude.{ℕ, List, [], ◌∷◌, Option, none, some, Text, false}
use dialogue_microservices.Prelude.Preserves.{Preserves, Preserves-bind, preserves_rules}
use dialogue_microservices.Records.Domain.{
  Campaign, EmailThread, EmailRecord, AttachmentRef, InboundCategory, EscalationReason,
  ThreadStatus,
}
use dialogue_microservices.Records.Messages.{InboundMailMessage, InboundAttachment}
use dialogue_microservices.Records.Attachments.{
  point_to_duplicate, store_payload, store_attachment, store_attachments, delete_spooled,
}
use dialogue_microservices.Records.Fees.{
  escalate_payment, agree, book_or_escalate, handle_payment_required,
}
use dialogue_microservices.Records.Receiver.{
  update_refs, keep_waiting, react_documents, refer_to, hand_over, react_referral,
  ask_for_clarification, react,
}
use dialogue_microservices.Records.Store.{
  Store, set_thread_status, append_attachment_key, update_attachment_refs, insert_escalation,
  book_fee,
}
use dialogue_microservices.Records.Store.Reads.{reads}
use dialogue_microservices.Records.World.{Env, escalate, park_thread}
use dialogue_microservices.Records.StoreOnly.{StoreHas, store_only_rules}

ruleset rules = (preserves_rules, reads, store_only_rules)

-- The five writes of the store that a reaction calls.
pub record Keeps (P : Store → Type 0) : Type 0 where
  pub status :
      (i : ℕ) (s : ThreadStatus) (at : Option ℕ) → Preserves P (set_thread_status i s at false)
  pub key : (i : ℕ) (k : Text) → Preserves P (append_attachment_key i k)
  pub refs : (i : ℕ) (refs : List AttachmentRef) → Preserves P (update_attachment_refs i refs)
  pub escalation :
      (c t : Option ℕ) (r : EscalationReason) (d : Text) (now : ℕ)
      → Preserves P (insert_escalation c t r d now)
  pub fee :
      (c : ℕ) (t : Option ℕ) (amount budget : ℕ) (note : Text) (now : ℕ)
      → Preserves P (book_fee c t amount budget note now)

module _ (P : Store → Type 0) (keeps : Keeps P) (env : Env) where
  park_thread-keeps : (i : ℕ) → Preserves (StoreHas P) (park_thread i)
  unfolding park_thread
  park_thread-keeps i = search (rules, keeps.status)

  escalate-keeps :
      (c t : Option ℕ) (r : EscalationReason) (d : Text)
      → Preserves (StoreHas P) (escalate env c t r d)
  unfolding escalate
  escalate-keeps c t r d = search (rules, keeps.escalation, park_thread-keeps)

  store_attachment-keeps :
      (c : Campaign) (n : Text) (i : ℕ) (a : InboundAttachment)
      → Preserves (StoreHas P) (store_attachment env c n i a)
  unfolding store_attachment store_payload point_to_duplicate
  store_attachment-keeps c n i a = search (rules, keeps.key) depth 20

  store_attachments-keeps :
      (c : Campaign) (n : Text) (i : ℕ) (as' : List InboundAttachment)
      → Preserves (StoreHas P) (store_attachments env c n i as')
  unfolding store_attachments
  store_attachments-keeps c n i [] = search rules
  store_attachments-keeps c n i (a ∷ rest) =
      Preserves-bind _ _
        (search (rules, store_attachment-keeps, store_attachments-keeps c n i rest))
        λ a. search (rules, store_attachment-keeps, store_attachments-keeps c n i rest) depth 8

  update_refs-keeps :
      (i : ℕ) (refs : List AttachmentRef) → Preserves (StoreHas P) (update_refs i refs)
  update_refs-keeps i [] = search rules
  update_refs-keeps i (r ∷ refs) = search (rules, keeps.refs)

  pub delete_spooled-keeps :
      (as' : List InboundAttachment) → Preserves (StoreHas P) (delete_spooled as')
  unfolding delete_spooled
  delete_spooled-keeps [] = search rules
  delete_spooled-keeps (a ∷ rest) =
      Preserves-bind _ _ (search (rules, delete_spooled-keeps rest))
        λ a. search (rules, delete_spooled-keeps rest) depth 8

  module _ (c : Campaign) (t : EmailThread) (e : EmailRecord) where
    escalate_payment-keeps : (l : List Text) → Preserves (StoreHas P) (escalate_payment env c t e l)
    unfolding escalate_payment
    escalate_payment-keeps l = search (rules, escalate-keeps) depth 8

    handle_payment_required-keeps : Preserves (StoreHas P) (handle_payment_required env c t e)
    unfolding handle_payment_required book_or_escalate agree
    handle_payment_required-keeps =
        search (rules, escalate_payment-keeps, keeps.fee, keeps.status) depth 14

    keep_waiting-keeps : Preserves (StoreHas P) (keep_waiting env c t e)
    unfolding keep_waiting
    keep_waiting-keeps = search (rules, keeps.status) depth 8

    react_documents-keeps :
        (m : InboundMailMessage) (k : InboundCategory)
        → Preserves (StoreHas P) (react_documents env c t e m k)
    unfolding react_documents
    react_documents-keeps m k =
        search (rules, store_attachments-keeps, update_refs-keeps, keep_waiting-keeps, keeps.status)
          depth 12

    hand_over-keeps :
        (r : EscalationReason) (l : List Text) → Preserves (StoreHas P) (hand_over env c t e r l)
    unfolding hand_over
    hand_over-keeps r l = search (rules, escalate-keeps) depth 8

    react_referral-keeps : (a : Option Text) → Preserves (StoreHas P) (react_referral env c t e a)
    unfolding react_referral refer_to
    react_referral-keeps none = search (rules, hand_over-keeps)
    react_referral-keeps (some a) = search (rules, hand_over-keeps, keeps.status) depth 10

    ask_for_clarification-keeps : Preserves (StoreHas P) (ask_for_clarification env c t e)
    unfolding ask_for_clarification
    ask_for_clarification-keeps = search (rules, keep_waiting-keeps) depth 8

    pub react-keeps :
        (m : InboundMailMessage) (k : InboundCategory) (a : Option Text)
        → Preserves (StoreHas P) (react env c t e m k a)
    unfolding react
    react-keeps m InboundCategory.data_provided a = react_documents-keeps m _
    react-keeps m InboundCategory.acknowledgment a = react_documents-keeps m _
    react-keeps m InboundCategory.payment_required a = handle_payment_required-keeps
    react-keeps m InboundCategory.referral a = react_referral-keeps a
    react-keeps m InboundCategory.denial a = hand_over-keeps _ _
    react-keeps m InboundCategory.needs_clarification a = ask_for_clarification-keeps
    react-keeps m InboundCategory.unclear a = hand_over-keeps _ _
