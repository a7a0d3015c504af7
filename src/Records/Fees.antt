-- ===== src/Records/Fees.antt =====
-- records/src/public_records/fees.py: the fee flow.
mod Amounts
unfoldable pub use Amounts.*
pub mod Largest
pub mod Maximum
pub mod Budget
use dialogue_microservices.Prelude.{
  ℕ, ◌/◌, ◌%◌, List, [], ◌∷◌, ◌++◌, Option, none, some, Bool, true, false, Text, codes, take,
  fstring, to_decimal, leb, maybe, if◌then◌else◌,
}
use dialogue_microservices.Prelude.Action.{Action, pure, ◌>>=◌, ◌>>◌}
use dialogue_microservices.Records.Domain.{
  Campaign, EmailThread, EmailRecord, EscalationReason, ThreadStatus, SpendEntry,
}
use dialogue_microservices.Records.Messages.{FollowupJobMessage, FollowupKind}
use dialogue_microservices.Records.Store.{book_fee, committed_total_cents, set_thread_status}
use dialogue_microservices.Records.World.{
  Env, World, on_store, send_followup_job, escalate, next_action_time,
}

-- `FEE_NOTE_CHARS`
abbrev pub fee_note_chars : ℕ
fee_note_chars = 500

-- The three ways to hand a fee to a human.
unfoldable pub escalate_payment :
    Env → Campaign → EmailThread → EmailRecord → List Text → Action World Unit
escalate_payment env campaign thread inbound words =
    escalate env (some campaign.id) (some thread.id) EscalationReason.payment_required
      (fstring (words ++ codes "\n\n" ∷ inbound.body ∷ []))

-- The ledger is booked: the agreement email, and the thread state.
unfoldable pub agree : Env → Campaign → EmailThread → EmailRecord → ℕ → Action World Unit
agree env campaign thread inbound amount = do
  send_followup_job env (record {
    thread_id = thread.id;
    kind = FollowupKind.fee_agreement;
    followup_index = none;
    inbound_email_id = some inbound.id;
    amount_cents = some amount;
  })
  on_store (
      set_thread_status thread.id ThreadStatus.awaiting_reply (some (next_action_time env campaign))
        false)

-- From the call of `book_fee` on.
unfoldable pub book_or_escalate : Env → Campaign → EmailThread → EmailRecord → ℕ → Action World Unit
book_or_escalate env campaign thread inbound amount = do
  let budget = campaign.config.limits.fee_budget_cents
  entry ← on_store (
      book_fee campaign.id (some thread.id) amount budget (take fee_note_chars inbound.body)
        env.now)
  maybe entry
      (do
        committed ← on_store (committed_total_cents campaign.id)
        escalate_payment env campaign thread inbound (
            codes "Fee "
            ∷ format_dollars amount
            ∷ codes " exceeds remaining budget: "
            ∷ format_dollars committed
            ∷ codes " of "
            ∷ format_dollars budget
            ∷ codes " already committed."
            ∷ []))
      (λ _. agree env campaign thread inbound amount)

unfoldable pub handle_payment_required :
    Env → Campaign → EmailThread → EmailRecord → Action World Unit
handle_payment_required env campaign thread inbound =
    maybe (parse_largest_amount_cents inbound.body)
      (escalate_payment env campaign thread inbound
        (codes "Payment required but no clear amount to authorize." ∷ []))
      (λ amount.
        if leb campaign.config.limits.fee_budget_cents 0
        then escalate_payment env campaign thread inbound (
            codes "Payment of "
            ∷ format_dollars amount
            ∷ codes " required but no fee budget is configured."
            ∷ [])
        else book_or_escalate env campaign thread inbound amount)
