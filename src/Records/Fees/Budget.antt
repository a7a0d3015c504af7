-- ===== src/Records/Fees/Budget.antt =====
-- The ledger against the budget.
use dialogue_microservices.Prelude.{
  ℕ, ◌+◌, ◌≤◌, ◌<◌, ◌≡◌, ◌≢◌, ◌∙◌, refl, ap, ◌⊎◌, inl, inr, List, Option, none, some, Bool, arith,
  Text, take, filter, sum_by, ltb, leb, ◌==◌, if◌then◌else◌, Bool-cases, Option-cases,
  filter-append, sum_by-append,
}
use dialogue_microservices.Prelude.Dict.{Dict, put, KeysBelow, values-put_fresh}
use dialogue_microservices.Prelude.Action.{ok, pure}
use dialogue_microservices.Records.Domain.{
  Campaign, EmailThread, EmailRecord, SpendEntry, EscalationReason,
}
use dialogue_microservices.Records.Store.{Store, committed, book_fee}
use dialogue_microservices.Records.Store.Reads.{reads}
use dialogue_microservices.Records.Store.Frame.{
  Frame, set_thread_status-Frame, insert_escalation-Frame,
}
use dialogue_microservices.Records.World.{Env, World, on_store, escalate, park_thread}
use dialogue_microservices.Records.StoreOnly.{StoreHas, store_only_rules}
use dialogue_microservices.Prelude.Preserves.{Preserves, preserves_rules, holds_after}
use dialogue_microservices.Records.Fees.{
  escalate_payment, agree, book_or_escalate, handle_payment_required, fee_note_chars,
  parse_largest_amount_cents,
}

abbrev amount_of : SpendEntry → ℕ
amount_of e = e.amount_cents

abbrev charged_to : ℕ → SpendEntry → Bool
charged_to i e = e.campaign_id == i

-- A new row under a fresh id adds its amount to its own campaign, and nothing to another.
committed-put :
    (i : ℕ) (s s' : Store) (e : SpendEntry)
    → KeysBelow s.next_spend s.spend
    → s'.spend ≡ put s.next_spend e s.spend
    → committed i s' ≡ committed i s + (if charged_to i e then e.amount_cents else 0)
unfolding committed filter sum_by
committed-put i s s' e below same =
    rw (same, values-put_fresh s.next_spend e s.spend below, filter-append, sum_by-append)
      (ground arith)

-- `book_fee` books exactly when the committed total and the amount fit the budget, and then the
-- total grows by the amount; else the store is as it was. The next spend id is to be above the ids
-- in use.
pub book_fee-committed :
    (c : ℕ) (t : Option ℕ) (amount budget : ℕ) (note : Text) (now : ℕ) (s : Store)
    → KeysBelow s.next_spend s.spend
    → let (r, s') = book_fee c t amount budget note now s in
      ((committed c s + amount ≤ budget)
        × (committed c s' ≡ committed c s + amount)
        × ((i : ℕ) → i ≢ c → committed i s' ≡ committed i s))
      ⊎ ((budget < committed c s + amount) × (r ≡ ok none) × (s' ≡ s))
unfolding book_fee pure
book_fee-committed c t amount budget note now s below =
    elim (Bool-cases (ltb budget (committed c s + amount))) [
      | inl over ↦ rw over (inr (ground arith, refl, refl))
      | inr within ↦ rw within (
          inl (
            ground arith,
            committed-put c s _ _ below refl ∙ ground arith,
            λ i ne. committed-put i s _ _ below refl ∙ ground arith,
          ))
    ]

abbrev spend_of : Store → Dict SpendEntry
spend_of s = s.spend

committed-cong : (i : ℕ) (s s' : Store) → s'.spend ≡ s.spend → committed i s' ≡ committed i s
unfolding committed
committed-cong i s s' e = rw e

module _ (env : Env) (spend : Dict SpendEntry) where
  escalate-Frame :
      (c t : Option ℕ) (r : EscalationReason) (d : Text)
      → Preserves (StoreHas (Frame spend_of spend)) (escalate env c t r d)
  unfolding escalate park_thread
  escalate-Frame c t r d =
      search
        (
          preserves_rules,
          reads,
          store_only_rules,
          set_thread_status-Frame spend_of spend (λ s ts. refl),
          insert_escalation-Frame spend_of spend (λ s es n. refl),
        )
        depth 8

  escalate_payment-Frame :
      (c : Campaign) (t : EmailThread) (e : EmailRecord) (words : List Text)
      → Preserves (StoreHas (Frame spend_of spend)) (escalate_payment env c t e words)
  unfolding escalate_payment
  escalate_payment-Frame c t e words = escalate-Frame _ _ _ _

  agree-Frame :
      (c : Campaign) (t : EmailThread) (e : EmailRecord) (amount : ℕ)
      → Preserves (StoreHas (Frame spend_of spend)) (agree env c t e amount)
  unfolding agree
  agree-Frame c t e amount =
      search
        (
          preserves_rules,
          reads,
          store_only_rules,
          set_thread_status-Frame spend_of spend (λ s ts. refl),
        )
        depth 8

module _ (env : Env) (c : Campaign) (t : EmailThread) (e : EmailRecord) where
  -- After the call of `book_fee` the handler writes nothing to the ledger.
  book_or_escalate-spend :
      (amount : ℕ) (w : World)
      → let (r, s) =
          book_fee c.id
            (some t.id)
            amount
            c.config.limits.fee_budget_cents
            (take fee_note_chars e.body)
            env.now
            w.store in
        let (q, w') = book_or_escalate env c t e amount w in w'.store.spend ≡ s.spend
  unfolding book_or_escalate on_store
  book_or_escalate-spend amount w =
      let (r, booked) =
        book_fee c.id (some t.id) amount c.config.limits.fee_budget_cents
          (take fee_note_chars e.body) env.now w.store in
      let (q, w') = book_or_escalate env c t e amount w in
      let held : StoreHas (Frame spend_of booked.spend) w' =
        holds_after {P = StoreHas (Frame spend_of booked.spend)} (on_store _) _ w
          (record { holds = record { same = refl } })
          (λ entry.
            search (preserves_rules, reads, store_only_rules, escalate_payment-Frame, agree-Frame)
              depth 8) in
      held.holds.same

  -- What the fee flow does to the ledger: nothing, or it charges the campaign the amount that
  -- `parse_largest_amount_cents` reads from the mail, within the campaign's budget.
  pub data Charged (s s' : Store) : Type 0 where
    not_charged : s'.spend ≡ s.spend → Charged s s'
    charged :
        (amount : ℕ)
        → parse_largest_amount_cents e.body ≡ some amount
        → committed c.id s' ≡ committed c.id s + amount
        → committed c.id s' ≤ c.config.limits.fee_budget_cents
        → ((i : ℕ) → i ≢ c.id → committed i s' ≡ committed i s)
        → Charged s s'

  book_or_escalate-Charged :
      (amount : ℕ) (w : World)
      → parse_largest_amount_cents e.body ≡ some amount
      → KeysBelow w.store.next_spend w.store.spend
      → let (r, w') = book_or_escalate env c t e amount w in Charged w.store w'.store
  book_or_escalate-Charged amount w parsed below =
      let (q, w') = book_or_escalate env c t e amount w in
      let s = w'.store in
      let ledger = book_or_escalate-spend amount w in
      let (entry, booked) =
        book_fee c.id (some t.id) amount c.config.limits.fee_budget_cents
          (take fee_note_chars e.body) env.now w.store in
      elim (book_fee-committed c.id (some t.id) amount c.config.limits.fee_budget_cents
        (take fee_note_chars e.body) env.now w.store below) [
          | inl (fits, total, others) ↦
              charged amount parsed (committed-cong c.id booked s ledger ∙ total)
                (rw (committed-cong c.id booked s ledger, total) fits)
                (λ i ne. committed-cong i booked s ledger ∙ others i ne)
          | inr (over, none_left, same) ↦ not_charged (ledger ∙ ap (λ (x : Store). x.spend) same)
        ]

  -- The fee flow either leaves the ledger as it is, or charges the campaign exactly the amount
  -- that `parse_largest_amount_cents` reads from the mail, and then the campaign's total stays within its budget and no other
  -- campaign's total changes. The next spend id is to be above the ids in use.
  pub handle_payment_required-committed :
      (w : World)
      → KeysBelow w.store.next_spend w.store.spend
      → let (r, w') = handle_payment_required env c t e w in Charged w.store w'.store
  unfolding handle_payment_required
  handle_payment_required-committed w below =
      elim (Option-cases (parse_largest_amount_cents e.body)) [
        | inl nothing ↦ rw nothing (
            not_charged
              ((escalate_payment-Frame env w.store.spend c t e _).from w
                (record { holds = record { same = refl } })).holds.same)
        | inr (amount, parsed) ↦
            rw parsed (elim (Bool-cases (leb c.config.limits.fee_budget_cents 0)) [
              | inl free ↦ rw free (
                  not_charged
                    ((escalate_payment-Frame env w.store.spend c t e _).from w
                      (record { holds = record { same = refl } })).holds.same)
              | inr budgeted ↦ rw budgeted (book_or_escalate-Charged amount w parsed below)
            ])
      ]
