-- ===== src/Records/Store/Spend.antt =====
-- FakeRecordsStore, the fee ledger.
use dialogue_microservices.Prelude.{
  ℕ, suc, ◌+◌, List, [], ◌∷◌, Option, none, some, true, false, not, Text, codes, filter, sum_by,
  leb, ltb, ◌==◌, sort_by, if◌then◌else◌,
}
use dialogue_microservices.Prelude.Dict.{get, put, values}
use dialogue_microservices.Prelude.Action.{Error, Action, pure, gets, modify, require, ◌>>=◌, ◌>>◌}
use dialogue_microservices.Records.Domain.{SpendEntry}
use dialogue_microservices.Records.Store.State.{Store}

-- `sum(s.amount_cents for s in self._spend.values() if s.campaign_id == campaign_id)`
unfoldable pub committed : ℕ → Store → ℕ
committed campaign_id s =
    sum_by (λ (e : SpendEntry). e.amount_cents)
      (filter (λ (e : SpendEntry). e.campaign_id == campaign_id) (values s.spend))

unfoldable pub committed_total_cents : ℕ → Action Store ℕ
committed_total_cents campaign_id = gets (committed campaign_id)

unfoldable pub book_fee : ℕ → Option ℕ → ℕ → ℕ → Text → ℕ → Action Store (Option SpendEntry)
book_fee campaign_id thread_id amount_cents budget_cents note created_at s =
    if ltb budget_cents (committed campaign_id s + amount_cents)
    then pure none s
    else (let entry : SpendEntry = record {
      id = s.next_spend;
      campaign_id = campaign_id;
      thread_id = thread_id;
      amount_cents = amount_cents;
      kind = codes "fee_authorized";
      note = note;
      remitted = false;
      notified = false;
      created_at = some created_at;
    } in
        pure (some entry)
          (record s { spend = put s.next_spend entry s.spend; next_spend = suc s.next_spend }))

unfoldable pub spend_rows : ℕ → Store → List SpendEntry
spend_rows campaign_id s =
    sort_by (λ (a b : SpendEntry). leb a.id b.id)
      (filter (λ (e : SpendEntry). e.campaign_id == campaign_id) (values s.spend))

unfoldable pub list_spend : ℕ → Action Store (List SpendEntry)
unfolding spend_rows
list_spend campaign_id = gets (spend_rows campaign_id)

unfoldable pub unnotified_spend : ℕ → Action Store (List SpendEntry)
unfolding spend_rows
unnotified_spend campaign_id =
    gets (λ s. filter (λ (e : SpendEntry). not e.notified) (spend_rows campaign_id s))

unfoldable pub mark_spend_notified : List ℕ → Action Store Unit
mark_spend_notified [] = pure tt
mark_spend_notified (i ∷ ids) = do
  e ← require Error.key_error (λ s. get s.spend i)
  modify (λ s. record s { spend = put i (record e { notified = true }) s.spend })
  mark_spend_notified ids
