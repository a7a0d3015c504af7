-- ===== src/Harvest/Store/History.antt =====
-- FakeDatastore, the sweep history: one row for each query of a dispatch.
use dialogue_microservices.Prelude.{
  ℕ, suc, Option, Bool, true, false, ◌&&◌, List, Text, text_eq, any, filter, sort_by, take, leb,
  ◌==◌, maybe, if◌then◌else◌,
}
use dialogue_microservices.Prelude.Dict.{put, values}
use dialogue_microservices.Prelude.Action.{Action, pure, gets}
use dialogue_microservices.Harvest.Domain.{SweepHistory}
use dialogue_microservices.Harvest.Store.State.{Datastore}

-- `(h.dispatch_id, h.query_seq) == (dispatch_id, query_seq)`
unfoldable pub is_query : Text → ℕ → SweepHistory → Bool
is_query dispatch_id query_seq h = text_eq h.dispatch_id dispatch_id && h.query_seq == query_seq

-- `DETAIL_CHARS`
abbrev pub detail_chars : ℕ
detail_chars = 500

-- The row is given whole, but for its id and the cut of its detail.
unfoldable pub insert_history : SweepHistory → Action Datastore Bool
unfolding is_query
insert_history fields s =
    if any (is_query fields.dispatch_id fields.query_seq) (values s.history)
    then pure false s
    else (let row = record fields { id = s.next_id; detail = take detail_chars fields.detail } in
        pure true (record s { history = put s.next_id row s.history; next_id = suc s.next_id }))

unfoldable pub list_history : Text → Option ℕ → Action Datastore (List SweepHistory)
list_history corpus jurisdiction_id = gets (λ s.
    sort_by (λ (a b : SweepHistory). leb a.id b.id)
      (filter
        (λ (h : SweepHistory).
          text_eq h.corpus corpus && maybe jurisdiction_id true (λ j. h.jurisdiction_id == j))
        (values s.history)))
