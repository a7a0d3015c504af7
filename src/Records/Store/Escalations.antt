-- ===== src/Records/Store/Escalations.antt =====
-- FakeRecordsStore, escalations.
use dialogue_microservices.Prelude.{
  ℕ, suc, List, [], ◌∷◌, Option, none, some, Bool, true, false, not, ◌&&◌, Text, filter, leb,
  sort_by, maybe,
}
use dialogue_microservices.Prelude.Dict.{get, put, values}
use dialogue_microservices.Prelude.Action.{Error, Action, pure, gets, modify, require, ◌>>=◌, ◌>>◌}
use dialogue_microservices.Records.Domain.{Escalation, EscalationReason, EscalationStatus}
use dialogue_microservices.Records.Store.State.{Store, same_id}

unfoldable pub insert_escalation :
    Option ℕ → Option ℕ → EscalationReason → Text → ℕ → Action Store Escalation
insert_escalation campaign_id thread_id reason details created_at s =
    let esc : Escalation = record {
      id = s.next_escalation;
      campaign_id = campaign_id;
      thread_id = thread_id;
      reason = reason;
      details = details;
      status = EscalationStatus.open_case;
      resolution = [];
      notified = false;
      created_at = some created_at;
      resolved_at = none;
    } in
    pure esc (record s {
      escalations = put s.next_escalation esc s.escalations;
      next_escalation = suc s.next_escalation;
    })

unfoldable pub get_escalation : ℕ → Action Store (Option Escalation)
get_escalation escalation_id = gets (λ s. get s.escalations escalation_id)

unfoldable pub is_open_case : Escalation → Bool
is_open_case e = elim e.status [
  | EscalationStatus.open_case ↦ true
  | EscalationStatus.resolved ↦ false
]

unfoldable pub same_case : EscalationStatus → EscalationStatus → Bool
same_case EscalationStatus.open_case EscalationStatus.open_case = true
same_case EscalationStatus.resolved EscalationStatus.resolved = true
same_case _ _ = false

abbrev pub rows_of : Option ℕ → Option EscalationStatus → Store → List Escalation
rows_of campaign_id status s =
    sort_by (λ (a b : Escalation). leb a.id b.id)
      (filter
        (λ (e : Escalation).
          maybe campaign_id true (λ c. same_id e.campaign_id (some c))
          && maybe status true (λ st. same_case e.status st))
        (values s.escalations))

unfoldable pub list_escalations :
    Option ℕ → Option EscalationStatus → Action Store (List Escalation)
unfolding same_id same_case
list_escalations campaign_id status = gets (rows_of campaign_id status)

unfoldable pub update_escalation : ℕ → (Escalation → Escalation) → Action Store Unit
update_escalation escalation_id f = do
  e ← require Error.key_error (λ s. get s.escalations escalation_id)
  modify (λ s. record s { escalations = put escalation_id (f e) s.escalations })

unfoldable pub resolve_escalation_row : ℕ → Text → ℕ → Action Store Unit
unfolding update_escalation
resolve_escalation_row escalation_id resolution resolved_at = update_escalation escalation_id (λ e.
    record e {
      status = EscalationStatus.resolved;
      resolution = resolution;
      resolved_at = some resolved_at;
    })

unfoldable pub unnotified_escalations : ℕ → Action Store (List Escalation)
unfolding is_open_case same_id same_case
unnotified_escalations campaign_id = gets (λ s.
    filter (λ (e : Escalation). not e.notified && is_open_case e)
      (rows_of (some campaign_id) none s))

unfoldable pub mark_escalations_notified : List ℕ → Action Store Unit
unfolding update_escalation
mark_escalations_notified [] = pure tt
mark_escalations_notified (i ∷ ids) = do
  update_escalation i (λ e. record e { notified = true })
  mark_escalations_notified ids
