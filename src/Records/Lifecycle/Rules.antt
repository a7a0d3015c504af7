-- ===== src/Records/Lifecycle/Rules.antt =====
-- Every write of the store that a handler calls lets the thread rows evolve.
use dialogue_microservices.Prelude.{
  ℕ, ◌+◌, ◌≤◌, ◌≡◌, refl, List, Option, false, Text, arith, any, inl, inr, text_eq, ltb,
  Option-cases, Bool-cases,
}
use dialogue_microservices.Prelude.Dict.{get, values}
use dialogue_microservices.Prelude.Action.{
  ok, lift, require, pure, raise, modify, ◌>>=◌, Result-cases,
}
use dialogue_microservices.Prelude.Preserves.{
  Preserves, Preserves-bind, Preserves-require, preserves_rules,
}
use dialogue_microservices.Records.Domain.{
  Campaign, Jurisdiction, SearchTarget, EmailThread, EmailRecord, AttachmentRef, ThreadStatus,
  EscalationReason, check_transition,
}
use dialogue_microservices.Records.Domain.Transitions.{check_transition-Leads, here}
use dialogue_microservices.Records.Store.{
  Store, require_thread, write_thread, set_thread_status, insert_email, is_taken, InitialSend,
  ThreadSend, append_attachment_key, insert_thread, reopen_thread, record_initial_send,
  record_thread_send, book_fee, committed, insert_search_target, is_target, insert_jurisdiction,
  is_place, insert_escalation, update_campaign, update_jurisdiction, write_target,
  update_attachment_refs, stamp_last_contacted, resolve_target, set_target_queries_enqueued,
  set_campaign_seeded,
}
use dialogue_microservices.Records.Store.Reads.{reads}
use dialogue_microservices.Records.Lifecycle.Rows.{
  Follows, Evolves, Evolves-same, Evolves-write, Evolves-insert,
}

module _ (s0 : Store) where
  -- A row with the same identity, whose status passed the check.
  moved :
      (t t' : EmailThread)
      → check_transition t.status t'.status false ≡ ok tt
      → t'.campaign_id ≡ t.campaign_id
      → t'.jurisdiction_id ≡ t.jurisdiction_id
      → t'.thread_token ≡ t.thread_token
      → t.followups_sent ≤ t'.followups_sent
      → Follows t t'
  moved t t' passed c j k n = record {
    status = check_transition-Leads t.status t'.status passed;
    campaign = c;
    jurisdiction = j;
    token = k;
    counter = n;
  }

  pub set_thread_status-Evolves :
      (i : ℕ) (status : ThreadStatus) (at : Option ℕ)
      → Preserves (Evolves s0) (set_thread_status i status at false)
  unfolding set_thread_status require_thread write_thread require lift modify ◌>>=◌
  set_thread_status-Evolves i status at = record {
    from = λ s h. elim (Option-cases (get s.threads i)) [
      | inl missing ↦ rw missing h
      | inr (t, known) ↦ rw known (elim (Result-cases (check_transition t.status status false)) [
        | inl (_, passed) ↦ rw passed (
            let t' = record t { status = status; next_action_at = at } in
            Evolves-write s0 s h i t t' known (moved t t' passed refl refl refl (omega arith)))
        | inr (e, refused) ↦ rw refused h
      ])
    ];
  }

  pub insert_email-Evolves : (fields : EmailRecord) → Preserves (Evolves s0) (insert_email fields)
  unfolding insert_email pure raise
  insert_email-Evolves fields = record {
    from = λ s h. elim (Bool-cases (is_taken fields.campaign_id fields.message_id s)) [
      | inl taken ↦ rw taken h
      | inr free ↦ rw free (Evolves-same s0 s _ refl refl h)
    ];
  }

  pub insert_thread-Evolves : (a : InitialSend) → Preserves (Evolves s0) (insert_thread a)
  unfolding insert_thread pure raise
  insert_thread-Evolves a = record {
    from = λ s h.
        elim (Bool-cases
          (any (λ (t : EmailThread). text_eq t.thread_token a.thread_token) (values s.threads))) [
            | inl taken ↦ rw taken h
            | inr free ↦ rw free (Evolves-insert s0 s h _)
          ];
  }

  pub reopen_thread-Evolves : (a : InitialSend) (i : ℕ) → Preserves (Evolves s0) (reopen_thread a i)
  unfolding reopen_thread require_thread write_thread require lift modify pure ◌>>=◌
  reopen_thread-Evolves a i = record {
    from = λ s h. elim (Option-cases (get s.threads i)) [
      | inl missing ↦ rw missing h
      | inr (t, known) ↦
          rw known
            (elim (Result-cases (check_transition t.status ThreadStatus.request_sent false)) [
              | inl (_, passed) ↦
                  rw passed (
                    Evolves-write s0 s h i t _ known
                      (moved t _ passed refl refl refl (omega arith)))
              | inr (e, refused) ↦ rw refused h
            ])
    ];
  }

  pub append_attachment_key-Evolves :
      (i : ℕ) (key : Text) → Preserves (Evolves s0) (append_attachment_key i key)
  unfolding append_attachment_key require_thread write_thread require modify ◌>>=◌
  append_attachment_key-Evolves i key = record {
    from = λ s h. elim (Option-cases (get s.threads i)) [
      | inl missing ↦ rw missing h
      | inr (t, known) ↦ rw known (
          Evolves-write s0 s h i t _ known (record {
            status = here;
            campaign = refl;
            jurisdiction = refl;
            token = refl;
            counter = omega arith;
          }))
    ];
  }

  pub record_thread_send-Evolves : (a : ThreadSend) → Preserves (Evolves s0) (record_thread_send a)
  unfolding record_thread_send require_thread write_thread require lift modify pure insert_email
      ◌>>=◌
  record_thread_send-Evolves a = record {
    from = λ s h. elim (Option-cases (get s.threads a.thread_id)) [
      | inl missing ↦ rw missing h
      | inr (t, known) ↦
          rw known (elim (Result-cases (check_transition t.status a.new_status false)) [
            | inl (_, passed) ↦ rw passed (
                Evolves-write s0 _ (Evolves-same s0 s _ refl refl h) a.thread_id t _ known
                  (moved t _ passed refl refl refl (ground arith)))
            | inr (e, refused) ↦ rw refused h
          ])
    ];
  }

  -- A write of one of the other tables.
  other_table :
      (f : Store → Store)
      → ((s : Store) → (f s).threads ≡ s.threads)
      → ((s : Store) → (f s).next_thread ≡ s.next_thread)
      → Preserves (Evolves s0) (modify f)
  unfolding modify
  other_table f same_threads same_next = record {
    from = λ s h. Evolves-same s0 s (f s) (same_threads s) (same_next s) h;
  }

  pub book_fee-Evolves :
      (c : ℕ) (t : Option ℕ) (amount budget : ℕ) (note : Text) (now : ℕ)
      → Preserves (Evolves s0) (book_fee c t amount budget note now)
  unfolding book_fee pure
  book_fee-Evolves c t amount budget note now = record {
    from = λ s h. elim (Bool-cases (ltb budget (committed c s + amount))) [
      | inl over ↦ rw over h
      | inr within ↦ rw within (Evolves-same s0 s _ refl refl h)
    ];
  }

  pub insert_search_target-Evolves :
      (c j now : ℕ) → Preserves (Evolves s0) (insert_search_target c j now)
  unfolding insert_search_target pure raise
  insert_search_target-Evolves c j now = record {
    from = λ s h. elim (Bool-cases (any (is_target c j) (values s.targets))) [
      | inl taken ↦ rw taken h
      | inr free ↦ rw free (Evolves-same s0 s _ refl refl h)
    ];
  }

  pub insert_jurisdiction-Evolves :
      (n st l : Text) (p : Option Text) → Preserves (Evolves s0) (insert_jurisdiction n st l p)
  unfolding insert_jurisdiction pure raise
  insert_jurisdiction-Evolves n st l p = record {
    from = λ s h. elim (Bool-cases (any (is_place n st l) (values s.jurisdictions))) [
      | inl taken ↦ rw taken h
      | inr free ↦ rw free (Evolves-same s0 s _ refl refl h)
    ];
  }

  pub insert_escalation-Evolves :
      (c t : Option ℕ) (r : EscalationReason) (d : Text) (now : ℕ)
      → Preserves (Evolves s0) (insert_escalation c t r d now)
  unfolding insert_escalation pure
  insert_escalation-Evolves c t r d now = record { from = λ s h. Evolves-same s0 s _ refl refl h }

  pub update_campaign-Evolves :
      (i : ℕ) (f : Campaign → Campaign) → Preserves (Evolves s0) (update_campaign i f)
  unfolding update_campaign
  update_campaign-Evolves i f =
      Preserves-bind _ _ (Preserves-require _ _) (λ c. other_table _ (λ s. refl) (λ s. refl))

  pub update_jurisdiction-Evolves :
      (i : ℕ) (f : Jurisdiction → Jurisdiction) → Preserves (Evolves s0) (update_jurisdiction i f)
  unfolding update_jurisdiction
  update_jurisdiction-Evolves i f =
      Preserves-bind _ _ (Preserves-require _ _) (λ c. other_table _ (λ s. refl) (λ s. refl))

  pub write_target-Evolves : (i : ℕ) (t : SearchTarget) → Preserves (Evolves s0) (write_target i t)
  unfolding write_target
  write_target-Evolves i t = other_table _ (λ s. refl) (λ s. refl)

  pub update_attachment_refs-Evolves :
      (i : ℕ) (refs : List AttachmentRef) → Preserves (Evolves s0) (update_attachment_refs i refs)
  unfolding update_attachment_refs
  update_attachment_refs-Evolves i refs =
      Preserves-bind _ _ (Preserves-require _ _) (λ e. other_table _ (λ s. refl) (λ s. refl))

  pub record_initial_send-Evolves :
      (a : InitialSend) → Preserves (Evolves s0) (record_initial_send a)
  unfolding record_initial_send stamp_last_contacted
  record_initial_send-Evolves a = search (
    preserves_rules, insert_thread-Evolves, reopen_thread-Evolves, insert_email-Evolves,
    update_jurisdiction-Evolves,
  )

  pub resolve_target-Evolves : (i : ℕ) → Preserves (Evolves s0) (resolve_target i)
  unfolding resolve_target
  resolve_target-Evolves i = search (preserves_rules, reads, write_target-Evolves)

  pub set_target_queries_enqueued-Evolves :
      (i n : ℕ) → Preserves (Evolves s0) (set_target_queries_enqueued i n)
  unfolding set_target_queries_enqueued
  set_target_queries_enqueued-Evolves i n = search (preserves_rules, reads, write_target-Evolves)

  pub set_campaign_seeded-Evolves : (i : ℕ) → Preserves (Evolves s0) (set_campaign_seeded i)
  unfolding set_campaign_seeded
  set_campaign_seeded-Evolves i = update_campaign-Evolves i _

pub ruleset evolves_rules = (
  set_thread_status-Evolves, insert_email-Evolves, append_attachment_key-Evolves,
  record_thread_send-Evolves, book_fee-Evolves, insert_search_target-Evolves,
  insert_jurisdiction-Evolves, insert_escalation-Evolves, update_attachment_refs-Evolves,
  record_initial_send-Evolves, resolve_target-Evolves, set_target_queries_enqueued-Evolves,
  set_campaign_seeded-Evolves,
)
