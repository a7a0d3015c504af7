-- ===== src/Records/Receiver/Filed.antt =====
-- receiver.py: a mail with a token that is on record, and that no reaction changes that.
use dialogue_microservices.Prelude.{
  ℕ, ◌+◌, ◌≡◌, ◌∙◌, ap, refl, inl, inr, List, [], ◌∷◌, Option, none, some, Bool, true, false, Text,
  text_eq, any, find, ltb, maybe, arith, Bool-cases, Option-cases,
}
use dialogue_microservices.Prelude.Dict.{Dict, get, put, values}
use dialogue_microservices.Prelude.Action.{
  Result-cases, pure, raise, lift, modify, require, or_raise, ◌>>=◌,
}
use dialogue_microservices.Records.Domain.{Campaign, EmailThread, check_transition}
use dialogue_microservices.Records.Store.{
  Store, is_message, set_thread_status, append_attachment_key, update_attachment_refs,
  insert_escalation, book_fee, committed, require_thread, write_thread,
}
use dialogue_microservices.Records.Store.Rows.{any-put_again, is_message-same}
use dialogue_microservices.Records.Receiver.Keeps.{Keeps}

abbrev pub campaign_found : (EmailThread → Bool) → List EmailThread → Option ℕ
campaign_found p threads = maybe (find p threads) none (λ t. some t.campaign_id)

abbrev pub has_token : Text → EmailThread → Bool
has_token token t = text_eq t.thread_token token

-- A later version of a row is found in its place.
campaign_found-put :
    (p : EmailThread → Bool) (i : ℕ) (u u' : EmailThread) (d : Dict EmailThread)
    → get d i ≡ some u
    → p u' ≡ p u
    → u'.campaign_id ≡ u.campaign_id
    → campaign_found p (values (put i u' d)) ≡ campaign_found p (values d)
unfolding find values put get
campaign_found-put p i u u' [] known same own = absurd (cc)
campaign_found-put p i u u' (e ∷ d) known same own = ground (arith, campaign_found-put p i u u' d)

-- The token finds a thread of the campaign, and the message id is on record for the campaign.
pub record IsFiled (token message_id : Text) (campaign_id : ℕ) (c : Campaign) (s : Store)
    : Type 0 where
  pub matched : campaign_found (has_token token) (values s.threads) ≡ some campaign_id
  pub known : get s.campaigns campaign_id ≡ some c
  pub seen : any (is_message (some c.id) message_id) (values s.emails) ≡ true

module _ (token message_id : Text) (campaign_id : ℕ) (c : Campaign) where
  IsFiled-write :
      (s : Store) (i : ℕ) (u u' : EmailThread)
      → get s.threads i ≡ some u
      → u'.thread_token ≡ u.thread_token
      → u'.campaign_id ≡ u.campaign_id
      → IsFiled token message_id campaign_id c s
      → IsFiled token message_id campaign_id c (record s { threads = put i u' s.threads })
  IsFiled-write s i u u' there same own h = record {
    matched =
        campaign_found-put (has_token token) i u u' s.threads there (ap (λ t. text_eq t token) same)
          own
        ∙ h.matched;
    known = h.known;
    seen = h.seen;
  }

  -- A write of another table.
  IsFiled-other :
      (s s' : Store)
      → s'.threads ≡ s.threads
      → s'.campaigns ≡ s.campaigns
      → s'.emails ≡ s.emails
      → IsFiled token message_id campaign_id c s
      → IsFiled token message_id campaign_id c s'
  IsFiled-other s s' p q r h = record {
    matched = rw p h.matched;
    known = rw q h.known;
    seen = rw r h.seen;
  }

  -- No reaction loses the row, the campaign or the token of the thread.
  pub IsFiled-Keeps : Keeps (IsFiled token message_id campaign_id c)
  unfolding set_thread_status append_attachment_key update_attachment_refs insert_escalation
      book_fee require_thread write_thread require or_raise lift modify pure raise ◌>>=◌
  IsFiled-Keeps = record {
    status = λ i status at. record {
      from = λ s h. elim (Option-cases (get s.threads i)) [
        | inl missing ↦ rw missing h
        | inr (t, there) ↦ rw there (elim (Result-cases (check_transition t.status status false)) [
          | inl (_, passed) ↦ rw passed (IsFiled-write s i t _ there refl refl h)
          | inr (e, refused) ↦ rw refused h
        ])
      ];
    };
    key = λ i k. record {
      from = λ s h. elim (Option-cases (get s.threads i)) [
        | inl missing ↦ rw missing h
        | inr (t, there) ↦ rw there (IsFiled-write s i t _ there refl refl h)
      ];
    };
    refs = λ i refs. record {
      from = λ s h. elim (Option-cases (get s.emails i)) [
        | inl missing ↦ rw missing h
        | inr (e, there) ↦ rw there (record {
          matched = h.matched;
          known = h.known;
          seen =
              any-put_again (is_message (some c.id) message_id) i e _ s.emails there
                (is_message-same c.id message_id e _ refl refl)
              ∙ h.seen;
        })
      ];
    };
    escalation = λ c' t r d now. record { from = λ s h. IsFiled-other s _ refl refl refl h };
    fee = λ c' t amount budget note now. record {
      from = λ s h. elim (Bool-cases (ltb budget (committed c' s + amount))) [
        | inl over ↦ rw over h
        | inr within ↦ rw within (IsFiled-other s _ refl refl refl h)
      ];
    };
  }
