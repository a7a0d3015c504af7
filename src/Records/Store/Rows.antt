-- ===== src/Records/Store/Rows.antt =====
-- fakes/store.py: the rows of the email log that its tests find.
use dialogue_microservices.Prelude.{
  ℕ, ◌≡◌, refl, inl, inr, Option, some, Bool, true, arith, [], ◌∷◌, Text, any, text_eq_refl, ◌==◌,
  ==_refl, Bool-cases,
}
use dialogue_microservices.Prelude.Dict.{Dict, get, put, values}
use dialogue_microservices.Records.Domain.{
  EmailRecord, EmailDirection, OutboundKind, is_outbound, same_kind,
}
use dialogue_microservices.Records.Store.State.{same_id, is_text}
use dialogue_microservices.Records.Store.Emails.{is_reply_to, is_message}

same_kind_refl : (k : OutboundKind) → same_kind k k ≡ true
unfolding same_kind
same_kind_refl OutboundKind.initial_request = refl
same_kind_refl OutboundKind.followup = refl
same_kind_refl OutboundKind.clarification_reply = refl
same_kind_refl OutboundKind.fee_agreement = refl

-- An outbound row of the thread, of that kind, that answers the mail.
pub is_reply_to-own :
    (n i : ℕ) (kind : OutboundKind) (irt : Option ℕ) (e : EmailRecord)
    → irt ≡ some i
    → e.thread_id ≡ some n
    → e.direction ≡ EmailDirection.outbound
    → e.kind ≡ some kind
    → e.in_reply_to_email_id ≡ irt
    → is_reply_to n i kind e ≡ true
unfolding is_reply_to same_id is_outbound
is_reply_to-own n i kind irt e given thread out as_kind reply =
    rw (thread, out, as_kind, reply, given, ==_refl n, same_kind_refl kind, ==_refl i) refl

-- A row with the message id and the campaign.
pub is_message-own :
    (n : ℕ) (mid : Text) (e : EmailRecord)
    → e.message_id ≡ some mid
    → e.campaign_id ≡ some n
    → is_message (some n) mid e ≡ true
unfolding is_message same_id is_text
is_message-own n mid e id campaign = rw (id, campaign, text_eq_refl mid, ==_refl n) refl

pub is_message-same :
    (n : ℕ) (mid : Text) (e e' : EmailRecord)
    → e'.message_id ≡ e.message_id
    → e'.campaign_id ≡ e.campaign_id
    → is_message (some n) mid e' ≡ is_message (some n) mid e
unfolding is_message
is_message-same n mid e e' id campaign = rw (id, campaign) refl

module _ {V : Type 0} (p : V → Bool) where
  -- A row that was just written is found.
  pub any-put : (k : ℕ) (v : V) (d : Dict V) → p v ≡ true → any p (values (put k v d)) ≡ true
  unfolding any values put
  any-put k v [] h = rw h refl
  any-put k v ((j, u) ∷ d) h = elim (Bool-cases (j == k)) [
    | inl here ↦ rw (here, h) refl
    | inr other ↦ rw (other, any-put k v d h) (ground arith)
  ]

  -- To write a row again does not change what the test finds, where it does not tell the two apart.
  pub any-put_again :
      (k : ℕ) (u v : V) (d : Dict V)
      → get d k ≡ some u
      → p v ≡ p u
      → any p (values (put k v d)) ≡ any p (values d)
  unfolding any values put get
  any-put_again k u v [] known same = absurd (cc)
  any-put_again k u v (e ∷ d) known same = ground (arith, any-put_again k u v d)
