-- ===== src/Records/Sender/Gates.antt =====
-- What `handle_contact` submits, and under which conditions.
use dialogue_microservices.Prelude.{
  ℕ, ◌<◌, ◌≡◌, ◌∙◌, ap, refl, inl, inr, List, [], ◌∷◌, ◌++◌, Option, none, some, Bool, true, false,
  not, ◌&&◌, Text, arith, length, filter, leb, maybe, if◌then◌else◌, Bool-cases, Option-cases,
}
use dialogue_microservices.Prelude.Dict.{get, values}
use dialogue_microservices.Prelude.Action.{Action, ok, Result-cases, pure, raise, gets, lift, ◌>>=◌}
use dialogue_microservices.Prelude.Preserves.{Preserves, preserves_rules, holds_after_try}
use dialogue_microservices.Records.Domain.{
  Campaign, Jurisdiction, EmailThread, same_status, ThreadStatus,
}
use dialogue_microservices.Records.Messages.{ContactMessage}
use dialogue_microservices.Records.Store.{
  Store, get_campaign, get_jurisdiction, find_thread, count_outbound_since, is_sent_since,
}
use dialogue_microservices.Records.World.{Env, World, OutboundEmail, on_store, except}
use dialogue_microservices.Records.Submitted.{Submitted, submitted_rules, deliver-Submitted}
use dialogue_microservices.Records.Sender.{
  utc_midnight, is_cooling, is_blocked, initial_mail, commit_initial, send_initial, refuse,
  contact_gates, handle_contact, is_send_transient, is_draft_error,
}

-- The emails that a campaign has sent since midnight, as `count_outbound_since` counts them.
abbrev sent_today : Env → Campaign → Store → ℕ
sent_today env c s = length (filter (is_sent_since c.id (utc_midnight env.now)) (values s.emails))

module _ (env : Env) (msg : ContactMessage) (c : Campaign) (j : Jurisdiction) where
  -- What an initial request submits: nothing, or one email to the address of the message.
  data Initial (emails submitted : List OutboundEmail) : Type 0 where
    nothing : submitted ≡ emails → Initial emails submitted
    one :
        (email : OutboundEmail)
        → email.to_address ≡ msg.contact_email
        → c.config.dry_run ≡ false
        → submitted ≡ emails ++ email ∷ []
        → Initial emails submitted

  quiet :
      (w : World) (m : Action World Bool)
      → Preserves (Submitted w.submitted) m
      → Initial w.submitted (m w).1.submitted
  quiet w m k = nothing (k.from w (record { are = refl })).are

  commit_initial-Submitted :
      {emails : List OutboundEmail} (i : Option ℕ) (token : Text) (email : OutboundEmail)
      (r : Option Text)
      → Preserves (Submitted emails) (commit_initial env msg c j i token email r)
  unfolding commit_initial
  commit_initial-Submitted i token email r = search (preserves_rules, submitted_rules)

  delivered-Initial :
      (email : OutboundEmail) (w w' : World)
      → email.to_address ≡ msg.contact_email
      → Submitted (if c.config.dry_run then w.submitted else w.submitted ++ email ∷ []) w'
      → Initial w.submitted w'.submitted
  delivered-Initial email w w' to h = elim (Bool-cases c.config.dry_run) [
    | inl dry ↦ nothing (h.are ∙ ap (λ b. if b then w.submitted else w.submitted ++ email ∷ []) dry)
    | inr live ↦
        one email to live
          (h.are ∙ ap (λ b. if b then w.submitted else w.submitted ++ email ∷ []) live)
  ]

  send_initial-Initial :
      (i : Option ℕ) (token : Text) (w : World)
      → Initial w.submitted (send_initial env msg c j i token w).1.submitted
  unfolding send_initial initial_mail pure raise
  send_initial-Initial i token w = elim (Result-cases (env.draft_initial c j)) [
    | inl (drafted, e) ↦ rw e (
        let email = initial_mail env msg c j token drafted in
        delivered-Initial email w _ refl (
          holds_after_try
            {P = Submitted (if c.config.dry_run then w.submitted else w.submitted ++ email ∷ [])} _
            _ (except is_send_transient (pure false)) w (deliver-Submitted env c email w)
            (λ r. commit_initial-Submitted i token email r) (λ x. search preserves_rules)))
    | inr (x, e) ↦ rw e (quiet w (except is_draft_error (pure false) x) (search preserves_rules))
  ]

  -- The conditions of a request: consent and an active campaign, the daily cap, the cooldown of the
  -- office, and an identity where the state wants one.
  pub record Permitted (s : Store) : Type 0 where
    pub consented : c.config.requester.consent_confirmed && c.active ≡ true
    pub under_cap : sent_today env c s < c.config.limits.daily_send_cap
    pub cooled : is_cooling env msg c j ≡ false
    pub accepted : is_blocked c j ≡ false

  -- What `contact_gates` submits.
  pub data Gated (s : Store) (emails submitted : List OutboundEmail) : Type 0 where
    held : submitted ≡ emails → Gated s emails submitted
    sent :
        (email : OutboundEmail)
        → email.to_address ≡ msg.contact_email
        → c.config.dry_run ≡ false
        → Permitted s
        → submitted ≡ emails ++ email ∷ []
        → Gated s emails submitted

  past_the_gates :
      (s : Store) (emails submitted : List OutboundEmail)
      → Permitted s
      → Initial emails submitted
      → Gated s emails submitted
  past_the_gates s emails submitted p (nothing e) = held e
  past_the_gates s emails submitted p (one email to live e) = sent email to live p e

  refuse-Submitted : (i : Option ℕ) (w : World) → (refuse env msg c j i w).1.submitted ≡ w.submitted
  unfolding refuse
  refuse-Submitted i w =
      let keeps : Preserves (Submitted w.submitted) (refuse env msg c j i) =
        search (preserves_rules, submitted_rules) in
      (keeps.from w (record { are = refl })).are

  last_gates :
      (i : Option ℕ) (token : Text) (w : World)
      → c.config.requester.consent_confirmed && c.active ≡ true
      → sent_today env c w.store < c.config.limits.daily_send_cap
      → Gated w.store w.submitted
          ((if is_cooling env msg c j
              then pure false
              else if is_blocked c j
              then refuse env msg c j i
              else send_initial env msg c j i token)
            w).1.submitted
  unfolding pure
  last_gates i token w on room = elim (Bool-cases (is_cooling env msg c j)) [
    | inl cooling ↦ rw cooling (held refl)
    | inr cooled ↦ rw cooled (elim (Bool-cases (is_blocked c j)) [
      | inl blocked ↦ rw blocked (held (refuse-Submitted i w))
      | inr accepted ↦ rw accepted (
          past_the_gates w.store w.submitted _
            (record { consented = on; under_cap = room; cooled = cooled; accepted = accepted })
            (send_initial-Initial i token w))
    ])
  ]

  contact_gates-Gated :
      (i : Option ℕ) (token : Text) (w : World)
      → Gated w.store w.submitted (contact_gates env msg c j i token w).1.submitted
  unfolding contact_gates count_outbound_since on_store gets pure ◌>>=◌
  contact_gates-Gated i token w =
      elim (Bool-cases (c.config.requester.consent_confirmed && c.active)) [
        | inr off ↦ rw off (held refl)
        | inl on ↦
            rw on
              (elim (Bool-cases (leb c.config.limits.daily_send_cap (sent_today env c w.store))) [
                | inl full ↦ rw full (held refl)
                | inr room ↦ rw room (last_gates i token w on (ground arith))
              ])
      ]

-- What `handle_contact` submits.
pub data Contacted (env : Env) (body : Text) (w w' : World) : Type 0 where
  silent : w'.submitted ≡ w.submitted → Contacted env body w w'
  wrote :
      (msg : ContactMessage) (c : Campaign) (j : Jurisdiction)
      → env.contact.from_json body ≡ ok msg
      → get w.store.campaigns msg.campaign_id ≡ some c
      → get w.store.jurisdictions msg.jurisdiction_id ≡ some j
      → Gated env msg c j w.store w.submitted w'.submitted
      → Contacted env body w w'

module _ (env : Env) (body : Text) (w : World) where
  gated :
      (msg : ContactMessage) (c : Campaign) (j : Jurisdiction) (i : Option ℕ) (token : Text)
      → env.contact.from_json body ≡ ok msg
      → get w.store.campaigns msg.campaign_id ≡ some c
      → get w.store.jurisdictions msg.jurisdiction_id ≡ some j
      → Contacted env body w (contact_gates env msg c j i token w).1
  gated msg c j i token e ec ej = wrote msg c j e ec ej (contact_gates-Gated env msg c j i token w)

  on_a_thread :
      (msg : ContactMessage) (c : Campaign) (j : Jurisdiction) (o : Option EmailThread)
      → env.contact.from_json body ≡ ok msg
      → get w.store.campaigns msg.campaign_id ≡ some c
      → get w.store.jurisdictions msg.jurisdiction_id ≡ some j
      → Contacted env body w
          (maybe o
            (contact_gates env msg c j none env.token_hex)
            (λ (t : EmailThread).
              if not (same_status t.status ThreadStatus.pending_send)
              then pure true
              else contact_gates env msg c j (some t.id) t.thread_token)
            w).1
  unfolding pure
  on_a_thread msg c j none e ec ej = gated msg c j none env.token_hex e ec ej
  on_a_thread msg c j (some t) e ec ej =
      elim (Bool-cases (not (same_status t.status ThreadStatus.pending_send))) [
        | inl elsewhere ↦ rw elsewhere (silent refl)
        | inr waits ↦ rw waits (gated msg c j (some t.id) t.thread_token e ec ej)
      ]

  -- `handle_contact` hands at most one email to the transport: to the address of a well-formed
  -- message that names a known campaign and a known jurisdiction, for a campaign that is no dry run,
  -- has consent and is active, below its daily cap, to an office outside its cooldown, and with an
  -- identity where the state wants one. In all other cases it submits nothing.
  pub handle_contact-Contacted : Contacted env body w (handle_contact env body w).1
  unfolding handle_contact get_campaign get_jurisdiction find_thread on_store gets lift pure ◌>>=◌
  handle_contact-Contacted = elim (Result-cases (env.contact.from_json body)) [
    | inr (x, e) ↦ rw e (silent refl)
    | inl (msg, e) ↦ rw e (elim (Option-cases (get w.store.campaigns msg.campaign_id)) [
      | inl none_there ↦ rw none_there (silent refl)
      | inr (c, ec) ↦ rw ec (elim (Option-cases (get w.store.jurisdictions msg.jurisdiction_id)) [
        | inl none_there ↦ rw none_there (silent refl)
        | inr (j, ej) ↦ rw ej (on_a_thread msg c j _ e ec ej)
      ])
    ])
  ]
