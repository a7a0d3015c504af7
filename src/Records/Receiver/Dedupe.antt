-- ===== src/Records/Receiver/Dedupe.antt =====
-- receiver.py: the at-least-once dedupe of `handle_inbound`.
use mathlib.Core.Option.{some_inj, none-ne-some}
use dialogue_microservices.Prelude.{
  ℕ, ◌≡◌, ap, refl, inl, inr, List, some, true, false, Text, any, find, nonempty, take, Bool-cases,
  Option-cases,
}
use dialogue_microservices.Prelude.Dict.{get, values}
use dialogue_microservices.Prelude.Action.{Result-cases, ok, pure, gets, lift, ◌>>◌, ◌>>=◌}
use dialogue_microservices.Prelude.Preserves.{
  Preserves, Preserves-bind, Preserves-pure, preserves_rules,
}
use dialogue_microservices.Records.Domain.{Campaign, EmailThread, EmailRecord, Classification}
use dialogue_microservices.Records.Messages.{InboundMailMessage}
use dialogue_microservices.Records.Store.{
  Store, get_campaign, has_message_id, is_message, get_thread_by_token, find_open_thread_by_contact,
  insert_email, is_taken,
}
use dialogue_microservices.Records.Store.Rows.{any-put, is_message-own}
use dialogue_microservices.Records.StoreOnly.{StoreHas}
use dialogue_microservices.Records.Acknowledged.{IfTrue, except-IfTrue}
use dialogue_microservices.Records.Receiver.Filed.{
  campaign_found, has_token, IsFiled, IsFiled-Keeps,
}
use dialogue_microservices.Records.Receiver.Keeps.{react-keeps, delete_spooled-keeps}
use dialogue_microservices.Records.World.{Env, World, on_store}
use dialogue_microservices.Records.Receiver.{
  classify_body_chars, match_thread, inbound_row, is_classify_error, react, classify_and_react,
  handle_inbound,
}
use dialogue_microservices.Records.Attachments.{delete_spooled}

-- To look for the thread changes nothing.
record Unchanged (w w' : World) : Type 0 where
  same : w' ≡ w

module _ {w : World} where
  gets-Unchanged : {A : Type 0} (f : Store → A) → Preserves (Unchanged w) (on_store (gets f))
  unfolding on_store gets
  gets-Unchanged f = record { from = λ u h. record { same = h.same } }

match_thread-same : (msg : InboundMailMessage) (w : World) → (match_thread msg w).1 ≡ w
unfolding match_thread get_thread_by_token find_open_thread_by_contact
match_thread-same msg w =
    let keeps : Preserves (Unchanged w) (match_thread msg) =
      search (preserves_rules, gets-Unchanged) depth 8 in
    (keeps.from w (record { same = refl })).same

-- A mail of a known campaign whose message id is on record.
handle_inbound-seen :
    (env : Env) (body : Text) (w : World) (msg : InboundMailMessage) (t : EmailThread)
    (c : Campaign)
    → env.inbound_mail.from_json body ≡ ok msg
    → (match_thread msg w).0 ≡ ok (some t)
    → get w.store.campaigns t.campaign_id ≡ some c
    → any (is_message (some c.id) msg.message_id) (values w.store.emails) ≡ true
    → handle_inbound env body w ≡ (ok true, w)
unfolding handle_inbound ◌>>=◌ lift on_store gets get_campaign has_message_id pure
handle_inbound-seen env body w msg t c decoded matched known seen =
    rw (decoded, matched, match_thread-same msg w, known, seen) refl

module _ (env : Env) (body : Text) (msg : InboundMailMessage) (token : Text) (c : Campaign) where
  match_thread-token :
      (w : World) (t : EmailThread)
      → msg.thread_token ≡ some token
      → nonempty token ≡ true
      → find (has_token token) (values w.store.threads) ≡ some t
      → match_thread msg w ≡ (ok (some t), w)
  unfolding match_thread get_thread_by_token on_store gets pure ◌>>=◌
  match_thread-token w t given filled found = rw (given, filled, found) refl

  reaction-keeps :
      (t : EmailThread) (inbound : EmailRecord) (found : Classification)
      → Preserves (StoreHas (IsFiled token msg.message_id t.campaign_id c)) (do
        react env c t inbound msg found.category found.referral_email
        delete_spooled msg.attachments
        pure true)
  reaction-keeps t inbound found =
      let keeps = IsFiled-Keeps token msg.message_id t.campaign_id c in
      Preserves-bind _ _ (react-keeps _ keeps env c t inbound msg _ _)
        λ _. Preserves-bind _ _ (delete_spooled-keeps _ keeps env _) (λ _. Preserves-pure _)

  -- The mail is filed before any reaction, and stays so.
  classify_and_react-IsFiled :
      (w : World) (t : EmailThread)
      → campaign_found (has_token token) (values w.store.threads) ≡ some t.campaign_id
      → get w.store.campaigns t.campaign_id ≡ some c
      → any (is_message (some c.id) msg.message_id) (values w.store.emails) ≡ false
      → IfTrue
          (StoreHas (IsFiled token msg.message_id t.campaign_id c))
          (classify_and_react env msg c t w)
  unfolding classify_and_react insert_email is_taken on_store pure ◌>>=◌
  classify_and_react-IsFiled w t matched known fresh =
      elim (Result-cases (env.classify msg.subject (take classify_body_chars msg.body))) [
        | inr (e, failed) ↦ rw failed (
            except-IfTrue (StoreHas (IsFiled token msg.message_id t.campaign_id c))
              is_classify_error e w)
        | inl (found, e) ↦
            (let inbound : EmailRecord =
                record (inbound_row env msg (some t.id) (some c.id) (some found)) {
                  id = w.store.next_email;
                } in
              rw (e, fresh)
                (λ q. (reaction-keeps t inbound found).from _ (record {
                  holds = record {
                    matched = matched;
                    known = known;
                    seen = any-put _ _ _ _ (is_message-own c.id msg.message_id inbound refl refl);
                  };
                })))
      ]

  -- An acknowledged mail is on record.
  handle_inbound-IsFiled :
      (w : World) (t : EmailThread)
      → env.inbound_mail.from_json body ≡ ok msg
      → match_thread msg w ≡ (ok (some t), w)
      → campaign_found (has_token token) (values w.store.threads) ≡ some t.campaign_id
      → get w.store.campaigns t.campaign_id ≡ some c
      → IfTrue (StoreHas (IsFiled token msg.message_id t.campaign_id c)) (handle_inbound env body w)
  unfolding handle_inbound ◌>>=◌ lift on_store gets get_campaign has_message_id pure
  handle_inbound-IsFiled w t decoded matched found known =
      rw (decoded, matched, known)
        (elim (Bool-cases (any (is_message (some c.id) msg.message_id) (values w.store.emails))) [
          | inl seen ↦
              rw seen
                (λ q. record { holds = record { matched = found; known = known; seen = seen } })
          | inr fresh ↦ rw fresh (classify_and_react-IsFiled w t found known fresh)
        ])

  campaign_found-thread :
      (threads : List EmailThread) (n : ℕ)
      → campaign_found (has_token token) threads ≡ some n
      → (t : EmailThread) × (find (has_token token) threads ≡ some t) × (t.campaign_id ≡ n)
  campaign_found-thread threads n e = elim (Option-cases (find (has_token token) threads)) [
    | inl missing ↦ absurd (none-ne-some n (rw missing at e))
    | inr (t, found) ↦ (t, found, some_inj.0 (rw found at e))
  ]

  -- A mail is worked once: where the first delivery of a mail whose token is that of a thread of a
  -- known campaign is acknowledged, a second delivery, at whatever time and with whatever answers from
  -- outside, is acknowledged too and changes nothing: no row, no job, no transition, no fee, whatever
  -- the reaction to the first did.
  pub handle_inbound-again :
      (later : Env) (w : World) (t : EmailThread)
      → env.inbound_mail.from_json body ≡ ok msg
      → later.inbound_mail.from_json body ≡ ok msg
      → msg.thread_token ≡ some token
      → nonempty token ≡ true
      → find (has_token token) (values w.store.threads) ≡ some t
      → get w.store.campaigns t.campaign_id ≡ some c
      → (handle_inbound env body w).0 ≡ ok true
      → handle_inbound later body (handle_inbound env body w).1
        ≡ (ok true, (handle_inbound env body w).1)
  handle_inbound-again later w t decoded again given filled found known returned =
      let w' = (handle_inbound env body w).1 in
      let filed =
        (handle_inbound-IsFiled w t decoded (match_thread-token w t given filled found)
          (rw found refl) known returned).holds in
      let (t', found', own) =
        campaign_found-thread (values w'.store.threads) t.campaign_id filed.matched in
      handle_inbound-seen later body w' msg t' c again
        (ap (λ r. r.0) (match_thread-token w' t' given filled found')) (rw own filed.known)
        filed.seen
