-- ===== src/Records/Orchestrator/Mail.antt =====
-- orchestrator.py: `poll_mail`.
use dialogue_microservices.Prelude.{
  ℕ, zero, suc, List, [], ◌∷◌, Option, none, some, Text, codes, nonempty, contains, take, fstring,
  ltb, maybe, if◌then◌else◌,
}
use dialogue_microservices.Prelude.Action.{Action, pure, lift, gets, modify, ◌>>=◌, ◌>>◌}
use dialogue_microservices.Core.Queue
use dialogue_microservices.Core.ObjectStore
use dialogue_microservices.Records.Domain.{Campaign}
use dialogue_microservices.Records.Messages.{InboundAttachment, InboundMailMessage}
use dialogue_microservices.Records.Store.{has_source_key, get_thread_by_token, get_campaign}
use dialogue_microservices.Records.Keys.{slugify, spool_key, extract_token}
use dialogue_microservices.Records.World.{
  Env, World, ParsedAttachment, ParsedMail, on_store, on_documents,
}

-- `MAIL_POLL_CAP` and `SES_SETUP_MARKER`
abbrev pub mail_poll_cap : ℕ
mail_poll_cap = 200

abbrev pub ses_setup_marker : Text
ses_setup_marker = codes "AMAZON_SES_SETUP_NOTIFICATION"

unfoldable pub fallback_message_id : Env → Text → Text → Text → Text
fallback_message_id env from_address subject body = fstring (
    codes "sha:"
    ∷ take 32 (
        env.hexdigest
          (env.encode (fstring (from_address ∷ codes "|" ∷ subject ∷ codes "|" ∷ body ∷ []))))
    ∷ [])

-- The slug under which the attachments are spooled.
unfoldable pub spool_slug : Option Text → Action World Text
spool_slug none = pure (codes "unmatched")
spool_slug (some token) = do
  known_thread ← on_store (get_thread_by_token token)
  maybe known_thread (pure (codes "unmatched")) λ thread. do
    known_campaign ← on_store (get_campaign thread.campaign_id)
    pure (maybe known_campaign (codes "unmatched") (λ (c : Campaign). slugify c.config.name))

-- The attachments are put under keys, since no bytes ride in the queue.
unfoldable pub spool_attachments :
    Env → Text → ℕ → List ParsedAttachment → Action World (List InboundAttachment)
spool_attachments env slug index [] = pure []
spool_attachments env slug index (a ∷ rest) = do
  let key = spool_key slug (env.hexdigest a.payload) index a.filename
  on_documents (ObjectStore.put key a.payload a.content_type)
  spooled ← spool_attachments env slug (suc index) rest
  pure (record { filename = a.filename; content_type = a.content_type; s3_tmp_key = key } ∷ spooled)

unfoldable pub send_inbound : Env → InboundMailMessage → Action World Unit
send_inbound env m =
    modify
      (λ w. record w { inbound_queue = Queue.send (env.inbound_mail.to_json m) w.inbound_queue })

-- `parsed.message_id or fallback_message_id(…)`
unfoldable pub message_id_of : Env → ParsedMail → Text
message_id_of env parsed =
    let fallback = fallback_message_id env parsed.from_address parsed.subject parsed.body in
    maybe parsed.message_id fallback (λ m. if nonempty m then m else fallback)

-- The body of the loop, for a mail that is not known yet.
unfoldable pub enqueue_mail : Env → Text → Action World Unit
enqueue_mail env key = do
  raw ← lift ((ObjectStore.get key env.mail_bucket).0)
  let parsed = env.parse_mime raw
  let token = extract_token parsed.headers parsed.subject
  slug ← spool_slug token
  attachments ← spool_attachments env slug 0 parsed.attachments
  send_inbound env (record {
    source_key = key;
    message_id = message_id_of env parsed;
    thread_token = token;
    from_address = parsed.from_address;
    subject = parsed.subject;
    body = parsed.body;
    attachments = attachments;
  })

-- The loop over the keys; `room` is what is left of the cap.
unfoldable pub poll_keys : Env → ℕ → List Text → Action World ℕ
poll_keys env room [] = pure 0
poll_keys env zero (key ∷ keys) = pure 0
poll_keys env (suc room) (key ∷ keys) = do
  known ← on_store (has_source_key key)
  let skip = poll_keys env (suc room) keys
  if contains ses_setup_marker key
      then skip
      else if known
      then skip
      else (do enqueue_mail env key; n ← poll_keys env room keys; pure (suc n))

unfoldable pub poll_mail : Env → Action World ℕ
poll_mail env = do
  pending ← gets (λ (w : World). Queue.pending_count w.inbound_queue)
  if ltb 0 pending then pure 0 else do
    keys ← lift ((ObjectStore.list_keys [] env.mail_bucket).0)
    poll_keys env mail_poll_cap keys
