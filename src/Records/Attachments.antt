-- ===== src/Records/Attachments.antt =====
-- records/src/public_records/attachments.py: the type gate, the dedupe by a digest, the upload.
-- A ref, a dict of strings in the source, is a row with a status and the text that goes with it.
use dialogue_microservices.Prelude.{
  before, ℕ, suc, List, [], ◌∷◌, Bool, true, false, not, ◌&&◌, ◌||◌, Text, codes, take, ltb, ◌==◌,
  any, length, lower, strip, text_eq, fstring, maybe, if◌then◌else◌,
}
use dialogue_microservices.Prelude.Action.{Error, Action, pure, ◌>>=◌, ◌>>◌, try_else}
use dialogue_microservices.Core.KeyValue
use dialogue_microservices.Core.ObjectStore
use dialogue_microservices.Records.Domain.{Campaign, AttachmentRef, AttachmentStatus}
use dialogue_microservices.Records.Messages.{InboundAttachment}
use dialogue_microservices.Records.Store.{append_attachment_key}
use dialogue_microservices.Records.Keys.{document_key, slugify}
use dialogue_microservices.Records.World.{Env, World, on_store, on_documents, on_kv, except}

-- `ACCEPTED_ATTACHMENT_EXTS` and `ACCEPTED_ATTACHMENT_CONTENT_TYPES` of constants.py
abbrev accepted_exts : List Text
accepted_exts =
    codes ".pdf"
    ∷ codes ".doc"
    ∷ codes ".docx"
    ∷ codes ".xls"
    ∷ codes ".xlsx"
    ∷ codes ".csv"
    ∷ codes ".xml"
    ∷ codes ".json"
    ∷ codes ".txt"
    ∷ codes ".zip"
    ∷ []

abbrev accepted_content_types : List Text
accepted_content_types =
    codes "application/pdf"
    ∷ codes "application/msword"
    ∷ codes "application/vnd.openxmlformats-officedocument.wordprocessingml.document"
    ∷ codes "application/vnd.ms-excel"
    ∷ codes "application/vnd.openxmlformats-officedocument.spreadsheetml.sheet"
    ∷ codes "text/csv"
    ∷ codes "application/xml"
    ∷ codes "application/json"
    ∷ codes "text/plain"
    ∷ codes "application/zip"
    ∷ codes "text/xml"
    ∷ codes "application/x-zip-compressed"
    ∷ codes "application/csv"
    ∷ []

-- The last component of a path with no trailing slash.
base_name : Text → Text
base_name [] = []
base_name (c ∷ s) = let rest = base_name s in if any (λ d. d == b'/') (c ∷ s) then rest else c ∷ s

-- From the last dot of a name on, unless that dot ends the name.
last_dot : Text → Text
last_dot [] = []
last_dot (c ∷ s) =
    let rest = last_dot s in
    if any (λ d. d == b'.') s then rest else if c == b'.' && ltb 0 (length s) then c ∷ s else []

-- A dot at the front of a name begins no suffix.
suffix_of_name : Text → Text
unfolding last_dot
suffix_of_name [] = []
suffix_of_name (c ∷ s) = last_dot s

-- `PurePosixPath(path).suffix`
unfoldable pub suffix : Text → Text
unfolding base_name suffix_of_name
suffix path = suffix_of_name (base_name path)

unfoldable pub accepted : InboundAttachment → Bool
accepted a =
    any (text_eq (suffix (lower a.filename))) accepted_exts
    || any (text_eq (lower (strip (before b';' a.content_type)))) accepted_content_types

unfoldable pub dedupe_key : Campaign → Text → Text
dedupe_key campaign digest8 =
    fstring (codes "dedupe:" ∷ slugify campaign.config.name ∷ codes ":" ∷ digest8 ∷ [])

unfoldable pub is_object_not_found : Error → Bool
is_object_not_found Error.object_not_found = true
is_object_not_found _ = false

abbrev pub ref : InboundAttachment → AttachmentStatus → Text → AttachmentRef
ref a status note = record {
  filename = a.filename;
  content_type = a.content_type;
  status = status;
  note = note;
}

-- The branch of a digest that is held already: it heals a crash before the upload.
unfoldable pub point_to_duplicate :
    Env → Campaign → InboundAttachment → List ℕ → Text → Text → Action World AttachmentRef
point_to_duplicate env campaign a payload digest key = do
  held ← on_kv (KeyValue.get env.now (dedupe_key campaign (take 8 digest)))
  let existing = maybe held key (λ k. k)
  try_else (on_documents (ObjectStore.get existing)) (λ _. pure tt)
      (except is_object_not_found (on_documents (ObjectStore.put existing payload a.content_type)))
  pure (ref a AttachmentStatus.duplicate existing)

-- The body of the loop of `store_attachments`, from the read of the spooled object on.
unfoldable pub store_payload :
    Env → Campaign → Text → ℕ → InboundAttachment → List ℕ → Action World AttachmentRef
store_payload env campaign jurisdiction_name thread_id a payload = do
  let digest = env.hexdigest payload
  let key = document_key campaign.config.name jurisdiction_name digest a.filename
  new ← on_kv (KeyValue.setnx env.now (dedupe_key campaign (take 8 digest)) key)
  if not new then point_to_duplicate env campaign a payload digest key else do
    on_documents (ObjectStore.put key payload a.content_type)
    on_store (append_attachment_key thread_id key)
    pure (ref a AttachmentStatus.stored key)

unfoldable pub store_attachment :
    Env → Campaign → Text → ℕ → InboundAttachment → Action World AttachmentRef
store_attachment env campaign jurisdiction_name thread_id a =
    if not (accepted a)
    then pure (
        ref a AttachmentStatus.rejected
          (fstring (codes "unsupported type '" ∷ a.content_type ∷ codes "'" ∷ [])))
    else try_else (on_documents (ObjectStore.get a.s3_tmp_key))
        (λ payload. store_payload env campaign jurisdiction_name thread_id a payload)
        (except is_object_not_found
          (pure (ref a AttachmentStatus.rejected (codes "inbox-spool object missing"))))

unfoldable pub is_stored : AttachmentRef → Bool
is_stored r = elim r.status [
  | AttachmentStatus.rejected ↦ false
  | AttachmentStatus.duplicate ↦ false
  | AttachmentStatus.stored ↦ true
]

-- The refs, and how many of the attachments were stored.
unfoldable pub store_attachments :
    Env → Campaign → Text → ℕ → List InboundAttachment → Action World (List AttachmentRef × ℕ)
store_attachments env campaign jurisdiction_name thread_id [] = pure ([], 0)
store_attachments env campaign jurisdiction_name thread_id (a ∷ rest) = do
  r ← store_attachment env campaign jurisdiction_name thread_id a
  (refs, stored) ← store_attachments env campaign jurisdiction_name thread_id rest
  pure (r ∷ refs, if is_stored r then suc stored else stored)

unfoldable pub delete_spooled : List InboundAttachment → Action World Unit
delete_spooled [] = pure tt
delete_spooled (a ∷ rest) = do on_documents (ObjectStore.delete a.s3_tmp_key); delete_spooled rest
