-- ===== src/Records/Sender/Mail.antt =====
-- sender.py: the text of an email, and its delivery.
use dialogue_microservices.Prelude.{
  ℕ, ◌-◌, ◌%◌, List, [], ◌∷◌, ◌++◌, Option, none, some, Bool, true, false, Text, codes, nonempty,
  fstring, join, lower, strip, starts_with, contains, if◌then◌else◌,
}
use dialogue_microservices.Prelude.Action.{Error, Action, pure, lift, modify, ◌>>=◌, ◌>>◌}
use dialogue_microservices.Records.Domain.{Campaign}
use dialogue_microservices.Records.World.{Env, World, OutboundEmail, day}

-- `_utc_midnight`
unfoldable pub utc_midnight : ℕ → ℕ
utc_midnight now = now - now % day

-- `if text: lines.append(text)`
abbrev pub line_if_given : Option Text → List Text
line_if_given none = []
line_if_given (some t) = if nonempty t then t ∷ [] else []

-- `_signature`
unfoldable pub signature : Campaign → Text → Text
signature campaign reply_address =
    let requester = campaign.config.requester in
    if requester.anonymous
    then fstring (codes "Thanks for your time.\n" ∷ reply_address ∷ [])
    else join (codes "\n") (
        (codes "Sincerely," ∷ requester.name ∷ [])
        ++ line_if_given requester.organization
        ++ (requester.email ∷ [])
        ++ line_if_given requester.phone)

unfoldable pub assemble_body : Campaign → Text → Text → Text
assemble_body campaign drafted reply_address = fstring (
    drafted
    ∷ codes "\n\n---\nExact records requested:\n"
    ∷ campaign.config.record_description
    ∷ codes "\n\n"
    ∷ signature campaign reply_address
    ∷ [])

abbrev pub token_header : Text
token_header = codes "X-Dialogue-Token"

-- `_deliver`: the resend id, or None under dry_run. What is handed to the transport is on record
-- whether or not the call succeeds.
unfoldable pub deliver : Env → Campaign → OutboundEmail → Action World (Option Text)
deliver env campaign email = if campaign.config.dry_run then pure none else do
  modify (λ w. record w { submitted = w.submitted ++ email ∷ [] })
  resend_id ← lift (env.transport email)
  pure (some resend_id)

-- `subject or default`
abbrev pub or_default : Text → Text → Text
or_default subject default = if nonempty subject then subject else default

unfoldable pub default_subject : Text → Text
default_subject token = fstring (codes "Public Records Request [DLG-" ∷ token ∷ codes "]" ∷ [])

-- `_reply_subject`
unfoldable pub with_re : Text → Text
with_re subject =
    if starts_with (lower subject) (codes "re:")
    then subject
    else fstring (codes "Re: " ∷ subject ∷ [])

unfoldable pub with_token : Text → Text → Text
with_token token subject =
    if contains (lower token) (lower subject)
    then subject
    else fstring (subject ∷ codes " [DLG-" ∷ token ∷ codes "]" ∷ [])

unfoldable pub reply_subject : Text → Text → Text
reply_subject office_subject token =
    with_token token (with_re (or_default (strip office_subject) (default_subject token)))

unfoldable pub is_draft_error : Error → Bool
is_draft_error Error.draft_error = true
is_draft_error _ = false

unfoldable pub is_send_transient : Error → Bool
is_send_transient Error.send_transient_error = true
is_send_transient _ = false
