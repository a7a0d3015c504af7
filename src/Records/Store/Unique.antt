-- ===== src/Records/Store/Unique.antt =====
-- The partial unique index of the email log: a message id at most once for one campaign.
use dialogue_microservices.Prelude.{◌≡◌, List, [], ◌∷◌, Bool, false, All, maybe}
use dialogue_microservices.Records.Domain.{EmailRecord}
use dialogue_microservices.Records.Store.{Store, is_message}

-- The later row `f` has the message id and the campaign of the row `e`.
abbrev repeats : EmailRecord → EmailRecord → Bool
repeats f e = maybe f.message_id false (λ m. is_message f.campaign_id m e)

-- No row repeats an earlier one.
abbrev pub IsUnique : List EmailRecord → Type 0
IsUnique [] = Unit
IsUnique (e ∷ emails) = All (λ f. repeats f e ≡ false) emails × IsUnique emails
