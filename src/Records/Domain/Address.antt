-- ===== src/Records/Domain/Address.antt =====
-- records/src/public_records/domain.py: the heuristics on addresses.
use dialogue_microservices.Prelude.{
  List, [], ◌∷◌, ◌≡◌, refl, Bool, Text, codes, text_eq, contains, lower, any, ◌==◌, if◌then◌else◌,
}

-- `JUNK_LOCAL_PARTS` and `GENERIC_LOCAL_KEYWORDS` of constants.py
abbrev junk_local_parts : List Text
junk_local_parts =
    codes "noreply"
    ∷ codes "no-reply"
    ∷ codes "donotreply"
    ∷ codes "mailer-daemon"
    ∷ codes "postmaster"
    ∷ codes "abuse"
    ∷ codes "webmaster"
    ∷ []

abbrev generic_local_keywords : List Text
generic_local_keywords =
    codes "record"
    ∷ codes "clerk"
    ∷ codes "foia"
    ∷ codes "cpra"
    ∷ codes "pra"
    ∷ codes "prr"
    ∷ codes "public"
    ∷ codes "request"
    ∷ codes "sunshine"
    ∷ codes "info"
    ∷ codes "contact"
    ∷ codes "cityhall"
    ∷ []

has_at : Text → Bool
has_at = any (λ c. c == b'@')

-- `address.rsplit("@", 1)[0]`, where there is an "@"
before_last_at : Text → Text
unfolding has_at
before_last_at [] = []
before_last_at (c ∷ s) =
    let rest = before_last_at s in if has_at s then c ∷ rest else if c == b'@' then [] else c ∷ rest

unfoldable pub local_part : Text → Text
unfolding before_last_at
local_part address = if has_at address then lower (before_last_at address) else lower address

unfoldable pub is_junk_address : Text → Bool
unfolding local_part
is_junk_address address = any (text_eq (local_part address)) junk_local_parts

unfoldable pub is_generic_address : Text → Bool
unfolding local_part
is_generic_address address = any (λ k. contains k (local_part address)) generic_local_keywords

local_part_sample : local_part (codes "A@b.Clerk@x.gov") ≡ codes "a@b.clerk"
unfolding local_part any lower
local_part_sample = refl
