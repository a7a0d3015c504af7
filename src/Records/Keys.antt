-- ===== src/Records/Keys.antt =====
-- records/src/public_records/domain.py: object keys, and the token of an inbound mail.
use dialogue_microservices.Prelude.{
  ℕ, suc, List, [], ◌∷◌, ◌≡◌, refl, Option, none, some, Bool, false, ◌&&◌, ◌||◌, Text, codes, take,
  leb, ltb, ◌==◌, any, lower, strip, nonempty, text_eq, fstring, to_decimal, is_digit, starts_with,
  maybe, if◌then◌else◌,
}
use mathlib.Core.List.{reverse}
use dialogue_microservices.Core.Storage.{
  slugify as core_slugify, is_slug_char, underscore, lstrip_marks,
}

unfoldable pub or_attachment : Text → Text
or_attachment [] = codes "attachment"
or_attachment (c ∷ s) = c ∷ s

unfoldable pub sanitize_filename : Text → Text
unfolding underscore lstrip_marks or_attachment
sanitize_filename filename =
    or_attachment (reverse (lstrip_marks (reverse (lstrip_marks (underscore false filename)))))

-- `_core_slugify(text)[:SLUG_LEN]`
unfoldable pub slugify : Text → Text
slugify text = take 60 (core_slugify text)

unfoldable pub document_key : Text → Text → Text → Text → Text
unfolding slugify sanitize_filename
document_key campaign_name jurisdiction_name digest filename = fstring (
    slugify campaign_name
    ∷ codes "/"
    ∷ slugify jurisdiction_name
    ∷ codes "/"
    ∷ take 8 digest
    ∷ codes "_"
    ∷ sanitize_filename filename
    ∷ [])

unfoldable pub spool_key : Text → Text → ℕ → Text → Text
unfolding slugify sanitize_filename
spool_key campaign_name digest index filename = fstring (
    slugify campaign_name
    ∷ codes "/inbox-spool/"
    ∷ take 8 digest
    ∷ codes "_"
    ∷ to_decimal index
    ∷ codes "_"
    ∷ sanitize_filename filename
    ∷ [])

unfoldable pub is_hex : ℕ → Bool
is_hex c = is_digit c || (leb b'a' c && leb c b'f') || (leb b'A' c && leb c b'F')

-- `[0-9a-fA-F]{4,32}\]` at the front of a text, `n` digits having been read
unfoldable pub hex_then_bracket : ℕ → Text → Option Text
unfolding is_hex
hex_then_bracket n [] = none
hex_then_bracket n (c ∷ s) =
    let rest = hex_then_bracket (suc n) s in
    if is_hex c && ltb n 32
    then maybe rest none (λ t. some (c ∷ t))
    else if c == b']' && leb 4 n
    then some []
    else none

-- `\[(?:DLG|RF)-([0-9a-fA-F]{4,32})\]` at the front of a text
unfoldable pub token_at : Text → Option Text
unfolding hex_then_bracket
token_at (b1 ∷ b2 ∷ b3 ∷ b4 ∷ b5 ∷ s) =
    if starts_with (b1 ∷ b2 ∷ b3 ∷ b4 ∷ b5 ∷ s) (codes "[DLG-")
    then hex_then_bracket 0 s
    else if starts_with (b1 ∷ b2 ∷ b3 ∷ b4 ∷ b5 ∷ s) (codes "[RF-")
    then hex_then_bracket 0 (b5 ∷ s)
    else none
token_at _ = none

-- `_SUBJECT_TOKEN_RE.search(subject)`
unfoldable pub search_token : Text → Option Text
unfolding token_at
search_token [] = none
search_token (c ∷ s) = maybe (token_at (c ∷ s)) (search_token s) some

-- `extract_token`, the headers as pairs in their order
unfoldable pub extract_token : List (Text × Text) → Text → Option Text
unfolding search_token
extract_token [] subject = maybe (search_token subject) none (λ t. some (lower t))
extract_token ((name, value) ∷ headers) subject =
    if text_eq (lower name) (lower (codes "X-Dialogue-Token")) && nonempty (strip value)
    then some (lower (strip value))
    else extract_token headers subject

keys_sample :
    (sanitize_filename (codes "..my file (1).pdf") ≡ codes "my_file_1_.pdf")
    × (extract_token [] (codes "Re: x [RF-00aF] y") ≡ some (codes "00af"))
unfolding sanitize_filename extract_token any is_digit lower starts_with is_slug_char
keys_sample = (refl, refl)
