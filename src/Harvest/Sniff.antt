-- ===== src/Harvest/Sniff.antt =====
-- harvester/src/harvest_harvester/sniff.py: the stored type of a fetched document.
pub mod Stored
use dialogue_microservices.Prelude.{
  ℕ, List, [], ◌∷◌, Option, none, some, Bool, true, false, ◌&&◌, ◌||◌, Text, codes, any, text_eq,
  lower, strip, before, starts_with, leb, ◌==◌, maybe, if◌then◌else◌,
}
use dialogue_microservices.Prelude.TextDict
use dialogue_microservices.Prelude.TextDict.{TextDict}
use dialogue_microservices.Harvest.World.{Env}
use dialogue_microservices.Harvest.Links.{url_extension, stored_extensions}

-- `_CONTENT_TYPE_MAP`
abbrev pub content_type_map : TextDict Text
content_type_map =
    (codes "application/pdf", codes ".pdf")
    ∷ (
      codes "application/vnd.openxmlformats-officedocument.wordprocessingml.document",
      codes ".docx",
    )
    ∷ (codes "application/msword", codes ".doc")
    ∷ (codes "application/vnd.oasis.opendocument.text", codes ".odt")
    ∷ (codes "application/rtf", codes ".rtf")
    ∷ (codes "text/rtf", codes ".rtf")
    ∷ (codes "application/vnd.openxmlformats-officedocument.spreadsheetml.sheet", codes ".xlsx")
    ∷ (codes "application/vnd.ms-excel", codes ".xls")
    ∷ (codes "application/xml", codes ".xml")
    ∷ (codes "text/xml", codes ".xml")
    ∷ (codes "application/json", codes ".json")
    ∷ []

-- `EXT_CONTENT_TYPES`
abbrev pub ext_content_types : TextDict Text
ext_content_types =
    (codes ".pdf", codes "application/pdf")
    ∷ (
      codes ".docx",
      codes "application/vnd.openxmlformats-officedocument.wordprocessingml.document",
    )
    ∷ (codes ".doc", codes "application/msword")
    ∷ (codes ".odt", codes "application/vnd.oasis.opendocument.text")
    ∷ (codes ".rtf", codes "application/rtf")
    ∷ (codes ".xlsx", codes "application/vnd.openxmlformats-officedocument.spreadsheetml.sheet")
    ∷ (codes ".xls", codes "application/vnd.ms-excel")
    ∷ (codes ".xml", codes "application/xml")
    ∷ (codes ".json", codes "application/json")
    ∷ []

-- `bytes.lstrip`
unfoldable pub lstrip_bytes : List ℕ → List ℕ
lstrip_bytes [] = []
lstrip_bytes (c ∷ s) = if c == 32 || (leb 9 c && leb c 13) then lstrip_bytes s else c ∷ s

abbrev pub one_of : List Text → Text → Bool
one_of exts ext = any (text_eq ext) exts

-- `_OLE_MAGIC`
abbrev pub ole_magic : List ℕ
ole_magic = 0xD0 ∷ 0xCF ∷ 0x11 ∷ 0xE0 ∷ 0xA1 ∷ 0xB1 ∷ 0x1A ∷ 0xE1 ∷ []

-- Steps 8 and 9: by the content type, else by the extension.
unfoldable pub by_name : Text → Text → Option Text
by_name ct ext =
    maybe (TextDict.get content_type_map ct)
      (if one_of stored_extensions ext then some ext else none) some

-- Steps 5 to 9, where the bytes show neither PDF, zip, OLE nor RTF.
unfoldable pub sniff_text : List ℕ → Text → Text → Option Text
unfolding lstrip_bytes by_name
sniff_text content ct ext =
    if text_eq ct (codes "text/html")
    then none
    else if starts_with (lstrip_bytes content) (codes "<?xml")
    then some (codes ".xml")
    else if text_eq ct (codes "application/json")
        || (text_eq ext (codes ".json")
            && (starts_with (lstrip_bytes content) (codes "{")
                || starts_with (lstrip_bytes content) (codes "[")))
    then some (codes ".json")
    else by_name ct ext

unfoldable pub sniff : Env → List ℕ → Option Text → Text → Option Text
unfolding sniff_text
sniff env content content_type url =
    let ct = strip (before b';' (lower (maybe content_type [] (λ t. t)))) in
    let ext = url_extension env url in
    if starts_with content (codes "%PDF-")
    then some (codes ".pdf")
    else if starts_with content (codes "PK")
        && one_of (codes ".docx" ∷ codes ".odt" ∷ codes ".xlsx" ∷ []) ext
    then some ext
    else if starts_with content ole_magic && one_of (codes ".doc" ∷ codes ".xls" ∷ []) ext
    then some ext
    else if starts_with content (codes "{\\rtf")
    then some (codes ".rtf")
    else sniff_text content ct ext
