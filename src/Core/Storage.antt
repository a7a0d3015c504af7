-- ===== src/Core/Storage.antt =====
-- core/src/harvest_core/storage.py: slugs and object keys. Text is lowered as ASCII.
use dialogue_microservices.Prelude.{
  List, ℕ, [], ◌∷◌, ◌≡◌, refl, Bool, true, false, ◌&&◌, ◌||◌, Text, codes, lower, take, leb, ◌==◌,
  ◌++◌, ◌-◌, is_digit, starts_with, nonempty, fstring, length, if◌then◌else◌,
}
use mathlib.Core.List.{reverse}

-- `[a-z0-9]`
unfoldable pub is_slug_char : ℕ → Bool
is_slug_char c = is_digit c || (leb b'a' c && leb c b'z')

-- `re.sub(r"[^a-z0-9]+", "-", text)`; `inside` says that a run of other characters is under way
unfoldable pub hyphenate : Bool → Text → Text
unfolding is_slug_char
hyphenate inside [] = []
hyphenate inside (c ∷ s) =
    let ordinary = c ∷ hyphenate false s in
    let other = hyphenate true s in
    if is_slug_char c then ordinary else if inside then other else b'-' ∷ other

unfoldable pub lstrip_hyphens : Text → Text
lstrip_hyphens [] = []
lstrip_hyphens (c ∷ s) = if c == b'-' then lstrip_hyphens s else c ∷ s

unfoldable pub slugify : Text → Text
unfolding hyphenate lstrip_hyphens
slugify text =
    take 60 (reverse (lstrip_hyphens (reverse (lstrip_hyphens (hyphenate false (lower text))))))

-- a character that `.strip("._-")` takes off
unfoldable pub is_mark : ℕ → Bool
is_mark c = c == b'.' || c == b'_' || c == b'-'

-- `[A-Za-z0-9._-]`
unfoldable pub is_file_char : ℕ → Bool
unfolding is_slug_char is_mark
is_file_char c = is_slug_char c || (leb b'A' c && leb c b'Z') || is_mark c

-- `re.sub(r"[^A-Za-z0-9._-]+", "_", text)`; `inside` says that a run of other characters is under way
unfoldable pub underscore : Bool → Text → Text
unfolding is_file_char
underscore inside [] = []
underscore inside (c ∷ s) =
    let ordinary = c ∷ underscore false s in
    let other = underscore true s in
    if is_file_char c then ordinary else if inside then other else b'_' ∷ other

unfoldable pub lstrip_marks : Text → Text
unfolding is_mark
lstrip_marks [] = []
lstrip_marks (c ∷ s) = if is_mark c then lstrip_marks s else c ∷ s

-- `segment.strip("._-")`, other characters being replaced
unfoldable pub clean_segment : Text → Text
unfolding underscore lstrip_marks
clean_segment segment = reverse (lstrip_marks (reverse (lstrip_marks (underscore false segment))))

-- `path.rsplit("/", 1)[-1]`
unfoldable pub last_segment : Text → Text → Text
last_segment so_far [] = reverse so_far
last_segment so_far (c ∷ s) = last_segment (if c == b'/' then [] else c ∷ so_far) s

unfoldable pub ends_with : Text → Text → Bool
ends_with s suffix = starts_with (reverse s) (reverse suffix)

-- The first of the endings that the name has, taken off.
unfoldable pub without_ending : List Text → Text → Text
unfolding ends_with
without_ending [] stem = stem
without_ending (known ∷ endings) stem =
    let other = without_ending endings stem in
    if ends_with (lower stem) known then take (length stem - length known) stem else other

-- `_KNOWN_EXTS`
abbrev pub known_exts : List Text
known_exts =
    codes ".pdf"
    ∷ codes ".docx"
    ∷ codes ".doc"
    ∷ codes ".odt"
    ∷ codes ".rtf"
    ∷ codes ".xlsx"
    ∷ codes ".xls"
    ∷ codes ".xml"
    ∷ codes ".json"
    ∷ []

-- `urlsplit(url).path` and `unquote` are passed in.
unfoldable pub filename_from_url : (Text → Text) → Text → Text → Text
unfolding clean_segment last_segment without_ending
filename_from_url unquote path ext =
    let segment = clean_segment (unquote (last_segment [] path)) in
    let stem = without_ending (ext ∷ known_exts) segment in
    (if nonempty stem then stem else codes "record") ++ ext

unfoldable pub object_key : Text → Text → Text → Text → Text
unfolding slugify
object_key corpus jurisdiction_name sha256 filename = fstring (
    slugify corpus
    ∷ codes "/"
    ∷ slugify jurisdiction_name
    ∷ codes "/"
    ∷ take 8 sha256
    ∷ codes "_"
    ∷ filename
    ∷ [])

slugify_sample : slugify (codes "  St. Mary's County -- MD ") ≡ codes "st-mary-s-county-md"
unfolding slugify lower is_digit
slugify_sample = refl

filename_sample :
    filename_from_url (λ t. t) (codes "/docs/Code%20Book.PDF") (codes ".pdf")
    ≡ codes "Code_20Book.pdf"
unfolding filename_from_url lower is_digit starts_with
filename_sample = refl
