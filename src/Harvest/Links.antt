-- ===== src/Harvest/Links.antt =====
-- harvester/src/harvest_harvester/links.py: the document links of one page.
pub mod Distinct
use dialogue_microservices.Prelude.{
  ℕ, List, [], ◌∷◌, ◌++◌, Option, none, some, Bool, true, false, not, ◌&&◌, ◌||◌, Text, codes, any,
  filter, text_eq, lower, strip, join, nonempty, starts_with, ◌==◌, maybe, is_some, if◌then◌else◌,
}
use dialogue_microservices.Harvest.World.{Env, HtmlEvent}

-- The suffix from the last dot on.
unfoldable pub from_last_dot : Text → Option Text
from_last_dot [] = none
from_last_dot (c ∷ s) = maybe (from_last_dot s) (if c == b'.' then some (c ∷ s) else none) some

unfoldable pub url_extension : Env → Text → Text
unfolding from_last_dot
url_extension env url = maybe (from_last_dot (lower (env.urlsplit url).path)) [] (λ ext. ext)

-- `STORED_EXTENSIONS`, and `FOLLOWABLE_EXTENSIONS`: all but .xml and .json
abbrev pub followable_extensions : List Text
followable_extensions =
    codes ".pdf"
    ∷ codes ".docx"
    ∷ codes ".doc"
    ∷ codes ".odt"
    ∷ codes ".rtf"
    ∷ codes ".xlsx"
    ∷ codes ".xls"
    ∷ []

abbrev pub stored_extensions : List Text
stored_extensions = followable_extensions ++ codes ".xml" ∷ codes ".json" ∷ []

unfoldable pub is_document_url : Env → Text → Bool
is_document_url env url = any (text_eq (url_extension env url)) followable_extensions

pub record Link : Type 0 where
  pub url : Text
  pub anchor_text : Text

-- `_AnchorCollector`: the anchors read, and the one that is open with its text.
pub record Collector : Type 0 where
  pub anchors : List (Text × Text)
  pub current_href : Option Text
  pub current_text : List Text

abbrev pub flush : Collector → Collector
flush c = record {
  anchors =
      maybe c.current_href c.anchors
        (λ href. c.anchors ++ (href, strip (join (codes " ") c.current_text)) ∷ []);
  current_href = none;
  current_text = [];
}

-- `dict(attrs).get("href")`: of two attributes the later counts
unfoldable pub href_of : List (Text × Option Text) → Option Text → Option Text
href_of [] found = found
href_of ((name, value) ∷ attrs) found =
    href_of attrs (if text_eq name (codes "href") then value else found)

unfoldable pub handle_event : HtmlEvent → Collector → Collector
unfolding href_of
handle_event (HtmlEvent.start_tag tag attrs) c =
    if text_eq tag (codes "a")
    then record (if is_some c.current_href then flush c else c) {
      current_href = href_of attrs none;
    }
    else c
handle_event (HtmlEvent.end_tag tag) c = if text_eq tag (codes "a") then flush c else c
handle_event (HtmlEvent.text_run text) c =
    if is_some c.current_href then record c { current_text = c.current_text ++ text ∷ [] } else c

unfoldable pub collect : List HtmlEvent → Collector → Collector
unfolding handle_event
collect [] c = flush c
collect (e ∷ events) c = collect events (handle_event e c)

-- A link of the page, unless the loop passes over it.
unfoldable pub followed : Env → Text → Text → Text → Option Link
followed env base_url href text =
    let absolute = env.urljoin base_url (env.unescape (strip href)) in
    if nonempty href
      && (starts_with absolute (codes "http://") || starts_with absolute (codes "https://"))
      && is_document_url env absolute
    then some (record { url = absolute; anchor_text = text })
    else none

-- The loop over the anchors; `seen` are the urls of the links so far.
unfoldable pub gather : Env → Text → List Text → List (Text × Text) → List Link
unfolding followed
gather env base_url seen [] = []
gather env base_url seen ((href, text) ∷ anchors) =
    let skipped = gather env base_url seen anchors in
    maybe (followed env base_url href text) skipped λ link.
      let taken = link ∷ gather env base_url (link.url ∷ seen) anchors in
      if any (text_eq link.url) seen then skipped else taken

abbrev pub is_pdf : Env → Link → Bool
is_pdf env link = text_eq (url_extension env link.url) (codes ".pdf")

-- PDFs float to the front.
unfoldable pub pdfs_first : Env → List Link → List Link
pdfs_first env links = filter (is_pdf env) links ++ filter (λ link. not (is_pdf env link)) links

unfoldable pub extract_document_links : Env → Text → Text → List Link
unfolding collect gather pdfs_first
extract_document_links env page_html base_url =
    let page =
      collect (env.html_events page_html)
        (record { anchors = []; current_href = none; current_text = [] }) in
    pdfs_first env (gather env base_url [] page.anchors)
