-- ===== src/Harvest/Links/Distinct.antt =====
-- links.py, `extract_document_links`: what its result is.
use dialogue_microservices.Prelude.{
  ℕ, ◌≡◌, ◌≤◌, ◌+◌, refl, sym, ◌∙◌, inl, inr, List, [], ◌∷◌, ◌++◌, none, some, Bool, true, false,
  not, ◌&&◌, ◌||◌, All, All-append, All-filter, Text, codes, any, filter, text_eq, text_eq_iff,
  text_eq_comm, starts_with, strip, nonempty, sum_by, sum_by-append, Bool-cases, Option-cases,
  if◌then◌else◌, arith,
}
use mathlib.Core.Bool.{true≢false}
use mathlib.Core.Option.{some_inj, none-ne-some}
use dialogue_microservices.Harvest.World.{Env}
use dialogue_microservices.Harvest.Links.{
  Link, is_document_url, collect, followed, gather, is_pdf, pdfs_first, extract_document_links,
}

-- How many of the links lead to `url`.
abbrev pub count_url : Text → List Link → ℕ
count_url url = sum_by (λ (l : Link). if text_eq l.url url then 1 else 0)

count_url-append :
    (url : Text) (xs ys : List Link)
    → count_url url (xs ++ ys) ≡ count_url url xs + count_url url ys
count_url-append url xs ys = sum_by-append (λ (l : Link). if text_eq l.url url then 1 else 0) xs ys

count_url-split :
    (p : Link → Bool) (url : Text) (links : List Link)
    → count_url url (filter p links ++ filter (λ l. not (p l)) links) ≡ count_url url links
unfolding filter sum_by
count_url-split p url [] = refl
count_url-split p url (l ∷ links) =
    let rest = count_url-split p url links in
    let apart = count_url-append url (filter p links) (filter (λ k. not (p k)) links) in
    let moved = count_url-append url (filter p links) (l ∷ filter (λ k. not (p k)) links) in
    elim (Bool-cases (p l)) [
      | inl pdf ↦ rw (pdf, rest) refl
      | inr other ↦ rw (other, moved) (ground arith)
    ]

-- From a link that is no PDF on, none is.
abbrev pub PdfsFirst : Env → List Link → Type 0
PdfsFirst env [] = Unit
PdfsFirst env (l ∷ links) =
    (is_pdf env l ≡ false → All (λ k. is_pdf env k ≡ false) links) × PdfsFirst env links

PdfsFirst-none :
    (env : Env) (links : List Link) → All (λ k. is_pdf env k ≡ false) links → PdfsFirst env links
PdfsFirst-none env [] h = tt
PdfsFirst-none env (l ∷ links) h = (λ e. h.1, PdfsFirst-none env links h.1)

PdfsFirst-append :
    (env : Env) (xs ys : List Link)
    → All (λ k. is_pdf env k ≡ true) xs
    → All (λ k. is_pdf env k ≡ false) ys
    → PdfsFirst env (xs ++ ys)
PdfsFirst-append env [] ys h h' = PdfsFirst-none env ys h'
PdfsFirst-append env (x ∷ xs) ys h h' =
    (λ e. absurd (true≢false (sym h.0 ∙ e)), PdfsFirst-append env xs ys h.1 h')

All-filter-not :
    (p : Link → Bool) (links : List Link) → All (λ l. p l ≡ false) (filter (λ l. not (p l)) links)
unfolding filter
All-filter-not p [] = tt
All-filter-not p (l ∷ links) = elim (Bool-cases (p l)) [
  | inl h ↦ rw h (All-filter-not p links)
  | inr h ↦ rw h (h, All-filter-not p links)
]

All-filter_sub :
    (P : Link → Type 0) (p : Link → Bool) (links : List Link) → All P links → All P (filter p links)
unfolding filter
All-filter_sub P p [] h = tt
All-filter_sub P p (l ∷ links) h = elim (Bool-cases (p l)) [
  | inl e ↦ rw e (h.0, All-filter_sub P p links h.1)
  | inr e ↦ rw e (All-filter_sub P p links h.1)
]

if-some :
    {A : Type 0} (b : Bool) (x y : A) → (if b then some x else none) ≡ some y → (b ≡ true) × (x ≡ y)
if-some true x y e = (refl, some_inj.0 e)
if-some false x y e = absurd (none-ne-some y e)

and_last : (a b c : Bool) → a && b && c ≡ true → c ≡ true
and_last a b c e = ground arith

-- The url of a followed link is a document's.
followed-document :
    (env : Env) (base href text : Text) (l : Link)
    → followed env base href text ≡ some l
    → is_document_url env l.url ≡ true
unfolding followed
followed-document env base href text l e =
    let absolute = env.urljoin base (env.unescape (strip href)) in
    let (b, same) = if-some _ _ _ e in
    rw (sym same) (
      and_last (nonempty href)
        (starts_with absolute (codes "http://") || starts_with absolute (codes "https://"))
        (is_document_url env absolute) b)

at_most_one : (b : Bool) → (if b then 1 else 0) ≤ 1
at_most_one true = ground arith
at_most_one false = ground arith

new_link :
    (url url' : Text) (n : ℕ) (seen : List Text)
    → any (text_eq url') seen ≡ false
    → n + (if any (text_eq url) (url' ∷ seen) then 1 else 0) ≤ 1
    → (if text_eq url' url then 1 else 0) + n + (if any (text_eq url) seen then 1 else 0) ≤ 1
unfolding any
new_link url url' n seen fresh rest = elim (Bool-cases (text_eq url' url)) [
  | inl same ↦
      (let e = (text_eq_iff url' url).0 same in
        let fresh' : any (text_eq url) seen ≡ false = rw (sym e) fresh in
        let here : text_eq url url' ≡ true = (text_eq_iff url url').1 (sym e) in ground arith)
  | inr differs ↦
      (let apart : text_eq url url' ≡ false = text_eq_comm url url' ∙ differs in ground arith)
]

-- At most one link of `gather` leads to a url, none to one seen before.
gather-once :
    (env : Env) (base url : Text) (seen : List Text) (anchors : List (Text × Text))
    → count_url url (gather env base seen anchors) + (if any (text_eq url) seen then 1 else 0) ≤ 1
unfolding gather sum_by any
gather-once env base url seen [] = let one = at_most_one (any (text_eq url) seen) in ground arith
gather-once env base url seen ((href, text) ∷ anchors) =
    elim (Option-cases (followed env base href text)) [
      | inl passed ↦ rw passed (gather-once env base url seen anchors)
      | inr (link, e) ↦ rw e (elim (Bool-cases (any (text_eq link.url) seen)) [
        | inl old ↦ rw old (gather-once env base url seen anchors)
        | inr fresh ↦ rw fresh (
            new_link url link.url (count_url url (gather env base (link.url ∷ seen) anchors)) seen
              fresh (gather-once env base url (link.url ∷ seen) anchors))
      ])
    ]

gather-documents :
    (env : Env) (base : Text) (seen : List Text) (anchors : List (Text × Text))
    → All (λ l. is_document_url env l.url ≡ true) (gather env base seen anchors)
unfolding gather
gather-documents env base seen [] = tt
gather-documents env base seen ((href, text) ∷ anchors) =
    elim (Option-cases (followed env base href text)) [
      | inl passed ↦ rw passed (gather-documents env base seen anchors)
      | inr (link, e) ↦ rw e (elim (Bool-cases (any (text_eq link.url) seen)) [
        | inl old ↦ rw old (gather-documents env base seen anchors)
        | inr fresh ↦ rw fresh (
          followed-document env base href text link e,
          gather-documents env base (link.url ∷ seen) anchors,
        )
      ])
    ]

-- What the links of a page are: to documents, at most one to each url, and the PDFs first.
pub record IsDocumentLinks (env : Env) (links : List Link) : Type 0 where
  pub documents : All (λ l. is_document_url env l.url ≡ true) links
  pub once : (url : Text) → count_url url links ≤ 1
  pub pdfs : PdfsFirst env links

pdfs_first-once :
    (env : Env) (base url : Text) (anchors : List (Text × Text))
    → count_url url (pdfs_first env (gather env base [] anchors)) ≤ 1
unfolding pdfs_first any
pdfs_first-once env base url anchors =
    let whole = count_url-split (is_pdf env) url (gather env base [] anchors) in
    let once = gather-once env base url [] anchors in rw whole (ground arith)

gathered-IsDocumentLinks :
    (env : Env) (base : Text) (anchors : List (Text × Text))
    → IsDocumentLinks env (pdfs_first env (gather env base [] anchors))
unfolding pdfs_first
gathered-IsDocumentLinks env base anchors =
    let links = gather env base [] anchors in
    let documents = gather-documents env base [] anchors in
    record {
      documents =
          All-append _ (filter (is_pdf env) links) (filter (λ l. not (is_pdf env l)) links)
            (All-filter_sub _ (is_pdf env) links documents)
            (All-filter_sub _ (λ l. not (is_pdf env l)) links documents);
      once = λ url. pdfs_first-once env base url anchors;
      pdfs =
          PdfsFirst-append env (filter (is_pdf env) links) (filter (λ l. not (is_pdf env l)) links)
            (All-filter (is_pdf env) links) (All-filter-not (is_pdf env) links);
    }

-- Whatever a page holds, the links taken from it are those of documents, with no url twice, and every
-- PDF stands before every other document.
pub extract_document_links-IsDocumentLinks :
    (env : Env) (page base : Text) → IsDocumentLinks env (extract_document_links env page base)
unfolding extract_document_links
extract_document_links-IsDocumentLinks env page base =
    gathered-IsDocumentLinks env base
      (collect (env.html_events page)
        (record { anchors = []; current_href = none; current_text = [] })).anchors
