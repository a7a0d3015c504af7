-- ===== src/Harvest/Sniff/Stored.antt =====
-- sniff.py: what a document may be stored as.
use dialogue_microservices.Prelude.{
  ℕ, ◌≡◌, refl, sym, ap, ◌∙◌, inl, inr, List, [], ◌∷◌, Option, none, some, Bool, true, false, ◌&&◌,
  ◌||◌, not, or_false, Text, codes, any, before, lower, maybe, starts_with, strip, text_eq,
  text_eq_iff, is_some, Bool-cases, if◌then◌else◌, arith,
}
use mathlib.Core.Bool.{true≢false}
use dialogue_microservices.Prelude.TextDict
use dialogue_microservices.Prelude.TextDict.{TextDict}
use dialogue_microservices.Harvest.World.{Env}
use dialogue_microservices.Harvest.Links.{url_extension, stored_extensions}
use dialogue_microservices.Harvest.Sniff.{
  content_type_map, ext_content_types, ole_magic, one_of, by_name, sniff_text, sniff,
}

-- One of the extensions of stored documents, with a content type of its own.
unfoldable pub is_stored : Text → Bool
is_stored ext = one_of stored_extensions ext && is_some (TextDict.get ext_content_types ext)

-- What `sniff` may answer: nothing, or such an extension.
pub record Stored (o : Option Text) : Type 0 where
  pub holds : maybe o true is_stored ≡ true

not-false : (b : Bool) → not b ≡ false → b ≡ true
not-false true e = refl
not-false false e = sym e

Stored-get :
    (d : TextDict Text) (k : Text)
    → any (λ e. not (is_stored e.1)) d ≡ false
    → (other : Option Text) → Stored other
    → Stored (maybe (TextDict.get d k) other some)
unfolding TextDict.get any
Stored-get [] k h other ok_other = ok_other
Stored-get ((j, v) ∷ d) k h other ok_other = elim (Bool-cases (text_eq j k)) [
  | inl same ↦ rw same (record { holds = not-false (is_stored v) (or_false _ _ h).0 })
  | inr differs ↦ rw differs (Stored-get d k (or_false _ _ h).1 other ok_other)
]

Stored-if :
    (b : Bool) (o o' : Option Text)
    → (b ≡ true → maybe o true is_stored ≡ true)
    → Stored o'
    → Stored (if b then o else o')
Stored-if true o o' h h' = record { holds = h refl }
Stored-if false o o' h h' = h'

-- What holds of each text of a list holds of one that is found in it.
one_of-all :
    (f : Text → Bool) (ext : Text) (exts : List Text)
    → any (λ x. not (f x)) exts ≡ false
    → one_of exts ext ≡ true
    → f ext ≡ true
unfolding any
one_of-all f ext [] h found = absurd (true≢false (sym found))
one_of-all f ext (x ∷ exts) h found = elim (Bool-cases (text_eq ext x)) [
  | inl same ↦ rw ((text_eq_iff ext x).0 same) (not-false (f x) (or_false _ _ h).0)
  | inr differs ↦
      (let rest : one_of exts ext ≡ true = ap (λ b. b || one_of exts ext) (sym differs) ∙ found in
        one_of-all f ext exts (or_false _ _ h).1 rest)
]

by_name-Stored : (ct ext : Text) → Stored (by_name ct ext)
unfolding by_name is_stored any TextDict.get text_eq
by_name-Stored ct ext = Stored-get content_type_map ct refl _ (
    Stored-if (one_of stored_extensions ext) (some ext) none
      (one_of-all is_stored ext stored_extensions refl) (record { holds = refl }))

sniff_text-Stored : (content : List ℕ) (ct ext : Text) → Stored (sniff_text content ct ext)
unfolding sniff_text is_stored any TextDict.get text_eq
sniff_text-Stored content ct ext = record { holds = ground (arith, (by_name-Stored ct ext).holds) }

named :
    (b : Bool) (exts : List Text) (ext : Text)
    → any (λ x. not (is_stored x)) exts ≡ false
    → b && one_of exts ext ≡ true
    → is_stored ext ≡ true
named true exts ext h found = one_of-all is_stored ext exts h found
named false exts ext h found = absurd (true≢false (sym found))

-- Whatever was fetched, with whatever content type and from whatever url, `sniff` answers nothing or
-- one of the nine stored extensions, and that extension has a content type in EXT_CONTENT_TYPES.
pub sniff-Stored :
    (env : Env) (content : List ℕ) (content_type : Option Text) (url : Text)
    → Stored (sniff env content content_type url)
unfolding sniff is_stored any TextDict.get text_eq
sniff-Stored env content content_type url =
    Stored-if (starts_with content (codes "%PDF-")) (some (codes ".pdf")) _ (λ e. refl)
      (Stored-if
        (starts_with content (codes "PK")
          && one_of (codes ".docx" ∷ codes ".odt" ∷ codes ".xlsx" ∷ []) (url_extension env url))
        (some (url_extension env url)) _
        (named (starts_with content (codes "PK"))
          (codes ".docx" ∷ codes ".odt" ∷ codes ".xlsx" ∷ []) (url_extension env url) refl)
        (Stored-if
          (starts_with content ole_magic
            && one_of (codes ".doc" ∷ codes ".xls" ∷ []) (url_extension env url))
          (some (url_extension env url)) _
          (named (starts_with content ole_magic) (codes ".doc" ∷ codes ".xls" ∷ [])
            (url_extension env url) refl)
          (Stored-if (starts_with content (codes "{\\rtf")) (some (codes ".rtf")) _ (λ e. refl)
            (sniff_text-Stored content
              (strip (before b';' (lower (maybe content_type [] (λ t. t)))))
              (url_extension env url)))))
