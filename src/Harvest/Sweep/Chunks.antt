-- ===== src/Harvest/Sweep/Chunks.antt =====
-- sweep.py, `_triage_chunks`: what the chunks of a batch are.
use dialogue_microservices.Prelude.{
  ℕ, ◌+◌, ◌≤◌, ◌≡◌, refl, ap, ◌∙◌, arith, ◌⊎◌, inl, inr, List, [], ◌∷◌, ◌++◌, true, false, ◌&&◌,
  All, Bool-cases, length, ltb, sum_by, sum_by-append,
}
use mathlib.Core.List.{append_assoc}
use dialogue_microservices.Harvest.Sweep.Items.{Item, chunks, some_items}

unfoldable pub flatten {ℓ} : {A : Type ℓ} → List (List A) → List A
flatten [] = []
flatten (xs ∷ xss) = xs ++ flatten xss

abbrev pub results_of : List Item → ℕ
results_of = sum_by (λ (i : Item). length i.results)

-- A chunk within the cap, or of one item.
abbrev pub Fits : ℕ → List Item → Type 0
Fits cap c = (results_of c ≤ cap) ⊎ (length c ≡ 1)

-- The items, in their order, cut into chunks that are not empty and fit.
pub record IsSplit (cap : ℕ) (items : List Item) (parts : List (List Item)) : Type 0 where
  pub whole : flatten parts ≡ items
  pub nonempty_parts : All (λ c. some_items c ≡ true) parts
  pub fitting : All (Fits cap) parts

flatten-chunks :
    (cap : ℕ) (current : List Item) (count : ℕ) (items : List Item)
    → flatten (chunks cap current count items) ≡ current ++ items
unfolding flatten chunks
flatten-chunks cap [] count [] = refl
flatten-chunks cap (c ∷ current) count [] = refl
flatten-chunks cap current count (i ∷ items) =
    elim (Bool-cases (some_items current && ltb cap (count + length i.results))) [
      | inl full ↦
          rw full (ap (λ xs. current ++ xs) (flatten-chunks cap (i ∷ []) (length i.results) items))
      | inr room ↦ rw room (
          flatten-chunks cap (current ++ i ∷ []) (count + length i.results) items
          ∙ append_assoc current (i ∷ []) items)
    ]

some_items-append : (xs : List Item) (i : Item) → some_items (xs ++ i ∷ []) ≡ true
some_items-append [] i = refl
some_items-append (x ∷ xs) i = refl

chunks-nonempty_parts :
    (cap : ℕ) (current : List Item) (count : ℕ) (items : List Item)
    → All (λ c. some_items c ≡ true) (chunks cap current count items)
unfolding chunks
chunks-nonempty_parts cap [] count [] = tt
chunks-nonempty_parts cap (c ∷ current) count [] = (refl, tt)
chunks-nonempty_parts cap [] count (i ∷ items) =
    chunks-nonempty_parts cap (i ∷ []) (count + length i.results) items
chunks-nonempty_parts cap (c ∷ current) count (i ∷ items) =
    elim (Bool-cases (ltb cap (count + length i.results))) [
      | inl full ↦ rw full (refl, chunks-nonempty_parts cap (i ∷ []) (length i.results) items)
      | inr room ↦
          rw room
            (chunks-nonempty_parts cap ((c ∷ current) ++ i ∷ []) (count + length i.results) items)
    ]

results_of-append :
    (xs : List Item) (i : Item) → results_of (xs ++ i ∷ []) ≡ results_of xs + length i.results
unfolding sum_by
results_of-append xs i =
    let e = sum_by-append (λ (j : Item). length j.results) xs (i ∷ []) in ground arith

within :
    (cap : ℕ) (current : List Item) (i : Item) (count : ℕ)
    → results_of current ≡ count
    → results_of (current ++ i ∷ []) ≡ results_of current + length i.results
    → ltb cap (count + length i.results) ≡ false
    → results_of (current ++ i ∷ []) ≤ cap
within cap current i count e grown room = rw (grown, e) (ground arith)

chunks-fitting :
    (cap : ℕ) (current : List Item) (count : ℕ) (items : List Item)
    → results_of current ≡ count
    → Fits cap current
    → All (Fits cap) (chunks cap current count items)
unfolding chunks sum_by
chunks-fitting cap [] count [] e fits = tt
chunks-fitting cap (c ∷ current) count [] e fits = (fits, tt)
chunks-fitting cap [] count (i ∷ items) e fits =
    chunks-fitting cap (i ∷ []) (count + length i.results) items (ground arith) (inr refl)
chunks-fitting cap (c ∷ current) count (i ∷ items) e fits =
    elim (Bool-cases (ltb cap (count + length i.results))) [
      | inl full ↦
          rw full
            (fits, chunks-fitting cap (i ∷ []) (length i.results) items (ground arith) (inr refl))
      | inr room ↦
          (let grown = results_of-append (c ∷ current) i in
            rw room (
              chunks-fitting cap ((c ∷ current) ++ i ∷ []) (count + length i.results) items
                (grown ∙ ap (λ n. n + length i.results) e)
                (inl (within cap (c ∷ current) i count e grown room))))
    ]

-- The chunks of a batch hold its items, each once and in their order; none is empty, and one with
-- more results than the cap has a single item.
pub chunks-IsSplit : (cap : ℕ) (items : List Item) → IsSplit cap items (chunks cap [] 0 items)
unfolding sum_by
chunks-IsSplit cap items = record {
  whole = flatten-chunks cap [] 0 items;
  nonempty_parts = chunks-nonempty_parts cap [] 0 items;
  fitting = chunks-fitting cap [] 0 items refl (inl (ground arith));
}
