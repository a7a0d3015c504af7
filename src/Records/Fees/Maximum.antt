-- ===== src/Records/Fees/Maximum.antt =====
-- The amount that is read from a mail is the largest of those found.
use dialogue_microservices.Prelude.{
  ℕ, zero, ◌≤◌, ◌≡◌, refl, ◌⊎◌, inl, inr, List, [], ◌∷◌, Option, none, some, arith, Text, All, ltb,
  if◌then◌else◌, Option-cases,
}
use dialogue_microservices.Records.Fees.Amounts.{
  AmountMatch, find_amounts, cents_of, better, largest_from, parse_largest_amount_cents,
}

-- Every amount in the list is at most `n`.
abbrev pub IsUpperBound : ℕ → List AmountMatch → Type 0
IsUpperBound n = All (λ m. (a : ℕ) → cents_of m ≡ some a → a ≤ n)

-- Some amount in the list is `n`.
abbrev pub IsAttained : ℕ → List AmountMatch → Type 0
IsAttained n [] = ⊥
IsAttained n (m ∷ ms) = (cents_of m ≡ some n) ⊎ IsAttained n ms

largest_from-ge :
    (a : ℕ) (ms : List AmountMatch) → (b : ℕ) × (largest_from (some a) ms ≡ some b) × (a ≤ b)
unfolding largest_from better
largest_from-ge a [] = (a, refl, omega arith)
largest_from-ge a (m ∷ ms) = elim (Option-cases (cents_of m)) [
  | inl nothing ↦ rw nothing (largest_from-ge a ms)
  | inr (n, e) ↦ rw e (
      let (b, found, le) = largest_from-ge (if ltb a n then n else a) ms in
      (b, found, ground arith))
]

-- The best amount after one more match.
better-ge :
    (best : Option ℕ) (a n : ℕ) (ms : List AmountMatch)
    → largest_from (better best (some a)) ms ≡ some n
    → a ≤ n
unfolding better
better-ge none a n ms e = ground (arith, largest_from-ge a ms)
better-ge (some b) a n ms e = ground (arith, largest_from-ge (if ltb b a then a else b) ms)

largest_from-IsUpperBound :
    (best : Option ℕ) (ms : List AmountMatch) (n : ℕ)
    → largest_from best ms ≡ some n
    → IsUpperBound n ms
unfolding largest_from
largest_from-IsUpperBound best [] n e = tt
largest_from-IsUpperBound best (m ∷ ms) n e = (
  λ a h. better-ge best a n ms (rw h at e),
  largest_from-IsUpperBound (better best (cents_of m)) ms n e,
)

better-attained :
    (best : Option ℕ) (o : Option ℕ) (n : ℕ)
    → better best o ≡ some n
    → (best ≡ some n) ⊎ (o ≡ some n)
unfolding better
better-attained none none n e = inl e
better-attained none (some a) n e = inr e
better-attained (some b) none n e = inl e
better-attained (some b) (some a) n e = ground arith

largest_from-IsAttained :
    (best : Option ℕ) (ms : List AmountMatch) (n : ℕ)
    → largest_from best ms ≡ some n
    → (best ≡ some n) ⊎ IsAttained n ms
unfolding largest_from
largest_from-IsAttained best [] n e = inl e
largest_from-IsAttained best (m ∷ ms) n e =
    elim (largest_from-IsAttained (better best (cents_of m)) ms n e) [
      | inl now ↦ elim (better-attained best (cents_of m) n now) [
        | inl b ↦ inl b
        | inr h ↦ inr (inl h)
      ]
      | inr later ↦ inr (inr later)
    ]

-- The amount read from a mail is that of one of its matches, and no match of at most six digits has
-- a larger one.
pub parse_largest_amount_cents-largest :
    (text : Text) (n : ℕ)
    → parse_largest_amount_cents text ≡ some n
    → IsUpperBound n (find_amounts zero text) × IsAttained n (find_amounts zero text)
unfolding parse_largest_amount_cents
parse_largest_amount_cents-largest text n e = (
  largest_from-IsUpperBound none (find_amounts zero text) n e,
  elim (largest_from-IsAttained none (find_amounts zero text) n e) [
    | inl h ↦ cc
    | inr found ↦ found
  ],
)
