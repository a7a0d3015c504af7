-- ===== src/Records/Fees/Largest.antt =====
-- The amount that a mail asks for: its bound, and that it is the largest one.
use dialogue_microservices.Prelude.{
  ℕ, zero, suc, ◌+◌, ◌*◌, ◌-◌, ◌≤◌, ◌<◌, ◌≡◌, inl, inr, List, [], ◌∷◌, Option, none, some, Bool,
  true, arith, Text, All, filter, length, is_digit, ltb, ◌==◌, Bool-cases, Option-cases, if_either,
  maybe_either,
}
use dialogue_microservices.Records.Fees.Amounts.{
  AmountMatch, is_amount_char, span, skip_spaces, cents_at, with_cents, digits_at, amount_at,
  find_amounts, int_from, pad_cents, without_commas, cents_of, better, largest_from,
  parse_largest_amount_cents,
}

abbrev Digits : Text → Type 0
Digits = All (λ c. is_digit c ≡ true)

abbrev pow10 : ℕ → ℕ
pow10 zero = 1
pow10 (suc k) = 10 * pow10 k

int_from-lt : (n b : ℕ) (s : Text) → Digits s → n < b → int_from n s < b * pow10 (length s)
unfolding int_from is_digit
int_from-lt n b [] h lt = omega arith
int_from-lt n b (c ∷ s) h lt =
    omega (arith, int_from-lt (n * 10 + (c - b'0')) (b * 10) s h.1 (ground (arith, h.0)))

span-All : (p : ℕ → Bool) (n : ℕ) (s : Text) → All (λ c. p c ≡ true) (span p n s).0
unfolding span
span-All p zero s = tt
span-All p (suc n) [] = tt
span-All p (suc n) (c ∷ s) = ground (arith, span-All p n s)

length-span : (p : ℕ → Bool) (n : ℕ) (s : Text) → length (span p n s).0 ≤ n
unfolding span
length-span p zero s = omega arith
length-span p (suc n) [] = omega arith
length-span p (suc n) (c ∷ s) = ground (arith, length-span p n s)

-- What the two groups of a match can hold.
record IsWellFormed (m : AmountMatch) : Type 0 where
  dollars : All (λ c. is_amount_char c ≡ true) m.dollars
  cents : Digits m.cents
  few : length m.cents ≤ 2

IsCents : Text × Text → Type 0
IsCents (digits, rest) = Digits digits × (length digits ≤ 2)

cents_at-IsCents : (s : Text) → IsCents (cents_at s)
unfolding cents_at IsCents
cents_at-IsCents [] = (tt, omega arith)
cents_at-IsCents (c ∷ s) =
    let none_of : IsCents ([], c ∷ s) = (tt, omega arith) in
    let found : IsCents (span is_digit 2 s) = (span-All is_digit 2 s, length-span is_digit 2 s) in
    if_either IsCents (c == b'.') _ _
      (if_either IsCents (ltb 0 (length (span is_digit 2 s).0)) _ _ found none_of) none_of

with_cents-IsWellFormed :
    (c : ℕ) (front rest : Text)
    → is_digit c ≡ true
    → All (λ d. is_amount_char d ≡ true) front
    → IsWellFormed (with_cents c (front, rest))
unfolding IsCents is_amount_char
with_cents-IsWellFormed c front rest h k = record {
  dollars = (rw h, k);
  cents = (cents_at-IsCents rest).0;
  few = (cents_at-IsCents rest).1;
}

IsFound : Option AmountMatch → Type 0
IsFound none = Unit
IsFound (some m) = IsWellFormed m

digits_at-IsFound : (s : Text) → IsFound (digits_at s)
unfolding digits_at IsFound
digits_at-IsFound [] = tt
digits_at-IsFound (c ∷ s) = elim (Bool-cases (is_digit c)) [
  | inl digit ↦
      rw digit (
        with_cents-IsWellFormed c _ (span is_amount_char 7 s).1 digit (span-All is_amount_char 7 s))
  | inr other ↦ rw other tt
]

find_amounts-IsWellFormed : (skip : ℕ) (s : Text) → All IsWellFormed (find_amounts skip s)
unfolding find_amounts amount_at IsFound
find_amounts-IsWellFormed skip [] = tt
find_amounts-IsWellFormed (suc skip) (c ∷ s) = find_amounts-IsWellFormed skip s
find_amounts-IsWellFormed zero (c ∷ s) =
    if_either (All IsWellFormed) (c == b'$') _ _
      (maybe_either (All IsWellFormed) (digits_at (skip_spaces s)) _ _
        (find_amounts-IsWellFormed zero s)
        (λ m e. (
          rw e at (digits_at-IsFound (skip_spaces s)),
          find_amounts-IsWellFormed (length s - length m.behind) s,
        )))
      (find_amounts-IsWellFormed zero s)

without_commas-Digits :
    (s : Text) → All (λ c. is_amount_char c ≡ true) s → Digits (without_commas s)
unfolding filter is_amount_char
without_commas-Digits [] h = tt
without_commas-Digits (c ∷ s) h = ground (arith, without_commas-Digits s h.1)

pow10-le : (k : ℕ) → k ≤ 6 → pow10 k ≤ 1000000
pow10-le zero h = omega arith
pow10-le (suc zero) h = omega arith
pow10-le (suc (suc zero)) h = omega arith
pow10-le (suc (suc (suc zero))) h = omega arith
pow10-le (suc (suc (suc (suc zero)))) h = omega arith
pow10-le (suc (suc (suc (suc (suc zero))))) h = omega arith
pow10-le (suc (suc (suc (suc (suc (suc zero)))))) h = omega arith
pow10-le (suc (suc (suc (suc (suc (suc (suc k))))))) h = absurd (omega arith)

pad_cents-lt : (s : Text) → Digits s → length s ≤ 2 → int_from 0 (pad_cents s) < 100
unfolding pad_cents int_from is_digit
pad_cents-lt [] h k = omega arith
pad_cents-lt (a ∷ []) h k = ground arith
pad_cents-lt (a ∷ b ∷ []) h k = ground arith
pad_cents-lt (a ∷ b ∷ c ∷ s) h k = absurd (omega arith)

cents_of-le : (m : AmountMatch) (n : ℕ) → IsWellFormed m → cents_of m ≡ some n → n ≤ 99999999
unfolding cents_of
cents_of-le m n h e =
    let digits = without_commas m.dollars in
    let numeric = without_commas-Digits m.dollars h.dollars in
    ground (
      arith,
      int_from-lt 0 1 digits numeric (omega arith),
      pow10-le (length digits),
      pad_cents-lt m.cents h.cents h.few,
    )

-- The best amount so far is at most `n`, if there is one.
abbrev AtMost : ℕ → Option ℕ → Type 0
AtMost n none = Unit
AtMost n (some a) = a ≤ n

better-AtMost : (n : ℕ) (a b : Option ℕ) → AtMost n a → AtMost n b → AtMost n (better a b)
unfolding better
better-AtMost n none none h k = tt
better-AtMost n none (some b) h k = k
better-AtMost n (some a) none h k = h
better-AtMost n (some a) (some b) h k = ground arith

cents_of-AtMost : (m : AmountMatch) → IsWellFormed m → AtMost 99999999 (cents_of m)
cents_of-AtMost m h = elim (Option-cases (cents_of m)) [
  | inl nothing ↦ rw nothing tt
  | inr (n, e) ↦ rw e (cents_of-le m n h e)
]

largest_from-AtMost :
    (best : Option ℕ) (ms : List AmountMatch)
    → AtMost 99999999 best
    → All IsWellFormed ms
    → AtMost 99999999 (largest_from best ms)
unfolding largest_from
largest_from-AtMost best [] h k = h
largest_from-AtMost best (m ∷ ms) h k =
    largest_from-AtMost (better best (cents_of m)) ms
      (better-AtMost 99999999 best (cents_of m) h (cents_of-AtMost m k.0)) k.1

-- No mail is read as asking for more than $999,999.99.
pub parse_largest_amount_cents-le :
    (text : Text) (n : ℕ) → parse_largest_amount_cents text ≡ some n → n ≤ 99999999
unfolding parse_largest_amount_cents
parse_largest_amount_cents-le text n e =
    rw e at
      (largest_from-AtMost none (find_amounts zero text) tt (find_amounts-IsWellFormed zero text))
