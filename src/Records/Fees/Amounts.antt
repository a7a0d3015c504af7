-- ===== src/Records/Fees/Amounts.antt =====
-- `_AMOUNT_RE` and `parse_largest_amount_cents` of fees.py. The expression needs no backtracking:
-- each of its parts takes all that it can, and only the first digit can be missing.
use dialogue_microservices.Prelude.{
  ℕ, zero, suc, ◌+◌, ◌*◌, ◌-◌, ◌%◌, ◌/◌, List, [], ◌∷◌, ◌≡◌, refl, Option, none, some, Bool, not,
  ◌||◌, Text, codes, fstring, to_decimal, filter, length, is_digit, is_space, ltb, ◌==◌, maybe,
  if◌then◌else◌,
}

-- `[0-9,]`
unfoldable pub is_amount_char : ℕ → Bool
is_amount_char c = is_digit c || c == b','

-- At most `n` characters of a class from the front, and what follows them.
unfoldable pub span : (ℕ → Bool) → ℕ → Text → Text × Text
span p zero s = ([], s)
span p (suc n) [] = ([], [])
span p (suc n) (c ∷ s) =
    let (front, rest) = span p n s in if p c then (c ∷ front, rest) else ([], c ∷ s)

-- `\s*`
unfoldable pub skip_spaces : Text → Text
skip_spaces [] = []
skip_spaces (c ∷ s) = let rest = skip_spaces s in if is_space c then rest else c ∷ s

-- `(?:\.([0-9]{1,2}))?`: the digits, none if the group takes no part
unfoldable pub cents_at : Text → Text × Text
unfolding span
cents_at [] = ([], [])
cents_at (c ∷ s) =
    let (digits, rest) = span is_digit 2 s in
    if c == b'.'
    then (if ltb 0 (length digits) then (digits, rest) else ([], c ∷ s))
    else ([], c ∷ s)

-- What `match` holds: its two groups, and the text behind it.
pub record AmountMatch : Type 0 where
  pub dollars : Text
  pub cents : Text
  pub behind : Text

abbrev pub with_cents : ℕ → Text × Text → AmountMatch
with_cents c (front, rest) =
    let (digits, behind) = cents_at rest in
    record { dollars = c ∷ front; cents = digits; behind = behind }

-- `([0-9][0-9,]{0,7})(?:\.([0-9]{1,2}))?` at the front of a text
unfoldable pub digits_at : Text → Option AmountMatch
unfolding is_amount_char span cents_at
digits_at [] = none
digits_at (c ∷ s) = if is_digit c then some (with_cents c (span is_amount_char 7 s)) else none

-- The expression behind a "$".
unfoldable pub amount_at : Text → Option AmountMatch
unfolding digits_at skip_spaces
amount_at s = digits_at (skip_spaces s)

-- `_AMOUNT_RE.finditer(text)`: `skip` characters belong to the match before.
unfoldable pub find_amounts : ℕ → Text → List AmountMatch
unfolding amount_at
find_amounts skip [] = []
find_amounts (suc skip) (c ∷ s) = find_amounts skip s
find_amounts zero (c ∷ s) =
    let onward = find_amounts zero s in
    if c == b'$'
    then maybe (amount_at s) onward (λ m. m ∷ find_amounts (length s - length m.behind) s)
    else onward

-- `int(digits)`
unfoldable pub int_from : ℕ → Text → ℕ
int_from n [] = n
int_from n (c ∷ s) = int_from (n * 10 + (c - b'0')) s

-- `(match.group(2) or "").ljust(2, "0")`
unfoldable pub pad_cents : Text → Text
pad_cents [] = codes "00"
pad_cents (a ∷ []) = a ∷ codes "0"
pad_cents (a ∷ b ∷ s) = a ∷ b ∷ s

abbrev pub without_commas : Text → Text
without_commas s = filter (λ c. not (c == b',')) s

-- The amount of one match, unless it has more than six digits.
unfoldable pub cents_of : AmountMatch → Option ℕ
unfolding int_from pad_cents
cents_of m =
    if ltb 6 (length (without_commas m.dollars))
    then none
    else some (int_from 0 (without_commas m.dollars) * 100 + int_from 0 (pad_cents m.cents))

-- `if best is None or amount > best: best = amount`
unfoldable pub better : Option ℕ → Option ℕ → Option ℕ
better best none = best
better none (some amount) = some amount
better (some best) (some amount) = some (if ltb best amount then amount else best)

unfoldable pub largest_from : Option ℕ → List AmountMatch → Option ℕ
unfolding better cents_of
largest_from best [] = best
largest_from best (m ∷ ms) = largest_from (better best (cents_of m)) ms

unfoldable pub parse_largest_amount_cents : Text → Option ℕ
unfolding largest_from find_amounts
parse_largest_amount_cents text = largest_from none (find_amounts zero text)

-- `f"${amount / 100:.2f}"`
unfoldable pub format_dollars : ℕ → Text
format_dollars amount = fstring (
    codes "$"
    ∷ to_decimal (amount / 100)
    ∷ codes "."
    ∷ to_decimal (amount % 100 / 10)
    ∷ to_decimal (amount % 10)
    ∷ [])

largest_sample :
    parse_largest_amount_cents (codes "a $5.5, then $ 1,250.75! or $12345678 and $.5 $$7")
    ≡ some 125075
unfolding parse_largest_amount_cents is_digit is_space filter
largest_sample = refl

format_sample : format_dollars 125005 ≡ codes "$1250.05"
unfolding format_dollars fstring to_decimal
format_sample = refl
