-- ===== src/Harvest/Orchestrator/Generate/Clamped.antt =====
-- generate.py: what the clamp leaves of a model's answer.
use dialogue_microservices.Prelude.{
  ℕ, zero, suc, ◌≡◌, ◌≤◌, ◌*◌, refl, sym, inl, inr, List, [], ◌∷◌, ◌++◌, true, All, All-append,
  Text, any, any-append, filter, length, sum_by, sum_by-append, length-take-le, map, maybe,
  nonempty, strip, take, text_eq, text_eq_refl, Bool-cases, arith, if◌then◌else◌,
}
use dialogue_microservices.Prelude.TextDict
use dialogue_microservices.Prelude.TextDict.{TextDict}
use dialogue_microservices.Prelude.Action.{Error, Result, ok, err, ok_inj, err_ne_ok}
use dialogue_microservices.Harvest.Orchestrator.Generate.{
  clamp, clip, usable, some_queries, append_pairs, query_max_chars,
}

abbrev of_topic : Text → List Text → List (Text × Text)
of_topic topic = map (λ q. (topic, q))

-- A pair of a topic with a query of one to 200 characters.
pub record IsQuery (topics : List Text) (p : Text × Text) : Type 0 where
  pub topical : any (text_eq p.0) topics ≡ true
  pub filled : nonempty p.1 ≡ true
  pub short : length p.1 ≤ query_max_chars

-- How many of the pairs are of a topic, and how often it is listed.
abbrev pub pairs_of : Text → List (Text × Text) → ℕ
pairs_of t = sum_by (λ (p : Text × Text). if text_eq p.0 t then 1 else 0)

abbrev pub times_listed : Text → List Text → ℕ
times_listed t = sum_by (λ u. if text_eq u t then 1 else 0)

pub record IsClamped (limit : ℕ) (topics : List Text) (pairs : List (Text × Text)) : Type 0 where
  pub queries : All (IsQuery topics) pairs
  pub few : (t : Text) → pairs_of t pairs ≤ limit * times_listed t topics
  pub covered : 1 ≤ limit → All (λ t. any (λ (p : Text × Text). text_eq p.0 t) pairs ≡ true) topics

-- A usable query.
pub record IsUsable (q : Text) : Type 0 where
  pub filled : nonempty q ≡ true
  pub short : length q ≤ query_max_chars

usable-IsUsable : (raw : List Text) → All IsUsable (usable raw)
unfolding usable filter
usable-IsUsable [] = tt
usable-IsUsable (q ∷ raw) = elim (Bool-cases (nonempty (clip q))) [
  | inl filled ↦ rw filled (
    record { filled = filled; short = length-take-le query_max_chars (strip q) },
    usable-IsUsable raw,
  )
  | inr empty ↦ rw empty (usable-IsUsable raw)
]

module _ (topic : Text) (topics : List Text) where
  paired-IsQuery :
      (n : ℕ) (qs : List Text)
      → All IsUsable qs
      → All (IsQuery (topic ∷ topics)) (of_topic topic (take n qs))
  unfolding any
  paired-IsQuery zero qs h = tt
  paired-IsQuery (suc n) [] h = tt
  paired-IsQuery (suc n) (q ∷ qs) h = (
    record { topical = rw (text_eq_refl topic) refl; filled = h.0.filled; short = h.0.short },
    paired-IsQuery n qs h.1,
  )

  weaken :
      (pairs : List (Text × Text))
      → All (IsQuery topics) pairs
      → All (IsQuery (topic ∷ topics)) pairs
  unfolding any
  weaken [] h = tt
  weaken (p ∷ pairs) h = (
    record { topical = rw h.0.topical (ground arith); filled = h.0.filled; short = h.0.short },
    weaken pairs h.1,
  )

covers-here :
    (topic : Text) (n : ℕ) (qs : List Text)
    → some_queries qs ≡ true
    → 1 ≤ n
    → any (λ (p : Text × Text). text_eq p.0 topic) (of_topic topic (take n qs)) ≡ true
unfolding any
covers-here topic zero qs given one = absurd (ground arith)
covers-here topic (suc n) [] given one = given
covers-here topic (suc n) (q ∷ qs) given one = rw (text_eq_refl topic) refl

All-any_append :
    (here rest : List (Text × Text)) (topics : List Text)
    → All (λ t. any (λ (p : Text × Text). text_eq p.0 t) rest ≡ true) topics
    → All (λ t. any (λ (p : Text × Text). text_eq p.0 t) (here ++ rest) ≡ true) topics
All-any_append here rest [] h = tt
All-any_append here rest (t ∷ topics) h = (
  rw (any-append (λ (p : Text × Text). text_eq p.0 t) here rest, h.0) (ground arith),
  All-any_append here rest topics h.1,
)

-- The pairs of one round, counted for a topic.
pairs_of-take :
    (t topic : Text) (n : ℕ) (qs : List Text)
    → pairs_of t (of_topic topic (take n qs)) ≤ n * (if text_eq topic t then 1 else 0)
unfolding sum_by
pairs_of-take t topic zero qs = ground arith
pairs_of-take t topic (suc n) [] = ground arith
pairs_of-take t topic (suc n) (q ∷ qs) = let rest = pairs_of-take t topic n qs in ground arith

pairs_of-cons :
    (t topic : Text) (limit : ℕ) (topics qs : List Text) (pairs : List (Text × Text))
    → pairs_of t pairs ≤ limit * times_listed t topics
    → pairs_of t (of_topic topic (take limit qs) ++ pairs) ≤ limit * times_listed t (topic ∷ topics)
unfolding sum_by
pairs_of-cons t topic limit topics qs pairs rest =
    let here = pairs_of-take t topic limit qs in
    rw
      (sum_by-append (λ (p : Text × Text). if text_eq p.0 t then 1 else 0)
        (of_topic topic (take limit qs)) pairs)
      (elim (Bool-cases (text_eq topic t)) [ inl e ↦ ground arith | inr e ↦ ground arith ])

-- One topic more.
IsClamped-cons :
    (limit : ℕ) (topic : Text) (topics qs : List Text) (pairs : List (Text × Text))
    → some_queries qs ≡ true
    → All IsUsable qs
    → IsClamped limit topics pairs
    → IsClamped limit (topic ∷ topics) (of_topic topic (take limit qs) ++ pairs)
IsClamped-cons limit topic topics qs pairs given good rest = record {
  queries =
      All-append _ (of_topic topic (take limit qs)) pairs
        (paired-IsQuery topic topics limit qs good) (weaken topic topics pairs rest.queries);
  few = λ t. pairs_of-cons t topic limit topics qs pairs (rest.few t);
  covered = λ one. (
    rw
        (
          any-append (λ (p : Text × Text). text_eq p.0 topic) (of_topic topic (take limit qs))
              pairs,
          covers-here topic limit qs given one,
        )
        refl,
    All-any_append (of_topic topic (take limit qs)) pairs topics (rest.covered one),
  );
}

-- One round of the loop, given that of the later topics.
IsClamped-step :
    (limit : ℕ) (topic : Text) (topics qs : List Text) (later : Result (List (Text × Text)))
    → (pairs : List (Text × Text)) → All IsUsable qs
    → ((rest : List (Text × Text)) → later ≡ ok rest → IsClamped limit topics rest)
    → (if some_queries qs
        then append_pairs (of_topic topic (take limit qs)) later
        else err Error.generation_error)
      ≡ ok pairs
    → IsClamped limit (topic ∷ topics) pairs
IsClamped-step limit topic topics [] later pairs good ih e = absurd (err_ne_ok e)
IsClamped-step limit topic topics (q ∷ qs) (err x) pairs good ih e = absurd (err_ne_ok e)
IsClamped-step limit topic topics (q ∷ qs) (ok rest) pairs good ih e =
    rw (sym (ok_inj e)) (IsClamped-cons limit topic topics (q ∷ qs) rest refl good (ih rest refl))

nothing-few : (t : Text) (limit : ℕ) → pairs_of t [] ≤ limit * times_listed t []
unfolding sum_by
nothing-few t limit = ground arith

-- Where the clamp does not raise, whatever the model answered, each pair is of one of the topics and
-- has a query of one to 200 characters, each topic has at most `limit` pairs for each time it is
-- listed, and, for a limit of one or more, every topic has a query.
pub clamp-IsClamped :
    (limit : ℕ) (raw : TextDict (List Text)) (topics : List Text) (pairs : List (Text × Text))
    → clamp limit raw topics ≡ ok pairs
    → IsClamped limit topics pairs
unfolding clamp
clamp-IsClamped limit raw [] pairs e =
    rw (sym (ok_inj e))
      (record { queries = tt; few = λ t. nothing-few t limit; covered = λ one. tt })
clamp-IsClamped limit raw (topic ∷ topics) pairs e =
    IsClamped-step limit topic topics (usable (maybe (TextDict.get raw topic) [] (λ qs. qs)))
      (clamp limit raw topics) pairs (usable-IsUsable _) (clamp-IsClamped limit raw topics) e
