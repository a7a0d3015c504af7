-- ===== src/Records/Orchestrator/Queries.antt =====
-- The queries of a search target.
use dialogue_microservices.Prelude.{
  ℕ, zero, suc, ◌≤◌, ◌≡◌, refl, ◌⊎◌, inl, inr, List, [], ◌∷◌, ◌++◌, false, not, ◌&&◌, Text, arith,
  nonempty, any, text_eq, take, length, All, Bool-cases, or_false, All-append,
}
use dialogue_microservices.Prelude.Action.{Error, ok, err, pure}
use dialogue_microservices.Records.Domain.{Campaign, Jurisdiction}
use dialogue_microservices.Records.World.{Env, World}
use dialogue_microservices.Records.Orchestrator.{
  add_queries, fallback_query, queries_from, queries_for, is_generation_error,
}

-- No two queries of a list are equal.
abbrev pub IsDistinct : List Text → Type 0
IsDistinct [] = Unit
IsDistinct (q ∷ queries) = All (λ r. text_eq r q ≡ false) queries × IsDistinct queries

All-take : (P : Text → Type 0) (n : ℕ) (xs : List Text) → All P xs → All P (take n xs)
All-take P zero xs h = tt
All-take P (suc n) [] h = tt
All-take P (suc n) (x ∷ xs) h = (h.0, All-take P n xs h.1)

take-IsDistinct : (n : ℕ) (xs : List Text) → IsDistinct xs → IsDistinct (take n xs)
take-IsDistinct zero xs h = tt
take-IsDistinct (suc n) [] h = tt
take-IsDistinct (suc n) (x ∷ xs) h = (All-take _ n xs h.0, take-IsDistinct n xs h.1)

append-IsDistinct :
    (queries : List Text) (q : Text)
    → any (text_eq q) queries ≡ false
    → IsDistinct queries
    → IsDistinct (queries ++ q ∷ [])
unfolding any
append-IsDistinct [] q new h = (tt, tt)
append-IsDistinct (r ∷ queries) q new h =
    let (here, later) = or_false (text_eq q r) (any (text_eq q) queries) new in
    (All-append _ queries (q ∷ []) h.0 (here, tt), append-IsDistinct queries q later h.1)

add_queries-IsDistinct :
    (queries generated : List Text)
    → IsDistinct queries
    → IsDistinct (add_queries queries generated)
unfolding add_queries
add_queries-IsDistinct queries [] h = h
add_queries-IsDistinct queries (q ∷ generated) h =
    elim (Bool-cases (nonempty q && not (any (text_eq q) queries))) [
      | inl new ↦
          rw new (add_queries-IsDistinct _ generated (append-IsDistinct queries q (ground arith) h))
      | inr old ↦ rw old (add_queries-IsDistinct queries generated h)
    ]

add_queries-first :
    (first : Text) (queries generated : List Text)
    → (rest : List Text) × (add_queries (first ∷ queries) generated ≡ first ∷ rest)
unfolding add_queries
add_queries-first first queries [] = (queries, refl)
add_queries-first first queries (q ∷ generated) =
    elim (Bool-cases (nonempty q && not (any (text_eq q) (first ∷ queries)))) [
      | inl new ↦ rw new (add_queries-first first (queries ++ q ∷ []) generated)
      | inr old ↦ rw old (add_queries-first first queries generated)
    ]

-- A list of queries for an office: the fallback first, at most three, no two equal.
pub record IsUsable (j : Jurisdiction) (queries : List Text) : Type 0 where
  pub rest : List Text
  pub fallback_first : queries ≡ fallback_query j ∷ rest
  pub count : length queries ≤ 3
  pub distinct : IsDistinct queries

length-take : (n : ℕ) (xs : List Text) → length (take n xs) ≤ n
length-take zero xs = ground arith
length-take (suc n) [] = ground arith
length-take (suc n) (x ∷ xs) = let h = length-take n xs in ground arith

queries_from-IsUsable :
    (j : Jurisdiction) (generated : List Text) → IsUsable j (queries_from j generated)
unfolding queries_from
queries_from-IsUsable j generated =
    let (rest, e) = add_queries-first (fallback_query j) [] generated in
    record {
      rest = take 2 rest;
      fallback_first = rw e refl;
      count = length-take 3 _;
      distinct =
          take-IsDistinct 3 _ (add_queries-IsDistinct (fallback_query j ∷ []) generated (tt, tt));
    }

-- Whatever the model generates, and also when its call fails with a generation error, an office gets
-- a usable list of queries: at most three, no two equal, and the fallback query the first of them.
pub queries_for-IsUsable :
    (env : Env) (c : Campaign) (j : Jurisdiction) (w : World)
    → ((generated : List Text) × (env.generate_queries j c.config.record_type ≡ ok generated))
      ⊎ (env.generate_queries j c.config.record_type ≡ err Error.generation_error)
    → (queries : List Text) × (queries_for env c j w ≡ (ok queries, w)) × IsUsable j queries
unfolding queries_for pure is_generation_error
queries_for-IsUsable env c j w (inl (generated, e)) =
    (queries_from j generated, rw e refl, queries_from-IsUsable j generated)
queries_for-IsUsable env c j w (inr e) = (queries_from j [], rw e refl, queries_from-IsUsable j [])
