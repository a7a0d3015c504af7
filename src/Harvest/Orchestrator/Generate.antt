-- ===== src/Harvest/Orchestrator/Generate.antt =====
-- orchestrator/src/harvest_orchestrator/generate.py: the queries of one jurisdiction, clamped.
pub mod Clamped
use dialogue_microservices.Prelude.{
  ℕ, List, [], ◌∷◌, ◌++◌, Bool, true, false, Text, filter, map, maybe, nonempty, strip, take,
  if◌then◌else◌,
}
use dialogue_microservices.Prelude.TextDict
use dialogue_microservices.Prelude.TextDict.{TextDict}
use dialogue_microservices.Prelude.Action.{Error, Result, ok, err, Action, lift, ◌>>=◌}
use dialogue_microservices.Harvest.Domain.{Jurisdiction}
use dialogue_microservices.Harvest.World.{Env, World, ask}

-- `QUERY_MAX_CHARS`
abbrev pub query_max_chars : ℕ
query_max_chars = 200

abbrev pub clip : Text → Text
clip q = take query_max_chars (strip q)

-- The usable queries of a topic.
unfoldable pub usable : List Text → List Text
usable raw = filter nonempty (map clip raw)

abbrev pub some_queries : List Text → Bool
some_queries [] = false
some_queries (q ∷ queries) = true

-- `pairs` of one topic and of those after it
abbrev pub append_pairs :
    List (Text × Text) → Result (List (Text × Text)) → Result (List (Text × Text))
append_pairs pairs (ok rest) = ok (pairs ++ rest)
append_pairs pairs (err e) = err e

unfoldable pub clamp : ℕ → TextDict (List Text) → List Text → Result (List (Text × Text))
unfolding usable
clamp limit raw [] = ok []
clamp limit raw (topic ∷ topics) =
    let queries = usable (maybe (TextDict.get raw topic) [] (λ qs. qs)) in
    if some_queries queries
    then append_pairs (map (λ q. (topic, q)) (take limit queries)) (clamp limit raw topics)
    else err Error.generation_error

unfoldable pub generate_queries : Env → Jurisdiction → Action World (List (Text × Text))
generate_queries env j = do
  raw ← ask (λ n. env.generate n j env.config.topics env.config.queries_per_jurisdiction)
  lift (clamp env.config.queries_per_jurisdiction raw env.config.topics)
