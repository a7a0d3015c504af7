-- ===== src/Harvest/Sweep/Complete.antt =====
-- sweep.py: one completed query: its candidates, its history row, its count.
use dialogue_microservices.Prelude.{
  ℕ, suc, List, [], ◌∷◌, ◌++◌, Option, none, some, Bool, true, false, not, ◌||◌, Text, codes,
  before, filter, fstring, length, lower, ltb, map, maybe, nonempty, ◌==◌, if◌then◌else◌,
}
use dialogue_microservices.Prelude.Action.{Error, Action, pure, raise, ◌>>=◌, ◌>>◌, try_else}
use dialogue_microservices.Core.Storage.{ends_with}
use dialogue_microservices.Harvest.Domain.{SweepHistory, SweepResult, Source}
use dialogue_microservices.Harvest.Store.{insert_history}
use dialogue_microservices.Harvest.World.{
  Env, World, QueueName, SearchResult, TriageVerdict, on_ds, now, ask, describe, delete,
}
use dialogue_microservices.Harvest.Fanin.{record_query_done}
use dialogue_microservices.Harvest.Links.{Link, is_document_url, extract_document_links}
use dialogue_microservices.Harvest.Staging.{Candidate, stage_candidate}
use dialogue_microservices.Harvest.Sweep.Items.{Item}

-- `PAGE_BYTE_CAP`
abbrev pub page_byte_cap : ℕ
page_byte_cap = 400000

-- What the loop of `_candidates_for` has gathered.
pub record Found : Type 0 where
  pub direct : List Candidate
  pub linked : List Candidate
  pub relevant : ℕ

abbrev pub add_direct : Candidate → Found → Found
add_direct c f = record f { direct = c ∷ f.direct; relevant = suc f.relevant }

abbrev pub add_linked : List Candidate → Found → Found
add_linked cs f = record f { linked = cs ++ f.linked; relevant = suc f.relevant }

unfoldable pub linked_from : Text → Link → Candidate
linked_from page link = record {
  url = link.url;
  context = fstring (
      codes "linked from "
      ∷ page
      ∷ (if nonempty link.anchor_text then codes "\n" ++ link.anchor_text else [])
      ∷ []);
}

-- `c.url.lower().split("?")[0].endswith(".pdf")`
unfoldable pub is_pdf_candidate : Candidate → Bool
is_pdf_candidate c = ends_with (before b'?' (lower c.url)) (codes ".pdf")

-- Direct PDFs, other direct hits, linked documents. A candidate that is no PDF equals none that is.
unfoldable pub ordered : Found → List Candidate
unfolding is_pdf_candidate
ordered f =
    filter is_pdf_candidate f.direct ++ filter (λ c. not (is_pdf_candidate c)) f.direct ++ f.linked

-- What `_complete` knows when it writes the history row.
pub record Work : Type 0 where
  pub staged : ℕ
  pub relevant : ℕ
  pub errored : Bool
  pub error_detail : Text

module _ (env : Env) where
  -- The links of a page; a dead page contributes nothing.
  unfoldable pub page_links : Text → Action World (List Candidate)
  page_links url =
      try_else (ask (λ n. env.fetch_page n url page_byte_cap))
        (λ resp.
          if not (resp.status == 200)
          then pure []
          else pure
              (map (linked_from url) (extract_document_links env (env.decode resp.content) url)))
        (λ e. pure [])

  -- `zip(item.results, item.verdicts, strict=True)`
  unfoldable pub find_candidates : List SearchResult → List TriageVerdict → Action World Found
  find_candidates [] [] = pure (record { direct = []; linked = []; relevant = 0 })
  find_candidates [] (v ∷ verdicts) = raise Error.value_error
  find_candidates (r ∷ results) [] = raise Error.value_error
  find_candidates (r ∷ results) (v ∷ verdicts) =
      if not v.relevant
      then find_candidates results verdicts
      else if is_document_url env r.url || v.is_document
      then (do
        rest ← find_candidates results verdicts
        pure (
            add_direct
              (record { url = r.url; context = fstring (r.title ∷ codes "\n" ∷ r.snippet ∷ []) })
              rest))
      else (do
        links ← page_links r.url
        rest ← find_candidates results verdicts
        pure (add_linked links rest))

  -- The loop of staging, with what was staged before an exception.
  unfoldable pub stage_until : Text → ℕ → ℕ → List Candidate → Action World (ℕ × Option Error)
  stage_until corpus jurisdiction_id staged [] = pure (staged, none)
  stage_until corpus jurisdiction_id staged (c ∷ candidates) =
      try_else (stage_candidate env corpus jurisdiction_id (codes "serper") c)
        (λ new. stage_until corpus jurisdiction_id (if new then suc staged else staged) candidates)
        (λ e. pure (staged, some e))

  unfoldable pub extraction_failed : ℕ → ℕ → Error → Action World Work
  extraction_failed staged relevant e = do
    text ← describe env e
    pure (record {
      staged = staged;
      relevant = relevant;
      errored = true;
      error_detail = fstring (codes "extraction error: " ∷ text ∷ []);
    })

  unfoldable pub stage_found : Item → Found → Action World Work
  stage_found item found = do
    (staged, failure) ← stage_until item.task.corpus item.task.jurisdiction_id 0 (ordered found)
    maybe failure
        (pure (record {
          staged = staged;
          relevant = found.relevant;
          errored = false;
          error_detail = item.error_detail;
        }))
        (extraction_failed staged found.relevant)

  unfoldable pub work : Item → Action World Work
  work item =
      if item.errored
      then pure
          (record { staged = 0; relevant = 0; errored = true; error_detail = item.error_detail })
      else try_else (find_candidates item.results item.verdicts) (stage_found item)
          (extraction_failed 0 0)

  unfoldable pub result_of : Work → SweepResult
  result_of done =
      if done.errored
      then SweepResult.error
      else if ltb 0 done.staged
      then SweepResult.candidates
      else SweepResult.not_found

  unfoldable pub history_row : Item → Work → ℕ → SweepHistory
  history_row item done at = record {
    id = 0;
    corpus = item.task.corpus;
    jurisdiction_id = item.task.jurisdiction_id;
    source = Source.serper;
    dispatch_id = item.task.dispatch_id;
    query_seq = item.task.query_seq;
    result = result_of done;
    topic = some item.task.topic;
    results_seen = length item.results;
    results_triaged_relevant = done.relevant;
    candidates_staged = done.staged;
    detail = fstring (
        codes "query: "
        ∷ item.task.query_text
        ∷ (if nonempty done.error_detail then codes " | " ++ done.error_detail else [])
        ∷ []);
    swept_at = at;
  }

  -- The history commit, the count, the delete.
  unfoldable pub write_back : Item → Work → Action World Unit
  write_back item done = do
    at ← now
    inserted ← on_ds (insert_history (history_row item done at))
    if inserted
        then record_query_done item.task.sweep_target_id item.task.dispatch_id item.task.query_count
            done.staged done.errored at env.config.resweep_interval_days
        else pure false
    delete QueueName.sweeps item.message

  -- `_complete`
  unfoldable pub complete : Item → Action World Unit
  complete item = do done ← work item; write_back item done
