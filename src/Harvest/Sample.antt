-- ===== src/Harvest/Sample.antt =====
-- A small harvest, for the tests: one jurisdiction with a target in dispatch, two artifacts, and an
-- outside world that answers every search with one result.
use dialogue_microservices.Prelude.{◌*◌, List, [], ◌∷◌, none, some, Text, codes}
use dialogue_microservices.Prelude.TextDict.{TextDict}
use dialogue_microservices.Prelude.Action.{Error, ok, err}
use dialogue_microservices.Core.Queue
use dialogue_microservices.Core.Queue.{empty_queue, QueueMessage}
use dialogue_microservices.Core.KeyValue.{empty_kv}
use dialogue_microservices.Core.ObjectStore.{empty_objects}
use dialogue_microservices.Harvest.Domain.{
  Artifact, ArtifactStatus, Jurisdiction, RunState, Source, SweepHistory, SweepResult, SweepTarget,
}
use dialogue_microservices.Harvest.Messages.{SweepTask, Task}
use dialogue_microservices.Harvest.Store.{Datastore, empty_datastore, new_artifact}
use dialogue_microservices.Harvest.World.{
  Env, HarvestConfig, HtmlEvent, SearchResult, World, second,
}

abbrev pub corpus_name : Text
corpus_name = codes "codes"

abbrev pub config : HarvestConfig
config = record {
  name = corpus_name;
  scope = record {
    levels = codes "city" ∷ [];
    states = codes "CA" ∷ [];
    within = [];
    only = [];
    region_query = [];
  };
  topics = codes "noise" ∷ [];
  resweep_interval_days = 30;
  search_count = 10;
  queries_per_jurisdiction = 2;
  max_sweeps_per_dispatch = 10;
  triage_batch_max_results = 2;
  max_fetch_redispatch = 10;
  code_max_pages = 50;
}

abbrev pub query_task : SweepTask
query_task = record {
  corpus = corpus_name;
  sweep_target_id = 2;
  jurisdiction_id = 1;
  topic = codes "noise";
  query_text = codes "noise code";
  dispatch_id = codes "d1";
  query_seq = 0;
  query_count = 1;
  dispatched_at = 5 * second;
}

abbrev pub hit : SearchResult
hit = record {
  rank = 1;
  title = codes "Code";
  snippet = codes "Title 9";
  url = codes "http://a.gov/code.pdf";
}

abbrev pub page_events : List HtmlEvent
page_events =
    HtmlEvent.start_tag (codes "a") ((codes "href", some (codes "http://a.gov/b.doc")) ∷ [])
    ∷ HtmlEvent.end_tag (codes "a")
    ∷ HtmlEvent.start_tag (codes "a") ((codes "href", some (codes "http://a.gov/c.pdf")) ∷ [])
    ∷ HtmlEvent.end_tag (codes "a")
    ∷ []

abbrev pub raw_queries : TextDict (List Text)
raw_queries = (codes "noise", codes "noise code" ∷ []) ∷ []

-- Every url is its own path; every message body is the task of the sample.
abbrev pub env : Env
env = record {
  config = config;
  uuid = λ n. codes "u";
  send_fails = λ n. none;
  search = λ n q c. record { result = ok (hit ∷ []); took = second };
  triage = λ n rs. record { result = err Error.triage_error; took = second };
  fetch_page = λ n url cap. record { result = err Error.fetch_error; took = second };
  discover =
      λ n urls publisher pages deadline. record { result = err Error.portal_error; took = second };
  generate = λ n j topics limit. record { result = ok raw_queries; took = second };
  load_state = λ n state. record { result = err Error.lookup_error; took = second };
  error_text = λ n e. codes "error";
  hexdigest = λ bytes. bytes;
  encode = λ text. text;
  decode = λ bytes. bytes;
  urlsplit = λ url. record { netloc = codes "a.gov"; path = url };
  unquote = λ text. text;
  urljoin = λ base href. href;
  unescape = λ text. text;
  html_events = λ page. page_events;
  extract_text = λ ext bytes. bytes;
  to_json = λ task. codes "{}";
  parse_task = λ body. ok (Task.sweep query_task);
}

-- The same with every search answered by a 429.
abbrev pub limited_env : Env
limited_env = record env {
  search = λ n q c. record { result = err Error.rate_limited; took = second };
}

-- The same with fetch tasks, and a PDF behind every url.
abbrev pub fetch_env : Env
fetch_env = record env {
  parse_task = λ body. ok (
      Task.fetch (record {
        corpus = corpus_name;
        artifact_id = 4;
        dispatch_id = codes "f1";
        dispatched_at = 0;
      }));
  fetch_page = λ n url cap. record {
    result = ok (record { status = 200; content = codes "%PDF-1.7"; content_type = none });
    took = second;
  };
}

abbrev pub city : Jurisdiction
city = record {
  id = 1;
  name = codes "Ojai";
  state = codes "CA";
  level = codes "city";
  fips = none;
  parent_id = none;
  parent_name = none;
}

abbrev pub target : SweepTarget
target = record {
  id = 2;
  corpus = corpus_name;
  jurisdiction_id = 1;
  source = Source.serper;
  priority = 3;
  next_due_at = 0;
  last_result = none;
  dispatched_at = some (5 * second);
  dispatch_id = some (codes "d1");
  query_count = some 1;
}

abbrev pub fetched : Artifact
fetched = record (new_artifact 3 corpus_name 1 (codes "serper") (codes "http://a.gov/x.pdf") [] 0) {
  status = ArtifactStatus.fetched;
}

abbrev pub pending : Artifact
pending = record (new_artifact 4 corpus_name 1 (codes "serper") (codes "http://a.gov/y.pdf") [] 0) {
  dispatch_id = some (codes "f1");
}

abbrev pub done_row : SweepHistory
done_row = record {
  id = 5;
  corpus = corpus_name;
  jurisdiction_id = 1;
  source = Source.serper;
  dispatch_id = codes "d1";
  query_seq = 0;
  result = SweepResult.candidates;
  topic = some (codes "noise");
  results_seen = 1;
  results_triaged_relevant = 1;
  candidates_staged = 1;
  detail = codes "query: noise code";
  swept_at = 6 * second;
}

abbrev pub ds : Datastore
ds = record empty_datastore {
  jurisdictions = (1, city) ∷ [];
  targets = (2, target) ∷ [];
  artifacts = (3, fetched) ∷ (4, pending) ∷ [];
  run_switches = (corpus_name, RunState.running) ∷ [];
  next_id = 6;
}

abbrev pub completed_ds : Datastore
completed_ds = record ds { history = (5, done_row) ∷ [] }

abbrev pub message : QueueMessage
message = record { id = 1; body = codes "{}"; receive_count = 1 }

abbrev pub world : World
world = record {
  ds = ds;
  kv = empty_kv;
  objects = empty_objects;
  sweep_queue = Queue.send (codes "{}") (empty_queue (300 * second) 3);
  code_queue = empty_queue (300 * second) 3;
  fetch_queue = Queue.send (codes "{}") (empty_queue (300 * second) 3);
  clock = 10 * second;
  calls = 0;
  next_allowed = [];
  last_seeded = none;
}

abbrev pub completed_world : World
completed_world = record world { ds = completed_ds }
