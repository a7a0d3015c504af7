-- ===== src/Harvest/World.antt =====
-- What the harvest workers and the orchestrator share: the ports of core/src/harvest_core/ports.py.
-- `World` holds what the modelled code keeps; `Env` is what it calls and cannot change. The clock is
-- the virtual one of core/src/harvest_core/fakes/clock.py. Each outside call is answered by the
-- number of calls made before it, so that equal calls may be answered differently, and takes time.
use dialogue_microservices.Prelude.{ℕ, suc, ◌+◌, ◌*◌, List, Option, Bool, Text, maybe}
use dialogue_microservices.Prelude.TextDict.{TextDict}
use dialogue_microservices.Prelude.Action.{Error, Result, ok, err, Action, gets, modify}
use dialogue_microservices.Core.Queue
use dialogue_microservices.Core.Queue.{Queue, QueueMessage}
use dialogue_microservices.Core.KeyValue.{KeyValue}
use dialogue_microservices.Core.ObjectStore.{ObjectStore}
use dialogue_microservices.Harvest.Domain.{Jurisdiction, Publisher}
use dialogue_microservices.Harvest.Messages.{Task}
use dialogue_microservices.Harvest.Store.{Datastore}

pub record SearchResult : Type 0 where
  pub rank : ℕ
  pub title : Text
  pub snippet : Text
  pub url : Text

pub record TriageRequest : Type 0 where
  pub jurisdiction_name : Text
  pub state : Text
  pub level : Text
  pub topic : Text
  pub results : List SearchResult

-- The confidence is in millionths; the modelled code does not read it.
pub record TriageVerdict : Type 0 where
  pub relevant : Bool
  pub is_document : Bool
  pub confidence : ℕ

pub record FetchResponse : Type 0 where
  pub status : ℕ
  pub content : List ℕ
  pub content_type : Option Text

pub record PortalCandidate : Type 0 where
  pub url : Text
  pub context : Text

pub record DiscoveryResult : Type 0 where
  pub candidates : List PortalCandidate
  pub complete : Bool
  pub detail : Text

pub record CensusPlace : Type 0 where
  pub name : Text
  pub level : Text
  pub fips : Option Text
  pub parent_name : Option Text

pub record CensusState : Type 0 where
  pub state_name : Text
  pub places : List CensusPlace

-- The answer of an outside call, and the time that it took.
pub record Answer (A : Type 0) : Type 0 where
  pub result : Result A
  pub took : ℕ

-- `ScopeConfig` and `HarvestConfig` of core/src/harvest_core/config.py, validated; an absent or
-- empty list or region is `[]`.
pub record ScopeConfig : Type 0 where
  pub levels : List Text
  pub states : List Text
  pub within : List Text
  pub only : List Text
  pub region_query : Text

pub record HarvestConfig : Type 0 where
  pub name : Text
  pub scope : ScopeConfig
  pub topics : List Text
  pub resweep_interval_days : ℕ
  pub search_count : ℕ
  pub queries_per_jurisdiction : ℕ
  pub max_sweeps_per_dispatch : ℕ
  pub triage_batch_max_results : ℕ
  pub max_fetch_redispatch : ℕ
  pub code_max_pages : ℕ

-- What the parser of the standard library calls back with: a tag with its attributes, an end tag,
-- or text.
pub data HtmlEvent : Type 0 where
  start_tag : Text → List (Text × Option Text) → HtmlEvent
  end_tag : Text → HtmlEvent
  text_run : Text → HtmlEvent

-- A url taken apart by `urlsplit`, as far as the code reads it.
pub record SplitUrl : Type 0 where
  pub netloc : Text
  pub path : Text

-- `send_fails`, an `Answer` and a `Result` tell an exception; the other functions are taken to raise
-- nothing.
pub record Env : Type 0 where
  pub config : HarvestConfig
  pub uuid : ℕ → Text
  pub send_fails : ℕ → Option Error
  pub search : ℕ → Text → ℕ → Answer (List SearchResult)
  pub triage : ℕ → List TriageRequest → Answer (List (List TriageVerdict))
  pub fetch_page : ℕ → Text → ℕ → Answer FetchResponse
  pub discover : ℕ → List Text → Publisher → ℕ → ℕ → Answer DiscoveryResult
  pub generate : ℕ → Jurisdiction → List Text → ℕ → Answer (TextDict (List Text))
  pub load_state : ℕ → Text → Answer CensusState
  pub error_text : ℕ → Error → Text
  pub hexdigest : List ℕ → Text
  pub encode : Text → List ℕ
  pub decode : List ℕ → Text
  pub urlsplit : Text → SplitUrl
  pub unquote : Text → Text
  pub urljoin : Text → Text → Text
  pub unescape : Text → Text
  pub html_events : Text → List HtmlEvent
  pub extract_text : Text → List ℕ → Text
  pub to_json : Task → Text
  pub parse_task : Text → Result Task

-- `next_allowed` is the state of the host throttle, `last_seeded` that of the census seeder.
pub record World : Type 0 where
  pub ds : Datastore
  pub kv : KeyValue
  pub objects : ObjectStore
  pub sweep_queue : Queue
  pub code_queue : Queue
  pub fetch_queue : Queue
  pub clock : ℕ
  pub calls : ℕ
  pub next_allowed : TextDict ℕ
  pub last_seeded : Option ℕ

-- Units of time, in microseconds.
abbrev pub second : ℕ
second = 1000000

abbrev pub day : ℕ
day = 86400 * second

unfoldable pub on_ds : {A : Type 0} → Action Datastore A → Action World A
on_ds m w = let (r, s) = m w.ds in (r, record w { ds = s })

unfoldable pub on_objects : {A : Type 0} → Action ObjectStore A → Action World A
on_objects m w = let (r, o) = m w.objects in (r, record w { objects = o })

-- A method of the key-value store reads the clock.
unfoldable pub on_kv : {A : Type 0} → (ℕ → KeyValue → A × KeyValue) → Action World A
on_kv m w = let (a, kv) = m w.clock w.kv in (ok a, record w { kv = kv })

unfoldable pub now : Action World ℕ
now = gets (λ w. w.clock)

-- `clock.sleep`
unfoldable pub sleep : ℕ → Action World Unit
sleep time = modify (λ w. record w { clock = w.clock + time })

unfoldable pub ask : {A : Type 0} → (ℕ → Answer A) → Action World A
ask f w =
    let answer = f w.calls in
    (answer.result, record w { clock = w.clock + answer.took; calls = suc w.calls })

-- `str(uuid.uuid4())`
unfoldable pub uuid4 : Env → Action World Text
uuid4 env w = (ok (env.uuid w.calls), record w { calls = suc w.calls })

-- `str(exc)`
unfoldable pub describe : Env → Error → Action World Text
describe env e = gets (λ w. env.error_text w.calls e)

-- Which of the three queues.
pub data QueueName : Type 0 where
  sweeps codes fetches : QueueName

abbrev pub queue_of : QueueName → World → Queue
queue_of QueueName.sweeps w = w.sweep_queue
queue_of QueueName.codes w = w.code_queue
queue_of QueueName.fetches w = w.fetch_queue

abbrev pub with_queue : QueueName → (Queue → Queue) → World → World
with_queue QueueName.sweeps f w = record w { sweep_queue = f w.sweep_queue }
with_queue QueueName.codes f w = record w { code_queue = f w.code_queue }
with_queue QueueName.fetches f w = record w { fetch_queue = f w.fetch_queue }

-- `queue.send(to_json(task))`; a dead queue raises.
unfoldable pub send : Env → QueueName → Task → Action World Unit
send env queue task w =
    maybe (env.send_fails w.calls)
      (ok tt, record (with_queue queue (Queue.send (env.to_json task)) w) { calls = suc w.calls })
      (λ e. (err e, record w { calls = suc w.calls }))

-- `queue.delete(message.id)`
unfoldable pub delete : QueueName → QueueMessage → Action World Unit
delete queue message = modify (with_queue queue (Queue.delete message.id))

unfoldable pub change_visibility : QueueName → QueueMessage → ℕ → Action World Unit
change_visibility queue message timeout =
    modify (λ w. with_queue queue (Queue.change_visibility w.clock message.id timeout) w)
