-- ===== src/Lib.antt =====
-- The two services of this repository and the shared core that they run on (core/src/harvest_core).
-- Public records (records/src/public_records): campaigns write requests for public records to offices
-- by email, follow the threads up, read the replies and pay small fees within a budget. The harvest
-- (harvester/src/harvest_harvester and orchestrator/src/harvest_orchestrator): the orchestrator
-- dispatches searches for legal documents, jurisdiction by jurisdiction, and workers search, stage,
-- fetch and store what they find.
--
-- The parts, and the file of each:
--   Prelude             tests, lists, texts (a text is its list of code points), dicts in insertion
--                       order, and `Action`: a state with an exception, where what was written before
--                       a raise stays written; Prelude/Preserves has one invariant rule for each way
--                       to build an action
--   Core/Queue          core/src/harvest_core/fakes/queue.py, FakeQueue
--   Core/KeyValue       core/src/harvest_core/fakes/kv.py, FakeKeyValue
--   Core/ObjectStore    core/src/harvest_core/fakes/objectstore.py, FakeObjectStore
--   Core/Storage        core/src/harvest_core/storage.py
--   Records/Domain      domain.py: the rows and the state machine of a thread (check_transition);
--                       Domain/Address and Domain/Config: the address rules and config.py
--   Records/Keys        domain.py: file names, object keys, the token of a subject line
--   Records/Messages    messages.py: the queue messages
--   Records/Store       fakes/store.py, FakeRecordsStore: one function for each method, in a child
--                       module for each table (Campaigns, Jurisdictions, Targets, Threads, Emails,
--                       Sends, Escalations, Spend, Purge); Store/Reads and Store/Frame are lemmas
--   Records/World       world.py: `World` is what a handler writes to, `Env` what it calls
--   Records/Attachments attachments.py
--   Records/Fees        fees.py: the amount parser and handle_payment_required
--   Records/Sender      sender.py: handle_contact and handle_followup_job
--   Records/Receiver    receiver.py: handle_inbound
--   Records/Orchestrator orchestrator.py and census.py: seed_pass, poll_mail, followup_scan
--   Records/Operations  ops.py
--   Records/Consumer    consumer.py: process_queue and drain_dlq
--   Records/Service     any sequence of handler calls and periodic passes
--   Records/Lifecycle   lemmas: how each method and handler moves the rows of threads
--   Records/StoreOnly, Records/Submitted  lemmas: what leaves the store, or the emails handed over, alone
--   Harvest/Domain      core/src/harvest_core/domain.py: the rows and the state machine of an artifact
--   Harvest/Messages    core/src/harvest_core/messages.py: the three kinds of task
--   Harvest/Store       core/src/harvest_core/fakes/datastore.py, FakeDatastore, a child module for each
--                       table; Store/Stamped, Store/Due and Store/Reads are lemmas
--   Harvest/World       core/src/harvest_core/ports.py and config.py, and the virtual clock
--   Harvest/Links, Harvest/Sniff    links.py and sniff.py of the harvester
--   Harvest/Staging     staging.py: one candidate url becomes an artifact and a fetch task
--   Harvest/Gates       consumer.py: the idempotency gates, the heartbeat, a round of a loop
--   Harvest/Fanin       fanin.py: the count of the done queries of a dispatch
--   Harvest/Sweep       sweep.py: Sweep/Items is steps 1 to 3 of a batch, Sweep/Complete 4 to 6
--   Harvest/Fetch       fetch.py: the throttle and the fetch worker
--   Harvest/Code        code.py: the portal crawl worker
--   Harvest/Orchestrator  loop.py and ops.py of the harvest's orchestrator; a child module each for
--                       generate.py, dispatch.py, reconcile.py, census.py and seeding.py (with its
--                       scope in Orchestrator/Scope)
--   Harvest/Service     any sequence of worker rounds and orchestrator turns; Service/Kept takes an
--                       invariant that the methods of the datastore keep (the record Kept) to any run
--   Harvest/Frame       lemmas: what leaves the datastore alone
--   Harvest/Sample      a small harvest, for Harvest/Tests
--   Records/Sample      a small world, for Records/Tests; Core/Tests has a small queue
-- The file names without a directory are, under Records, those of records/src/public_records.
--
-- How they interact: the orchestrator seeds a campaign's search and contact messages, polls the mail
-- bucket into the inbound queue and schedules follow-ups; the sender takes contacts and thread jobs
-- off their queues and hands emails to the transport; the receiver matches a mail to its thread, logs
-- it and reacts, by a transition, a job for the sender, a fee or an escalation to a human. All of them
-- share one store. A call of the service is a `Call`; `serve` performs a list of them, each with its
-- own `Env`, so with its own clock reading and its own answers from outside.
--
-- In the harvest the orchestrator stamps a due target with a fresh dispatch id, by a compare-and-set,
-- and sends its tasks; a worker takes a task only under the id that the row still has, writes its
-- history row first, counts it, and deletes the message last. What is lost on the way goes stale, and
-- is dispatched again. The three queues, the datastore, the key-value store and the object store are
-- shared; each outside call is answered by the number of calls before it and takes time of the clock.
--
-- Code outside the repository is a parameter, in `Env`: the clock and the random token, the language
-- models (drafter, classifier, query generator), the mail transport, the hash, the MIME parser, the
-- census source, the codec of each message (pydantic), and, for the harvest, the search, the triage,
-- the fetcher, the crawler and urllib. A model, transport, search, fetch or census call and the reading
-- of a message may each raise. Taken to raise nothing: the hash, the coding of texts, the writing of
-- messages, the random ids, the MIME parser, the text extraction, and the functions on urls and HTML
-- (urlsplit, urljoin, unquote, unescape, the link parser), although urlsplit and urljoin raise
-- ValueError on some malformed urls.
--
-- Numbers: ids, cents and times are natural numbers; a time is in microseconds, a confidence in
-- millionths. Python integers have no width, so no bound is needed. Loops run over lists, so no fuel
-- is needed but in the throttle of the fetch worker. Its loop is given, round by round, what the other
-- threads of the pool do while it sleeps, and ends once none of them books the host in a sleep; the
-- worker's own call stands for one thread, where two rounds are enough. Letters are lowered and digits
-- and blanks recognised as in ASCII.
--
-- Not modelled: the SQL stores, the model and network adapters, process start-up and threads, the
-- YAML reading of a configuration, the scraper and the digest of the records service, the crawler's
-- spiders, the text extraction of stored documents, and the health report, whose module
-- harvest_core.health is not in the repository. Locks are left out: a method of a store is one step,
-- and the workers' rounds do not interleave, but for the threads at the throttle. The stop events of
-- the loops are never set.

pub mod Prelude
pub mod Core
pub mod Records
pub mod Harvest
