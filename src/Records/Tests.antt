-- ===== src/Records/Tests.antt =====
-- The theorems at the sample world.
use dialogue_microservices.Prelude.{
  ℕ, zero, ◌≡◌, ◌≢◌, ◌≤◌, ◌<◌, ◌+◌, ◌⊎◌, inl, refl, List, [], none, some, true, Text, codes, arith,
  length, find, text_eq, any, is_space, is_digit, filter,
}
use dialogue_microservices.Prelude.Dict.{get, values}
use dialogue_microservices.Prelude.Action.{ok, ◌>>=◌}
use dialogue_microservices.Records.Domain.{EmailThread, ThreadStatus}
use dialogue_microservices.Records.Domain.Transitions.{is_settled}
use dialogue_microservices.Records.Store.{committed, book_fee, get_thread_by_token, is_message}
use dialogue_microservices.Records.World.{World, on_store}
use dialogue_microservices.Records.Fees.{
  find_amounts, parse_largest_amount_cents, handle_payment_required,
}
use dialogue_microservices.Records.Fees.Largest.{parse_largest_amount_cents-le}
use dialogue_microservices.Records.Fees.Maximum.{
  IsUpperBound, IsAttained, parse_largest_amount_cents-largest,
}
use dialogue_microservices.Records.Fees.Budget.{
  Charged, book_fee-committed, handle_payment_required-committed,
}
use dialogue_microservices.Records.Sender.{handle_contact}
use dialogue_microservices.Records.Sender.Gates.{Contacted, handle_contact-Contacted}
use dialogue_microservices.Records.Receiver.{handle_inbound, match_thread}
use dialogue_microservices.Records.Receiver.Dedupe.{handle_inbound-again}
use dialogue_microservices.Records.Lifecycle.Rows.{Follows}
use dialogue_microservices.Records.Service.{serve}
use dialogue_microservices.Records.Service.Threads.{serve-rows, serve-settled}
use dialogue_microservices.Prelude.Dict.{put}
use dialogue_microservices.Prelude.Action.{try_else}
use dialogue_microservices.Records.Store.{
  find_open_thread_by_contact, get_campaign, has_message_id, is_taken, get_jurisdiction,
  set_thread_status, require_thread, write_thread, get_thread, first_outbound_subject,
  record_thread_send,
}
use dialogue_microservices.Records.Domain.{is_open, check_transition, auto_transition, same_status}
use dialogue_microservices.Records.Receiver.{
  classify_and_react, react, react_documents, is_data, file_unmatched,
}
use dialogue_microservices.Records.Attachments.{store_attachments, delete_spooled}
use dialogue_microservices.Records.Sample.{
  campaign, office, waiting_thread, fulfilled_thread, mail_row, store, world, unseen_world, mail,
  env, fulfilling_env, records_env, calls, job, generated,
}
use dialogue_microservices.Records.Sender.{
  handle_followup_job, is_followup, send_followup, send_on_thread, deliver, commit_send,
}
use dialogue_microservices.Records.Sender.Duplicates.{turn, handle_followup_job-again}
use dialogue_microservices.Records.Orchestrator.{queries_for}
use dialogue_microservices.Records.Orchestrator.Queries.{IsUsable, queries_for-IsUsable}
use dialogue_microservices.Records.Store.{purge_campaign, insert_email}
use dialogue_microservices.Records.Store.Purged.{IsPurged, purge_campaign-IsPurged}

serve-rows_example :
    (t' : EmailThread) × (get (serve calls world).store.threads 1 ≡ some t')
    × Follows waiting_thread t'
unfolding get
serve-rows_example = serve-rows calls world (ground arith, (ground arith, tt)) 1 waiting_thread refl

serve-settled_example :
    (t' : EmailThread) × (get (serve calls world).store.threads 2 ≡ some t')
    × (t'.status ≡ ThreadStatus.fulfilled)
unfolding get is_settled
serve-settled_example =
    serve-settled calls world (ground arith, (ground arith, tt)) 2 fulfilled_thread refl refl

handle_contact-Contacted_example :
    Contacted env (codes "contact") world (handle_contact env (codes "contact") world).1
handle_contact-Contacted_example = handle_contact-Contacted env (codes "contact") world

handle_inbound-again_example :
    handle_inbound fulfilling_env
      (codes "mail")
      (handle_inbound fulfilling_env (codes "mail") unseen_world).1
    ≡ (ok true, (handle_inbound fulfilling_env (codes "mail") unseen_world).1)
unfolding values handle_inbound ◌>>=◌ try_else match_thread on_store get_thread_by_token find
    text_eq get_campaign has_message_id is_message any get put classify_and_react insert_email
    is_taken react react_documents is_data get_jurisdiction store_attachments set_thread_status
    require_thread write_thread check_transition auto_transition same_status delete_spooled
handle_inbound-again_example =
    handle_inbound-again fulfilling_env (codes "mail") mail (codes "0a1b2c3d") campaign env
      unseen_world waiting_thread refl refl refl refl refl refl refl

handle_payment_required-committed_example :
    let (r, w') = handle_payment_required env campaign waiting_thread mail_row world in
    Charged env campaign waiting_thread mail_row store w'.store
handle_payment_required-committed_example =
    handle_payment_required-committed env campaign waiting_thread mail_row world (ground arith, tt)

book_fee-committed_example :
    let (r, s') = book_fee 1 (some 1) 12550 20000 [] 0 store in
    ((committed 1 store + 12550 ≤ 20000)
      × (committed 1 s' ≡ committed 1 store + 12550)
      × ((i : ℕ) → i ≢ 1 → committed i s' ≡ committed i store))
    ⊎ ((20000 < committed 1 store + 12550) × (r ≡ ok none) × (s' ≡ store))
book_fee-committed_example = book_fee-committed 1 (some 1) 12550 20000 [] 0 store (ground arith, tt)

parse_largest_amount_cents-largest_example :
    IsUpperBound 12550 (find_amounts zero (codes "The fee is $125.50, or $20 by mail."))
    × IsAttained 12550 (find_amounts zero (codes "The fee is $125.50, or $20 by mail."))
unfolding parse_largest_amount_cents is_space is_digit filter
parse_largest_amount_cents-largest_example =
    parse_largest_amount_cents-largest (codes "The fee is $125.50, or $20 by mail.") 12550 refl

parse_largest_amount_cents-le_example : 12550 ≤ 99999999
unfolding parse_largest_amount_cents is_space is_digit filter
parse_largest_amount_cents-le_example =
    parse_largest_amount_cents-le (codes "The fee is $125.50, or $20 by mail.") 12550 refl

handle_followup_job-again_example :
    handle_followup_job fulfilling_env (codes "job") (handle_followup_job env (codes "job") world).1
    ≡ (ok true, (handle_followup_job env (codes "job") world).1)
unfolding handle_followup_job get_thread get_campaign on_store get is_followup is_open send_followup
    first_outbound_subject send_on_thread deliver commit_send record_thread_send insert_email
    is_taken require_thread write_thread check_transition auto_transition same_status try_else ◌>>=◌
handle_followup_job-again_example =
    handle_followup_job-again env (codes "job") world (job 1) waiting_thread refl refl refl
      fulfilling_env refl (turn 1 refl refl (ground arith)) refl

queries_for-IsUsable_example :
    (queries : List Text) × (queries_for env campaign office world ≡ (ok queries, world))
    × IsUsable office queries
queries_for-IsUsable_example =
    queries_for-IsUsable env campaign office world (inl (generated, refl))

purge_campaign-IsPurged_example : IsPurged 1 store (purge_campaign 1 store).1
purge_campaign-IsPurged_example = purge_campaign-IsPurged 1 store (record {
  spend = (refl, tt, tt);
  escalations = tt;
  emails = (refl, tt, tt);
  threads = (refl, (ground arith, tt), (refl, tt, tt));
  targets = tt;
})

abbrev once : World
once = (handle_inbound records_env (codes "mail") world).1

abbrev twice : World
twice = (handle_inbound records_env (codes "mail") once).1

-- A mail that is matched by its sender's address and fulfills its thread is filed a second time when
-- it is delivered again: as an unmatched mail.
filed_twice : length (values twice.store.emails) ≡ 3
unfolding values handle_inbound ◌>>=◌ try_else match_thread on_store find_open_thread_by_contact
    is_open find text_eq get_campaign has_message_id is_message any get put classify_and_react
    insert_email is_taken react react_documents is_data get_jurisdiction store_attachments
    set_thread_status require_thread write_thread check_transition auto_transition same_status
    file_unmatched delete_spooled
filed_twice = refl

-- An amount of a million dollars and more, written with commas, is cut to its first eight characters.
truncated_amount : parse_largest_amount_cents (codes "$1,234,567.00") ≡ some 12345600
unfolding parse_largest_amount_cents is_space is_digit filter
truncated_amount = refl
