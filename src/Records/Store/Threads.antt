-- ===== src/Records/Store/Threads.antt =====
-- FakeRecordsStore, email threads.
use dialogue_microservices.Prelude.{
  ℕ, List, [], ◌∷◌, ◌++◌, Option, Bool, false, ◌&&◌, ◌||◌, Text, text_eq, find, filter, take, leb,
  ltb, ◌==◌, sort_by, maybe,
}
use dialogue_microservices.Prelude.Dict.{get, put, values}
use dialogue_microservices.Prelude.Action.{Error, Action, lift, gets, modify, require, ◌>>=◌, ◌>>◌}
use dialogue_microservices.Records.Domain.{EmailThread, ThreadStatus, check_transition, is_open}
use dialogue_microservices.Records.Store.State.{Store}

unfoldable pub get_thread : ℕ → Action Store (Option EmailThread)
get_thread thread_id = gets (λ s. get s.threads thread_id)

unfoldable pub get_thread_by_token : Text → Action Store (Option EmailThread)
get_thread_by_token token =
    gets (λ s. find (λ (t : EmailThread). text_eq t.thread_token token) (values s.threads))

unfoldable pub is_thread_of : ℕ → ℕ → Text → EmailThread → Bool
is_thread_of campaign_id jurisdiction_id contact_email t =
    t.campaign_id == campaign_id
    && t.jurisdiction_id == jurisdiction_id
    && text_eq t.contact_email contact_email

unfoldable pub find_thread : ℕ → ℕ → Text → Action Store (Option EmailThread)
unfolding is_thread_of
find_thread campaign_id jurisdiction_id contact_email =
    gets (λ s. find (is_thread_of campaign_id jurisdiction_id contact_email) (values s.threads))

unfoldable pub find_open_thread_by_contact : Text → Action Store (Option EmailThread)
unfolding is_open
find_open_thread_by_contact contact_email = gets (λ s.
    find (λ (t : EmailThread). text_eq t.contact_email contact_email && is_open t.status)
      (values s.threads))

-- `self._threads[thread_id]`
unfoldable pub require_thread : ℕ → Action Store EmailThread
require_thread thread_id = require Error.key_error (λ s. get s.threads thread_id)

unfoldable pub write_thread : ℕ → EmailThread → Action Store Unit
write_thread thread_id t = modify (λ s. record s { threads = put thread_id t s.threads })

unfoldable pub set_thread_status : ℕ → ThreadStatus → Option ℕ → Bool → Action Store Unit
unfolding require_thread write_thread
set_thread_status thread_id status next_action_at by_human = do
  t ← require_thread thread_id
  lift (check_transition t.status status by_human)
  write_thread thread_id (record t { status = status; next_action_at = next_action_at })

-- An open thread whose next action is due.
unfoldable pub is_due : ℕ → EmailThread → Bool
unfolding is_open
is_due now t = is_open t.status && maybe t.next_action_at false (λ at. leb at now)

-- The sort key `(t.next_action_at, t.id)`; a due thread has a next action.
unfoldable pub due_before : EmailThread → EmailThread → Bool
due_before a b =
    let at = maybe a.next_action_at 0 (λ n. n) in
    let bt = maybe b.next_action_at 0 (λ n. n) in ltb at bt || (at == bt && leb a.id b.id)

unfoldable pub select_due_followups : ℕ → ℕ → Action Store (List EmailThread)
unfolding is_due due_before
select_due_followups now limit =
    gets (λ s. take limit (sort_by due_before (filter (is_due now) (values s.threads))))

unfoldable pub append_attachment_key : ℕ → Text → Action Store Unit
unfolding require_thread write_thread
append_attachment_key thread_id key = do
  t ← require_thread thread_id
  write_thread thread_id (record t { attachment_keys = t.attachment_keys ++ key ∷ [] })
