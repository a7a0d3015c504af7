-- ===== src/Core/Queue.antt =====
-- core/src/harvest_core/fakes/queue.py, class FakeQueue: SQS semantics against a clock whose
-- reading is passed in. A message id `m<n>` is the number n; times are microseconds.
-- The settable `send_hook`, which simulates a dead queue, is left unset.
pub mod Receive
use dialogue_microservices.Prelude.{
  ℕ, zero, suc, ◌+◌, List, [], ◌∷◌, ◌++◌, map, Option, none, some, Bool, true, false, not, ◌||◌,
  Text, filter, length, maybe, ltb, leb, ◌==◌, if◌then◌else◌,
}

pub record StoredMessage : Type 0 where
  pub id : ℕ
  pub body : Text
  pub receive_count : ℕ
  pub invisible_until : Option ℕ
  pub deleted : Bool

pub record QueueMessage : Type 0 where
  pub id : ℕ
  pub body : Text
  pub receive_count : ℕ

pub record Queue : Type 0 where
  pub visibility_timeout : ℕ
  pub max_receive_count : ℕ
  pub dlq : List QueueMessage
  pub messages : List StoredMessage
  pub next_id : ℕ

abbrev pub empty_queue : ℕ → ℕ → Queue
empty_queue timeout limit = record {
  visibility_timeout = timeout;
  max_receive_count = limit;
  dlq = [];
  messages = [];
  next_id = 1;
}

unfoldable pub send : Text → Queue → Queue
send body q = record q {
  messages =
      q.messages
      ++ (record {
        id = q.next_id;
        body = body;
        receive_count = 0;
        invisible_until = none;
        deleted = false;
      })
        ∷ [];
  next_id = suc q.next_id;
}

-- `msg.deleted`, or still invisible
unfoldable pub is_skipped : ℕ → StoredMessage → Bool
is_skipped now m = m.deleted || maybe m.invisible_until false (λ t. ltb now t)

abbrev pub handed : StoredMessage → QueueMessage
handed m = record { id = m.id; body = m.body; receive_count = m.receive_count }

-- `msg` after one more delivery
abbrev pub delivered : ℕ → ℕ → StoredMessage → StoredMessage
delivered now timeout m = record m {
  receive_count = suc m.receive_count;
  invisible_until = some (now + timeout);
}

-- What the loop of `receive` leaves behind: the stored messages, those handed out, those dead.
pub record Pass : Type 0 where
  pub stored : List StoredMessage
  pub out : List QueueMessage
  pub dead : List QueueMessage

abbrev pub keep : StoredMessage → Pass → Pass
keep m p = record p { stored = m ∷ p.stored }

abbrev pub bury : StoredMessage → Pass → Pass
bury m p = record p { stored = record m { deleted = true } ∷ p.stored; dead = handed m ∷ p.dead }

abbrev pub hand_out : StoredMessage → Pass → Pass
hand_out m p = record p { stored = m ∷ p.stored; out = handed m ∷ p.out }

-- `room` is `max_messages - len(out)`; the loop breaks when there is none.
module _ (now timeout limit : ℕ) where
  unfoldable pub receive_loop : ℕ → List StoredMessage → Pass
  unfolding is_skipped
  receive_loop room [] = record { stored = []; out = []; dead = [] }
  receive_loop zero (m ∷ ms) = record { stored = m ∷ ms; out = []; dead = [] }
  receive_loop (suc room) (m ∷ ms) =
      let passed_over = keep m (receive_loop (suc room) ms) in
      let buried = bury m (receive_loop (suc room) ms) in
      let taken = hand_out (delivered now timeout m) (receive_loop room ms) in
      if is_skipped now m then passed_over else if leb limit m.receive_count then buried else taken

unfoldable pub receive : ℕ → ℕ → Queue → List QueueMessage × Queue
unfolding receive_loop
receive now max_messages q =
    let p = receive_loop now q.visibility_timeout q.max_receive_count max_messages q.messages in
    (p.out, record q { messages = p.stored; dlq = q.dlq ++ p.dead })

-- The first message that `test` holds of, changed.
unfoldable pub change_first :
    (StoredMessage → Bool)
    → (StoredMessage → StoredMessage)
    → List StoredMessage
    → List StoredMessage
change_first test f [] = []
change_first test f (m ∷ ms) = if test m then f m ∷ ms else m ∷ change_first test f ms

unfoldable pub delete : ℕ → Queue → Queue
unfolding change_first
delete message_id q = record q {
  messages = change_first (λ m. m.id == message_id) (λ m. record m { deleted = true }) q.messages;
}

unfoldable pub is_live_at : ℕ → StoredMessage → Bool
is_live_at message_id m = if m.id == message_id then not m.deleted else false

unfoldable pub change_visibility : ℕ → ℕ → ℕ → Queue → Queue
unfolding change_first is_live_at
change_visibility now message_id timeout q = record q {
  messages =
      change_first (is_live_at message_id)
        (λ m. record m { invisible_until = some (now + timeout) }) q.messages;
}

unfoldable pub pending_count : Queue → ℕ
pending_count q = length (filter (λ (m : StoredMessage). not m.deleted) q.messages)

unfoldable pub bodies : Queue → List Text
bodies q =
    map (λ (m : StoredMessage). m.body) (filter (λ (m : StoredMessage). not m.deleted) q.messages)
