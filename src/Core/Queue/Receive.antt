-- ===== src/Core/Queue/Receive.antt =====
-- What one call of `receive` of FakeQueue does to the messages.
use dialogue_microservices.Prelude.{
  ℕ, zero, suc, ◌+◌, ◌≤◌, ◌<◌, ◌≡◌, refl, ap, inl, inr, List, [], ◌∷◌, Bool, true, false, not,
  arith, filter, length, length-append, leb, All, Bool-cases, or_false,
}
use dialogue_microservices.Core.Queue.{
  Queue, StoredMessage, QueueMessage, Pass, is_skipped, receive_loop, receive, pending_count,
}

abbrev live : StoredMessage → Bool
live m = not m.deleted

-- A delivery that counts: at least the first, and at most the limit.
pub record Counted (limit : ℕ) (m : QueueMessage) : Type 0 where
  pub first : 1 ≤ m.receive_count
  pub last : m.receive_count ≤ limit

-- What a pass over `ms` with so much room guarantees.
record Fair (limit room : ℕ) (ms : List StoredMessage) (p : Pass) : Type 0 where
  fits : length p.out ≤ room
  kept : length p.stored ≡ length ms
  balance : length (filter live ms) ≡ length (filter live p.stored) + length p.dead
  counted : All (Counted limit) p.out

module _ (now timeout limit : ℕ) where
  visible_live : (m : StoredMessage) → is_skipped now m ≡ false → m.deleted ≡ false
  unfolding is_skipped
  visible_live m e = (or_false m.deleted _ e).0

  receive_loop-Fair :
      (room : ℕ) (ms : List StoredMessage)
      → Fair limit room ms (receive_loop now timeout limit room ms)
  unfolding receive_loop is_skipped length filter
  receive_loop-Fair room [] = record {
    fits = ground arith;
    kept = refl;
    balance = refl;
    counted = tt;
  }
  receive_loop-Fair zero (m ∷ ms) = record {
    fits = ground arith;
    kept = refl;
    balance = ground arith;
    counted = tt;
  }
  receive_loop-Fair (suc room) (m ∷ ms) =
      let over = receive_loop-Fair (suc room) ms in
      let taken = receive_loop-Fair room ms in
      elim (Bool-cases (is_skipped now m)) [
        | inl skipped ↦ rw skipped (record {
          fits = over.fits;
          kept = ap suc over.kept;
          balance = let b = over.balance in ground arith;
          counted = over.counted;
        })
        | inr visible ↦ rw visible (elim (Bool-cases (leb limit m.receive_count)) [
          | inl worn ↦ rw worn (record {
            fits = over.fits;
            kept = ap suc over.kept;
            balance = let b = over.balance in rw (visible_live m visible) (ground arith);
            counted = over.counted;
          })
          | inr fresh ↦ rw fresh (record {
            fits = let f = taken.fits in ground arith;
            kept = ap suc taken.kept;
            balance = let b = taken.balance in rw (visible_live m visible) (ground arith);
            counted = (record { first = ground arith; last = ground arith }, taken.counted);
          })
        ])
      ]

-- One call of `receive` hands out at most `max_messages` messages, each within its delivery limit
-- and counted at least once; and a message only leaves the queue for the dead letters: the
-- undeleted messages and the dead letters are together as many as before.
pub receive-fair :
    (now max_messages : ℕ) (q : Queue)
    → let (out, q') = receive now max_messages q in
      (length out ≤ max_messages)
      × All (Counted q.max_receive_count) out
      × (pending_count q' + length q'.dlq ≡ pending_count q + length q.dlq)
unfolding receive pending_count
receive-fair now n q =
    let p = receive_loop now q.visibility_timeout q.max_receive_count n q.messages in
    let f = receive_loop-Fair now q.visibility_timeout q.max_receive_count n q.messages in
    let b = f.balance in (f.fits, f.counted, rw (length-append q.dlq p.dead) (ground arith))

abbrev Hidden : ℕ → StoredMessage → Type 0
Hidden now m = is_skipped now m ≡ true

module _ (now timeout limit : ℕ) where
  receive_loop-Hidden :
      (room : ℕ) (ms : List StoredMessage)
      → length ms ≤ room
      → 0 < timeout
      → All (Hidden now) (receive_loop now timeout limit room ms).stored
  unfolding receive_loop is_skipped length
  receive_loop-Hidden room [] fits later = tt
  receive_loop-Hidden zero (m ∷ ms) fits later = ground arith
  receive_loop-Hidden (suc room) (m ∷ ms) fits later =
      let over = receive_loop-Hidden (suc room) ms (ground arith) later in
      let taken = receive_loop-Hidden room ms (ground arith) later in
      elim (Bool-cases (is_skipped now m)) [
        | inl skipped ↦ rw skipped (skipped, over)
        | inr visible ↦ rw visible (elim (Bool-cases (leb limit m.receive_count)) [
          | inl worn ↦ rw worn (refl, over)
          | inr fresh ↦
              rw fresh (rw (visible_live now timeout limit m visible) (ground arith), taken)
        ])
      ]

  All-Hidden :
      (room : ℕ) (ms : List StoredMessage)
      → All (Hidden now) ms
      → (receive_loop now timeout limit room ms).out ≡ []
  unfolding receive_loop
  All-Hidden room [] h = refl
  All-Hidden zero (m ∷ ms) h = refl
  All-Hidden (suc room) (m ∷ ms) h = rw h.0 (All-Hidden (suc room) ms h.1)

-- What `receive` hands out is invisible to the next call: after a call with room for every message,
-- a further call at the same instant hands out nothing, where the visibility timeout is positive.
pub receive-hidden :
    (now max_messages again : ℕ) (q : Queue)
    → length q.messages ≤ max_messages
    → 0 < q.visibility_timeout
    → (receive now again (receive now max_messages q).1).0 ≡ []
unfolding receive
receive-hidden now n again q fits later =
    All-Hidden now q.visibility_timeout q.max_receive_count again _
      (receive_loop-Hidden now q.visibility_timeout q.max_receive_count n q.messages fits later)
