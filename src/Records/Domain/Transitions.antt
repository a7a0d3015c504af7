-- ===== src/Records/Domain/Transitions.antt =====
-- The thread state machine: what the automatic transitions can reach.
use dialogue_microservices.Prelude.{◌≡◌, refl, Bool, true, false, arith, Bool-cases, inl, inr}
use dialogue_microservices.Prelude.Action.{ok}
use dialogue_microservices.Records.Domain.{
  ThreadStatus, auto_transition, same_status, check_transition,
}

-- A chain of automatic transitions.
pub data Leads (a : ThreadStatus) : ThreadStatus → Type 0 where
  here : Leads a a
  next : {b c : ThreadStatus} → Leads a b → auto_transition b c ≡ true → Leads a c

pub Leads-trans : {a b c : ThreadStatus} → Leads a b → Leads b c → Leads a c
Leads-trans p here = p
Leads-trans p (next q e) = next (Leads-trans p q) e

-- The statuses that only a human leaves.
abbrev pub is_settled : ThreadStatus → Bool
is_settled ThreadStatus.fulfilled = true
is_settled ThreadStatus.referred = true
is_settled ThreadStatus.needs_human = true
is_settled ThreadStatus.failed = true
is_settled _ = false

same_status-eq : (a b : ThreadStatus) → same_status a b ≡ true → a ≡ b
unfolding same_status
same_status-eq a b h = ground arith

pub same_status_refl : (a : ThreadStatus) → same_status a a ≡ true
unfolding same_status
same_status_refl a = ground arith

-- What `check_transition` lets through without a human is at most one automatic transition.
pub check_transition-Leads :
    (old new : ThreadStatus) → check_transition old new false ≡ ok tt → Leads old new
unfolding check_transition
check_transition-Leads old new h = elim (Bool-cases (same_status old new)) [
  | inl same ↦ rw (same_status-eq old new same) here
  | inr moved ↦ next here (ground arith)
]

-- No chain of automatic transitions leaves a settled status, and none reaches `failed`.
pub Leads-settled : {a b : ThreadStatus} → Leads a b → is_settled a ≡ true → b ≡ a
unfolding auto_transition
Leads-settled here h = refl
Leads-settled {a} (next {b} {c} p e) h = ground (arith, Leads-settled p h)

pub Leads-failed :
    {a b : ThreadStatus} → Leads a b → b ≡ ThreadStatus.failed → a ≡ ThreadStatus.failed
unfolding auto_transition
Leads-failed here h = h
Leads-failed (next {b} {c} p e) h = ground arith
