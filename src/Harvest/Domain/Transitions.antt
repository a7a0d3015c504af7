-- ===== src/Harvest/Domain/Transitions.antt =====
-- Where the artifact state machine leads.
use dialogue_microservices.Prelude.{◌≡◌, Bool, true, false, arith}
use dialogue_microservices.Prelude.Action.{ok}
use dialogue_microservices.Harvest.Domain.{ArtifactStatus, allowed_transition, check_transition}

-- A status that no transition of this phase leaves again, and that no work is done on.
abbrev pub is_worked : ArtifactStatus → Bool
is_worked ArtifactStatus.pending = false
is_worked _ = true

pub check_transition-allowed :
    (a b : ArtifactStatus) → check_transition a b ≡ ok tt → allowed_transition a b ≡ true
unfolding check_transition allowed_transition
check_transition-allowed a b e = ground arith
