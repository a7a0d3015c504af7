-- ===== src/Records/Acknowledged.antt =====
-- The runs of a handler that acknowledge their message, as `handle_followup_job` of sender.py and
-- `handle_inbound` of receiver.py do by returning true.
use dialogue_microservices.Prelude.{◌≡◌, refl, inl, inr, Bool, true, false, arith, Bool-cases}
use dialogue_microservices.Prelude.Action.{Error, Result, ok, pure, raise, ok_inj, err_ne_ok}
use dialogue_microservices.Records.World.{World, except}

-- `P` holds of the world after a run that returned true.
abbrev pub IfTrue : (World → Type 0) → Result Bool × World → Type 0
IfTrue P r = r.0 ≡ ok true → P r.1

-- A handled exception is no success.
pub except-IfTrue :
    (P : World → Type 0) (is : Error → Bool) (e : Error) (w : World)
    → IfTrue P (except is (pure false) e w)
unfolding pure raise
except-IfTrue P is e w = elim (Bool-cases (is e)) [
  | inl caught ↦ rw caught (λ q. absurd (let p = ok_inj q in ground arith))
  | inr passed ↦ rw passed (λ q. absurd (err_ne_ok q))
]

-- A pair, from its parts.
pub both_parts : {A B : Type 0} (p : A × B) (a : A) (b : B) → p.0 ≡ a → p.1 ≡ b → p ≡ (a, b)
both_parts (x, y) a b e f = rw (e, f) refl
