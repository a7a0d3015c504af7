-- ===== src/Prelude/Action.antt =====
-- A method call on an object `S`: a state and an exception. What was written before a raise stays
-- written, so the state comes back beside the error too.
use mathlib.Core.Path.{◌≡◌, refl, sym, ap}
use mathlib.Core.Logic.{◌≢◌, ◌⊎◌, inl, inr}
use mathlib.Core.Bool.{Bool, true, false, true≢false}
use mathlib.Core.Option.{Option}
use dialogue_microservices.Prelude.Tests.{maybe, if◌then◌else◌}

-- The exception classes that the modelled code raises or catches.
pub data Error : Type 0 where
  unique_violation illegal_transition key_error validation_error assertion_error : Error
  draft_error send_transient_error classify_error generation_error object_not_found : Error
  lookup_error rate_limited pick_error triage_error unreachable_host fetch_error : Error
  transient_portal_error portal_error value_error other_error : Error

pub data Result {ℓ} (A : Type ℓ) : Type ℓ where
  ok : A → Result A
  err : Error → Result A

abbrev pub Action {ℓ} : Type ℓ → Type ℓ → Type ℓ
Action S A = S → Result A × S

module _ {ℓ} {S A : Type ℓ} where
  unfoldable pub pure : A → Action S A
  pure a s = (ok a, s)

  unfoldable pub raise : Error → Action S A
  raise e s = (err e, s)

  unfoldable pub lift : Result A → Action S A
  lift r s = (r, s)

  unfoldable pub gets : (S → A) → Action S A
  gets f s = (ok (f s), s)

  -- `d[k]` on a dict, which raises KeyError
  unfoldable pub or_raise : Error → Option A → Action S A
  unfolding raise pure
  or_raise e o = maybe o (raise e) pure

  -- `self.table[k]`, where `f` looks the key up: the exception is KeyError
  unfoldable pub require : Error → (S → Option A) → Action S A
  unfolding or_raise
  require e f s = or_raise e (f s) s

unfoldable pub modify {ℓ} : {S : Type ℓ} → (S → S) → Action S Unit
modify f s = (ok tt, f s)

module _ {ℓ} {S A B : Type ℓ} where
  -- `abbrev`, so that it computes on a known result wherever it stands
  abbrev pub continue : Result A → (A → Action S B) → Action S B
  continue (ok a) f s = f a s
  continue (err e) f s = (err e, s)

  -- the outcome of a call that may raise: `f` on what it returns, `h` on what it raises
  abbrev pub attempt : Result A → (A → Action S B) → (Error → Action S B) → Action S B
  attempt (ok a) f h = f a
  attempt (err e) f h = h e

  infixl 5 ◌>>=◌ ◌>>◌
  unfoldable pub ◌>>=◌ : Action S A → (A → Action S B) → Action S B
  unfolding pure raise lift gets modify or_raise require
  ◌>>=◌ m f s = let (r, s') = m s in continue r f s'

  abbrev pub ◌>>◌ : Action S A → Action S B → Action S B
  m >> n = m >>= λ _. n

  -- `try: m` with the handler `h`, and `f` after the `try`
  unfoldable pub try_else : Action S A → (A → Action S B) → (Error → Action S B) → Action S B
  try_else m f h s = let (r, s') = m s in attempt r f h s'

-- `except C: m`, for a class C that `is` tells: any other exception propagates.
abbrev pub except {ℓ} : {S A : Type ℓ} → (Error → Bool) → Action S A → Error → Action S A
except is m e = if is e then m else raise e

unfoldable pub is_unique_violation : Error → Bool
is_unique_violation Error.unique_violation = true
is_unique_violation _ = false

-- To split on the outcome of a call and keep the equation.
pub Result-cases {ℓ} :
    {A : Type ℓ} (r : Result A) → ((a : A) × (r ≡ ok a)) ⊎ ((e : Error) × (r ≡ err e))
Result-cases (ok a) = inl (a, refl)
Result-cases (err e) = inr (e, refl)

from_ok {ℓ} : {A : Type ℓ} → A → Result A → A
from_ok a (ok b) = b
from_ok a (err e) = a

pub ok_inj {ℓ} : {A : Type ℓ} {a b : A} → ok a ≡ ok b → a ≡ b
unfolding from_ok
ok_inj {a} e = ap (from_ok a) e

is_ok {ℓ} : {A : Type ℓ} → Result A → Bool
is_ok (ok a) = true
is_ok (err e) = false

pub err_ne_ok {ℓ} : {A : Type ℓ} {a : A} {e : Error} → err e ≢ ok a
unfolding is_ok
err_ne_ok h = true≢false (sym (ap is_ok h))
