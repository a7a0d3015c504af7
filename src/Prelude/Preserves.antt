-- ===== src/Prelude/Preserves.antt =====
-- Invariants of actions, one rule for each way to build an action. A relation to a fixed earlier
-- state is an invariant too, so these rules serve for statements about two states.
use mathlib.Core.Bool.{Bool, true, false}
use mathlib.Core.Option.{Option, none, some}
use dialogue_microservices.Prelude.Tests.{maybe, if◌then◌else◌}
use dialogue_microservices.Prelude.Action.{
  Error, Result, ok, err, Action, pure, raise, lift, gets, or_raise, require, ◌>>=◌, try_else,
  attempt, continue,
}

-- `m` preserves `P`, whether it returns or raises.
pub record Preserves {ℓ κ} {S A : Type ℓ} (P : S → Type κ) (m : Action S A) : Type (ℓ ⊔ κ) where
  pub from : (s : S) → P s → P (m s).1

module _ {ℓ κ} {S A : Type ℓ} {P : S → Type κ} where
  pub Preserves-pure : (a : A) → Preserves P (pure a)
  unfolding pure
  Preserves-pure a = record { from = λ s h. h }

  pub Preserves-raise : (e : Error) → Preserves P (raise {A = A} e)
  unfolding raise
  Preserves-raise e = record { from = λ s h. h }

  pub Preserves-lift : (r : Result A) → Preserves P (lift r)
  unfolding lift
  Preserves-lift r = record { from = λ s h. h }

  pub Preserves-gets : (f : S → A) → Preserves P (gets f)
  unfolding gets
  Preserves-gets f = record { from = λ s h. h }

  pub Preserves-or_raise : (e : Error) (o : Option A) → Preserves P (or_raise e o)
  unfolding or_raise
  Preserves-or_raise e none = record { from = λ s h. h }
  Preserves-or_raise e (some a) = record { from = λ s h. h }

  pub Preserves-require : (e : Error) (f : S → Option A) → Preserves P (require e f)
  unfolding require
  Preserves-require e f = record { from = λ s h. (Preserves-or_raise e (f s)).from s h }

  pub Preserves-if :
      (b : Bool) (m n : Action S A)
      → Preserves P m
      → Preserves P n
      → Preserves P (if b then m else n)
  Preserves-if true m n km kn = km
  Preserves-if false m n km kn = kn

module _ {ℓ κ} {S A B : Type ℓ} {P : S → Type κ} where
  Preserves-continue :
      (r : Result A) (f : A → Action S B) (s : S)
      → ((a : A) → Preserves P (f a))
      → P s
      → P (continue r f s).1
  Preserves-continue (ok a) f s kf h = (kf a).from s h
  Preserves-continue (err e) f s kf h = h

  pub Preserves-maybe :
      (o : Option A) (m : Action S B) (f : A → Action S B)
      → Preserves P m
      → ((a : A) → Preserves P (f a))
      → Preserves P (maybe o m f)
  Preserves-maybe none m f km kf = km
  Preserves-maybe (some a) m f km kf = kf a

  pub Preserves-attempt :
      (r : Result A) (f : A → Action S B) (h : Error → Action S B)
      → ((a : A) → Preserves P (f a))
      → ((e : Error) → Preserves P (h e))
      → Preserves P (attempt r f h)
  Preserves-attempt (ok a) f h kf kh = kf a
  Preserves-attempt (err e) f h kf kh = kh e

  pub Preserves-bind :
      (m : Action S A) (f : A → Action S B)
      → Preserves P m
      → ((a : A) → Preserves P (f a))
      → Preserves P (m >>= f)
  unfolding ◌>>=◌
  Preserves-bind m f km kf = record {
    from = λ s h. let (r, s') = m s in Preserves-continue r f s' kf (km.from s h);
  }

  -- What holds after `m` holds after what follows, if that preserves it.
  pub holds_after :
      (m : Action S A) (f : A → Action S B) (s : S)
      → P (m s).1
      → ((a : A) → Preserves P (f a))
      → P ((m >>= f) s).1
  unfolding ◌>>=◌
  holds_after m f s h kf = let (r, s') = m s in Preserves-continue r f s' kf h

  pub Preserves-try_else :
      (m : Action S A) (f : A → Action S B) (h : Error → Action S B)
      → Preserves P m
      → ((a : A) → Preserves P (f a))
      → ((e : Error) → Preserves P (h e))
      → Preserves P (try_else m f h)
  unfolding try_else
  Preserves-try_else m f h km kf kh = record {
    from = λ s p. let (r, s') = m s in (Preserves-attempt r f h kf kh).from s' (km.from s p);
  }

  -- The same for a call that may raise and the two ways on.
  pub holds_after_try :
      (m : Action S A) (f : A → Action S B) (h : Error → Action S B) (s : S)
      → P (m s).1
      → ((a : A) → Preserves P (f a))
      → ((e : Error) → Preserves P (h e))
      → P ((try_else m f h) s).1
  unfolding try_else
  holds_after_try m f h s p kf kh = let (r, s') = m s in (Preserves-attempt r f h kf kh).from s' p

pub ruleset preserves_rules = (
  Preserves-pure, Preserves-raise, Preserves-lift, Preserves-gets, Preserves-or_raise,
  Preserves-require, Preserves-if, Preserves-maybe, Preserves-attempt, Preserves-bind,
  Preserves-try_else,
)
