-- ===== src/Harvest/Store/Stamped.antt =====
-- FakeDatastore, the compare-and-set of a dispatch: one of two that expect the same stamp wins.
use dialogue_microservices.Prelude.{
  ℕ, ◌≡◌, refl, inl, inr, Option, none, some, true, false, Text, text_eq, text_eq_refl, ==_refl,
  Bool-cases, if◌then◌else◌,
}
use dialogue_microservices.Prelude.Dict.{get, put, get-put}
use dialogue_microservices.Prelude.Action.{ok, pure, raise, gets, modify, require, or_raise, ◌>>=◌}
use dialogue_microservices.Harvest.Domain.{SweepResult, SweepTarget}
use dialogue_microservices.Harvest.Store.State.{Datastore, same_text, same_time}
use dialogue_microservices.Harvest.Store.Targets.{
  stamp_target, finalize_target, is_expected, write_target, released,
}

-- The row of a target in a dispatch of `query_count` queries.
abbrev pub dispatched : ℕ → Text → ℕ → SweepTarget → SweepTarget
dispatched at dispatch_id query_count t = record t {
  dispatched_at = some at;
  dispatch_id = some dispatch_id;
  query_count = some query_count;
}

-- What a stamp does to a target that is there: it writes exactly where the row is as expected.
pub stamp_target-known :
    (i at : ℕ) (d : Text) (n : ℕ) (e : Option Text) (e_at : Option ℕ) (s : Datastore)
    (t : SweepTarget)
    → get s.targets i ≡ some t
    → stamp_target i at d n e e_at s ≡ (
        if is_expected e e_at t
        then (ok true, record s { targets = put i (dispatched at d n t) s.targets })
        else (ok false, s))
unfolding stamp_target require or_raise ◌>>=◌ pure raise modify write_target
stamp_target-known i at d n e e_at s t known = rw known (elim (Bool-cases (is_expected e e_at t)) [
  | inl same ↦ rw same refl
  | inr differs ↦ rw differs refl
])

same_text_refl : (o : Option Text) → same_text o o ≡ true
unfolding same_text
same_text_refl none = refl
same_text_refl (some d) = text_eq_refl d

same_time_refl : (o : Option ℕ) → same_time o o ≡ true
unfolding same_time
same_time_refl none = refl
same_time_refl (some t) = ==_refl t

get-put_same : (i : ℕ) (t : SweepTarget) (s : Datastore) → get (put i t s.targets) i ≡ some t
get-put_same i t s = rw (get-put i i t s.targets, ==_refl i) refl

module _ (i at : ℕ) (d : Text) (n : ℕ) (s : Datastore) (t : SweepTarget) where
  pub won :
      get s.targets i ≡ some t
      → stamp_target i at d n t.dispatch_id t.dispatched_at s
        ≡ (ok true, record s { targets = put i (dispatched at d n t) s.targets })
  unfolding is_expected
  won known =
      rw
        (
          stamp_target-known i at d n t.dispatch_id t.dispatched_at s t known,
          same_text_refl t.dispatch_id,
          same_time_refl t.dispatched_at,
        )
        refl

module _ (i at later : ℕ) (d d' : Text) (n n' : ℕ) (s : Datastore) (t : SweepTarget) where
  -- Two orchestrators that saw the same row of a target: the first stamp wins, and the second finds
  -- the row changed and leaves the store as it is, whenever and under whatever id it comes. The
  -- first dispatch id is to differ from the one in the row.
  pub stamp_target-exclusive :
      get s.targets i ≡ some t
      → same_text (some d) t.dispatch_id ≡ false
      → (stamp_target i at d n t.dispatch_id t.dispatched_at s
          ≡ (ok true, record s { targets = put i (dispatched at d n t) s.targets }))
        × (stamp_target i later d' n' t.dispatch_id t.dispatched_at
              (record s { targets = put i (dispatched at d n t) s.targets })
            ≡ (ok false, record s { targets = put i (dispatched at d n t) s.targets }))
  unfolding is_expected
  stamp_target-exclusive known fresh = (
    won i at d n s t known,
    rw
        (
          stamp_target-known i later d' n' t.dispatch_id t.dispatched_at
              (record s { targets = put i (dispatched at d n t) s.targets }) (dispatched at d n t)
              (get-put_same i (dispatched at d n t) s),
          fresh,
        )
        refl,
  )

  -- A target dispatched under one id is not finalized under another, so that a late worker of an
  -- earlier dispatch changes nothing; under its own id it is, and the dispatch is over.
  pub finalize_target-gated :
      (result : SweepResult) (due : ℕ)
      → get s.targets i ≡ some (dispatched at d n t)
      → finalize_target i d' result due s ≡ (
          if text_eq d d'
          then (ok true, record s { targets = put i (released due result t) s.targets })
          else (ok false, s))
  unfolding finalize_target gets ◌>>=◌ pure modify write_target same_text
  finalize_target-gated result due known =
      rw known
        (elim (Bool-cases (text_eq d d')) [ inl own ↦ rw own refl | inr other ↦ rw other refl ])
