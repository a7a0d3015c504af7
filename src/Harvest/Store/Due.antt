-- ===== src/Harvest/Store/Due.antt =====
-- FakeDatastore, `select_due`: which targets it hands out.
use dialogue_microservices.Prelude.{
  ℕ, ◌≡◌, ◌≤◌, ◌+◌, refl, ◌∙◌, arith, List, [], ◌∷◌, some, Bool, true, false, ◌&&◌, All, Text, any,
  any-filter, any-sort_by, All-filter, All-sort_by, All-take, filter, length, length-filter-le,
  length-sort_by, length-take-le, leb, ltb, le→leb, sort_by, take, take-all, text_eq, ◌==◌, ==_refl,
  inl, inr, Bool-cases,
}
use mathlib.Core.Option.{some_inj, none-ne-some}
use dialogue_microservices.Prelude.Dict.{Dict, get, put, values, get-put}
use dialogue_microservices.Prelude.Action.{ok, gets}
use dialogue_microservices.Harvest.Domain.{Source, SweepTarget}
use dialogue_microservices.Harvest.Store.State.{Datastore}
use dialogue_microservices.Harvest.Store.Targets.{
  select_due, stamp_target, is_due, in_flight, due_before,
}
use dialogue_microservices.Harvest.Store.Stamped.{dispatched, won}

-- What `select_due` answers: at most `limit` targets, all due, and all that are due if there is room
-- for every target of the store; `any` tests for a member.
pub record Selects (corpus : Text) (now : ℕ) (timeouts : Source → ℕ) (limit : ℕ) (s : Datastore)
    (out : List SweepTarget) : Type 0 where
  pub few : length out ≤ limit
  pub due : All (λ t. is_due corpus now timeouts t ≡ true) out
  pub all_due :
      length (values s.targets) ≤ limit
      → (p : SweepTarget → Bool)
      → any p out ≡ any (λ t. is_due corpus now timeouts t && p t) (values s.targets)

abbrev sorted_due : Text → ℕ → (Source → ℕ) → Datastore → List SweepTarget
sorted_due corpus now timeouts s =
    sort_by due_before (filter (is_due corpus now timeouts) (values s.targets))

room :
    (corpus : Text) (now : ℕ) (timeouts : Source → ℕ) (limit : ℕ) (s : Datastore)
    → length (values s.targets) ≤ limit
    → take limit (sorted_due corpus now timeouts s) ≡ sorted_due corpus now timeouts s
room corpus now timeouts limit s le =
    let sorted =
      length-sort_by due_before (filter (is_due corpus now timeouts) (values s.targets)) in
    let filtered = length-filter-le (is_due corpus now timeouts) (values s.targets) in
    take-all limit _ (omega arith)

-- `select_due` hands out due targets of the corpus only, at most `limit`, and with room for every
-- target of the store it hands out each that is due; it changes nothing.
pub select_due-Selects :
    (corpus : Text) (now : ℕ) (timeouts : Source → ℕ) (limit : ℕ) (s : Datastore)
    → (out : List SweepTarget) × (select_due corpus now timeouts limit s ≡ (ok out, s))
      × Selects corpus now timeouts limit s out
unfolding select_due gets
select_due-Selects corpus now timeouts limit s = (
  take limit (sorted_due corpus now timeouts s),
  refl,
  record {
    few = length-take-le limit _;
    due =
        All-take _ limit _
          (All-sort_by _ due_before _ (All-filter (is_due corpus now timeouts) (values s.targets)));
    all_due = λ le p.
        rw
          (
            room corpus now timeouts limit s le,
            any-sort_by p due_before (filter (is_due corpus now timeouts) (values s.targets)),
            any-filter p (is_due corpus now timeouts) (values s.targets),
          )
          refl;
  },
)

any-get :
    (p : SweepTarget → Bool) (i : ℕ) (t : SweepTarget) (d : Dict SweepTarget)
    → get d i ≡ some t
    → p t ≡ true
    → any p (values d) ≡ true
unfolding any get values
any-get p i t [] e holds = absurd (none-ne-some t e)
any-get p i t ((j, u) ∷ d) e holds = elim (Bool-cases (j == i)) [
  | inl here ↦ (let same : u ≡ t = some_inj.0 (rw here at e) in rw (same, holds) refl)
  | inr later ↦ (let rest = any-get p i t d (rw later at e) holds in ground arith)
]

-- A target with a stamp is due again when its timeout is over.
overdue :
    (corpus : Text) (now : ℕ) (timeouts : Source → ℕ) (t : SweepTarget) (at : ℕ)
    → text_eq t.corpus corpus ≡ true
    → t.next_due_at ≤ now
    → t.dispatched_at ≡ some at
    → at + timeouts t.source ≤ now
    → is_due corpus now timeouts t ≡ true
unfolding is_due in_flight
overdue corpus now timeouts t at own due stamped late =
    let past : leb t.next_due_at now ≡ true = le→leb _ _ due in
    let over : ltb now (at + timeouts t.source) ≡ false = ground arith in
    rw (own, past, stamped, over) refl

-- No dispatch is lost for good: when a target was stamped and nothing more came of it, `select_due`
-- hands it out again once its timeout is over, if there is room for every target; `p` is any test
-- that the stamped row passes.
pub stamp_target-recovered :
    (corpus : Text) (i at now n limit : ℕ) (d : Text) (timeouts : Source → ℕ) (s : Datastore)
    (t : SweepTarget)
    → get s.targets i ≡ some t
    → text_eq t.corpus corpus ≡ true
    → t.next_due_at ≤ now
    → at + timeouts t.source ≤ now
    → length (values (put i (dispatched at d n t) s.targets)) ≤ limit
    → (p : SweepTarget → Bool) → p (dispatched at d n t) ≡ true
    → (out : List SweepTarget) × ((select_due corpus now timeouts limit
          (stamp_target i at d n t.dispatch_id t.dispatched_at s).1).0
        ≡ ok out)
      × (any p out ≡ true)
stamp_target-recovered corpus i at now n limit d timeouts s t known own due late enough p passes =
    let s' : Datastore = record s { targets = put i (dispatched at d n t) s.targets } in
    let (out, answer, selects) = select_due-Selects corpus now timeouts limit s' in
    let is_again = overdue corpus now timeouts (dispatched at d n t) at own due refl late in
    let there : get s'.targets i ≡ some (dispatched at d n t) =
      rw (get-put i i (dispatched at d n t) s.targets, ==_refl i) refl in
    let both : is_due corpus now timeouts (dispatched at d n t) && p (dispatched at d n t) ≡ true =
      rw (is_again, passes) refl in
    (
      out,
      rw (won i at d n s t known, answer) refl,
      selects.all_due enough p
          ∙ any-get (λ u. is_due corpus now timeouts u && p u) i (dispatched at d n t) s'.targets
              there both,
    )
