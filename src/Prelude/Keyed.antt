-- ===== src/Prelude/Keyed.antt =====
-- A table whose rows stand under their own ids.
use Prim.Native.Nat.{ℕ}
use mathlib.Core.Path.{◌≡◌, refl, sym, ap}
use mathlib.Core.Logic.{inl, inr}
use mathlib.Core.Bool.{Bool, false, not}
use mathlib.Core.Option.{some, some_inj, none-ne-some}
use mathlib.Core.List.{List, [], ◌∷◌, map}
use dialogue_microservices.Prelude.Tests.{◌==◌, ==_refl, ==_iff, Bool-cases}
use dialogue_microservices.Prelude.Lists.{All, filter}
use dialogue_microservices.Prelude.Dict.{Dict, get, put, values, erase, erase_all}

module _ {ℓ} {V : Type ℓ} (id : V → ℕ) where
  -- Each row stands under its own id, and no two rows under one.
  abbrev pub IsKeyed : Dict V → Type 0
  IsKeyed [] = Unit
  IsKeyed ((k, v) ∷ d) = (id v ≡ k) × All (λ e. (k == e.0) ≡ false) d × IsKeyed d

  erase_all-other :
      (k : ℕ) (v : V) (ids : List ℕ) (d : Dict V)
      → All (λ i. (k == i) ≡ false) ids
      → erase_all ids ((k, v) ∷ d) ≡ (k, v) ∷ erase_all ids d
  unfolding erase_all erase
  erase_all-other k v [] d h = refl
  erase_all-other k v (i ∷ ids) d h = rw h.0 (erase_all-other k v ids (erase i d) h.1)

  module _ (p : V → Bool) where
    filtered_ids-other :
        (k : ℕ) (d : Dict V)
        → All (λ e. (k == e.0) ≡ false) d
        → IsKeyed d
        → All (λ i. (k == i) ≡ false) (map id (filter p (values d)))
    unfolding filter values
    filtered_ids-other k [] h keyed = tt
    filtered_ids-other k ((j, v) ∷ d) h keyed = elim (Bool-cases (p v)) [
      | inl holds ↦ rw (holds, keyed.0) (h.0, filtered_ids-other k d h.1 keyed.2)
      | inr fails ↦ rw fails (filtered_ids-other k d h.1 keyed.2)
    ]

    -- To erase the ids of the rows that `p` holds of leaves the rows that it does not hold of.
    pub erase_all-filter :
        (d : Dict V)
        → IsKeyed d
        → values (erase_all (map id (filter p (values d))) d) ≡ filter (λ v. not (p v)) (values d)
    unfolding filter values erase_all erase
    erase_all-filter [] keyed = refl
    erase_all-filter ((k, v) ∷ d) keyed = elim (Bool-cases (p v)) [
      | inl holds ↦ rw (holds, keyed.0, ==_refl k) (erase_all-filter d keyed.2)
      | inr fails ↦
          rw (fails, erase_all-other k v _ d (filtered_ids-other k d keyed.1 keyed.2))
            (ap (λ vs. v ∷ vs) (erase_all-filter d keyed.2))
    ]

  -- Each row stands under its own id.
  abbrev pub IsOwn : Dict V → Type 0
  IsOwn = All (λ e. id e.1 ≡ e.0)

  pub IsOwn-put : (k : ℕ) (v : V) (d : Dict V) → id v ≡ k → IsOwn d → IsOwn (put k v d)
  unfolding put
  IsOwn-put k v [] same own = (same, tt)
  IsOwn-put k v ((j, w) ∷ d) same own = elim (Bool-cases (j == k)) [
    | inl here ↦ rw here (same, own.1)
    | inr later ↦ rw later (own.0, IsOwn-put k v d same own.1)
  ]

  pub IsOwn-erase : (k : ℕ) (d : Dict V) → IsOwn d → IsOwn (erase k d)
  unfolding erase
  IsOwn-erase k [] own = tt
  IsOwn-erase k ((j, w) ∷ d) own = elim (Bool-cases (j == k)) [
    | inl here ↦ rw here own.1
    | inr later ↦ rw later (own.0, IsOwn-erase k d own.1)
  ]

  pub IsOwn-get : (k : ℕ) (v : V) (d : Dict V) → IsOwn d → get d k ≡ some v → id v ≡ k
  unfolding get
  IsOwn-get k v [] own e = absurd (none-ne-some v e)
  IsOwn-get k v ((j, w) ∷ d) own e = elim (Bool-cases (j == k)) [
    | inl here ↦
        (let same : w ≡ v = some_inj.0 (rw here at e) in rw (sym same, own.0) ((==_iff j k).0 here))
    | inr later ↦ IsOwn-get k v d own.1 (rw later at e)
  ]
