-- ===== src/Prelude/TextDict.antt =====
-- A Python dict keyed by texts, in insertion order.
use mathlib.Core.Path.{◌≡◌, refl, sym, ◌∙◌}
use mathlib.Core.Logic.{inl, inr}
use mathlib.Core.Bool.{Bool, false, ◌||◌}
use mathlib.Core.Option.{Option, none, some}
use mathlib.Core.List.{List, [], ◌∷◌}
use native.Mathlib.Omega.{arith}
use dialogue_microservices.Prelude.Tests.{if◌then◌else◌, Bool-cases}
use dialogue_microservices.Prelude.Texts.{Text, text_eq, text_eq_iff, text_eq_comm}

abbrev pub TextDict {ℓ} : Type ℓ → Type ℓ
TextDict V = List (Text × V)

module _ {ℓ} {V : Type ℓ} where
  unfoldable pub get : TextDict V → Text → Option V
  get [] k = none
  get ((j, v) ∷ d) k = if text_eq j k then some v else get d k

  unfoldable pub put : Text → V → TextDict V → TextDict V
  put k v [] = (k, v) ∷ []
  put k v ((j, w) ∷ d) = if text_eq j k then (k, v) ∷ d else (j, w) ∷ put k v d

  -- `d.pop(k, None)`
  unfoldable pub erase : Text → TextDict V → TextDict V
  erase k [] = []
  erase k ((j, w) ∷ d) = if text_eq j k then d else (j, w) ∷ erase k d

  unfoldable pub keys : TextDict V → List Text
  keys [] = []
  keys ((j, v) ∷ d) = j ∷ keys d

module _ {ℓ} {V : Type ℓ} where
  pub get-put :
      (k j : Text) (v : V) (d : TextDict V)
      → get (put k v d) j ≡ (if text_eq k j then some v else get d j)
  unfolding get put
  get-put k j v [] = refl
  get-put k j v ((i, w) ∷ d) =
      ground (arith, text_eq_iff i k, text_eq_iff i j, text_eq_iff k j, get-put k j v d)

  pub get-erase_other :
      (k j : Text) (d : TextDict V) → text_eq k j ≡ false → get (erase k d) j ≡ get d j
  unfolding get erase
  get-erase_other k j [] h = refl
  get-erase_other k j ((i, w) ∷ d) h =
      ground (arith, text_eq_iff i k, text_eq_iff i j, text_eq_iff k j, get-erase_other k j d h)

  -- Whether a key occurs.
  unfoldable pub has_key : Text → TextDict V → Bool
  has_key k [] = false
  has_key k ((j, w) ∷ d) = text_eq j k || has_key k d

  pub has_key-erase :
      (k j : Text) (d : TextDict V) → has_key j d ≡ false → has_key j (erase k d) ≡ false
  unfolding has_key erase
  has_key-erase k j [] h = refl
  has_key-erase k j ((i, w) ∷ d) h = ground (arith, has_key-erase k j d)

  -- No key stands twice.
  abbrev pub IsDistinct : TextDict V → Type 0
  IsDistinct [] = Unit
  IsDistinct ((k, v) ∷ d) = (has_key k d ≡ false) × IsDistinct d

  pub get-absent : (k : Text) (d : TextDict V) → has_key k d ≡ false → get d k ≡ none
  unfolding get has_key
  get-absent k [] h = refl
  get-absent k ((j, v) ∷ d) h = ground (arith, get-absent k d)

  has_key-put :
      (k j : Text) (v : V) (d : TextDict V) → has_key j (put k v d) ≡ (text_eq k j || has_key j d)
  unfolding has_key put
  has_key-put k j v [] = refl
  has_key-put k j v ((i, w) ∷ d) =
      ground (arith, text_eq_iff i k, text_eq_iff i j, text_eq_iff k j, has_key-put k j v d)

  pub IsDistinct-put : (k : Text) (v : V) (d : TextDict V) → IsDistinct d → IsDistinct (put k v d)
  unfolding put has_key
  IsDistinct-put k v [] h = (refl, tt)
  IsDistinct-put k v ((j, w) ∷ d) h = elim (Bool-cases (text_eq j k)) [
    | inl same ↦ (let e = (text_eq_iff j k).0 same in rw same (rw (sym e) h.0, h.1))
    | inr other ↦
        (let apart : text_eq k j ≡ false = text_eq_comm k j ∙ other in
          rw other (rw (has_key-put k j v d, apart, h.0) refl, IsDistinct-put k v d h.1))
  ]

  pub IsDistinct-erase : (k : Text) (d : TextDict V) → IsDistinct d → IsDistinct (erase k d)
  unfolding erase
  IsDistinct-erase k [] h = tt
  IsDistinct-erase k ((j, w) ∷ d) h = elim (Bool-cases (text_eq j k)) [
    | inl same ↦ rw same h.1
    | inr other ↦ rw other (has_key-erase k j d h.0, IsDistinct-erase k d h.1)
  ]

  erased : (k : Text) (d : TextDict V) → IsDistinct d → get (erase k d) k ≡ none
  unfolding get erase
  erased k [] h = refl
  erased k ((j, w) ∷ d) h = elim (Bool-cases (text_eq j k)) [
    | inl same ↦ (let e = (text_eq_iff j k).0 same in rw same (get-absent k d (rw (sym e) h.0)))
    | inr other ↦ rw (other, other) (erased k d h.1)
  ]

  -- In a dict without double keys an erased key is gone.
  pub get-erase :
      (k j : Text) (d : TextDict V)
      → IsDistinct d
      → get (erase k d) j ≡ (if text_eq k j then none else get d j)
  get-erase k j d h = elim (Bool-cases (text_eq k j)) [
    | inl same ↦ (let e = (text_eq_iff k j).0 same in rw (same, sym e) (erased k d h))
    | inr other ↦ rw other (get-erase_other k j d other)
  ]
