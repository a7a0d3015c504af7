-- ===== src/Prelude/Dict.antt =====
-- A Python dict keyed by row ids, in insertion order.
use Prim.Native.Nat.{ℕ, suc, ◌<◌, ◌≤◌}
use mathlib.Core.Path.{◌≡◌, refl}
use mathlib.Core.Bool.{false}
use mathlib.Core.Option.{Option, none, some}
use mathlib.Core.List.{List, [], ◌∷◌, ◌++◌}
use native.Mathlib.Omega.{arith}
use dialogue_microservices.Prelude.Tests.{◌==◌, if◌then◌else◌}

abbrev pub Dict {ℓ} : Type ℓ → Type ℓ
Dict V = List (ℕ × V)

module _ {ℓ} {V : Type ℓ} where
  -- `d.get(k)`
  unfoldable pub get : Dict V → ℕ → Option V
  get [] k = none
  get ((j, v) ∷ d) k = if j == k then some v else get d k

  -- `d[k] = v`: in place, or at the end
  unfoldable pub put : ℕ → V → Dict V → Dict V
  put k v [] = (k, v) ∷ []
  put k v ((j, w) ∷ d) = if j == k then (k, v) ∷ d else (j, w) ∷ put k v d

  -- `del d[k]`
  unfoldable pub erase : ℕ → Dict V → Dict V
  erase k [] = []
  erase k ((j, w) ∷ d) = if j == k then d else (j, w) ∷ erase k d

  -- `for i in ids: del d[i]`
  unfoldable pub erase_all : List ℕ → Dict V → Dict V
  unfolding erase
  erase_all [] d = d
  erase_all (i ∷ ids) d = erase_all ids (erase i d)

  -- `d.values()`
  unfoldable pub values : Dict V → List V
  values [] = []
  values ((j, v) ∷ d) = v ∷ values d

  -- Every key is below a counter: the next id is fresh.
  abbrev pub KeysBelow : ℕ → Dict V → Type 0
  KeysBelow n [] = Unit
  KeysBelow n ((j, v) ∷ d) = (j < n) × KeysBelow n d

module _ {ℓ} {V : Type ℓ} where
  pub get-put :
      (k j : ℕ) (v : V) (d : Dict V) → get (put k v d) j ≡ (if k == j then some v else get d j)
  unfolding get put
  get-put k j v [] = refl
  get-put k j v (e ∷ d) = ground (arith, get-put k j v d)

  pub get-fresh : (n : ℕ) (d : Dict V) → KeysBelow n d → get d n ≡ none
  unfolding get
  get-fresh n [] h = refl
  get-fresh n (e ∷ d) h = ground (arith, get-fresh n d h.1)

  pub values-put_fresh :
      (n : ℕ) (v : V) (d : Dict V) → KeysBelow n d → values (put n v d) ≡ values d ++ v ∷ []
  unfolding values put
  values-put_fresh n v [] h = refl
  values-put_fresh n v (e ∷ d) h = ground (arith, values-put_fresh n v d h.1)

  pub KeysBelow-mono : (n m : ℕ) (d : Dict V) → n ≤ m → KeysBelow n d → KeysBelow m d
  KeysBelow-mono n m [] le h = tt
  KeysBelow-mono n m (e ∷ d) le h = (omega arith, KeysBelow-mono n m d le h.1)

  pub KeysBelow-put :
      (n k : ℕ) (v : V) (d : Dict V) → k < n → KeysBelow n d → KeysBelow n (put k v d)
  unfolding put
  KeysBelow-put n k v [] lt h = (lt, tt)
  KeysBelow-put n k v (e ∷ d) lt h = ground (arith, KeysBelow-put n k v d lt h.1)

  pub KeysBelow-put_fresh :
      (n : ℕ) (v : V) (d : Dict V) → KeysBelow n d → KeysBelow (suc n) (put n v d)
  KeysBelow-put_fresh n v d h =
      KeysBelow-put (suc n) n v d (omega arith) (KeysBelow-mono n (suc n) d (omega arith) h)

  pub get-below : (n k : ℕ) (v : V) (d : Dict V) → KeysBelow n d → get d k ≡ some v → k < n
  unfolding get
  get-below n k v [] h e = absurd (cc)
  get-below n k v (x ∷ d) h e = ground (arith, get-below n k v d h.1)

  -- A write under a fresh key hides no other row.
  pub get-put_fresh :
      (n j : ℕ) (u v : V) (d : Dict V)
      → KeysBelow n d
      → get d j ≡ some v
      → get (put n u d) j ≡ some v
  get-put_fresh n j u v d h e = ground (arith, get-put n j u d, get-below n j v d h e)

  pub KeysBelow-erase : (n k : ℕ) (d : Dict V) → KeysBelow n d → KeysBelow n (erase k d)
  unfolding erase
  KeysBelow-erase n k [] h = tt
  KeysBelow-erase n k (e ∷ d) h = ground (arith, KeysBelow-erase n k d h.1)

  pub get-erase_other : (k j : ℕ) (d : Dict V) → (k == j) ≡ false → get (erase k d) j ≡ get d j
  unfolding get erase
  get-erase_other k j [] h = refl
  get-erase_other k j (e ∷ d) h = ground (arith, get-erase_other k j d h)
