-- ===== src/Core/ObjectStore/Map.antt =====
-- FakeObjectStore as a map from keys to bytes: what its methods do to the map.
use dialogue_microservices.Prelude.{
  ℕ, ◌≡◌, refl, ap, ◌∙◌, arith, inl, inr, List, [], ◌∷◌, Option, none, some, ◌&&◌, Text, any,
  filter, starts_with, text_eq, text_eq_iff, Bool-cases, Option-cases, if◌then◌else◌, maybe,
}
use dialogue_microservices.Prelude.TextDict
use dialogue_microservices.Prelude.TextDict.{
  TextDict, keys, has_key, get-put, get-absent, get-erase, IsDistinct, IsDistinct-put,
  IsDistinct-erase,
}
use dialogue_microservices.Prelude.Action.{Error, ok, err, pure, raise}
use dialogue_microservices.Core.ObjectStore.{
  ObjectStore, empty_objects, put, get, delete, drop_objects, delete_prefix,
}

-- The map that an object store stands for.
abbrev pub ObjectMap : Type 0
ObjectMap = Text → Option (List ℕ)

unfoldable pub map_of : ObjectStore → ObjectMap
map_of o key = TextDict.get o.objects key

abbrev pub put_in : Text → List ℕ → ObjectMap → ObjectMap
put_in key payload m j = if text_eq key j then some payload else m j

abbrev pub delete_in : Text → ObjectMap → ObjectMap
delete_in key m j = if text_eq key j then none else m j

abbrev pub delete_prefix_in : Text → ObjectMap → ObjectMap
delete_prefix_in prefix m j = if starts_with j prefix then none else m j

-- `o` stands for `m`, and holds no key twice.
pub record Represents (o : ObjectStore) (m : ObjectMap) : Type 0 where
  pub distinct : IsDistinct o.objects
  pub agrees : (key : Text) → map_of o key ≡ m key

dropped :
    (doomed : List Text) (o : ObjectStore)
    → IsDistinct o.objects
    → IsDistinct (drop_objects doomed o).objects
      × ((j : Text)
          → map_of (drop_objects doomed o) j
            ≡ (if any (λ k. text_eq k j) doomed then none else map_of o j))
unfolding drop_objects map_of any
dropped [] o h = (h, λ j. refl)
dropped (key ∷ doomed) o h =
    let smaller : ObjectStore = record {
      objects = TextDict.erase key o.objects;
      content_types = TextDict.erase key o.content_types;
    } in
    let (distinct, agrees) = dropped doomed smaller (IsDistinct-erase key o.objects h) in
    (distinct, λ j. (let gone = get-erase key j o.objects h in let rest = agrees j in ground arith))

-- The keys that begin with the prefix, among those of the dict.
doomed_keys :
    {V : Type 0} (prefix j : Text) (d : TextDict V)
    → any (λ k. text_eq k j) (filter (λ k. starts_with k prefix) (keys d))
      ≡ (starts_with j prefix && has_key j d)
unfolding any filter keys has_key
doomed_keys prefix j [] = ground arith
doomed_keys prefix j ((k, v) ∷ d) =
    let rest = doomed_keys prefix j d in
    elim (Bool-cases (text_eq k j)) [
      | inl same ↦
          (let alike : starts_with k prefix ≡ starts_with j prefix =
              ap (λ t. starts_with t prefix) ((text_eq_iff k j).0 same) in
            ground arith)
      | inr other ↦ ground arith
    ]

-- The object store is a map: `put` binds a key, `delete` unbinds it, and `delete_prefix` unbinds
-- exactly the keys that begin with the prefix.
pub put-Represents :
    (o : ObjectStore) (m : ObjectMap) (key : Text) (payload : List ℕ) (content_type : Text)
    → Represents o m
    → Represents (put key payload content_type o).1 (put_in key payload m)
unfolding put pure map_of
put-Represents o m key payload content_type h = record {
  distinct = IsDistinct-put key payload o.objects h.distinct;
  agrees = λ j. rw (get-put key j payload o.objects, h.agrees j) refl;
}

pub delete-Represents :
    (o : ObjectStore) (m : ObjectMap) (key : Text)
    → Represents o m
    → Represents (delete key o).1 (delete_in key m)
unfolding delete pure map_of
delete-Represents o m key h = record {
  distinct = IsDistinct-erase key o.objects h.distinct;
  agrees = λ j. rw (get-erase key j o.objects h.distinct, h.agrees j) refl;
}

pub delete_prefix-Represents :
    (o : ObjectStore) (m : ObjectMap) (prefix : Text)
    → Represents o m
    → Represents (delete_prefix prefix o).1 (delete_prefix_in prefix m)
unfolding delete_prefix pure map_of
delete_prefix-Represents o m prefix h =
    let doomed = filter (λ k. starts_with k prefix) (keys o.objects) in
    let (distinct, agrees) = dropped doomed o h.distinct in
    record {
      distinct = distinct;
      agrees = λ j.
          (let gone = agrees j in
            let which = doomed_keys prefix j o.objects in
            let same = h.agrees j in let absent = get-absent j o.objects in ground arith);
    }

-- The calls that change an object store, with what they do to it and to the map.
pub data Command : Type 0 where
  put_object : Text → List ℕ → Text → Command
  delete_object : Text → Command
  delete_objects : Text → Command

unfoldable pub run : List Command → ObjectStore → ObjectStore
run [] o = o
run (Command.put_object key payload content_type ∷ rest) o =
    run rest (put key payload content_type o).1
run (Command.delete_object key ∷ rest) o = run rest (delete key o).1
run (Command.delete_objects prefix ∷ rest) o = run rest (delete_prefix prefix o).1

unfoldable pub run_in : List Command → ObjectMap → ObjectMap
run_in [] m = m
run_in (Command.put_object key payload content_type ∷ rest) m = run_in rest (put_in key payload m)
run_in (Command.delete_object key ∷ rest) m = run_in rest (delete_in key m)
run_in (Command.delete_objects prefix ∷ rest) m = run_in rest (delete_prefix_in prefix m)

run-Represents :
    (commands : List Command) (o : ObjectStore) (m : ObjectMap)
    → Represents o m
    → Represents (run commands o) (run_in commands m)
unfolding run run_in
run-Represents [] o m h = h
run-Represents (Command.put_object key payload content_type ∷ rest) o m h =
    run-Represents rest _ _ (put-Represents o m key payload content_type h)
run-Represents (Command.delete_object key ∷ rest) o m h =
    run-Represents rest _ _ (delete-Represents o m key h)
run-Represents (Command.delete_objects prefix ∷ rest) o m h =
    run-Represents rest _ _ (delete_prefix-Represents o m prefix h)

-- The object store refines the map: after any sequence of its calls, from an empty one, a `get`
-- answers what the map holds under the key, and raises where it holds nothing.
pub run-refines :
    (commands : List Command) (key : Text)
    → (get key (run commands empty_objects)).0
      ≡ maybe (run_in commands (λ _. none) key) (err Error.object_not_found) ok
unfolding get map_of raise pure TextDict.get
run-refines commands key =
    let h =
      run-Represents commands empty_objects (λ _. none)
        (record { distinct = tt; agrees = λ j. refl }) in
    elim (Option-cases (run_in commands (λ _. none) key)) [
      | inl nothing ↦ (let same = h.agrees key ∙ nothing in rw (same, nothing) refl)
      | inr (payload, held) ↦ (let same = h.agrees key ∙ held in rw (same, held) refl)
    ]
