-- ===== src/Core/ObjectStore.antt =====
-- core/src/harvest_core/fakes/objectstore.py, class FakeObjectStore. Bytes are a list of numbers.
pub mod Map
use dialogue_microservices.Prelude.{
  ℕ, List, [], ◌∷◌, Bool, true, false, ◌&&◌, ◌||◌, Text, filter, length, starts_with, sort_by,
  maybe, ltb, ◌==◌,
}
use dialogue_microservices.Prelude.Action.{Error, Action, raise, pure}
use dialogue_microservices.Prelude.TextDict
use dialogue_microservices.Prelude.TextDict.{TextDict}

pub record ObjectStore : Type 0 where
  pub objects : TextDict (List ℕ)
  pub content_types : TextDict Text

abbrev pub empty_objects : ObjectStore
empty_objects = record { objects = []; content_types = [] }

unfoldable pub put : Text → List ℕ → Text → Action ObjectStore Unit
put key payload content_type o = pure tt (record {
  objects = TextDict.put key payload o.objects;
  content_types = TextDict.put key content_type o.content_types;
})

unfoldable pub get : Text → Action ObjectStore (List ℕ)
get key o =
    maybe (TextDict.get o.objects key) (raise Error.object_not_found o) (λ payload. pure payload o)

unfoldable pub delete : Text → Action ObjectStore Unit
delete key o = pure tt (record {
  objects = TextDict.erase key o.objects;
  content_types = TextDict.erase key o.content_types;
})

-- `a <= b` on texts
unfoldable pub text_le : Text → Text → Bool
text_le [] b = true
text_le (x ∷ a) [] = false
text_le (x ∷ a) (y ∷ b) = ltb x y || (x == y && text_le a b)

unfoldable pub list_keys : Text → Action ObjectStore (List Text)
unfolding text_le
list_keys prefix o =
    pure (sort_by text_le (filter (λ k. starts_with k prefix) (TextDict.keys o.objects))) o

unfoldable pub drop_objects : List Text → ObjectStore → ObjectStore
drop_objects [] o = o
drop_objects (key ∷ rest) o = drop_objects rest (record {
  objects = TextDict.erase key o.objects;
  content_types = TextDict.erase key o.content_types;
})

unfoldable pub delete_prefix : Text → Action ObjectStore ℕ
unfolding drop_objects
delete_prefix prefix o =
    let doomed = filter (λ k. starts_with k prefix) (TextDict.keys o.objects) in
    pure (length doomed) (drop_objects doomed o)
