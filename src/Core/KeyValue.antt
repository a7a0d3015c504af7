-- ===== src/Core/KeyValue.antt =====
-- core/src/harvest_core/fakes/kv.py, class FakeKeyValue: strings, hashes of counters and expiry.
-- The clock's reading is passed in.
pub mod Lasting
use dialogue_microservices.Prelude.{
  ℕ, ◌+◌, List, [], ◌∷◌, ◌++◌, Option, Bool, true, false, ◌||◌, Text, filter, length, starts_with,
  is_some, maybe, leb, if◌then◌else◌,
}
use dialogue_microservices.Prelude.TextDict
use dialogue_microservices.Prelude.TextDict.{TextDict}

pub record KeyValue : Type 0 where
  pub strings : TextDict Text
  pub hashes : TextDict (TextDict ℕ)
  pub expiry : TextDict ℕ

abbrev pub empty_kv : KeyValue
empty_kv = record { strings = []; hashes = []; expiry = [] }

-- One key dropped from both kinds, and its deadline.
abbrev pub drop_key : Text → KeyValue → KeyValue
drop_key key kv = record {
  strings = TextDict.erase key kv.strings;
  hashes = TextDict.erase key kv.hashes;
  expiry = TextDict.erase key kv.expiry;
}

-- The loop of `_purge_expired`, over a snapshot of the deadlines.
unfoldable pub purge_loop : ℕ → TextDict ℕ → KeyValue → KeyValue
purge_loop now [] kv = kv
purge_loop now ((key, deadline) ∷ rest) kv =
    purge_loop now rest (if leb deadline now then drop_key key kv else kv)

unfoldable pub purge_expired : ℕ → KeyValue → KeyValue
unfolding purge_loop
purge_expired now kv = purge_loop now kv.expiry kv

unfoldable pub is_held : Text → KeyValue → Bool
is_held key kv = is_some (TextDict.get kv.strings key) || is_some (TextDict.get kv.hashes key)

unfoldable pub setnx : ℕ → Text → Text → KeyValue → Bool × KeyValue
unfolding purge_expired is_held
setnx now key value kv =
    let kv' = purge_expired now kv in
    if is_held key kv'
    then (false, kv')
    else (true, record kv' { strings = TextDict.put key value kv'.strings })

unfoldable pub get : ℕ → Text → KeyValue → Option Text × KeyValue
unfolding purge_expired
get now key kv = let kv' = purge_expired now kv in (TextDict.get kv'.strings key, kv')

unfoldable pub expire : ℕ → Text → ℕ → KeyValue → KeyValue
unfolding is_held
expire now key ttl kv =
    if is_held key kv then record kv { expiry = TextDict.put key (now + ttl) kv.expiry } else kv

-- `h[field] = h.get(field, 0) + amount` for each increment
unfoldable pub add_fields : List (Text × ℕ) → TextDict ℕ → TextDict ℕ
add_fields [] h = h
add_fields ((field, amount) ∷ rest) h =
    add_fields rest (TextDict.put field (maybe (TextDict.get h field) 0 (λ n. n) + amount) h)

unfoldable pub hincrby : ℕ → Text → List (Text × ℕ) → KeyValue → TextDict ℕ × KeyValue
unfolding purge_expired add_fields
hincrby now key increments kv =
    let kv' = purge_expired now kv in
    let h = add_fields increments (maybe (TextDict.get kv'.hashes key) [] (λ old. old)) in
    (h, record kv' { hashes = TextDict.put key h kv'.hashes })

unfoldable pub drop_keys : List Text → KeyValue → KeyValue
drop_keys [] kv = kv
drop_keys (key ∷ rest) kv = drop_keys rest (drop_key key kv)

unfoldable pub delete_prefix : Text → KeyValue → ℕ × KeyValue
unfolding drop_keys
delete_prefix prefix kv =
    let doomed =
      filter (λ k. starts_with k prefix) (TextDict.keys kv.strings ++ TextDict.keys kv.hashes) in
    (length doomed, drop_keys doomed kv)
