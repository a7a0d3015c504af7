-- ===== src/Core/KeyValue/Lasting.antt =====
-- FakeKeyValue, the keys that no deadline is set on: what is written under them stays.
use dialogue_microservices.Prelude.{
  ℕ, ◌≡◌, refl, ◌∙◌, arith, [], ◌∷◌, none, true, false, Text, text_eq, text_eq_refl, is_some, leb,
  inl, inr, Bool-cases,
}
use dialogue_microservices.Prelude.TextDict.{
  TextDict, put, erase, get-put, get-erase_other, has_key, has_key-erase,
}
use dialogue_microservices.Prelude.TextDict
use dialogue_microservices.Core.KeyValue.{
  KeyValue, drop_key, purge_loop, purge_expired, is_held, setnx, get,
}

-- No deadline is set on the key, and no hash stands under it.
pub record IsPlain (key : Text) (kv : KeyValue) : Type 0 where
  pub lasting : has_key key kv.expiry ≡ false
  pub no_hash : TextDict.get kv.hashes key ≡ none

-- A text stands under the key, and no deadline is set on it.
pub record IsCached (key : Text) (kv : KeyValue) : Type 0 where
  pub lasting : has_key key kv.expiry ≡ false
  pub there : is_some (TextDict.get kv.strings key) ≡ true

-- What an expiry of other keys leaves of this one.
record Untouched (key : Text) (kv kv' : KeyValue) : Type 0 where
  strings : TextDict.get kv'.strings key ≡ TextDict.get kv.strings key
  hashes : TextDict.get kv'.hashes key ≡ TextDict.get kv.hashes key
  lasting : has_key key kv.expiry ≡ false → has_key key kv'.expiry ≡ false

drop_key-Untouched :
    (key other : Text) (kv : KeyValue)
    → text_eq other key ≡ false
    → Untouched key kv (drop_key other kv)
drop_key-Untouched key other kv differs = record {
  strings = get-erase_other other key kv.strings differs;
  hashes = get-erase_other other key kv.hashes differs;
  lasting = has_key-erase other key kv.expiry;
}

Untouched-trans :
    {key : Text} {a b c : KeyValue} → Untouched key a b → Untouched key b c → Untouched key a c
Untouched-trans p q = record {
  strings = q.strings ∙ p.strings;
  hashes = q.hashes ∙ p.hashes;
  lasting = λ h. q.lasting (p.lasting h);
}

purge_loop-Untouched :
    (key : Text) (now : ℕ) (deadlines : TextDict ℕ) (kv : KeyValue)
    → has_key key deadlines ≡ false
    → Untouched key kv (purge_loop now deadlines kv)
unfolding purge_loop has_key
purge_loop-Untouched key now [] kv h = record { strings = refl; hashes = refl; lasting = λ l. l }
purge_loop-Untouched key now ((other, deadline) ∷ rest) kv h =
    let differs : text_eq other key ≡ false = ground arith in
    let later : has_key key rest ≡ false = ground arith in
    elim (Bool-cases (leb deadline now)) [
      | inl dead ↦ rw dead (
          Untouched-trans (drop_key-Untouched key other kv differs)
            (purge_loop-Untouched key now rest (drop_key other kv) later))
      | inr alive ↦ rw alive (purge_loop-Untouched key now rest kv later)
    ]

-- The read of a cached key finds it, and leaves it cached.
pub get-IsCached :
    (now : ℕ) (key : Text) (kv : KeyValue)
    → IsCached key kv
    → (is_some (get now key kv).0 ≡ true) × IsCached key (get now key kv).1
unfolding get purge_expired
get-IsCached now key kv h =
    let kept = purge_loop-Untouched key now kv.expiry kv h.lasting in
    let there : is_some (TextDict.get (purge_loop now kv.expiry kv).strings key) ≡ true =
      rw kept.strings h.there in
    (there, record { lasting = kept.lasting h.lasting; there = there })

-- A read leaves a plain key plain.
pub get-IsPlain :
    (now : ℕ) (key other : Text) (kv : KeyValue) → IsPlain key kv → IsPlain key (get now other kv).1
unfolding get purge_expired
get-IsPlain now key other kv h =
    let kept = purge_loop-Untouched key now kv.expiry kv h.lasting in
    record { lasting = kept.lasting h.lasting; no_hash = kept.hashes ∙ h.no_hash }

-- After `setnx` a plain key is cached, whether it was there or not.
pub setnx-IsCached :
    (now : ℕ) (key value : Text) (kv : KeyValue)
    → IsPlain key kv
    → IsCached key (setnx now key value kv).1
unfolding setnx purge_expired is_held
setnx-IsCached now key value kv h =
    let kept = purge_loop-Untouched key now kv.expiry kv h.lasting in
    let no_hash : TextDict.get (purge_loop now kv.expiry kv).hashes key ≡ none =
      kept.hashes ∙ h.no_hash in
    elim (Bool-cases (is_some (TextDict.get (purge_loop now kv.expiry kv).strings key))) [
      | inl held ↦ rw (no_hash, held) (record { lasting = kept.lasting h.lasting; there = held })
      | inr free ↦
          rw (no_hash, free)
            (record {
              lasting = kept.lasting h.lasting;
              there =
                  rw (get-put key key value (purge_loop now kv.expiry kv).strings, text_eq_refl key)
                    refl;
            })
    ]

-- A read that finds a plain key shows that it is cached.
pub get-found :
    (now : ℕ) (key : Text) (kv : KeyValue)
    → IsPlain key kv
    → is_some (get now key kv).0 ≡ true
    → IsCached key (get now key kv).1
unfolding get
get-found now key kv h found = record {
  lasting = (get-IsPlain now key key kv h).lasting;
  there = found;
}
