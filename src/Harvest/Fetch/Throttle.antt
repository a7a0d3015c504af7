-- ===== src/Harvest/Fetch/Throttle.antt =====
-- fetch.py, `HostThrottle.wait`: one thread of the fetch pool among others.
use dialogue_microservices.Prelude.{
  ℕ, ◌≡◌, refl, inl, inr, List, [], ◌∷◌, ◌++◌, Bool, true, ◌+◌, ◌-◌, ◌≤◌, arith, Option, none, some,
  false, Text, text_eq_refl, Option-cases, Bool-cases, lower, leb, if◌then◌else◌,
}
use dialogue_microservices.Prelude.TextDict.{get, put, get-put}
use dialogue_microservices.Prelude.Action.{Result, ok, pure, gets, modify, ◌>>=◌}
use dialogue_microservices.Harvest.World.{Env, World, now, sleep}
use dialogue_microservices.Harvest.Fetch.{
  Others, idle, wait, wait_rounds, may_ask, time_left, fetch_spacing,
}

-- When a host that was asked before may be asked, not before the time `t`.
abbrev pub admitted_at : Option ℕ → ℕ → ℕ
admitted_at none t = t
admitted_at (some allowed) t = if leb allowed t then t else allowed

-- The world in which a host has just been admitted at the time `t`.
abbrev pub admitted : Text → ℕ → World → World
admitted host t w = record w {
  clock = t;
  next_allowed = put host (t + fetch_spacing) w.next_allowed;
}

wait_rounds-enough :
    (host : Text) (w : World)
    → wait_rounds (idle ∷ idle ∷ []) host w
      ≡ (ok true, admitted host (admitted_at (get w.next_allowed host) w.clock) w)
unfolding wait_rounds may_ask time_left now gets sleep modify ◌>>=◌ pure
wait_rounds-enough host w = elim (Option-cases (get w.next_allowed host)) [
  | inl fresh ↦ rw fresh refl
  | inr (allowed, e) ↦ rw e (elim (Bool-cases (leb allowed w.clock)) [
    | inl free ↦ rw free refl
    | inr busy ↦
        (let reached : w.clock + (allowed - w.clock) ≡ allowed = ground arith in
          let free : leb allowed allowed ≡ true = ground arith in rw (busy, e, reached, free) refl)
  ])
]

-- The wait of a thread that no other disturbs: it takes the time until the host may be asked again,
-- none for a host that may, and books the host for a second from then.
pub wait-alone :
    (env : Env) (url : Text) (w : World)
    → wait env url w ≡ (
      ok true,
      admitted
          (lower (env.urlsplit url).netloc)
          (admitted_at (get w.next_allowed (lower (env.urlsplit url).netloc)) w.clock)
          w,
    )
unfolding wait
wait-alone env url w = wait_rounds-enough (lower (env.urlsplit url).netloc) w

booked :
    (host : Text) (t : ℕ) (w : World)
    → get (admitted host t w).next_allowed host ≡ some (t + fetch_spacing)
booked host t w = rw (get-put host host (t + fetch_spacing) w.next_allowed, text_eq_refl host) refl

not_before : (t t' : ℕ) → t ≤ admitted_at (some t) t'
not_before t t' = ground arith

-- Two requests to one host are at least a second apart, whatever was done between them that left
-- the host's entry in the throttle alone.
pub wait-spaced :
    (env : Env) (url url' : Text) (w w' : World)
    → lower (env.urlsplit url').netloc ≡ lower (env.urlsplit url).netloc
    → get w'.next_allowed (lower (env.urlsplit url).netloc)
      ≡ get (wait env url w).1.next_allowed (lower (env.urlsplit url).netloc)
    → (wait env url w).1.clock + fetch_spacing ≤ (wait env url' w').1.clock
wait-spaced env url url' w w' same kept =
    rw
      (
        wait-alone env url' w',
        same,
        kept,
        wait-alone env url w,
        booked (lower (env.urlsplit url).netloc)
            (admitted_at (get w.next_allowed (lower (env.urlsplit url).netloc)) w.clock) w,
      )
      (not_before _ _)

-- Other threads that leave the entry of the host alone; the clock does not go back.
pub record IsQuiet (host : Text) (others : Others) : Type 0 where
  pub kept : (w : World) → get (others w).next_allowed host ≡ get w.next_allowed host
  pub onward : (w : World) → w.clock ≤ (others w).clock

-- The loop has ended, and the host is booked for a second from its end.
pub record IsBooked (host : Text) (ended : Result Bool × World) : Type 0 where
  pub done : ended.0 ≡ ok true
  pub held : get ended.1.next_allowed host ≡ some (ended.1.clock + fetch_spacing)

module _ (host : Text) where
  -- A round that finds the host free is the last.
  free_round :
      (others : Others) (later : List Others) (w : World)
      → may_ask host w.clock w ≡ true
      → IsBooked host (wait_rounds (others ∷ later) host w)
  unfolding wait_rounds now gets modify ◌>>=◌ pure
  free_round others later w free = rw free (record { done = refl; held = booked host w.clock w })

  -- A round that finds it taken sleeps until it is free.
  slept : World → World
  slept w = record w { clock = w.clock + time_left host w.clock w }

  busy_round :
      (others : Others) (later : List Others) (w : World)
      → may_ask host w.clock w ≡ false
      → wait_rounds (others ∷ later) host w ≡ wait_rounds later host (others (slept w))
  unfolding wait_rounds now gets sleep modify ◌>>=◌ pure slept
  busy_round others later w busy = rw busy refl

  quiet-may_ask :
      (others : Others) (w : World)
      → IsQuiet host others
      → may_ask host (others (slept w)).clock (others (slept w)) ≡ true
  unfolding may_ask slept time_left
  quiet-may_ask others w quiet = elim (Option-cases (get w.next_allowed host)) [
    | inl fresh ↦ rw (quiet.kept (slept w), fresh) refl
    | inr (allowed, e) ↦
        (let onward = quiet.onward (slept w) in rw (quiet.kept (slept w), e) (ground arith))
  ]

  -- However often other threads take the host first, the wait ends at the latest in the round after
  -- the first sleep in which no other thread books the host; it has then booked the host for a
  -- second from its end.
  pub wait_rounds-IsBooked :
      (before : List Others) (quiet last : Others) (after : List Others) (w : World)
      → IsQuiet host quiet
      → IsBooked host (wait_rounds (before ++ quiet ∷ last ∷ after) host w)
  wait_rounds-IsBooked [] quiet last after w still = elim (Bool-cases (may_ask host w.clock w)) [
    | inl free ↦ free_round quiet (last ∷ after) w free
    | inr busy ↦
        rw (busy_round quiet (last ∷ after) w busy)
          (free_round last after (quiet (slept w)) (quiet-may_ask quiet w still))
  ]
  wait_rounds-IsBooked (others ∷ before) quiet last after w still =
      elim (Bool-cases (may_ask host w.clock w)) [
        | inl free ↦ free_round others (before ++ quiet ∷ last ∷ after) w free
        | inr busy ↦
            rw (busy_round others (before ++ quiet ∷ last ∷ after) w busy)
              (wait_rounds-IsBooked before quiet last after (others (slept w)) still)
      ]
