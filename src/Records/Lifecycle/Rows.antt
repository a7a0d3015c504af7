-- ===== src/Records/Lifecycle/Rows.antt =====
-- The relation between the thread rows of two stores, under the store's two writes.
use dialogue_microservices.Prelude.{
  ℕ, suc, ◌≤◌, ◌≡◌, refl, some, true, arith, ◌==◌, Bool-cases, inl, inr,
}
use dialogue_microservices.Prelude.Dict.{
  Dict, get, put, KeysBelow, get-put, get-put_fresh, get-below, KeysBelow-put, KeysBelow-put_fresh,
}
use dialogue_microservices.Records.Domain.{EmailThread}
use dialogue_microservices.Records.Domain.Transitions.{Leads, here, Leads-trans}
use dialogue_microservices.Records.Store.{Store}

-- A later version of a row: its status came by automatic transitions, its identity stays, and its
-- counter of follow-ups has not fallen.
pub record Follows (t t' : EmailThread) : Type 0 where
  pub status : Leads t.status t'.status
  pub campaign : t'.campaign_id ≡ t.campaign_id
  pub jurisdiction : t'.jurisdiction_id ≡ t.jurisdiction_id
  pub token : t'.thread_token ≡ t.thread_token
  pub counter : t.followups_sent ≤ t'.followups_sent

pub Follows-refl : (t : EmailThread) → Follows t t
Follows-refl t = record {
  status = here;
  campaign = refl;
  jurisdiction = refl;
  token = refl;
  counter = omega arith;
}

pub Follows-trans : {t u v : EmailThread} → Follows t u → Follows u v → Follows t v
Follows-trans p q = record {
  status = Leads-trans p.status q.status;
  campaign = rw q.campaign p.campaign;
  jurisdiction = rw q.jurisdiction p.jurisdiction;
  token = rw q.token p.token;
  counter = omega (arith, p.counter, q.counter);
}

-- Every row of `s0` is there in `s`, in a later version; the next id of `s` is fresh.
pub record Evolves (s0 s : Store) : Type 0 where
  pub below : KeysBelow s.next_thread s.threads
  pub rows :
      (i : ℕ) (t : EmailThread)
      → get s0.threads i ≡ some t
      → (t' : EmailThread) × (get s.threads i ≡ some t') × Follows t t'

pub Evolves-refl : (s : Store) → KeysBelow s.next_thread s.threads → Evolves s s
Evolves-refl s h = record { below = h; rows = λ i t e. (t, e, Follows-refl t) }

-- A store with the same threads has evolved as far.
pub Evolves-same :
    (s0 s s' : Store)
    → s'.threads ≡ s.threads
    → s'.next_thread ≡ s.next_thread
    → Evolves s0 s
    → Evolves s0 s'
Evolves-same s0 s s' p q h = record {
  below = rw (p, q) h.below;
  rows = λ i t e. rw p (h.rows i t e);
}

same_row :
    (d : Dict EmailThread) (i j : ℕ) (u v : EmailThread)
    → get d i ≡ some u
    → get d j ≡ some v
    → (i == j) ≡ true
    → v ≡ u
same_row d i j u v p q same = ground arith

module _ (s0 s : Store) (h : Evolves s0 s) where
  row_after_write :
      (i : ℕ) (u u' : EmailThread)
      → get s.threads i ≡ some u
      → Follows u u'
      → (j : ℕ) (t : EmailThread) → get s0.threads j ≡ some t
      → (t' : EmailThread) × (get (put i u' s.threads) j ≡ some t') × Follows t t'
  row_after_write i u u' known f j t e =
      let (v, ev, fv) = h.rows j t e in
      elim (Bool-cases (i == j)) [
        | inl same ↦ (u', rw (get-put, same), Follows-trans (later_of v ev fv same) f)
        | inr other ↦ (v, rw (get-put, other) ev, fv)
      ]
    where
      later_of :
          (v : EmailThread) → get s.threads j ≡ some v → Follows t v → (i == j) ≡ true → Follows t u
      later_of v ev fv same = rw (same_row s.threads i j u v known ev same) at fv

  -- Writing a later version of a row.
  pub Evolves-write :
      (i : ℕ) (u u' : EmailThread)
      → get s.threads i ≡ some u
      → Follows u u'
      → Evolves s0 (record s { threads = put i u' s.threads })
  Evolves-write i u u' known f = record {
    below =
        KeysBelow-put s.next_thread i u' s.threads (get-below _ i u s.threads h.below known)
          h.below;
    rows = row_after_write i u u' known f;
  }

  -- Adding a row under the next id.
  pub Evolves-insert :
      (u : EmailThread)
      → Evolves s0
          (record s { threads = put s.next_thread u s.threads; next_thread = suc s.next_thread })
  Evolves-insert u = record {
    below = KeysBelow-put_fresh s.next_thread u s.threads h.below;
    rows = λ j t e.
        let (v, ev, fv) = h.rows j t e in
        (v, get-put_fresh s.next_thread j u v s.threads h.below ev, fv);
  }
