-- ===== src/Storage/LeaseLock/Exclusion.antt =====
-- One replica at a time holds the lock of a key, and none keeps it for ever.
use universal_agent_protocol.Base.{
  ℕ, ◌+◌, ◌<◌, ◌≤◌, ◌≡◌, subst, refl, sym, ◌∙◌, true, false, Option, none, some, Text, text_eq_refl,
  text_eq_iff, arith,
}
use universal_agent_protocol.Storage.LeaseLock.{
  try_acquire, World, assign, Step, tick, acquired, refused, renewed, lost, released,
  acquired_other, renewed_other, released_other, Reach, here, next,
}
use universal_agent_protocol.Storage.LeaseLock.Lock.{
  Lock, claim, extend, free, Holds, operations-Holds, others-Holds,
}

-- What a lock and the beliefs of the replicas have to do with each other: one that takes the lock
-- as its own until a time that has not come owns it until then, and the owner of the lock knows.
record IsBacked (now : ℕ) (held : Text → Option ℕ) (lock : Lock) : Type 0 where
  backed :
      (owner : Text) (until : ℕ)
      → held owner ≡ some until
      → now < until
      → lock ≡ some (owner, until)
  known : (owner : Text) (until : ℕ) → lock ≡ some (owner, until) → held owner ≡ some until

claim-IsBacked :
    (owner : Text) (lease_ms now : ℕ) (held : Text → Option ℕ) (lock : Lock)
    → IsBacked now held lock
    → (claim owner lease_ms now lock).1 ≡ true
    → IsBacked now (assign owner (some (now + lease_ms)) held) (claim owner lease_ms now lock).0
unfolding claim
claim-IsBacked owner lease_ms now held none k h = record {
  backed = λ o until e l. ground (arith, text_eq_iff o owner, k.backed o until);
  known = λ o until e. ground (arith, text_eq_refl owner);
}
claim-IsBacked owner lease_ms now held (some (p, t)) k h = record {
  backed = λ o until e l. ground (arith, text_eq_iff o owner, k.backed o until);
  known = λ o until e. ground (arith, text_eq_refl owner);
}

claim_over :
    (owner : Text) (lease_ms now : ℕ) (lock : Lock)
    → ((o : Text) (t : ℕ) → lock ≡ some (o, t) → t ≤ now)
    → (claim owner lease_ms now lock).1 ≡ true
unfolding claim
claim_over owner lease_ms now none h = refl
claim_over owner lease_ms now (some (o, t)) h = let past = h o t refl in ground arith

claim_refused :
    (owner : Text) (lease_ms now : ℕ) (lock : Lock)
    → (claim owner lease_ms now lock).1 ≡ false
    → (claim owner lease_ms now lock).0 ≡ lock
unfolding claim
claim_refused owner lease_ms now none h = cc
claim_refused owner lease_ms now (some (o, until)) h = ground arith

extend-IsBacked :
    (owner : Text) (lease_ms now : ℕ) (held : Text → Option ℕ) (lock : Lock)
    → IsBacked now held lock
    → (extend owner lease_ms now lock).1 ≡ true
    → IsBacked now (assign owner (some (now + lease_ms)) held) (extend owner lease_ms now lock).0
unfolding extend
extend-IsBacked owner lease_ms now held none k h = absurd (cc)
extend-IsBacked owner lease_ms now held (some (p, t)) k h = record {
  backed =
      λ o until e l. ground (arith, text_eq_iff o owner, text_eq_iff p owner, k.backed o until);
  known = λ o until e. ground (arith, text_eq_refl owner, text_eq_iff p owner);
}

extend_lost :
    (owner : Text) (lease_ms now : ℕ) (held : Text → Option ℕ) (lock : Lock)
    → IsBacked now held lock
    → (extend owner lease_ms now lock).1 ≡ false
    → IsBacked now (assign owner none held) (extend owner lease_ms now lock).0
unfolding extend
extend_lost owner lease_ms now held none k h = record {
  backed = λ o until e l. ground (arith, k.backed o until);
  known = λ o until e. cc;
}
extend_lost owner lease_ms now held (some (p, t)) k h = record {
  backed = λ o until e l. ground (arith, text_eq_iff p owner, k.backed o until);
  known = λ o until e. ground (arith, text_eq_iff p owner, text_eq_iff o owner, k.known o until);
}

free-IsBacked :
    (owner : Text) (now : ℕ) (held : Text → Option ℕ) (lock : Lock)
    → IsBacked now held lock
    → IsBacked now (assign owner none held) (free owner lock)
unfolding free
free-IsBacked owner now held none k = record {
  backed = λ o until e l. ground (arith, k.backed o until);
  known = λ o until e. cc;
}
free-IsBacked owner now held (some (p, t)) k = record {
  backed =
      λ o until e l. ground (arith, text_eq_iff p owner, text_eq_iff o owner, k.backed o until);
  known = λ o until e. ground (arith, text_eq_iff p owner, text_eq_iff o owner, k.known o until);
}

module _ (key : Text) where
  record IsSound (w : World) : Type 0 where
    lock : Lock
    holds : Holds key w.rows lock
    sound : IsBacked w.now w.held lock

  Step-IsSound : {w v : World} → Step key w v → IsSound w → IsSound v
  Step-IsSound (tick w n) s = record {
    lock = s.lock;
    holds = s.holds;
    sound = record {
      backed = λ o until e l. s.sound.backed o until e (omega arith);
      known = s.sound.known;
    };
  }
  Step-IsSound (acquired w owner ms won) s =
      let (a, b, c, d, r) = operations-Holds key owner ms w.now w.rows s.lock s.holds in
      record {
        lock = (claim owner ms w.now s.lock).0;
        holds = a;
        sound = claim-IsBacked owner ms w.now w.held s.lock s.sound (sym b ∙ won);
      }
  Step-IsSound (refused w owner ms busy) s =
      let (a, b, c, d, r) = operations-Holds key owner ms w.now w.rows s.lock s.holds in
      record {
        lock = s.lock;
        holds = subst (Holds key _) (claim_refused owner ms w.now s.lock (sym b ∙ busy)) a;
        sound = s.sound;
      }
  Step-IsSound (renewed w owner ms working kept) s =
      let (a, b, c, d, r) = operations-Holds key owner ms w.now w.rows s.lock s.holds in
      record {
        lock = (extend owner ms w.now s.lock).0;
        holds = c;
        sound = extend-IsBacked owner ms w.now w.held s.lock s.sound (sym d ∙ kept);
      }
  Step-IsSound (lost w owner ms working gone) s =
      let (a, b, c, d, r) = operations-Holds key owner ms w.now w.rows s.lock s.holds in
      record {
        lock = (extend owner ms w.now s.lock).0;
        holds = c;
        sound = extend_lost owner ms w.now w.held s.lock s.sound (sym d ∙ gone);
      }
  Step-IsSound (released w owner) s =
      let (a, b, c, d, e) = operations-Holds key owner 0 w.now w.rows s.lock s.holds in
      record {
        lock = free owner s.lock;
        holds = e;
        sound = free-IsBacked owner w.now w.held s.lock s.sound;
      }
  Step-IsSound (acquired_other w other owner ms n) s =
      let (a, b, c) = others-Holds key other owner ms w.now w.rows s.lock n s.holds in
      record { lock = s.lock; holds = a; sound = s.sound }
  Step-IsSound (renewed_other w other owner ms n) s =
      let (a, b, c) = others-Holds key other owner ms w.now w.rows s.lock n s.holds in
      record { lock = s.lock; holds = b; sound = s.sound }
  Step-IsSound (released_other w other owner n) s =
      let (a, b, c) = others-Holds key other owner 0 w.now w.rows s.lock n s.holds in
      record { lock = s.lock; holds = c; sound = s.sound }

  -- The table has no row of the key, and no replica works.
  pub record IsIdle (w : World) : Type 0 where
    pub free_lock : Holds key w.rows none
    pub quiet : (owner : Text) → w.held owner ≡ none

  Reach-IsSound : {s w : World} → IsIdle s → Reach key s w → IsSound w
  Reach-IsSound {s} i here = record {
    lock = none;
    holds = i.free_lock;
    sound = record {
      backed = λ o until e l. let q = i.quiet o in absurd (cc);
      known = λ o until e. cc;
    };
  }
  Reach-IsSound i (next r st) = Step-IsSound st (Reach-IsSound i r)

  -- However the replicas interleave, two that hold the lock of a key at one time, each with a lease
  -- that has not run out, are the same replica, and their leases run out at the same time.
  pub Reach-exclusive :
      {s w : World} (a b : Text) (t u : ℕ)
      → IsIdle s
      → Reach key s w
      → w.held a ≡ some t
      → w.held b ≡ some u
      → w.now < t
      → w.now < u
      → (a ≡ b) × (t ≡ u)
  Reach-exclusive a b t u i r p q l m =
      let s = (Reach-IsSound i r).sound in
      let e = s.backed a t p l in let f = s.backed b u q m in (cc, cc)

  -- No lock is lost: whatever the replicas did and wherever they stopped, once every lease that a
  -- replica holds has run out, whoever asks next gets the lock.
  pub Reach-available :
      {s w : World} (owner : Text) (lease_ms : ℕ)
      → IsIdle s
      → Reach key s w
      → ((o : Text) (t : ℕ) → w.held o ≡ some t → t ≤ w.now)
      → (try_acquire key owner lease_ms w.now w.rows).1 ≡ true
  Reach-available {s} {w} owner ms i r over =
      let k = Reach-IsSound i r in
      let (a, b, c, d, e) = operations-Holds key owner ms w.now w.rows k.lock k.holds in
      b ∙ claim_over owner ms w.now k.lock (λ o t e. over o t (k.sound.known o t e))
