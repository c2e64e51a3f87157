-- ===== src/Storage/LeaseLock/Lock.antt =====
-- The lock that the rows of a table implement: free, or owned until a time.
use universal_agent_protocol.Base.{
  ℕ, ◌+◌, ◌≡◌, ◌≢◌, refl, ◌∙◌, sym, inl, inr, Bool, true, false, ◌&&◌, Option, none, some, [], ◌∷◌,
  ◌++◌, Text, text_eq, text_eq_sound, text_eq_refl, ne-text_eq, arith, Bool-cases, Option-cases,
  ltb, leb, if◌then◌else◌,
}
use universal_agent_protocol.Storage.Table.{find_one, find_many, update_raw, delete, insert}
use universal_agent_protocol.Storage.LeaseLock.{
  Lease, Leases, has_key, held_by, try_acquire, renew, release,
}

abbrev pub Lock : Type 0
Lock = Option (Text × ℕ)

unfoldable pub claim : Text → ℕ → ℕ → Lock → Lock × Bool
claim owner lease_ms now none = (some (owner, now + lease_ms), true)
claim owner lease_ms now (some (o, until)) =
    if leb until now then (some (owner, now + lease_ms), true) else (some (o, until), false)

unfoldable pub extend : Text → ℕ → ℕ → Lock → Lock × Bool
extend owner lease_ms now none = (none, false)
extend owner lease_ms now (some (o, until)) =
    if text_eq o owner then (some (o, now + lease_ms), true) else (some (o, until), false)

unfoldable pub free : Text → Lock → Lock
free owner none = none
free owner (some (o, until)) = if text_eq o owner then none else some (o, until)

try_acquire_new :
    (key owner : Text) (lease_ms now : ℕ) (rows : Leases)
    → find_one (has_key key) rows ≡ none
    → try_acquire key owner lease_ms now rows
      ≡ (insert (record { key = key; owner = owner; expires_at = now + lease_ms }) rows, true)
unfolding try_acquire
try_acquire_new key owner lease_ms now rows h = ground arith

try_acquire_old :
    (key owner : Text) (lease_ms now : ℕ) (rows : Leases) (l : Lease)
    → find_one (has_key key) rows ≡ some l
    → let written =
        update_raw
          (λ r. text_eq r.key key && leb r.expires_at now)
          (λ r. record r { owner = owner; expires_at = now + lease_ms })
          rows in
      try_acquire key owner lease_ms now rows ≡ (written.0, ltb 0 written.1)
unfolding try_acquire
try_acquire_old key owner lease_ms now rows l h = ground arith

module _ (key : Text) where
  -- the rows of the key
  rows_of : Leases → Leases
  rows_of = find_many (has_key key)

  row : Lock → Leases
  row none = []
  row (some (owner, until)) = record { key = key; owner = owner; expires_at = until } ∷ []

  -- The table holds the lock of the key in one row, or none if it is free.
  unfoldable pub Holds : Leases → Lock → Type 0
  unfolding rows_of row
  Holds rows lock = rows_of rows ≡ row lock

  rows_of-update :
      (p : Lease → Bool) (f : Lease → Lease) (rows : Leases)
      → ((l : Lease) → (f l).key ≡ l.key)
      → ((l : Lease) → text_eq l.key key ≡ false → p l ≡ false)
      → (rows_of (update_raw p f rows).0 ≡ (update_raw p f (rows_of rows)).0)
        × ((update_raw p f rows).1 ≡ (update_raw p f (rows_of rows)).1)
  unfolding rows_of find_many update_raw
  rows_of-update p f [] k h = (refl, refl)
  rows_of-update p f (l ∷ rows) k h =
      let (a, b) = rows_of-update p f rows k h in
      elim (Bool-cases (text_eq l.key key)) [
        | inl mine ↦ (ground (arith, k l), ground arith)
        | inr foreign ↦ let miss = h l foreign in (ground arith, ground arith)
      ]

  rows_of-delete :
      (p : Lease → Bool) (rows : Leases) → rows_of (delete p rows).0 ≡ (delete p (rows_of rows)).0
  unfolding rows_of find_many delete
  rows_of-delete p [] = refl
  rows_of-delete p (l ∷ rows) = ground (arith, rows_of-delete p rows)

  rows_of-insert :
      (l : Lease) (rows : Leases)
      → text_eq l.key key ≡ true
      → rows_of (insert l rows) ≡ rows_of rows ++ l ∷ []
  unfolding rows_of find_many insert
  rows_of-insert l [] h = ground arith
  rows_of-insert l (r ∷ rows) h = ground (arith, rows_of-insert l rows h)

  -- a lookup of the key sees its rows only
  find-rows_of :
      (rows : Leases) → find_one (has_key key) rows ≡ find_one (has_key key) (rows_of rows)
  unfolding rows_of find_many find_one
  find-rows_of [] = refl
  find-rows_of (l ∷ rows) = ground (arith, find-rows_of rows)

  try_acquire-Holds :
      (owner : Text) (lease_ms now : ℕ) (rows : Leases) (lock : Lock)
      → Holds rows lock
      → Holds (try_acquire key owner lease_ms now rows).0 (claim owner lease_ms now lock).0
        × ((try_acquire key owner lease_ms now rows).1 ≡ (claim owner lease_ms now lock).1)
  unfolding Holds claim row find_one update_raw
  try_acquire-Holds owner lease_ms now rows none h =
      let found : find_one (has_key key) rows ≡ none = rw (find-rows_of rows, h) refl in
      let new : Lease = record { key = key; owner = owner; expires_at = now + lease_ms } in
      rw (try_acquire_new key owner lease_ms now rows found)
        (rw (rows_of-insert new rows (text_eq_refl key), h) refl, refl)
  try_acquire-Holds owner lease_ms now rows (some (o, until)) h =
      let same = text_eq_refl key in
      let found : find_one (has_key key) rows
          ≡ some (record { key = key; owner = o; expires_at = until }) =
        rw (find-rows_of rows, h, same) refl in
      let p = λ (l : Lease). text_eq l.key key && leb l.expires_at now in
      let f = λ (l : Lease). record l { owner = owner; expires_at = now + lease_ms } in
      let (a, b) = rows_of-update p f rows (λ l. refl) (λ l e. ground arith) in
      elim (Bool-cases (leb until now)) [
        | inl over ↦
            rw (try_acquire_old key owner lease_ms now rows _ found, over)
              (rw (a, h, same, over) refl, rw (b, h, same, over) refl)
        | inr live ↦
            rw (try_acquire_old key owner lease_ms now rows _ found, live)
              (rw (a, h, same, live) refl, rw (b, h, same, live) refl)
      ]

  renew-Holds :
      (owner : Text) (lease_ms now : ℕ) (rows : Leases) (lock : Lock)
      → Holds rows lock
      → Holds (renew key owner lease_ms now rows).0 (extend owner lease_ms now lock).0
        × ((renew key owner lease_ms now rows).1 ≡ (extend owner lease_ms now lock).1)
  unfolding Holds renew extend row update_raw
  renew-Holds owner lease_ms now rows none h =
      let p = held_by key owner in
      let f = λ (l : Lease). record l { expires_at = now + lease_ms } in
      let (a, b) = rows_of-update p f rows (λ l. refl) (λ l e. ground arith) in
      (rw (a, h) refl, rw (b, h) refl)
  renew-Holds owner lease_ms now rows (some (o, until)) h =
      let same = text_eq_refl key in
      let p = held_by key owner in
      let f = λ (l : Lease). record l { expires_at = now + lease_ms } in
      let (a, b) = rows_of-update p f rows (λ l. refl) (λ l e. ground arith) in
      elim (Bool-cases (text_eq o owner)) [
        | inl own ↦ rw own (rw (a, h, same, own) refl, rw (b, h, same, own) refl)
        | inr other ↦ rw other (rw (a, h, same, other) refl, rw (b, h, same, other) refl)
      ]

  release-Holds :
      (owner : Text) (rows : Leases) (lock : Lock)
      → Holds rows lock
      → Holds (release key owner rows) (free owner lock)
  unfolding Holds release free row delete
  release-Holds owner rows none h = rw (rows_of-delete (held_by key owner) rows, h) refl
  release-Holds owner rows (some (o, until)) h =
      let same = text_eq_refl key in
      let a = rows_of-delete (held_by key owner) rows in
      elim (Bool-cases (text_eq o owner)) [
        | inl own ↦ rw own (rw (a, h, same, own) refl)
        | inr other ↦ rw other (rw (a, h, same, other) refl)
      ]

  -- The three statements do to the rows what the lock of the key does, and report the same: if the
  -- table holds a lock, it holds afterwards the lock that was claimed, extended or freed.
  pub operations-Holds :
      (owner : Text) (lease_ms now : ℕ) (rows : Leases) (lock : Lock)
      → Holds rows lock
      → Holds (try_acquire key owner lease_ms now rows).0 (claim owner lease_ms now lock).0
        × ((try_acquire key owner lease_ms now rows).1 ≡ (claim owner lease_ms now lock).1)
        × Holds (renew key owner lease_ms now rows).0 (extend owner lease_ms now lock).0
        × ((renew key owner lease_ms now rows).1 ≡ (extend owner lease_ms now lock).1)
        × Holds (release key owner rows) (free owner lock)
  operations-Holds owner lease_ms now rows lock h =
      let (a, b) = try_acquire-Holds owner lease_ms now rows lock h in
      let (c, d) = renew-Holds owner lease_ms now rows lock h in
      (a, b, c, d, release-Holds owner rows lock h)

  rows_of_missed :
      (p : Lease → Bool) (f : Lease → Lease) (rows : Leases)
      → ((l : Lease) → (f l).key ≡ l.key)
      → ((l : Lease) → text_eq l.key key ≡ true → p l ≡ false)
      → rows_of (update_raw p f rows).0 ≡ rows_of rows
  unfolding rows_of find_many update_raw
  rows_of_missed p f [] k h = refl
  rows_of_missed p f (l ∷ rows) k h =
      let ih = rows_of_missed p f rows k h in
      elim (Bool-cases (text_eq l.key key)) [
        | inl mine ↦ let miss = h l mine in ground arith
        | inr foreign ↦ ground (arith, k l)
      ]

  rows_of_kept :
      (p : Lease → Bool) (rows : Leases)
      → ((l : Lease) → text_eq l.key key ≡ true → p l ≡ false)
      → rows_of (delete p rows).0 ≡ rows_of rows
  unfolding rows_of find_many delete
  rows_of_kept p [] h = refl
  rows_of_kept p (l ∷ rows) h =
      let ih = rows_of_kept p rows h in
      elim (Bool-cases (text_eq l.key key)) [
        | inl mine ↦ let miss = h l mine in ground arith
        | inr foreign ↦ ground arith
      ]

  rows_of_added :
      (l : Lease) (rows : Leases)
      → text_eq l.key key ≡ false
      → rows_of (insert l rows) ≡ rows_of rows
  unfolding rows_of find_many insert
  rows_of_added l [] h = ground arith
  rows_of_added l (r ∷ rows) h = ground (arith, rows_of_added l rows h)

  -- The statements on another key leave the lock alone.
  pub others-Holds :
      (other owner : Text) (lease_ms now : ℕ) (rows : Leases) (lock : Lock)
      → other ≢ key
      → Holds rows lock
      → Holds (try_acquire other owner lease_ms now rows).0 lock
        × Holds (renew other owner lease_ms now rows).0 lock
        × Holds (release other owner rows) lock
  unfolding Holds try_acquire renew release
  others-Holds other owner lease_ms now rows lock n h =
      let apart = λ (l : Lease) (e : text_eq l.key key ≡ true).
        ne-text_eq l.key other (λ (k : l.key ≡ other). n (sym k ∙ text_eq_sound l.key key e)) in
      let taken =
        rows_of_missed (λ l. text_eq l.key other && leb l.expires_at now)
          (λ l. record l { owner = owner; expires_at = now + lease_ms }) rows (λ l. refl)
          (λ l e. rw (apart l e) refl) in
      let extended =
        rows_of_missed (held_by other owner) (λ l. record l { expires_at = now + lease_ms }) rows
          (λ l. refl) (λ l e. rw (apart l e) refl) in
      let freed = rows_of_kept (held_by other owner) rows (λ l e. rw (apart l e) refl) in
      let added =
        rows_of_added (record { key = other; owner = owner; expires_at = now + lease_ms }) rows
          (ne-text_eq other key n) in
      (
        elim (Option-cases (find_one (has_key other) rows)) [
          | inl none_there ↦
              rw (try_acquire_new other owner lease_ms now rows none_there) (added ∙ h)
          | inr (l, there) ↦ rw (try_acquire_old other owner lease_ms now rows l there) (taken ∙ h)
        ],
        extended ∙ h,
        freed ∙ h,
      )
