-- ===== src/Storage/LeaseLock.antt =====
-- packages/storage/src/sql-store.ts: SqlLeaseLock, the lock row that replicas share, for work
-- under one key. A replica is an owner, and runs one `withLock` of a key at a time, by its lock in the
-- process. The replicas read one clock, `now`.
pub mod Lock
pub mod Exclusion
use universal_agent_protocol.Base.{
  ℕ, ◌+◌, Bool, true, false, ◌&&◌, ◌≡◌, ◌≢◌, Option, none, some, List, Text, text_eq, ltb, leb,
  if◌then◌else◌,
}
use universal_agent_protocol.Storage.Table.{find_one, update_raw, delete, insert}

-- A row of `distributed_locks`.
pub record Lease : Type 0 where
  pub key : Text
  pub owner : Text
  pub expires_at : ℕ

abbrev pub Leases : Type 0
Leases = List Lease

abbrev pub has_key : Text → Lease → Bool
has_key key l = text_eq l.key key

abbrev pub held_by : Text → Text → Lease → Bool
held_by key owner l = text_eq l.key key && text_eq l.owner owner

-- the insert that takes over a row whose lease has run out, and whether it wrote a row
unfoldable pub try_acquire : Text → Text → ℕ → ℕ → Leases → Leases × Bool
try_acquire key owner lease_ms now rows = elim (find_one (has_key key) rows) [
  | none ↦ (insert (record { key = key; owner = owner; expires_at = now + lease_ms }) rows, true)
  | some _ ↦
      let (rows', changed) =
        update_raw (λ l. text_eq l.key key && leb l.expires_at now)
          (λ l. record l { owner = owner; expires_at = now + lease_ms }) rows in
      (rows', ltb 0 changed)
]

unfoldable pub renew : Text → Text → ℕ → ℕ → Leases → Leases × Bool
renew key owner lease_ms now rows =
    let (rows', changed) =
      update_raw (held_by key owner) (λ l. record l { expires_at = now + lease_ms }) rows in
    (rows', ltb 0 changed)

unfoldable pub release : Text → Text → Leases → Leases
release key owner rows = (delete (held_by key owner) rows).0

-- The rows, the clock, and for each replica until when it takes the lock of the key as its own:
-- `none` outside `withLock`, or once its work is told to stop.
pub record World : Type 0 where
  pub rows : Leases
  pub now : ℕ
  pub held : Text → Option ℕ

abbrev pub assign : Text → Option ℕ → (Text → Option ℕ) → Text → Option ℕ
assign owner until held o = if text_eq o owner then until else held o

-- What can happen next: time passes; a replica asks for the lock of the key and has it, or not; the
-- renewal of one that works finds its row, or does not and stops the work; one ends its work,
-- whatever became of it; or a replica does any of this with another key.
pub data Step (key : Text) : World → World → Type 0 where
  tick : (w : World) (n : ℕ) → Step key w (record w { now = w.now + n })
  acquired :
      (w : World) (owner : Text) (lease_ms : ℕ)
      → (try_acquire key owner lease_ms w.now w.rows).1 ≡ true
      → Step key w (record w {
        rows = (try_acquire key owner lease_ms w.now w.rows).0;
        held = assign owner (some (w.now + lease_ms)) w.held;
      })
  refused :
      (w : World) (owner : Text) (lease_ms : ℕ)
      → (try_acquire key owner lease_ms w.now w.rows).1 ≡ false
      → Step key w (record w { rows = (try_acquire key owner lease_ms w.now w.rows).0 })
  renewed :
      (w : World) (owner : Text) (lease_ms : ℕ)
      → w.held owner ≢ none
      → (renew key owner lease_ms w.now w.rows).1 ≡ true
      → Step key w (record w {
        rows = (renew key owner lease_ms w.now w.rows).0;
        held = assign owner (some (w.now + lease_ms)) w.held;
      })
  lost :
      (w : World) (owner : Text) (lease_ms : ℕ)
      → w.held owner ≢ none
      → (renew key owner lease_ms w.now w.rows).1 ≡ false
      → Step key w (record w {
        rows = (renew key owner lease_ms w.now w.rows).0;
        held = assign owner none w.held;
      })
  released :
      (w : World) (owner : Text)
      → Step key w (record w { rows = release key owner w.rows; held = assign owner none w.held })
  acquired_other :
      (w : World) (other owner : Text) (lease_ms : ℕ)
      → other ≢ key
      → Step key w (record w { rows = (try_acquire other owner lease_ms w.now w.rows).0 })
  renewed_other :
      (w : World) (other owner : Text) (lease_ms : ℕ)
      → other ≢ key
      → Step key w (record w { rows = (renew other owner lease_ms w.now w.rows).0 })
  released_other :
      (w : World) (other owner : Text)
      → other ≢ key
      → Step key w (record w { rows = release other owner w.rows })

-- What can have happened since a world.
pub data Reach (key : Text) (s : World) : World → Type 0 where
  here : Reach key s s
  next : {t u : World} → Reach key s t → Step key t u → Reach key s u
