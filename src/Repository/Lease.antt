-- ===== src/Repository/Lease.antt =====
-- internal/repository/master_data_sync_lease_repository.go. A statement of the repository is one
-- atomic step on the table; what the SQL text says is written out here.
pub mod Exclusion
mod Scenarios
use Prim.Native.String.{String}
use text.Mathlib.Text.{◌==◌ as str_eq}
use sekai_master_api.Prelude.{
  ℕ, ◌+◌, ◌<◌, ◌≤◌, Bool, true, false, ◌&&◌, Option, none, some, ltb, leb, ◌==◌, if◌then◌else◌, ◌≡◌,
  refl,
}

-- `MasterDataSyncLeaseRecord`, a row of master_data_sync_leases. Times are instants of one clock,
-- counted in one unit.
pub record LeaseRecord : Type 0 where
  pub name : String
  pub holder : String
  pub fencing_token : ℕ
  pub acquired_at : ℕ
  pub expires_at : ℕ
  pub last_heartbeat_at : ℕ

-- The table master_data_sync_leases; `name` is its primary key.
abbrev pub Table : Type 0
Table = String → Option LeaseRecord

abbrev pub put_row : String → LeaseRecord → Table → Table
put_row name row table other = if str_eq name other then some row else table other

-- What becomes of one statement: the repository has no database, the statement fails and changes
-- nothing, it is executed but its answer is lost, or it is executed and answered.
pub data Link : Type 0 where
  absent refused lost up : Link

pub data Error : Type 0 where
  no_database query_failed lease_held lease_lost : Error

pub data Result {ℓ} (A : Type ℓ) : Type ℓ where
  ok : A → Result A
  err : Error → Result A

fresh_row : String → String → ℕ → ℕ → ℕ → LeaseRecord
fresh_row name holder token now ttl = record {
  name = name;
  holder = holder;
  fencing_token = token;
  acquired_at = now;
  expires_at = now + ttl;
  last_heartbeat_at = now;
}

-- `INSERT … ON CONFLICT (name) DO UPDATE … WHERE expires_at <= EXCLUDED.last_heartbeat_at
-- RETURNING …`: the new row, if the row is inserted or updated.
upsert : String → String → ℕ → ℕ → Option LeaseRecord → Option LeaseRecord
unfolding fresh_row
upsert name holder now ttl none = some (fresh_row name holder 1 now ttl)
upsert name holder now ttl (some row) =
    if leb row.expires_at now
    then some (fresh_row name holder (row.fencing_token + 1) now ttl)
    else none

write_back : String → Option LeaseRecord → Table → Table
write_back name none table = table
write_back name (some row) table = put_row name row table

-- `Acquire` at the instant `now`: `ok none` is `acquired=false` with no error.
unfoldable pub acquire :
    Link → String → String → ℕ → ℕ → Table → Table × Result (Option LeaseRecord)
unfolding upsert write_back
acquire absent name holder now ttl table = (table, err no_database)
acquire refused name holder now ttl table = (table, err query_failed)
acquire lost name holder now ttl table =
    (write_back name (upsert name holder now ttl (table name)) table, err query_failed)
acquire up name holder now ttl table =
    let row = upsert name holder now ttl (table name) in (write_back name row table, ok row)

-- `UPDATE … SET expires_at, last_heartbeat_at WHERE name AND holder`: the row, if it is updated.
touch : String → ℕ → ℕ → Option LeaseRecord → Option LeaseRecord
touch holder now until none = none
touch holder now until (some row) =
    if str_eq row.holder holder
    then some (record row { expires_at = until; last_heartbeat_at = now })
    else none

abbrev is_some : Option LeaseRecord → Bool
is_some none = false
is_some (some row) = true

-- `Renew`: whether a row was affected.
unfoldable pub renew : Link → String → String → ℕ → ℕ → Table → Table × Result Bool
unfolding touch write_back
renew absent name holder now ttl table = (table, err no_database)
renew refused name holder now ttl table = (table, err query_failed)
renew lost name holder now ttl table =
    (write_back name (touch holder now (now + ttl) (table name)) table, err query_failed)
renew up name holder now ttl table =
    let row = touch holder now (now + ttl) (table name) in
    (write_back name row table, ok (is_some row))

-- `Release` expires the lease in place and keeps its row.
unfoldable pub release : Link → String → String → ℕ → Table → Table × Result (Unit {0})
unfolding touch write_back
release absent name holder now table = (table, ok tt)
release refused name holder now table = (table, err query_failed)
release lost name holder now table =
    (write_back name (touch holder now now (table name)) table, err query_failed)
release up name holder now table =
    (write_back name (touch holder now now (table name)) table, ok tt)

-- `Get`: it reports no row, and no error, when there is no database.
unfoldable pub get : Link → String → Table → Result (Option LeaseRecord)
get absent name table = ok none
get refused name table = err query_failed
get lost name table = err query_failed
get up name table = ok (table name)

pub record SyncLeaseClaim : Type 0 where
  pub holder : String
  pub token : ℕ

pub record SyncLeaseState : Type 0 where
  pub held : Bool
  pub holder : String
  pub token : ℕ
  pub expires_at : ℕ

-- `MasterDataSyncLeaseCoordinator`, with its repository given at each call.
pub record Coordinator : Type 0 where
  pub name : String
  pub holder : String
  pub ttl : ℕ

-- A ttl that is not positive becomes a minute, given here in the clock's unit.
unfoldable pub new_coordinator : ℕ → String → String → ℕ → Coordinator
new_coordinator minute name holder ttl = record {
  name = name;
  holder = holder;
  ttl = if ttl == 0 then minute else ttl;
}

claim_of : Result (Option LeaseRecord) → Result SyncLeaseClaim
claim_of (err e) = err e
claim_of (ok none) = err lease_held
claim_of (ok (some row)) = ok (record { holder = row.holder; token = row.fencing_token })

unfoldable pub coordinator_acquire : Link → Coordinator → ℕ → Table → Table × Result SyncLeaseClaim
unfolding acquire claim_of
coordinator_acquire link c now table =
    let (table', answer) = acquire link c.name c.holder now c.ttl table in (table', claim_of answer)

renewed_or_lost : Result Bool → Result (Unit {0})
renewed_or_lost (err e) = err e
renewed_or_lost (ok true) = ok tt
renewed_or_lost (ok false) = err lease_lost

unfoldable pub coordinator_renew :
    Link → Coordinator → SyncLeaseClaim → ℕ → Table → Table × Result (Unit {0})
unfolding renew renewed_or_lost
coordinator_renew link c claim now table =
    let (table', answer) = renew link c.name claim.holder now c.ttl table in
    (table', renewed_or_lost answer)

unfoldable pub coordinator_release :
    Link → Coordinator → SyncLeaseClaim → ℕ → Table → Table × Result (Unit {0})
unfolding release
coordinator_release link c claim now table = release link c.name claim.holder now table

state_of : ℕ → Result (Option LeaseRecord) → Result SyncLeaseState
state_of now (err e) = err e
state_of now (ok none) = ok (record { held = false; holder = ""; token = 0; expires_at = 0 })
state_of now (ok (some row)) = ok (record {
  held = ltb now row.expires_at;
  holder = row.holder;
  token = row.fencing_token;
  expires_at = row.expires_at;
})

unfoldable pub coordinator_state : Link → Coordinator → ℕ → Table → Result SyncLeaseState
unfolding get state_of
coordinator_state link c now table = state_of now (get link c.name table)
