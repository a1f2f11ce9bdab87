-- ===== src/Repository/Lease/Scenarios.antt =====
-- Two replicas in turn on the lease and the status history.
use Prim.Native.String.{String}
use text.Mathlib.TextEquality.{eq_iff}
use sekai_master_api.Prelude.{
  ℕ, ◌+◌, false, some, List, [], ◌∷◌, ◌≡◌, ◌≢◌, refl, inl, inr, arith, false≢true,
}
use sekai_master_api.Prelude.Text.{codes}
use sekai_master_api.Prelude.Members.{In}
use sekai_master_api.Masterdata.Types.{Source, SyncStatus}
use sekai_master_api.Repository.Lease.{
  Table, LeaseRecord, up, ok, acquire, upsert, fresh_row, write_back, Coordinator, SyncLeaseClaim,
  coordinator_acquire, claim_of,
}
use sekai_master_api.Repository.Lease.Exclusion.{
  Call, acquiring, renewing, run_calls, some_claim, lease_excludes, Taken,
  coordinator_acquire_claims,
}
use sekai_master_api.Repository.Status.{save, fenced_out}
use sekai_master_api.Repository.Status.Steps.{
  System, after_acquire, after_save, acquires, saves, Reach, here, next, empty, InTokenOrder,
}
use sekai_master_api.Repository.Status.Fencing.{stale_save_refused, history_in_token_order}

abbrev source : Source
source = record {
  region = codes "jp";
  owner = codes "owner";
  repo = codes "repo";
  ref = codes "main";
  path = [];
}

abbrev status : SyncStatus
status = record {
  region = codes "jp";
  status = codes "running";
  file_count = 0;
  sync_duration_ms = 0;
  last_synced_at = 7;
  source_commit = [];
  error_message = [];
  source = source;
  updated_at = 7;
  fencing_token = 1;
}

-- The first replica has the lease up to the instant 15.
abbrev first : System
first = after_acquire "sync" up "first" 5 10 empty

abbrev row : String → ℕ → ℕ → LeaseRecord
row holder token now = record {
  name = "sync";
  holder = holder;
  fencing_token = token;
  acquired_at = now;
  expires_at = now + 10;
  last_heartbeat_at = now;
}

first_reached : Reach "sync" empty first
first_reached = next here (acquires empty up "first" 5 10)

-- The token that the first replica was told.
abbrev IsToldFirst : Type 0
IsToldFirst = In status.fencing_token first.claimed

told_first : IsToldFirst
unfolding acquire upsert fresh_row
told_first = inl refl

second_answer :
    (acquire up "sync" "second" 20 10 first.database.leases).1 ≡ ok (some (row "second" 2 20))
unfolding acquire upsert fresh_row write_back
second_answer = refl

stale_save_refused_example :
    save up "sync" status (after_acquire "sync" up "second" 20 10 first).database
    ≡ ((after_acquire "sync" up "second" 20 10 first).database, fenced_out)
stale_save_refused_example =
    stale_save_refused "sync" "second" 20 10 (row "second" 2 20) status refl first_reached
      told_first second_answer here

history_in_token_order_example :
    InTokenOrder "sync" (after_save "sync" up status first).database.history
history_in_token_order_example =
    history_in_token_order "sync" refl (next first_reached (saves first up status (inr told_first)))

abbrev held : Table
held name = some (row "first" 1 5)

abbrev second : Coordinator
second = record { name = "sync"; holder = "second"; ttl = 10 }

-- The second replica tries to acquire and to renew the lease of the first.
abbrev attempts : List Call
attempts =
    acquiring up second 14 ∷ (renewing up second (record { holder = "second"; token = 1 }) 14 ∷ [])

others : ◌≢◌ {A = String} "second" "first"
others e = false≢true ((eq_iff "second" "first").1 e)

lease_excludes_example :
    (run_calls attempts held "sync" ≡ some (row "first" 1 5)) × (some_claim attempts held ≡ false)
lease_excludes_example =
    lease_excludes "sync" (row "first" 1 5) attempts held refl
      ((refl, others, omega arith), ((refl, others, omega arith), tt))

abbrev claim : SyncLeaseClaim
claim = record { holder = "second"; token = 2 }

abbrev expired : ℕ
expired = 15

claimed : (coordinator_acquire up second expired held).1 ≡ ok claim
unfolding coordinator_acquire acquire upsert fresh_row write_back claim_of
claimed = refl

coordinator_acquire_claims_example :
    (taken : LeaseRecord) × ((coordinator_acquire up second expired held).0 "sync" ≡ some taken)
    × Taken second expired (held "sync") claim taken
coordinator_acquire_claims_example = coordinator_acquire_claims second expired claim held claimed
