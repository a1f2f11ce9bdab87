-- ===== src/Repository/Status/Steps.antt =====
-- Leases and status writes of any number of processes, in any order, and what each step does.
use Prim.Native.String.{String}
use text.Mathlib.Text.{◌==◌ as str_eq}
use text.Mathlib.TextPositions.{eq_refl}
use sekai_master_api.Prelude.{
  ℕ, ◌<◌, ◌≤◌, false, Option, none, some, List, [], ◌∷◌, ◌≡◌, refl, ◌⊎◌, inl, All, arith,
}
use sekai_master_api.Prelude.Members.{In}
use sekai_master_api.Masterdata.Types.{SyncStatus}
use sekai_master_api.Repository.Lease.{
  Table, LeaseRecord, Link, absent, refused, lost, up, Result, ok, err, acquire, renew, release,
}
use sekai_master_api.Repository.Status.{Database, save, is_fenced_out, insert_sync_status}

-- The tables and the tokens that acquirers were told, over one lease name.
pub record System : Type 0 where
  pub database : Database
  pub claimed : List ℕ

abbrev told : Result (Option LeaseRecord) → List ℕ → List ℕ
told (err e) claimed = claimed
told (ok none) claimed = claimed
told (ok (some row)) claimed = row.fencing_token ∷ claimed

-- No row, no status and no claim yet.
abbrev pub empty : System
empty = record { database = record { leases = λ name. none; history = [] }; claimed = [] }

module _ (lease : String) where
  abbrev pub after_acquire : Link → String → ℕ → ℕ → System → System
  after_acquire link holder now ttl s =
      let (leases', answer) = acquire link lease holder now ttl s.database.leases in
      record {
        database = record { leases = leases'; history = s.database.history };
        claimed = told answer s.claimed;
      }

  abbrev pub after_renew : Link → String → ℕ → ℕ → System → System
  after_renew link holder now ttl s = record s {
    database = record {
      leases = (renew link lease holder now ttl s.database.leases).0;
      history = s.database.history;
    };
  }

  abbrev pub after_release : Link → String → ℕ → System → System
  after_release link holder now s = record s {
    database = record {
      leases = (release link lease holder now s.database.leases).0;
      history = s.database.history;
    };
  }

  abbrev pub after_save : Link → SyncStatus → System → System
  after_save link status s = record s { database = (save link lease status s.database).0 }

  -- A process acquires, renews or releases at any time and under any holder name, or saves a
  -- status with no token or with one that it was told.
  pub data Step : System → System → Type 0 where
    acquires :
        (s : System) (link : Link) (holder : String) (now ttl : ℕ)
        → Step s (after_acquire link holder now ttl s)
    renews :
        (s : System) (link : Link) (holder : String) (now ttl : ℕ)
        → Step s (after_renew link holder now ttl s)
    releases :
        (s : System) (link : Link) (holder : String) (now : ℕ)
        → Step s (after_release link holder now s)
    saves :
        (s : System) (link : Link) (status : SyncStatus)
        → (status.fencing_token ≡ 0) ⊎ In status.fencing_token s.claimed
        → Step s (after_save link status s)

  pub data Reach (s : System) : System → Type 0 where
    here : Reach s s
    next : {t u : System} → Reach s t → Step t u → Reach s u

  -- The lease's token; 0 before there is a row.
  abbrev pub token_of : Option LeaseRecord → ℕ
  token_of none = 0
  token_of (some row) = row.fencing_token

  abbrev pub current : System → ℕ
  current s = token_of (s.database.leases lease)

  -- Of rows with the newest first: a row with a token is as new as every older row.
  abbrev pub InTokenOrder : List SyncStatus → Type 0
  InTokenOrder [] = Unit
  InTokenOrder (row ∷ older) =
      ((row.fencing_token ≡ 0) ⊎ All (λ old. old.fencing_token ≤ row.fencing_token) older)
      × InTokenOrder older

  pub acquire_current :
      (link : Link) (holder : String) (now ttl : ℕ) (s : System)
      → current s ≤ current (after_acquire link holder now ttl s)
  unfolding acquire
  acquire_current link holder now ttl s = ground (arith, eq_refl lease)

  pub renew_current :
      (link : Link) (holder : String) (now ttl : ℕ) (s : System)
      → current (after_renew link holder now ttl s) ≡ current s
  unfolding renew
  renew_current link holder now ttl s = ground (arith, eq_refl lease)

  pub release_current :
      (link : Link) (holder : String) (now : ℕ) (s : System)
      → current (after_release link holder now s) ≡ current s
  unfolding release
  release_current link holder now s = ground (arith, eq_refl lease)

  pub save_current :
      (link : Link) (status : SyncStatus) (s : System)
      → current (after_save link status s) ≡ current s
  unfolding save
  save_current link status s = ground arith

  pub acquire_told :
      (link : Link) (holder : String) (now ttl : ℕ) (s : System)
      → ((after_acquire link holder now ttl s).claimed ≡ s.claimed)
        ⊎ (((after_acquire link holder now ttl s).claimed
              ≡ current (after_acquire link holder now ttl s) ∷ s.claimed)
            × (current s < current (after_acquire link holder now ttl s)))
  unfolding acquire
  acquire_told absent holder now ttl s = inl refl
  acquire_told refused holder now ttl s = inl refl
  acquire_told lost holder now ttl s = inl refl
  acquire_told up holder now ttl s = ground (arith, eq_refl lease)

  pub save_written :
      (link : Link) (status : SyncStatus) (s : System)
      → ((after_save link status s).database.history ≡ s.database.history)
        ⊎ (((after_save link status s).database.history ≡ status ∷ s.database.history)
            × (is_fenced_out lease status.fencing_token s.database.leases ≡ false))
  unfolding save insert_sync_status
  save_written absent status s = inl refl
  save_written refused status s = inl refl
  save_written lost status s = ground arith
  save_written up status s = ground arith

  pub unfenced :
      (token : ℕ) (leases : Table)
      → str_eq lease "" ≡ false
      → is_fenced_out lease token leases ≡ false
      → (token ≡ 0) ⊎ (token_of (leases lease) ≤ token)
  unfolding is_fenced_out
  unfenced token leases named h = ground arith
