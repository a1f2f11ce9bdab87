-- ===== src/Repository/Lease/Exclusion.antt =====
-- While a lease has not expired no other holder gets it.
use Prim.Native.String.{String}
use text.Mathlib.TextEquality.{eq_iff}
use text.Mathlib.TextPositions.{eq_refl}
use sekai_master_api.Prelude.{
  Bool-cases, inl, inr, some_inj, leb→le, ℕ, ◌+◌, ◌<◌, ◌≤◌, Bool, true, false, Option, none, some,
  List, [], ◌∷◌, leb, if◌then◌else◌, ◌≡◌, ◌≢◌, refl, All, arith,
}
use sekai_master_api.Repository.Lease.{
  Table, LeaseRecord, Link, absent, refused, lost, up, ok, err, acquire, renew, release,
  Coordinator, coordinator_acquire, coordinator_renew, coordinator_release, SyncLeaseClaim,
  claim_of, upsert, fresh_row, write_back,
}

-- A call of a coordinator: what becomes of its statement, and when it is made.
pub data Call : Type 0 where
  acquiring : Link → Coordinator → ℕ → Call
  renewing : Link → Coordinator → SyncLeaseClaim → ℕ → Call
  releasing : Link → Coordinator → SyncLeaseClaim → ℕ → Call

unfoldable pub run_call : Call → Table → Table
unfolding coordinator_acquire coordinator_renew coordinator_release
run_call (acquiring link c now) table = (coordinator_acquire link c now table).0
run_call (renewing link c claim now) table = (coordinator_renew link c claim now table).0
run_call (releasing link c claim now) table = (coordinator_release link c claim now table).0

-- Whether the call is answered with a claim.
unfoldable pub gets_claim : Call → Table → Bool
unfolding coordinator_acquire
gets_claim (acquiring link c now) table = elim (coordinator_acquire link c now table).1 [
  | ok claim ↦ true
  | err e ↦ false
]
gets_claim (renewing link c claim now) table = false
gets_claim (releasing link c claim now) table = false

-- Whether one of the calls, made one after another, is answered with a claim.
pub some_claim : List Call → Table → Bool
some_claim [] table = false
some_claim (call ∷ calls) table =
    if gets_claim call table then true else some_claim calls (run_call call table)

pub run_calls : List Call → Table → Table
run_calls [] table = table
run_calls (call ∷ calls) table = run_calls calls (run_call call table)

-- A call on the lease by another holder, before the instant `until`.
abbrev pub IsOther : String → String → ℕ → Call → Type 0
IsOther lease holder until (acquiring link c now) =
    (c.name ≡ lease) × (c.holder ≢ holder) × (now < until)
IsOther lease holder until (renewing link c claim now) =
    (c.name ≡ lease) × (claim.holder ≢ holder) × (now < until)
IsOther lease holder until (releasing link c claim now) =
    (c.name ≡ lease) × (claim.holder ≢ holder) × (now < until)

module _ (lease : String) (row : LeaseRecord) where
  one_call :
      (call : Call) (table : Table)
      → table lease ≡ some row
      → IsOther lease row.holder row.expires_at call
      → (run_call call table lease ≡ some row) × (gets_claim call table ≡ false)
  unfolding run_call gets_claim acquire renew release claim_of
  one_call (acquiring absent c now) table h o = (h, refl)
  one_call (acquiring refused c now) table h o = (h, refl)
  one_call (acquiring lost c now) table h (same, other, early) = rw (same, h) (ground arith)
  one_call (acquiring up c now) table h (same, other, early) = rw (same, h) (ground arith)
  one_call (renewing absent c claim now) table h o = (h, refl)
  one_call (renewing refused c claim now) table h o = (h, refl)
  one_call (renewing lost c claim now) table h (same, other, early) =
      rw (same, h) (ground (arith, eq_iff row.holder claim.holder))
  one_call (renewing up c claim now) table h (same, other, early) =
      rw (same, h) (ground (arith, eq_iff row.holder claim.holder))
  one_call (releasing absent c claim now) table h o = (h, refl)
  one_call (releasing refused c claim now) table h o = (h, refl)
  one_call (releasing lost c claim now) table h (same, other, early) =
      rw (same, h) (ground (arith, eq_iff row.holder claim.holder))
  one_call (releasing up c claim now) table h (same, other, early) =
      rw (same, h) (ground (arith, eq_iff row.holder claim.holder))

  -- While the row of a lease has not expired, calls of other holders, in any number and order,
  -- leave the row as it is, and none of them is answered with a claim.
  pub lease_excludes :
      (calls : List Call) (table : Table)
      → table lease ≡ some row
      → All (IsOther lease row.holder row.expires_at) calls
      → (run_calls calls table lease ≡ some row) × (some_claim calls table ≡ false)
  unfolding run_calls some_claim
  lease_excludes [] table h o = (h, refl)
  lease_excludes (call ∷ calls) table h (o, others) =
      let (kept, none_got) = one_call call table h o in
      let rest = lease_excludes calls (run_call call table) kept others in
      (rest.0, rw none_got rest.1)

-- The row that an acquisition leaves, and the row that was there before it.
abbrev pub Taken : Coordinator → ℕ → Option LeaseRecord → SyncLeaseClaim → LeaseRecord → Type 0
Taken c now before claim row =
    (row.holder ≡ c.holder)
    × (claim.holder ≡ c.holder)
    × (claim.token ≡ row.fencing_token)
    × (row.expires_at ≡ now + c.ttl)
    × ((old : LeaseRecord)
        → before ≡ some old
        → (old.expires_at ≤ now) × (row.fencing_token ≡ old.fencing_token + 1))

module _ (c : Coordinator) (now : ℕ) (claim : SyncLeaseClaim) where
  upsert-Taken :
      (before : Option LeaseRecord)
      → claim_of (ok (upsert c.name c.holder now c.ttl before)) ≡ ok claim
      → (row : LeaseRecord) × (upsert c.name c.holder now c.ttl before ≡ some row)
        × Taken c now before claim row
  unfolding upsert claim_of
  upsert-Taken none h = (
    fresh_row c.name c.holder 1 now c.ttl,
    refl,
    (refl, ground arith, ground arith, refl, (λ old e. absurd (ground arith))),
  )
  upsert-Taken (some old) h = elim (Bool-cases (leb old.expires_at now)) [
    | inl e ↦ (
      fresh_row c.name c.holder (old.fencing_token + 1) now c.ttl,
      rw e,
      (
        refl,
        ground arith,
        ground arith,
        refl,
        (λ older p. ground (arith, leb→le old.expires_at now e, some_inj old older p)),
      ),
    )
    | inr e ↦ absurd (ground arith)
  ]

  -- An acquisition that is answered with a claim leaves the row that the claim names: its holder
  -- is the coordinator's, it expires a ttl later, and if there was a row before, that row had
  -- expired and the new token is one more than its token.
  pub coordinator_acquire_claims :
      (table : Table)
      → (coordinator_acquire up c now table).1 ≡ ok claim
      → (row : LeaseRecord) × ((coordinator_acquire up c now table).0 c.name ≡ some row)
        × Taken c now (table c.name) claim row
  unfolding coordinator_acquire acquire claim_of write_back
  coordinator_acquire_claims table h =
      let (row, made, taken) = upsert-Taken (table c.name) h in
      (row, rw (made, eq_refl c.name), taken)

-- Where there is no row, the first acquisition gets the token 1.
pub coordinator_first :
    (c : Coordinator) (now : ℕ) (table : Table)
    → table c.name ≡ none
    → (coordinator_acquire up c now table).1 ≡ ok (record { holder = c.holder; token = 1 })
unfolding coordinator_acquire acquire upsert fresh_row claim_of write_back
coordinator_first c now table h = rw h refl
