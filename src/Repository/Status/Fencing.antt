-- ===== src/Repository/Status/Fencing.antt =====
-- Fencing: the status history in the states that processes reach.
use Prim.Native.String.{String}
use text.Mathlib.Text.{◌==◌ as str_eq}
use text.Mathlib.TextPositions.{eq_refl}
use sekai_master_api.Prelude.{
  ℕ, ◌<◌, ◌≤◌, true, false, some, List, [], ◌∷◌, ◌≡◌, refl, sym, ◌⊎◌, inl, inr, All, arith, subst,
  le_refl, le_trans,
}
use sekai_master_api.Prelude.Members.{In}
use sekai_master_api.Masterdata.Types.{SyncStatus}
use sekai_master_api.Repository.Lease.{Table, LeaseRecord, Link, up, ok, acquire}
use sekai_master_api.Repository.Status.{Database, fenced_out, save, is_fenced_out}
use sekai_master_api.Repository.Status.Steps.{
  System, after_acquire, after_save, Step, Reach, token_of, current, InTokenOrder, acquire_current,
  renew_current, release_current, save_current, acquire_told, save_written, unfenced, empty,
  acquires, renews, releases, saves, here, next,
}

module _ (lease : String) where
  abbrev IsTold : ℕ → ℕ → Type 0
  IsTold top token = (0 < token) × (token ≤ top)

  pub record Inv (s : System) : Type 0 where
    pub told_past : All (IsTold (current lease s)) s.claimed
    pub written_past : All (λ row. row.fencing_token ≤ current lease s) s.database.history
    pub ordered : InTokenOrder lease s.database.history

  IsTold-mono : (a b : ℕ) (ts : List ℕ) → a ≤ b → All (IsTold a) ts → All (IsTold b) ts
  IsTold-mono a b [] le h = tt
  IsTold-mono a b (t ∷ ts) le h = (omega arith, IsTold-mono a b ts le h.1)

  written_mono :
      (a b : ℕ) (rows : List SyncStatus)
      → a ≤ b
      → All (λ row. row.fencing_token ≤ a) rows
      → All (λ row. row.fencing_token ≤ b) rows
  written_mono a b [] le h = tt
  written_mono a b (row ∷ rows) le h = (omega arith, written_mono a b rows le h.1)

  IsTold-member : (top t : ℕ) (ts : List ℕ) → In t ts → All (IsTold top) ts → IsTold top t
  IsTold-member top t [] m h = absurd m
  IsTold-member top t (x ∷ ts) (inl e) h = omega arith
  IsTold-member top t (x ∷ ts) (inr m) h = IsTold-member top t ts m h.1

  -- What a process is told by an acquisition is the current token, greater than all before.
  acquires-Inv :
      (link : Link) (holder : String) (now ttl : ℕ) (s : System)
      → Inv s
      → Inv (after_acquire lease link holder now ttl s)
  acquires-Inv link holder now ttl s v =
      let s' = after_acquire lease link holder now ttl s in
      let grows = acquire_current lease link holder now ttl s in
      let kept = IsTold-mono (current lease s) (current lease s') s.claimed grows v.told_past in
      record {
        told_past = elim (acquire_told lease link holder now ttl s) [
          | inl e ↦ subst (All (IsTold (current lease s'))) (sym e) kept
          | inr p ↦
              subst (All (IsTold (current lease s'))) (sym p.0)
                ((omega (arith, p.1), le_refl (current lease s')), kept)
        ];
        written_past =
            written_mono (current lease s) (current lease s') s.database.history grows
              v.written_past;
        ordered = v.ordered;
      }

  token_past :
      (token : ℕ) (s : System) → (token ≡ 0) ⊎ In token s.claimed → Inv s → token ≤ current lease s
  token_past token s (inl e) v = omega arith
  token_past token s (inr m) v = (IsTold-member (current lease s) token s.claimed m v.told_past).1

  -- A row that is let through is as new as every row before it.
  row_order :
      (status : SyncStatus) (s : System)
      → str_eq lease "" ≡ false
      → is_fenced_out lease status.fencing_token s.database.leases ≡ false
      → Inv s
      → (status.fencing_token ≡ 0)
        ⊎ All (λ old. old.fencing_token ≤ status.fencing_token) s.database.history
  row_order status s named through v =
      elim (unfenced lease status.fencing_token s.database.leases named through) [
        | inl e ↦ inl e
        | inr le ↦ inr (
            written_mono (current lease s) status.fencing_token s.database.history le
              v.written_past)
      ]

  saves-Inv :
      (link : Link) (status : SyncStatus) (s : System)
      → str_eq lease "" ≡ false
      → (status.fencing_token ≡ 0) ⊎ In status.fencing_token s.claimed
      → Inv s
      → Inv (after_save lease link status s)
  saves-Inv link status s named source v =
      let s' = after_save lease link status s in
      let same_token = sym (save_current lease link status s) in
      let Past =
        λ (rows : List SyncStatus). All (λ row. row.fencing_token ≤ current lease s) rows in
      record {
        told_past = subst (λ n. All (IsTold n) s.claimed) same_token v.told_past;
        written_past =
            subst (λ n. All (λ row. row.fencing_token ≤ n) s'.database.history) same_token
              (elim (save_written lease link status s) [
                | inl e ↦ subst Past (sym e) v.written_past
                | inr p ↦
                    subst Past (sym p.0)
                      (token_past status.fencing_token s source v, v.written_past)
              ]);
        ordered = elim (save_written lease link status s) [
          | inl e ↦ subst (InTokenOrder lease) (sym e) v.ordered
          | inr p ↦ subst (InTokenOrder lease) (sym p.0) (row_order status s named p.1 v, v.ordered)
        ];
      }

  same_current-Inv :
      (s s' : System)
      → current lease s' ≡ current lease s
      → s'.claimed ≡ s.claimed
      → s'.database.history ≡ s.database.history
      → Inv s
      → Inv s'
  same_current-Inv s s' c t h v = record {
    told_past =
        subst (λ n. All (IsTold n) s'.claimed) (sym c)
          (subst (All (IsTold (current lease s))) (sym t) v.told_past);
    written_past =
        subst (λ n. All (λ row. row.fencing_token ≤ n) s'.database.history) (sym c)
          (subst (All (λ row. row.fencing_token ≤ current lease s)) (sym h) v.written_past);
    ordered = subst (InTokenOrder lease) (sym h) v.ordered;
  }

  Step-Inv : {s t : System} → str_eq lease "" ≡ false → Step lease s t → Inv s → Inv t
  Step-Inv named (acquires s link holder now ttl) v = acquires-Inv link holder now ttl s v
  Step-Inv named (renews s link holder now ttl) v =
      same_current-Inv s _ (renew_current lease link holder now ttl s) refl refl v
  Step-Inv named (releases s link holder now) v =
      same_current-Inv s _ (release_current lease link holder now s) refl refl v
  Step-Inv named (saves s link status source) v = saves-Inv link status s named source v

  Reach-Inv : {s t : System} → str_eq lease "" ≡ false → Inv s → Reach lease s t → Inv t
  Reach-Inv named v here = v
  Reach-Inv named v (next r st) = Step-Inv named st (Reach-Inv named v r)

  Step-current : {s t : System} → Step lease s t → current lease s ≤ current lease t
  Step-current (acquires s link holder now ttl) = acquire_current lease link holder now ttl s
  Step-current (renews s link holder now ttl) =
      omega (arith, renew_current lease link holder now ttl s)
  Step-current (releases s link holder now) = omega (arith, release_current lease link holder now s)
  Step-current (saves s link status source) = omega (arith, save_current lease link status s)

  Reach-current : {s t : System} → Reach lease s t → current lease s ≤ current lease t
  Reach-current {s} here = le_refl (current lease s)
  Reach-current (next r st) = le_trans (Reach-current r) (Step-current st)

  empty-Inv : Inv empty
  empty-Inv = record { told_past = tt; written_past = tt; ordered = tt }

  -- Whatever processes acquire, renew, release and save in any order, starting from empty tables:
  -- a status row with a token was written under a token at least as new as that of every row
  -- before it. (The lease name is not empty.)
  pub history_in_token_order :
      {s : System}
      → str_eq lease "" ≡ false
      → Reach lease empty s
      → InTokenOrder lease s.database.history
  history_in_token_order named r = (Reach-Inv named empty-Inv r).ordered

  stale_is_fenced :
      (token : ℕ) (leases : Table)
      → str_eq lease "" ≡ false
      → 0 < token
      → token < token_of lease (leases lease)
      → is_fenced_out lease token leases ≡ true
  unfolding is_fenced_out
  stale_is_fenced token leases named positive older = ground arith

  fenced_save :
      (status : SyncStatus) (db : Database)
      → is_fenced_out lease status.fencing_token db.leases ≡ true
      → save up lease status db ≡ (db, fenced_out)
  unfolding save
  fenced_save status db h = rw h

  answered_takes :
      (holder : String) (now ttl : ℕ) (s : System) (row : LeaseRecord)
      → (acquire up lease holder now ttl s.database.leases).1 ≡ ok (some row)
      → current lease s < current lease (after_acquire lease up holder now ttl s)
  unfolding acquire
  answered_takes holder now ttl s row h = ground (arith, eq_refl lease)

  -- After a process has been given the lease, a save with a token that was told before is refused
  -- and writes nothing, at any later time. (The lease name is not empty.)
  pub stale_save_refused :
      {s t : System} (holder : String) (now ttl : ℕ) (row : LeaseRecord) (status : SyncStatus)
      → str_eq lease "" ≡ false
      → Reach lease empty s
      → In status.fencing_token s.claimed
      → (acquire up lease holder now ttl s.database.leases).1 ≡ ok (some row)
      → Reach lease (after_acquire lease up holder now ttl s) t
      → save up lease status t.database ≡ (t.database, fenced_out)
  stale_save_refused {s} {t} holder now ttl row status named r m taken later =
      let past =
        IsTold-member (current lease s) status.fencing_token s.claimed m
          (Reach-Inv named empty-Inv r).told_past in
      fenced_save status t.database (
        stale_is_fenced status.fencing_token t.database.leases named past.0 (
          le_trans (omega (arith, past.1, answered_takes holder now ttl s row taken))
            (Reach-current later)))
