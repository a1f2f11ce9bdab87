-- ===== src/Usecase/SaveStatus/Live.antt =====
-- `saveStatus` while the context is live and the store saves.
use sekai_master_api.Prelude.{
  Bool-cases, inl, inr, ℕ, Bool, true, false, Option, none, some, ◌∷◌, ◌+◌, ◌≡◌, refl, sym, ◌∙◌, ap,
  subst,
}
use sekai_master_api.Prelude.Text.{Bytes}
use sekai_master_api.Masterdata.Types.{SyncStatus}
use sekai_master_api.Usecase.World.{World, State, ContextErr}
use sekai_master_api.Usecase.SaveStatus.{
  publish, save_status, is_interrupted, is_terminal_sync_status, suppressed, call_save, save_unless,
  after_save, conclude,
}
use sekai_master_api.Usecase.SaveStatus.Attempted.{stamped}

-- The context stays live, and each call of `Save` returns nil.
pub record IsLive {P : Type 0} (w : World P) : Type 0 where
  pub has_store : w.has_status_store ≡ true
  pub saves : (n : ℕ) → w.save_error n ≡ none
  pub lives : (n : ℕ) → w.ctx_err n ≡ ContextErr.live

module _ {P : Type 0} (w : World P) (live : IsLive w) where
  abbrev pub IsSaved : SyncStatus → State P → State P × Option Bytes → Type 0
  IsSaved status s r =
      (r.0.saved ≡ stamped w status ∷ s.saved) × (r.0.failures ≡ s.failures) × (r.1 ≡ none)

  -- No interruption is seen.
  pub interrupted_never : (s : State P) → (is_interrupted w s).1 ≡ false
  unfolding is_interrupted
  interrupted_never s = rw (live.lives s.ctx_reads) refl

  abbrev IsPassed : State P → State P × Bool → Type 0
  IsPassed s r = (r.0.saved ≡ s.saved) × (r.0.failures ≡ s.failures) × (r.1 ≡ false)

  suppressed-IsPassed : (status : SyncStatus) (s : State P) → IsPassed s (suppressed w status s)
  unfolding suppressed is_interrupted
  suppressed-IsPassed status s = elim (Bool-cases (is_terminal_sync_status status.status)) [
    | inl e ↦ rw e (refl, refl, interrupted_never s)
    | inr e ↦ rw e (refl, refl, refl)
  ]

  abbrev called : SyncStatus → State P → State P
  called status s = record s {
    save_calls = s.save_calls + 1;
    attempted = status ∷ s.attempted;
    saved = status ∷ s.saved;
  }

  call_save-called :
      (status : SyncStatus) (s : State P) → call_save w status s ≡ (called status s, none)
  unfolding call_save
  call_save-called status s =
      ap
        (λ error. (
          record s {
            save_calls = s.save_calls + 1;
            attempted = status ∷ s.attempted;
            saved = elim error [ none ↦ status ∷ s.saved | some e ↦ s.saved ];
          },
          error,
        ))
        (live.saves s.save_calls)

  called-IsSaved :
      (status : SyncStatus) (s : State P)
      → IsSaved status s (after_save w (stamped w status) (call_save w (stamped w status) s))
  unfolding after_save conclude publish
  called-IsSaved status s =
      subst (λ r. IsSaved status s (after_save w (stamped w status) r))
        (sym (call_save-called (stamped w status) s)) (refl, refl, refl)

  unless-IsSaved :
      (status : SyncStatus) (s : State P) (r : State P × Bool)
      → IsPassed s r
      → IsSaved status s (save_unless w status r)
  unfolding save_unless
  unless-IsSaved status s (u, true) (a, b, c) = absurd cc
  unless-IsSaved status s (u, false) (a, b, c) =
      let (x, y, z) = called-IsSaved status u in (x ∙ ap (λ l. stamped w status ∷ l) a, y ∙ b, z)

  -- The status is saved, nothing else is, and no error is returned.
  pub save_status-IsSaved :
      (status : SyncStatus) (s : State P) → IsSaved status s (save_status w status s)
  unfolding save_status
  save_status-IsSaved status s =
      rw live.has_store
        (unless-IsSaved status s (suppressed w status s) (suppressed-IsPassed status s))
