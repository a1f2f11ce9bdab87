-- ===== src/Usecase/CurrentEvent/Until.antt =====
-- The current event stays as it is until the moment that comes with it.
use sekai_master_api.Prelude.{
  ℕ, suc, ◌+◌, ◌<◌, ◌≤◌, Bool, true, false, not, ◌||◌, Option, none, some, List, [], ◌∷◌, length,
  ltb, ◌==◌, if◌then◌else◌, ◌≡◌, refl, sym, ◌∙◌, ap, ◌⊎◌, inl, inr, arith, Bool-cases, some_inj,
  subst, lt→ltb, ltb→lt,
}
use sekai_master_api.Prelude.Text.{Bytes, trim_space, to_lower}
use sekai_master_api.Masterdata.Json.{Fields, Runtime}
use sekai_master_api.Usecase.World.{Answer, answered, failed}
use sekai_master_api.Usecase.EventTime.{Clock}
use sekai_master_api.Usecase.CurrentEvent.{
  Scan, unset, earlier, choose, scan_row, scan, EventStore, Current, ranges_of, read_event,
  read_row, select_row, of_projection, current_event_until,
}

-- The moment is not past the next change, of which 0 says that there is none.
abbrev pub IsBefore : ℕ → ℕ → Type 0
IsBefore x next_change = (next_change ≡ 0) ⊎ (x < next_change)

earlier-IsBefore :
    (x candidate next_change : ℕ)
    → 0 < candidate
    → IsBefore x (earlier candidate next_change)
    → (x < candidate) × IsBefore x next_change
unfolding earlier
earlier-IsBefore x candidate next_change p (inl h) = ground arith
earlier-IsBefore x candidate next_change p (inr h) = ground arith

not_less : (a b : ℕ) → b ≤ a → ltb a b ≡ false
not_less a b h = ground arith

-- The three ways through the loop's body.
abbrev with_change : ℕ → Scan → Scan
with_change candidate s = record s { next_change = earlier candidate s.next_change }

abbrev opened : ℕ → ℕ → ℕ → Scan → Scan
opened row start_at end_at s = record {
  selected = choose row start_at s.selected;
  next_change = earlier (end_at + 1) s.next_change;
}

scan_future :
    (now row start_at end_at : ℕ) (s : Scan)
    → now < start_at
    → scan_row now row (some (start_at, end_at)) s ≡ with_change start_at s
unfolding scan_row
scan_future now row start_at end_at s h = rw (lt→ltb now start_at h) refl

scan_past :
    (now row start_at end_at : ℕ) (s : Scan)
    → start_at ≤ now
    → end_at < now
    → scan_row now row (some (start_at, end_at)) s ≡ s
unfolding scan_row
scan_past now row start_at end_at s h k = rw (not_less now start_at h, lt→ltb end_at now k) refl

scan_open :
    (now row start_at end_at : ℕ) (s : Scan)
    → start_at ≤ now
    → now ≤ end_at
    → scan_row now row (some (start_at, end_at)) s ≡ opened row start_at end_at s
unfolding scan_row
scan_open now row start_at end_at s h k = rw (not_less now start_at h, not_less end_at now k) refl

abbrev IsSteady : ℕ → ℕ → ℕ → Option (ℕ × ℕ) → Scan → Type 0
IsSteady now x row range s =
    IsBefore x s.next_change × (scan_row x row range s ≡ scan_row now row range s)

changed : (x : ℕ) (s t : Scan) → s ≡ t → IsBefore x s.next_change → IsBefore x t.next_change
changed x s t e h = subst (λ u. IsBefore x u.next_change) e h

future-IsSteady :
    (now x row start_at end_at : ℕ) (s : Scan)
    → now < start_at
    → IsBefore x (scan_row now row (some (start_at, end_at)) s).next_change
    → IsSteady now x row (some (start_at, end_at)) s
future-IsSteady now x row start_at end_at s lt h =
    let now_step = scan_future now row start_at end_at s lt in
    let (before, rest) =
      earlier-IsBefore x start_at s.next_change (omega arith) (changed x _ _ now_step h) in
    (rest, scan_future x row start_at end_at s before ∙ sym now_step)

past-IsSteady :
    (now x row start_at end_at : ℕ) (s : Scan)
    → now ≤ x
    → start_at ≤ now
    → end_at < now
    → IsBefore x (scan_row now row (some (start_at, end_at)) s).next_change
    → IsSteady now x row (some (start_at, end_at)) s
past-IsSteady now x row start_at end_at s le begun over h =
    let now_step = scan_past now row start_at end_at s begun over in
    (
      changed x _ _ now_step h,
      scan_past x row start_at end_at s (omega arith) (omega arith) ∙ sym now_step,
    )

open-IsSteady :
    (now x row start_at end_at : ℕ) (s : Scan)
    → now ≤ x
    → start_at ≤ now
    → now ≤ end_at
    → IsBefore x (scan_row now row (some (start_at, end_at)) s).next_change
    → IsSteady now x row (some (start_at, end_at)) s
open-IsSteady now x row start_at end_at s le begun lasts h =
    let now_step = scan_open now row start_at end_at s begun lasts in
    let (before, rest) =
      earlier-IsBefore x (end_at + 1) s.next_change (omega arith) (changed x _ _ now_step h) in
    (rest, scan_open x row start_at end_at s (omega arith) (omega arith) ∙ sym now_step)

order_cases : (a b : ℕ) → (a < b) ⊎ (b ≤ a)
order_cases a b = elim (Bool-cases (ltb a b)) [
  | inl h ↦ inl (ltb→lt a b h)
  | inr h ↦ inr (ground arith)
]

row-IsSteady :
    (now x row : ℕ) (range : Option (ℕ × ℕ)) (s : Scan)
    → now ≤ x
    → IsBefore x (scan_row now row range s).next_change
    → IsSteady now x row range s
unfolding scan_row
row-IsSteady now x row none s le h = (h, refl)
row-IsSteady now x row (some (start_at, end_at)) s le h = elim (order_cases now start_at) [
  | inl future ↦ future-IsSteady now x row start_at end_at s future h
  | inr begun ↦ elim (order_cases end_at now) [
    | inl over ↦ past-IsSteady now x row start_at end_at s le begun over h
    | inr lasts ↦ open-IsSteady now x row start_at end_at s le begun lasts h
  ]
]

scan-IsBefore :
    (now x row : ℕ) (ranges : List (Option (ℕ × ℕ))) (s : Scan)
    → now ≤ x
    → IsBefore x (scan now row ranges s).next_change
    → IsBefore x s.next_change
unfolding scan
scan-IsBefore now x row [] s le h = h
scan-IsBefore now x row (range ∷ ranges) s le h =
    (row-IsSteady now x row range s le (scan-IsBefore now x (suc row) ranges _ le h)).0

scan_steady :
    (now x row : ℕ) (ranges : List (Option (ℕ × ℕ))) (s : Scan)
    → now ≤ x
    → IsBefore x (scan now row ranges s).next_change
    → scan x row ranges s ≡ scan now row ranges s
unfolding scan
scan_steady now x row [] s le h = refl
scan_steady now x row (range ∷ ranges) s le h =
    let before = scan-IsBefore now x (suc row) ranges (scan_row now row range s) le h in
    ap (scan x (suc row) ranges) (row-IsSteady now x row range s le before).1
    ∙ scan_steady now x (suc row) ranges (scan_row now row range s) le h

-- The moment that comes with an answer, 0 for none.
abbrev pub until_of : {F : Type 0} → Current F → Option ℕ
until_of (Current.found event until) = some until
until_of (Current.missing until) = some until
until_of (Current.errored e) = none
until_of Current.out_of_range = none

module _ {F : Type 0} (runtime : Runtime F) (clock : Clock F) (store : EventStore F) where
  read_until :
      (answer : Answer (Option (Fields F))) (until u : ℕ)
      → until_of (read_event runtime clock store answer until) ≡ some u
      → until ≡ u
  unfolding read_event
  read_until (failed e) until u h = absurd cc
  read_until (answered none) until u h = some_inj until u h
  read_until (answered (some event)) until u h = some_inj until u h

  row_until :
      (region : Bytes) (key : Option Bytes) (until u : ℕ)
      → until_of (read_row runtime clock store region key until) ≡ some u
      → until ≡ u
  unfolding read_row
  row_until region none until u h = absurd cc
  row_until region (some key) until u h = read_until (store.get_by_id region key) until u h

  select_until :
      (region : Bytes) (rows : List (Bytes × Fields F)) (selected : Option (ℕ × ℕ)) (until u : ℕ)
      → until_of (select_row runtime clock store region rows selected until) ≡ some u
      → until ≡ u
  unfolding select_row
  select_until region rows none until u h = some_inj until u h
  select_until region rows (some (row, start_at)) until u h = row_until region _ until u h

  projection_steady :
      (region : Bytes) (now x u : ℕ) (answer : Answer (List (Bytes × Fields F)))
      → now ≤ x
      → until_of (of_projection runtime clock store region now answer) ≡ some u
      → IsBefore x u
      → of_projection runtime clock store region x answer
        ≡ of_projection runtime clock store region now answer
  unfolding of_projection
  projection_steady region now x u (failed e) le h before = refl
  projection_steady region now x u (answered rows) le h before =
      let ranges = ranges_of runtime clock store rows in
      let s = scan now 0 ranges unset in
      let e = select_until region rows s.selected s.next_change u h in
      ap (λ t. select_row runtime clock store region rows t.selected t.next_change)
        (scan_steady now x 0 ranges unset le (subst (λ n. IsBefore x n) (sym e) before))

  -- When `CurrentEventUntil` answers at a moment with an until, it answers the same, the until
  -- included, at each later moment before that until, and at each later moment at all if the until
  -- is zero. The projection and the records that it reads stay as they are.
  pub current_event_until_steady :
      (region : Bytes) (now x u : ℕ)
      → now ≤ x
      → until_of (current_event_until runtime clock store region now) ≡ some u
      → IsBefore x u
      → current_event_until runtime clock store region x
        ≡ current_event_until runtime clock store region now
  unfolding current_event_until
  current_event_until_steady region now x u le h before =
      steady (not store.has_cache || length (to_lower (trim_space region)) == 0) _ _
        (λ k. projection_steady (to_lower (trim_space region)) now x u _ le k before) h
    where
      steady :
          (b : Bool) (p q : Current F)
          → (until_of q ≡ some u → p ≡ q)
          → until_of (if b then Current.missing 0 else q) ≡ some u
          → (if b then Current.missing 0 else p) ≡ (if b then Current.missing 0 else q)
      steady true p q same_later k = refl
      steady false p q same_later k = same_later k
