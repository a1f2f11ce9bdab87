-- ===== src/Usecase/StatusQueries/Dashboard.antt =====
-- What the status maps and the dashboard hold.
use sekai_master_api.Prelude.{
  suc, true, false, Option, none, some, List, [], ◌∷◌, length, ◌==◌, if◌then◌else◌, ◌≡◌, ◌⊎◌, inl,
  inr, refl, ◌∙◌, ap, All, arith, Bool-cases, subst,
}
use sekai_master_api.Prelude.Text.{Bytes, same, same→eq, trim_space, to_lower}
use sekai_master_api.Masterdata.Types.{SyncStatus}
use sekai_master_api.Usecase.World.{answered}
use sekai_master_api.Usecase.StatusQueries.{
  StatusStore, StatusMap, normalized, find_status, put_statuses, load_status_map, stable_by_region,
  is_running, any_running, or_status, merge_stable, merged_with, dashboard_status,
}

-- The last of the statuses with exactly the region, else what is given.
abbrev pub last_of : Bytes → List SyncStatus → Option SyncStatus → Option SyncStatus
last_of region [] before = before
last_of region (status ∷ statuses) before =
    last_of region statuses (if same status.region region then some status else before)

put-last_of :
    (region : Bytes) (statuses : List SyncStatus) (entries : StatusMap)
    → (length (trim_space region) == 0) ≡ false
    → find_status region (put_statuses statuses entries)
      ≡ last_of region statuses (find_status region entries)
unfolding put_statuses find_status
put-last_of region [] entries h = refl
put-last_of region (status ∷ statuses) entries h =
    put-last_of region statuses _ h ∙ ap (last_of region statuses) (first status)
  where
    blank_differs :
        (status : SyncStatus)
        → (length (trim_space status.region) == 0) ≡ true
        → same status.region region ≡ false
    blank_differs status e = elim (Bool-cases (same status.region region)) [
      | inl f ↦
          absurd (cc (ap (λ r. length (trim_space r) == 0) (same→eq status.region region f), e, h))
      | inr f ↦ f
    ]

    first :
        (status : SyncStatus)
        → find_status region (
            if length (trim_space status.region) == 0
            then entries
            else (status.region, status) ∷ entries)
          ≡ (if same status.region region then some status else find_status region entries)
    first status = elim (Bool-cases (length (trim_space status.region) == 0)) [
      | inl e ↦ rw (e, blank_differs status e) refl
      | inr e ↦ rw e refl
    ]

-- Of a region that is not blank, `loadStatusMap` gives as the latest status the last that is listed
-- with exactly this region, and as the previous status the last success that is listed with it, or
-- else the latest status. Both lists are answered.
pub load_status_map-last :
    (store : StatusStore) (statuses successes : List SyncStatus) (region : Bytes)
    → store.list ≡ answered statuses
    → store.latest_success ≡ some (answered successes)
    → (length (trim_space region) == 0) ≡ false
    → (find_status region (load_status_map (some store)).1 ≡ last_of region statuses none)
      × (find_status region (load_status_map (some store)).0
          ≡ last_of region successes (last_of region statuses none))
unfolding load_status_map
load_status_map-last store statuses successes region listed stored h =
    let latest : find_status region (put_statuses statuses []) ≡ last_of region statuses none =
      unfold find_status in put-last_of region statuses [] h in
    rw (listed, stored)
      (
        latest,
        put-last_of region successes (put_statuses statuses []) h
            ∙ ap (last_of region successes) latest,
      )

abbrev AreStable : StatusMap → Type 0
AreStable entries = All (λ entry. is_running entry.1 ≡ false) entries

stable-AreStable :
    (statuses : List SyncStatus) (entries : StatusMap)
    → All (λ x. is_running x ≡ false) statuses
    → AreStable entries
    → AreStable (stable_by_region statuses entries)
unfolding stable_by_region
stable-AreStable [] entries h k = k
stable-AreStable (status ∷ statuses) entries h k =
    stable-AreStable statuses ((normalized status.region, status) ∷ entries) h.1 (h.0, k)

find-AreStable :
    (region : Bytes) (entries : StatusMap) (x : SyncStatus)
    → AreStable entries
    → find_status region entries ≡ some x
    → is_running x ≡ false
unfolding find_status
find-AreStable region [] x h e = absurd cc
find-AreStable region ((key, status) ∷ entries) x h e = elim (Bool-cases (same key region)) [
  | inl f ↦ cc (rw f at e, h.0)
  | inr f ↦ find-AreStable region entries x h.1 (rw f at e)
]

-- The status does not run, or none of the stable statuses has its region: regions are compared in
-- small letters and without the spaces around them.
abbrev pub IsSettled : List SyncStatus → SyncStatus → Type 0
IsSettled stable x =
    (is_running x ≡ false)
    ⊎ All (λ y. same (to_lower (trim_space y.region)) (to_lower (trim_space x.region)) ≡ false)
        stable

-- A region that is not found in the map is the region of no stable status.
find-absent :
    (region : Bytes) (stable : List SyncStatus) (entries : StatusMap)
    → find_status region (stable_by_region stable entries) ≡ none
    → All (λ y. same (to_lower (trim_space y.region)) region ≡ false) stable
      × (find_status region entries ≡ none)
unfolding stable_by_region find_status
find-absent region [] entries h = (tt, h)
find-absent region (status ∷ stable) entries h =
    let (rest, here) = find-absent region stable ((normalized status.region, status) ∷ entries) h in
    elim (Bool-cases (same (normalized status.region) region)) [
      | inl f ↦ absurd (cc (rw f at here))
      | inr f ↦ ((f, rest), rw f at here)
    ]

IsSettled-entry :
    (stable : List SyncStatus) (status : SyncStatus) (found : Option SyncStatus)
    → AreStable (stable_by_region stable [])
    → find_status (normalized status.region) (stable_by_region stable []) ≡ found
    → IsSettled stable (or_status status found)
IsSettled-entry stable status none h e = inr (find-absent (normalized status.region) stable [] e).0
IsSettled-entry stable status (some x) h e =
    inl (find-AreStable (normalized status.region) (stable_by_region stable []) x h e)

merge-IsSettled :
    (stable statuses : List SyncStatus)
    → AreStable (stable_by_region stable [])
    → All (IsSettled stable) (merge_stable (stable_by_region stable []) statuses)
unfolding merge_stable
merge-IsSettled stable [] h = tt
merge-IsSettled stable (status ∷ statuses) h = elim (Bool-cases (is_running status)) [
  | inl e ↦ rw e (IsSettled-entry stable status _ h refl, merge-IsSettled stable statuses h)
  | inr e ↦ rw e (inl e, merge-IsSettled stable statuses h)
]

merge-length :
    (entries : StatusMap) (statuses : List SyncStatus)
    → length (merge_stable entries statuses) ≡ length statuses
unfolding merge_stable
merge-length entries [] = refl
merge-length entries (status ∷ statuses) = ap suc (merge-length entries statuses)

none_running :
    (stable statuses : List SyncStatus)
    → any_running statuses ≡ false
    → All (IsSettled stable) statuses
unfolding any_running
none_running stable [] h = tt
none_running stable (status ∷ statuses) h = elim (Bool-cases (is_running status)) [
  | inl e ↦ absurd (ground (arith, e))
  | inr e ↦ (inl e, none_running stable statuses (rw e at h))
]

none_known : (xs : List SyncStatus) → All (IsSettled []) xs
none_known [] = tt
none_known (x ∷ xs) = (inr tt, none_known xs)

-- As many statuses are shown, each of them settled.
AreSettled : List SyncStatus → List SyncStatus → List SyncStatus → Type 0
AreSettled statuses stable shown = (length shown ≡ length statuses) × All (IsSettled stable) shown

merged-AreSettled :
    (statuses stable : List SyncStatus)
    → All (λ x. is_running x ≡ false) stable
    → AreSettled statuses stable (merged_with statuses (some (answered stable)))
unfolding AreSettled
merged-AreSettled statuses [] h = (refl, none_known statuses)
merged-AreSettled statuses (first ∷ stable) h =
    let filled : (length (first ∷ stable) == 0) ≡ false = ground arith in
    rw filled (
      merge-length (stable_by_region (first ∷ stable) []) statuses,
      merge-IsSettled (first ∷ stable) statuses (stable-AreStable (first ∷ stable) [] h tt),
    )

-- While no synchronisation runs in this process, `DashboardStatus` shows as many statuses as are
-- listed, and as running only those whose region, compared without case and outer spaces, is the
-- region of no stable status. Both lists are answered, and no stable status is running.
pub dashboard_status-IsSettled :
    (store : StatusStore) (statuses stable shown : List SyncStatus)
    → store.list ≡ answered statuses
    → store.latest_stable ≡ some (answered stable)
    → All (λ x. is_running x ≡ false) stable
    → dashboard_status false (some store) ≡ answered shown
    → (length shown ≡ length statuses) × All (IsSettled stable) shown
unfolding dashboard_status AreSettled
dashboard_status-IsSettled store statuses stable shown listed stored h answer =
    elim (Bool-cases (any_running statuses)) [
      | inl e ↦
          subst (AreSettled statuses stable) (shown_inj _ shown (rw (listed, stored, e) at answer))
            (merged-AreSettled statuses stable h)
      | inr e ↦
          subst (AreSettled statuses stable)
            (shown_inj statuses shown (rw (listed, stored, e) at answer))
            (refl, none_running stable statuses e)
    ]
  where
    shown_inj : (a b : List SyncStatus) → answered a ≡ answered b → a ≡ b
    shown_inj a b e = cc
