-- ===== src/Usecase/StatusQueries/Interrupted.antt =====
-- Which regions are taken up again.
use sekai_master_api.Prelude.{
  Bool, true, false, not, &&-true, some, List, [], ◌∷◌, length, ◌==◌, if◌then◌else◌, ◌≡◌, ◌↔◌, inl,
  inr, refl, sym, ◌∙◌, ap, Bool-cases, false≢true, subst,
}
use sekai_master_api.Prelude.Text.{Bytes, less}
use sekai_master_api.Prelude.Members.{In}
use sekai_master_api.Prelude.Sort.{sort, sort-In}
use sekai_master_api.Masterdata.Types.{Source, SyncStatus}
use sekai_master_api.Masterdata.Index.Table.{is_among}
use sekai_master_api.Masterdata.Index.Keys.{distinct, distinct_from}
use sekai_master_api.Masterdata.Index.Keys.Distinct.{
  Distinct, In-distinct, distinct-Distinct, is_among_sound, is_among_complete,
}
use sekai_master_api.Usecase.World.{answered}
use sekai_master_api.Usecase.StatusQueries.{
  StatusStore, normalized, collect_regions, configured_set, is_unfinished, is_resumable,
  interrupted_regions, target_sources, recovery_targets, targets_of, sorted_regions,
}

-- The region of a listed status that passes the test.
abbrev pub IsListed : (SyncStatus → Bool) → Bytes → List SyncStatus → Type 0
IsListed test region statuses =
    (status : SyncStatus) × In status statuses
    × (test status ≡ true)
    × (normalized status.region ≡ region)

-- The regions of the statuses that pass the test, without a look at those before.
passing : (SyncStatus → Bool) → List SyncStatus → List Bytes
passing test [] = []
passing test (status ∷ statuses) =
    let rest = passing test statuses in
    if test status then normalized status.region ∷ rest else rest

module _ (test : SyncStatus → Bool) where
  collect-distinct :
      (seen : List Bytes) (statuses : List SyncStatus)
      → collect_regions test seen statuses ≡ distinct_from seen (passing test statuses)
  unfolding collect_regions passing distinct_from
  collect-distinct seen [] = refl
  collect-distinct seen (status ∷ statuses) = elim (Bool-cases (test status)) [
    | inl e ↦ elim (Bool-cases (is_among (normalized status.region) seen)) [
      | inl f ↦ rw (e, f) (collect-distinct seen statuses)
      | inr f ↦
          rw (e, f)
            (ap (λ rs. normalized status.region ∷ rs)
              (collect-distinct (normalized status.region ∷ seen) statuses))
    ]
    | inr e ↦ rw e (collect-distinct seen statuses)
  ]

  passing-IsListed :
      (statuses : List SyncStatus) (r : Bytes)
      → In r (passing test statuses)
      → IsListed test r statuses
  unfolding passing
  passing-IsListed [] r h = absurd h
  passing-IsListed (status ∷ statuses) r h = elim (Bool-cases (test status)) [
    | inl e ↦ elim (rw e at h) [
      | inl here ↦ (status, inl refl, e, sym here)
      | inr m ↦ let (x, k, p, q) = passing-IsListed statuses r m in (x, inr k, p, q)
    ]
    | inr e ↦ let (x, k, p, q) = passing-IsListed statuses r (rw e at h) in (x, inr k, p, q)
  ]

  IsListed-passing :
      (statuses : List SyncStatus) (r : Bytes) (x : SyncStatus)
      → In x statuses
      → test x ≡ true
      → normalized x.region ≡ r
      → In r (passing test statuses)
  unfolding passing
  IsListed-passing [] r x m p q = absurd m
  IsListed-passing (status ∷ statuses) r x (inl e) p q =
      rw (ap test (sym e) ∙ p) (inl (sym q ∙ ap (λ (y : SyncStatus). normalized y.region) e))
  IsListed-passing (status ∷ statuses) r x (inr m) p q = elim (Bool-cases (test status)) [
    | inl e ↦ rw e (inr (IsListed-passing statuses r x m p q))
    | inr e ↦ rw e (IsListed-passing statuses r x m p q)
  ]

  -- The regions of a query are those of the listed statuses that pass its test, each once.
  pub collect-exact :
      (statuses : List SyncStatus)
      → ((r : Bytes) → In r (collect_regions test [] statuses) ↔ IsListed test r statuses)
        × Distinct (collect_regions test [] statuses)
  unfolding distinct
  collect-exact statuses = rw collect-distinct (
    (λ r.
        let both = In-distinct (passing test statuses) r in
        (
          (λ h. passing-IsListed statuses r (both.0 h)),
          (λ (x, m, p, q). both.1 (IsListed-passing statuses r x m p q)),
        )),
    distinct-Distinct (passing test statuses),
  )

targets_sound :
    (sources : List Source) (rs : List Bytes) (source : Source)
    → In source (target_sources sources rs)
    → In source sources × In (normalized source.region) rs
unfolding target_sources
targets_sound [] rs source h = absurd h
targets_sound (first ∷ sources) rs source h =
    elim (Bool-cases (is_among (normalized first.region) rs)) [
      | inl e ↦ elim (rw e at h) [
        | inl p ↦ (
          inl p,
          is_among_sound _ rs (ap (λ (s : Source). is_among (normalized s.region) rs) p ∙ e),
        )
        | inr m ↦ let (k, q) = targets_sound sources rs source m in (inr k, q)
      ]
      | inr e ↦ let (k, q) = targets_sound sources rs source (rw e at h) in (inr k, q)
    ]

targets_complete :
    (sources : List Source) (rs : List Bytes) (source : Source)
    → In source sources
    → In (normalized source.region) rs
    → In source (target_sources sources rs)
unfolding target_sources
targets_complete [] rs source m k = absurd m
targets_complete (first ∷ sources) rs source (inl p) k =
    rw (ap (λ (s : Source). is_among (normalized s.region) rs) (sym p) ∙ is_among_complete _ rs k)
      (inl p)
targets_complete (first ∷ sources) rs source (inr m) k =
    elim (Bool-cases (is_among (normalized first.region) rs)) [
      | inl e ↦ rw e (inr (targets_complete sources rs source m k))
      | inr e ↦ rw e (targets_complete sources rs source m k)
    ]

targets-In :
    (sources : List Source) (rs : List Bytes) (source : Source)
    → In source (target_sources sources rs) ↔ (In source sources × In (normalized source.region) rs)
targets-In sources rs source =
    (targets_sound sources rs source, (λ (m, k). targets_complete sources rs source m k))

configured-In :
    (sources : List Source) (source : Source)
    → In source sources
    → (length (normalized source.region) == 0) ≡ false
    → In (normalized source.region) (configured_set sources)
unfolding configured_set
configured-In [] source m h = absurd m
configured-In (first ∷ sources) source (inl p) h =
    rw (ap (λ (s : Source). length (normalized s.region) == 0) (sym p) ∙ h)
      (inl (ap (λ (s : Source). normalized s.region) p))
configured-In (first ∷ sources) source (inr m) h =
    elim (Bool-cases (length (normalized first.region) == 0)) [
      | inl e ↦ rw e (configured-In sources source m h)
      | inr e ↦ rw e (inr (configured-In sources source m h))
    ]

resumable-cases :
    (configured : List Bytes) (x : SyncStatus)
    → is_resumable configured x ≡ true
    → ((length (normalized x.region) == 0) ≡ false) × (is_unfinished x.status ≡ true)
unfolding is_resumable
resumable-cases configured x h =
    let (a, b) = &&-true (not (length (normalized x.region) == 0)) _ h in
    (not_true _ a, (&&-true (is_among (normalized x.region) configured) _ b).1)
  where
    not_true : (b : Bool) → not b ≡ true → b ≡ false
    not_true true e = absurd (false≢true e)
    not_true false e = refl

resumable :
    (configured : List Bytes) (x : SyncStatus)
    → (length (normalized x.region) == 0) ≡ false
    → is_among (normalized x.region) configured ≡ true
    → is_unfinished x.status ≡ true
    → is_resumable configured x ≡ true
unfolding is_resumable
resumable configured x a b c = rw (a, b, c) refl

answered_inj : {A : Type 0} (a b : A) → answered a ≡ answered b → a ≡ b
answered_inj a b h = cc

-- A source is synchronised again exactly when it is configured and its region, which is not blank,
-- has a listed status that is running or pending, whatever the case and the white space around
-- region and status. The status store answers its list.
pub recovery_targets-exact :
    (sources targets : List Source) (store : StatusStore) (statuses : List SyncStatus)
    (source : Source)
    → store.list ≡ answered statuses
    → recovery_targets sources (some store) ≡ answered targets
    → In source targets ↔ (
        In source sources
        × (status : SyncStatus) × In status statuses
        × (normalized status.region ≡ normalized source.region)
        × (is_unfinished status.status ≡ true)
        × ((length (normalized source.region) == 0) ≡ false))
unfolding recovery_targets interrupted_regions
recovery_targets-exact sources targets store statuses source listed answer =
    let test = is_resumable (configured_set sources) in
    let regions = sort less (collect_regions test [] statuses) in
    let made =
      answered_inj (target_sources sources regions) targets
        (ap (λ l. targets_of sources (sorted_regions test l)) (sym listed) ∙ answer) in
    let both = targets-In sources regions source in
    let exact = (collect-exact test statuses).0 (normalized source.region) in
    let same_regions = sort-In less (normalized source.region) (collect_regions test [] statuses) in
    (
      (λ h.
          let (m, k) = both.0 (subst (In source) (sym made) h) in
          let (x, listed_, passes, e) = exact.0 (same_regions.0 k) in
          let (filled, unfinished) = resumable-cases (configured_set sources) x passes in
          (m, x, listed_, e, unfinished, ap (λ r. length r == 0) (sym e) ∙ filled)),
      (λ (m, x, k, e, unfinished, filled).
          let passes =
            resumable (configured_set sources) x (ap (λ r. length r == 0) e ∙ filled)
              (ap (λ r. is_among r (configured_set sources)) e
                ∙ is_among_complete _ _ (configured-In sources source m filled))
              unfinished in
          subst (In source) made (both.1 (m, same_regions.1 (exact.1 (x, k, passes, e))))),
    )
