-- ===== src/Reports/Store/Pruning.antt =====
-- The deletion of old reports, `pruneReports` of KFCrashReportStoreC.c.
use kfcrash.Prelude.{
  ℕ, zero, suc, ◌-◌, ◌≤◌, ◌<◌, ◌≡◌, refl, sym, subst, ◌∙◌, ◌⊎◌, inl, inr, List, [], ◌∷◌, ◌++◌,
  arith, ltb, Bool-cases, if-true, if-false, length, take, drop, replicate, length-drop,
  take-append-drop, length-replicate,
}
use mathlib.Core.List.{Mem, Perm, Pairwise-append, not-mem-nil}
use native.Mathlib.Bridge.{le_prop}
use mathlib.Core.List.Perm
use kfcrash.Prelude.Int.{pos}
use kfcrash.Reports.Store.{
  Config, Directory, qsort, get_report_count, get_report_ids, delete_report_with_id, delete_first,
  prune_to, prune_by, prune_reports,
}
use kfcrash.Reports.Store.Sorting.{IsSorted, length-qsort, qsort-perm, qsort-IsSorted}
use kfcrash.Reports.Store.Listing.{
  stored, stored-AllInt64, get_report_count-stored, get_report_ids_full,
}

module _ {W : Type 0} (system : Directory W) (config : Config) where
  -- Each of these reports deleted, in order.
  abbrev pub delete_each : List ℕ → W → W
  delete_each [] w = w
  delete_each (id ∷ ids) w = delete_each ids (delete_report_with_id system config id w)

  delete_first-delete_each :
      (n : ℕ) (ids : List ℕ) (w : W)
      → delete_first system config n ids w ≡ delete_each (take n ids) w
  unfolding delete_first
  delete_first-delete_each zero ids w = refl
  delete_first-delete_each (suc n) [] w = refl
  delete_first-delete_each (suc n) (id ∷ ids) w =
      delete_first-delete_each n ids (delete_report_with_id system config id w)

-- What stands in front in an ascending list is not above what stands behind.
take-drop_le :
    (n : ℕ) (l : List ℕ) → IsSorted l → (x y : ℕ) → Mem x (take n l) → Mem y (drop n l) → x ≤ y
take-drop_le n l sorted x y mx my =
    ((Pairwise-append (λ a b. le_prop {n = a} {m = b}) {l₁ = take n l} {l₂ = drop n l}).0
        (subst IsSorted (sym (take-append-drop n l)) sorted)).2
      x mx y my

module _ {W : Type 0} (system : Directory W) (config : Config) where
  -- How `pruneReports` leaves the file system: some reports are deleted, none of them newer than one
  -- that is kept, and as many are kept as there may be.
  abbrev pub Pruned : ℕ → W → W → Type 0
  Pruned max w w' =
      (old : List ℕ) × (kept : List ℕ) × Perm (old ++ kept) (stored system config w)
      × (length kept ≤ max)
      × (max ≤ length kept ⊎ old ≡ [])
      × ((x y : ℕ) → Mem x old → Mem y kept → x ≤ y)
      × (w' ≡ delete_each system config old w)

  few-Pruned : (max : ℕ) (w : W) → length (stored system config w) ≤ max → Pruned max w w
  few-Pruned max w h =
      ([], stored system config w, Perm.rfl, h, inr refl, (λ x y m. absurd (not-mem-nil m)), refl)

  many-Pruned :
      (max : ℕ) (w : W)
      → max < length (stored system config w)
      → let ids = qsort (stored system config w) in
        Pruned max w (delete_first system config (length (stored system config w) - max) ids w)
  many-Pruned max w h =
      let ids = qsort (stored system config w) in
      let n = length (stored system config w) - max in
      let left : length (drop n ids) ≡ max =
        omega (arith, length-drop n ids, length-qsort (stored system config w)) in
      (
        take n ids,
        drop n ids,
        subst (λ l. Perm l (stored system config w)) (sym (take-append-drop n ids))
            (qsort-perm (stored system config w)),
        omega (arith, left),
        inl (omega (arith, left)),
        take-drop_le n ids
            (qsort-IsSorted (stored system config w) (stored-AllInt64 system config w)),
        delete_first-delete_each system config n ids w,
      )

  prune_to-Pruned : (n : ℕ) (w : W) → Pruned (suc n) w (prune_to system config (suc n) w)
  unfolding prune_to
  prune_to-Pruned n w =
      let count = get_report_count system config w in
      let same : count ≡ length (stored system config w) =
        get_report_count-stored system config w in
      let array : List ℕ = replicate count 0 in
      let r = get_report_ids system config array w in
      let full = get_report_ids_full system config array w (length-replicate count 0) in
      elim (Bool-cases (ltb (suc n) count)) [
        | inl many ↦
            if-true (Pruned (suc n) w) {b = ltb (suc n) count}
              (delete_first system config (r.0 - suc n) r.1 w) w many
              (subst (λ k. Pruned (suc n) w (delete_first system config (k.0 - suc n) k.1 w))
                (sym full)
                (subst
                  (λ k.
                    Pruned (suc n) w
                      (delete_first system config (k - suc n) (qsort (stored system config w)) w))
                  (sym (length-replicate count 0 ∙ same))
                  (many-Pruned (suc n) w (ground (arith, many, same)))))
        | inr few ↦
            if-false (Pruned (suc n) w) {b = ltb (suc n) count}
              (delete_first system config (r.0 - suc n) r.1 w) w few
              (few-Pruned (suc n) w (ground (arith, few, same)))
      ]

  -- With a positive `maxReportCount`, `pruneReports` deletes reports of the directory and does nothing
  -- else: the reports split into those it deletes, one after another, and those it
  -- keeps. It keeps `maxReportCount` of them at most, and deletes none while there are fewer; none
  -- that is deleted has a larger identifier than one that is kept.
  pub prune_reports-Pruned :
      (max : ℕ) (w : W)
      → config.max_report_count ≡ pos max
      → 0 < max
      → Pruned max w (prune_reports system config w)
  unfolding prune_reports prune_by
  prune_reports-Pruned zero w h positive = absurd (omega arith)
  prune_reports-Pruned (suc n) w h positive =
      subst (λ k. Pruned (suc n) w (prune_by system config k w)) (sym h) (prune_to-Pruned n w)
