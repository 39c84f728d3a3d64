-- ===== src/Reports/Store/Listing.antt =====
-- The listing of reports in KFCrashReportStoreC.c.
use kfcrash.Prelude.{
  ℕ, zero, suc, ◌^◌, ◌≡◌, refl, sym, ap, ap₂, subst, ◌∙◌, inl, inr, Option, none, some, List, [],
  ◌∷◌, ◌++◌, append-nil, arith, Bool-cases, if-true, if-false, Bytes, length, take, drop,
}
use mathlib.Core.List.{Perm, forall_mem-cons, not-mem-nil}
use native.Mathlib.Bridge.{le_prop}
use kfcrash.Reports.Names.{get_report_id_from_filename, is_positive}
use kfcrash.Reports.Store.{
  Config, Directory, qsort, report_ids, count_of, get_report_count, ids_of, get_report_ids,
}
use kfcrash.Reports.Store.Sorting.{IsSorted, AllInt64, qsort-perm, qsort-IsSorted}

report_ids-AllInt64 : (app_name : Bytes) (names : List Bytes) → AllInt64 (report_ids app_name names)
unfolding report_ids
report_ids-AllInt64 app_name [] = λ x m. absurd (not-mem-nil m)
report_ids-AllInt64 app_name (name ∷ names) =
    let id = get_report_id_from_filename app_name name in
    let rest = report_ids app_name names in
    elim (Bool-cases (is_positive id)) [
      | inl e ↦ if-true AllInt64 {b = is_positive id} (id ∷ rest) rest e (
          (forall_mem-cons (λ z. le_prop {n = suc z} {m = 2 ^ 63})).1
            (ground (arith, e), report_ids-AllInt64 app_name names))
      | inr e ↦
          if-false AllInt64 {b = is_positive id} (id ∷ rest) rest e
            (report_ids-AllInt64 app_name names)
    ]

take_all : (xs : List ℕ) (n : ℕ) → n ≡ length xs → take n xs ≡ xs
take_all [] zero h = refl
take_all [] (suc n) h = refl
take_all (x ∷ xs) zero h = absurd (omega arith)
take_all (x ∷ xs) (suc n) h = ap (λ l. x ∷ l) (take_all xs n (omega arith))

drop_all : (xs : List ℕ) (n : ℕ) → n ≡ length xs → drop n xs ≡ []
drop_all [] zero h = refl
drop_all [] (suc n) h = refl
drop_all (x ∷ xs) zero h = absurd (omega arith)
drop_all (x ∷ xs) (suc n) h = drop_all xs n (omega arith)

-- The identifiers that the directory holds, in its own order.
abbrev pub found_in : Bytes → Option (List Bytes) → List ℕ
found_in app_name none = []
found_in app_name (some names) = report_ids app_name names

module _ {W : Type 0} (system : Directory W) (config : Config) where
  abbrev pub stored : W → List ℕ
  stored w = found_in config.app_name (system.entries config.reports_path w)

  pub get_report_count-stored : (w : W) → get_report_count system config w ≡ length (stored w)
  unfolding get_report_count count_of
  get_report_count-stored w =
      elim (system.entries config.reports_path w)
        as (λ o. count_of system config o ≡ length (found_in config.app_name o)) [
          | none ↦ refl
          | some names ↦ refl
        ]

  ids_of_full :
      (o : Option (List Bytes)) (array : List ℕ)
      → length array ≡ length (found_in config.app_name o)
      → ids_of system config o array ≡ (length array, qsort (found_in config.app_name o))
  unfolding ids_of qsort
  ids_of_full none [] h = refl
  ids_of_full none (x ∷ array) h = absurd (omega arith)
  ids_of_full (some names) array h =
      let ids = report_ids config.app_name names in
      let all : take (length array) ids ≡ ids = take_all ids (length array) h in
      ap₂ (λ n l. (n, qsort l)) (ap length all ∙ sym h)
        (ap₂ (λ a b. a ++ b) all
            (ap (λ k. drop (length k) array) all ∙ drop_all array (length ids) (sym h))
          ∙ append-nil ids)

  pub get_report_ids_full :
      (array : List ℕ) (w : W)
      → length array ≡ get_report_count system config w
      → get_report_ids system config array w ≡ (length array, qsort (stored w))
  unfolding get_report_ids
  get_report_ids_full array w h =
      ids_of_full (system.entries config.reports_path w) array (h ∙ get_report_count-stored w)

  pub stored-AllInt64 : (w : W) → AllInt64 (stored w)
  stored-AllInt64 w =
      elim (system.entries config.reports_path w) as (λ o. AllInt64 (found_in config.app_name o)) [
        | none ↦ λ x m. absurd (not-mem-nil m)
        | some names ↦ report_ids-AllInt64 config.app_name names
      ]

  -- Into an array with as many entries as the directory has reports, `kscrs_getReportIDs` puts the
  -- identifiers of exactly these reports, ascending, and it returns how many they are.
  pub get_report_ids_lem :
      (array : List ℕ) (w : W)
      → length array ≡ get_report_count system config w
      → let r = get_report_ids system config array w in
        (r.0 ≡ get_report_count system config w) × IsSorted r.1 × Perm r.1 (stored w)
  get_report_ids_lem array w h =
      let full = get_report_ids_full array w h in
      (
        ap (λ r. r.0) full ∙ h,
        subst (λ r. IsSorted r.1) (sym full) (qsort-IsSorted (stored w) (stored-AllInt64 w)),
        subst (λ r. Perm r.1 (stored w)) (sym full) (qsort-perm (stored w)),
      )
