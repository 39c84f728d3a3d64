-- ===== src/Reports/Store.antt =====
-- The operations of KFCrashReportStoreC.c on the directory of the reports. The mutex lets one of the public
-- ones run at a time.
pub mod Sorting
pub mod Listing
pub mod Pruning
use kfcrash.Prelude.{
  ℕ, zero, suc, ◌+◌, ◌-◌, ◌%◌, ◌^◌, Bool, true, false, Option, none, some, List, [], ◌∷◌, ◌++◌, ltb,
  leb, if◌then◌else◌, Bytes, length, take, drop, replicate,
}
use kfcrash.Prelude.Int.{ℤ, pos, negsuc}
use kfcrash.Reports.Ids.{Moment, Counter, get_next_unique_id, initialize_ids}
use kfcrash.Reports.Names.{get_crash_report_path_by_id, get_report_id_from_filename, is_positive}

-- `KFCrashReportStoreCConfiguration`
pub record Config : Type 0 where
  pub reports_path : Bytes
  pub app_name : Bytes
  pub max_report_count : ℤ

-- The file system: the names that `readdir` gives, `none` where `opendir` fails; `ksfu_removeFile`,
-- `ksfu_makePath`, `ksfu_readEntireFile` and `ksfu_deleteContentsOfPath`; `open` (`open_file` here) without truncation
-- for a file that may not exist, and `write`.
pub record Directory (W : Type 0) : Type 0 where
  pub entries : Bytes → W → Option (List Bytes)
  pub remove : Bytes → W → W
  pub make_path : Bytes → W → Bool × W
  pub read_entire : Bytes → ℕ → W → Option Bytes
  pub delete_contents : Bytes → W → W
  pub open_file : Bytes → W → Option W
  pub write : Bytes → Bytes → W → W

-- `compareInt64`; the difference has 64 bits.
abbrev pub compare_int64 : ℕ → ℕ → ℤ
compare_int64 a b =
    let diff = (a + 2 ^ 64 - b % 2 ^ 64) % 2 ^ 64 in
    if leb (2 ^ 63) diff then negsuc 0 else if ltb 0 diff then pos 1 else pos 0

-- Whether a comparison is above 0.
abbrev pub is_above : ℤ → Bool
is_above (pos zero) = false
is_above (pos (suc n)) = true
is_above (negsuc n) = false

insert : ℕ → List ℕ → List ℕ
insert x [] = x ∷ []
insert x (y ∷ ys) =
    let rest = insert x ys in if is_above (compare_int64 x y) then y ∷ rest else x ∷ y ∷ ys

-- `qsort` with `compareInt64`, as an insertion sort.
unfoldable pub qsort : List ℕ → List ℕ
unfolding insert
qsort [] = []
qsort (x ∷ xs) = insert x (qsort xs)

-- The identifiers among the names of a directory.
unfoldable pub report_ids : Bytes → List Bytes → List ℕ
report_ids app_name [] = []
report_ids app_name (name ∷ names) =
    let id = get_report_id_from_filename app_name name in
    let rest = report_ids app_name names in if is_positive id then id ∷ rest else rest

-- What is known of the store between two calls: the two globals, and the file system.
pub record Store (W : Type 0) : Type 0 where
  pub counter : Counter
  pub files : W

-- `KSCrashInstallErrorNone` and `KSCrashInstallErrorCouldNotCreatePath`
abbrev pub install_error_none : ℕ
install_error_none = 0

abbrev pub could_not_create_path : ℕ
could_not_create_path = 4

module _ {W : Type 0} (system : Directory W) (config : Config) where
  count_of : Option (List Bytes) → ℕ
  unfolding report_ids
  count_of none = 0
  count_of (some names) = length (report_ids config.app_name names)

  unfoldable pub get_report_count : W → ℕ
  unfolding count_of
  get_report_count w = count_of (system.entries config.reports_path w)

  -- The array has `length report_ids` entries; how many were found, and the array.
  ids_of : Option (List Bytes) → List ℕ → ℕ × List ℕ
  unfolding qsort
  ids_of none array = (0, array)
  ids_of (some names) array =
      let found = take (length array) (report_ids config.app_name names) in
      (length found, qsort (found ++ drop (length found) array))

  unfoldable pub get_report_ids : List ℕ → W → ℕ × List ℕ
  unfolding ids_of
  get_report_ids array w = ids_of (system.entries config.reports_path w) array

  path_of : ℕ → Bytes
  path_of id = get_crash_report_path_by_id config.reports_path config.app_name id

  unfoldable pub delete_report_with_id : ℕ → W → W
  unfolding path_of
  delete_report_with_id id w = system.remove (path_of id) w

  -- The loop over the first `n` entries of the array.
  unfoldable pub delete_first : ℕ → List ℕ → W → W
  unfolding delete_report_with_id
  delete_first zero ids w = w
  delete_first (suc n) [] w = w
  delete_first (suc n) (id ∷ ids) w = delete_first n ids (delete_report_with_id id w)

  -- The array is not initialized; all of it is written, since the directory has not changed.
  prune_to : ℕ → W → W
  unfolding get_report_count get_report_ids delete_first
  prune_to zero w = w
  prune_to (suc n) w =
      let report_count = get_report_count w in
      let (found, ids) = get_report_ids (replicate report_count 0) w in
      if ltb (suc n) report_count then delete_first (found - suc n) ids w else w

  prune_by : ℤ → W → W
  unfolding prune_to
  prune_by (pos n) w = prune_to n w
  prune_by (negsuc n) w = w

  unfoldable pub prune_reports : W → W
  unfolding prune_by
  prune_reports w = prune_by config.max_report_count w

  -- `kscrs_initialize` at a moment.
  unfoldable pub initialize : Moment → Store W → ℕ × Store W
  unfolding prune_reports
  initialize now s =
      let (made, w) = system.make_path config.reports_path s.files in
      if made
      then (install_error_none, record { counter = initialize_ids now; files = prune_reports w })
      else (could_not_create_path, record s { files = w })

  -- `kscrs_getNextCrashReport`: the identifier and what it writes into a path buffer.
  unfoldable pub get_next_crash_report : Store W → (ℕ × Bytes) × Store W
  unfolding path_of
  get_next_crash_report s =
      let (id, counter) = get_next_unique_id s.counter in
      ((id, path_of id), record s { counter = counter })

  read_report_at_path : (Bytes → Option Bytes) → Bytes → Store W → Option Bytes
  read_report_at_path fixup path s = elim (system.read_entire path 20000000 s.files) [
    | none ↦ none
    | some raw_report ↦ fixup raw_report
  ]

  -- `kscrs_readReport`, with `kscrf_fixupCrashReport`.
  unfoldable pub read_report : (Bytes → Option Bytes) → ℕ → Store W → Option Bytes
  unfolding read_report_at_path path_of
  read_report fixup id s = read_report_at_path fixup (path_of id) s

  -- `kscrs_addUserReport`; an error of it is only logged.
  unfoldable pub add_user_report : Bytes → Store W → ℕ × Store W
  unfolding path_of
  add_user_report report s =
      let (id, counter) = get_next_unique_id s.counter in
      (
        id,
        record {
          counter = counter;
          files = elim (system.open_file (path_of id) s.files) [
            | none ↦ s.files
            | some w ↦ system.write (path_of id) report w
          ];
        },
      )

  unfoldable pub delete_all_reports : Store W → Store W
  delete_all_reports s = record s { files = system.delete_contents config.reports_path s.files }
