-- ===== src/Reports/Tests.antt =====
-- Runs of the report store on small directories.
use kfcrash.Prelude.{
  ◌+◌, ◌*◌, ◌^◌, ◌<◌, ◌≡◌, refl, sym, inl, true, none, some, List, [], ◌∷◌, ◌++◌, arith,
  if◌then◌else◌, Bytes, codes, drop,
}
use mathlib.Core.List.{Perm}
use kfcrash.Prelude.Int.{pos}
use kfcrash.Sessions.State.{same}
use kfcrash.Reports.Ids.{Moment, IsMoment, base_id, nth_id, launches_in_order}
use kfcrash.Reports.Names.{file_name, get_report_id_from_filename, get_crash_report_path_by_id}
use kfcrash.Reports.Names.RoundTrip.{get_report_id_from_filename-file_name}
use kfcrash.Reports.Store.{
  Config, Directory, get_report_count, get_report_ids, prune_reports, report_ids,
}
use kfcrash.Reports.Store.Sorting.{IsSorted}
use kfcrash.Reports.Store.Listing.{stored, get_report_ids_lem}
use kfcrash.Reports.Store.Pruning.{Pruned, prune_reports-Pruned}

abbrev noon : Moment
noon = record { tm_sec = 0; tm_min = 0; tm_hour = 12; tm_yday = 59; tm_year = 125 }

abbrev new_year : Moment
new_year = record { tm_sec = 0; tm_min = 0; tm_hour = 0; tm_yday = 0; tm_year = 126 }

noon-IsMoment : IsMoment noon
noon-IsMoment = record {
  sec = omega arith;
  min = omega arith;
  hour = omega arith;
  yday = omega arith;
  year = omega arith;
}

new_year-IsMoment : IsMoment new_year
new_year-IsMoment = record {
  sec = omega arith;
  min = omega arith;
  hour = omega arith;
  yday = omega arith;
  year = omega arith;
}

launches_in_order_example :
    (nth_id 8388607 noon < nth_id 0 new_year)
    × (nth_id 8388607 noon ≡ base_id noon * 2 ^ 23 + 8388607)
    × (nth_id 0 new_year ≡ base_id new_year * 2 ^ 23 + 0)
    × (nth_id 0 new_year < 2 ^ 63)
launches_in_order_example =
    launches_in_order noon new_year 8388607 0 noon-IsMoment new_year-IsMoment (inl (omega arith))
      (omega arith) (omega arith)

get_report_id_from_filename-file_name_example :
    get_report_id_from_filename (codes "My-App") (file_name (codes "My-App") 0x1f00000000000a)
    ≡ 0x1f00000000000a
get_report_id_from_filename-file_name_example =
    get_report_id_from_filename-file_name (codes "My-App") 0x1f00000000000a refl (omega arith)
      (omega arith)

-- A directory as the list of its files.
without : Bytes → List Bytes → List Bytes
without path [] = []
without path (name ∷ names) =
    let rest = without path names in if same (codes "r/" ++ name) path then rest else name ∷ rest

abbrev listed : Directory (List Bytes)
listed = record {
  entries = λ path w. some w;
  remove = without;
  make_path = λ path w. (true, w);
  read_entire = λ path n w. none;
  delete_contents = λ path w. [];
  open_file = λ path w. some w;
  write = λ path report w. drop 2 path ∷ w;
}

abbrev two_reports : Config
two_reports = record { reports_path = codes "r"; app_name = codes "A"; max_report_count = pos 2 }

abbrev four_files : List Bytes
four_files =
    codes "A-report-0000000000000009.json"
    ∷ codes "notes.txt"
    ∷ codes "A-report-0000000000000005.json"
    ∷ codes "A-report-000000000000000c.json"
    ∷ []

four_files_pruned :
    prune_reports listed two_reports four_files
    ≡ codes "A-report-0000000000000009.json"
      ∷ codes "notes.txt"
      ∷ codes "A-report-000000000000000c.json"
      ∷ []
unfolding prune_reports without get_report_id_from_filename get_crash_report_path_by_id
four_files_pruned = refl

count_of_four_files : get_report_count listed two_reports four_files ≡ 3
unfolding get_report_count get_report_id_from_filename
count_of_four_files = refl

get_report_ids_lem_example :
    let r = get_report_ids listed two_reports (0 ∷ 0 ∷ 0 ∷ []) four_files in
    (r.0 ≡ get_report_count listed two_reports four_files)
    × IsSorted r.1
    × Perm r.1 (stored listed two_reports four_files)
get_report_ids_lem_example =
    get_report_ids_lem listed two_reports (0 ∷ 0 ∷ 0 ∷ []) four_files (sym count_of_four_files)

-- With fewer reports than entries, the rest of the array is sorted among them.
array_larger :
    get_report_ids listed two_reports (0 ∷ 0 ∷ 0 ∷ 0 ∷ []) four_files ≡ (3, 0 ∷ 5 ∷ 9 ∷ 12 ∷ [])
unfolding get_report_ids report_ids get_report_id_from_filename
array_larger = refl

prune_reports-Pruned_example :
    Pruned listed two_reports 2 four_files (prune_reports listed two_reports four_files)
prune_reports-Pruned_example =
    prune_reports-Pruned listed two_reports 2 four_files refl (omega arith)
