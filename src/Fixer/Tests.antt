-- ===== src/Fixer/Tests.antt =====
-- Runs of the fixer on small reports.
use kfcrash.Prelude.{
  ◌↔◌, ℕ, ◌/◌, ◌%◌, ◌≡◌, refl, inl, true, false, none, some, List, [], ◌∷◌, arith, if◌then◌else◌,
  Bytes, codes,
}
use kfcrash.Prelude.Int.{pos}
use kfcrash.Json.Codes.{invalid_data}
use kfcrash.Json.Encode.{
  begin_encode, begin_object, begin_array, end_container, end_encode, add_string_element,
}
use kfcrash.Json.Escape.{escaped_portion}
use kfcrash.Json.Encode.{Encoder, ◌then◌}
use kfcrash.Json.Encode.Sequences.{Op, add_scalar, open_container, close_last, run, run_safe}
use kfcrash.Json.Decode.Scalars.{integer, text}
use kfcrash.Fixer.Context.{Output}
use kfcrash.Fixer.Rewriting.InStep.{Fills, add_json_data-Fills}
use kfcrash.Json.Decode.{decode}
use kfcrash.Json.Events.{text_floats}
use kfcrash.Fixer.Dates.{Clock, utc_string_from_timestamp, utc_string_from_microseconds}
use kfcrash.Fixer.Context.{
  no_version, Fixup, matches_min_version, parse_version, increase_depth, decrease_depth,
  add_json_data, should_save_version, should_fix_date, matches_a_path,
}
use kfcrash.Fixer.Rewriting.{
  fixed, fault_null_path, start, on_scalar, on_begin_object, on_begin_array, on_end_container,
  on_end_data, fixup_crash_report, on_integer_element, null_path,
}
use kfcrash.Fixer.Rewriting.Bounds.{Fits, fixup_crash_report-Fits}
use kfcrash.Fixer.Rewriting.Paths.{AtLeast, matches_min_version_iff, on_integer_element_null}

-- A clock for the first minute of 1970 and some later ones.
abbrev early : Clock
early = record {
  gmtime = λ n. some (record {
    tm_sec = n % 60;
    tm_min = n / 60;
    tm_hour = 0;
    tm_mday = 1;
    tm_mon = 0;
    tm_year = 70;
  });
  seconds = 3000;
  microseconds = 3000000000;
}

abbrev old_report : Bytes
old_report =
    codes
      "{\n    \"report\": {\n        \"version\": \"3.2.0\",\n        \"timestamp\": 65\n    }\n}"

abbrev new_report : Bytes
new_report =
    codes
      "{\n    \"report\": {\n        \"version\": \"3.3.0\",\n        \"timestamp\": 65000001\n    }\n}"

abbrev bad_report : Bytes
bad_report =
    codes
      "{\n    \"report\": {\n        \"version\": \"3.2.0\",\n        \"timestamp\": [65]\n    }\n}"

fixup_old :
    fixup_crash_report text_floats early old_report
    ≡ fixed
        (codes
          "{\n    \"report\": {\n        \"version\": \"3.2.0\",\n        \"timestamp\": \"1970-01-01T00:01:05Z\"\n    }\n}")
        (record { major = pos 3; minor = pos 2; patch = pos 0 })
unfolding fixup_crash_report decode on_scalar on_begin_object on_begin_array on_end_container
    on_end_data begin_encode begin_object begin_array end_container end_encode increase_depth
    decrease_depth add_json_data escaped_portion add_string_element should_save_version
    should_fix_date matches_a_path matches_min_version parse_version utc_string_from_timestamp
    utc_string_from_microseconds
fixup_old = refl

fixup_new :
    fixup_crash_report text_floats early new_report
    ≡ fixed
        (codes
          "{\n    \"report\": {\n        \"version\": \"3.3.0\",\n        \"timestamp\": \"1970-01-01T00:01:05.000001Z\"\n    }\n}")
        (record { major = pos 3; minor = pos 3; patch = pos 0 })
unfolding fixup_crash_report decode on_scalar on_begin_object on_begin_array on_end_container
    on_end_data begin_encode begin_object begin_array end_container end_encode increase_depth
    decrease_depth add_json_data escaped_portion add_string_element should_save_version
    should_fix_date matches_a_path matches_min_version parse_version utc_string_from_timestamp
    utc_string_from_microseconds
fixup_new = refl

-- An array where the date belongs.
fixup_bad : fixup_crash_report text_floats early bad_report ≡ fault_null_path
unfolding fixup_crash_report decode on_scalar on_begin_object on_begin_array on_end_container
    on_end_data begin_encode begin_object begin_array end_container end_encode increase_depth
    decrease_depth add_json_data escaped_portion add_string_element should_save_version
    should_fix_date matches_a_path matches_min_version parse_version utc_string_from_timestamp
    utc_string_from_microseconds
fixup_bad = refl

fixup_crash_report-Fits_example : Fits 115 (fixup_crash_report text_floats early old_report)
fixup_crash_report-Fits_example = fixup_crash_report-Fits text_floats early old_report

abbrev third : Fixup
third = record (start old_report no_version) {
  version = record { major = pos 3; minor = pos 10; patch = pos 1 };
  object_path = [] ∷ codes "report" ∷ codes "timestamp" ∷ codes "x" ∷ codes "old" ∷ [];
  current_depth = 4;
}

matches_min_version_iff_example : (matches_min_version third 3 3 0 ≡ true) ↔ AtLeast 3 10 1 3 3 0
matches_min_version_iff_example = matches_min_version_iff third 3 10 1 3 3 0 refl

on_integer_element_null_example :
    on_integer_element text_floats early (some (codes "y")) (pos 7) third
    ≡ (invalid_data, null_path)
on_integer_element_null_example =
    on_integer_element_null text_floats early third (some (codes "y")) (pos 7) (codes "x" ∷ [])
      (inl refl)

-- A sequence of calls that the buffer has no room for.
abbrev some_calls : List (Op Bytes)
some_calls =
    open_container true none
    ∷ add_scalar (some (codes "a")) (integer (pos 1))
    ∷ open_container false (some (codes "b"))
    ∷ add_scalar none (text (codes "too long for it"))
    ∷ close_last
    ∷ []

abbrev small_output : Output
small_output = record { written = []; bytes_left = 20 }

run_safe_example :
    (code : ℕ) × (e : Encoder Output) × ((run text_floats add_json_data some_calls
          then end_encode add_json_data)
        (begin_encode true small_output)
      ≡ some (code, e))
    × Fills 20 e.sink
run_safe_example =
    run_safe text_floats (Fills 20) add_json_data (add_json_data-Fills 20) true small_output
      some_calls (omega arith) (omega arith)
