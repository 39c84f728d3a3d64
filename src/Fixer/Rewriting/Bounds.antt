-- ===== src/Fixer/Rewriting/Bounds.antt =====
-- The fixer of KFCrashReportFixer.c stays within its buffer and within the arrays of its encoder.
use kfcrash.Prelude.{
  ℕ, zero, suc, ◌≤◌, sym, subst, inl, inr, false, arith, Option-cases, Bytes, length,
  length-replicate,
}
use kfcrash.Json.Number.{FloatOps}
use kfcrash.Json.Encode.{begin_encode}
use kfcrash.Json.Decode.{decode}
use kfcrash.Fixer.Dates.{Clock}
use kfcrash.Fixer.Context.{Version, no_version}
use kfcrash.Json.Decode.Kept.{Kept, decode_keeps_until}
use kfcrash.Fixer.Rewriting.{
  Fixing, running, callbacks, Fixed, fixed, refused, fault_null_path, fault_decoder,
  fixed_report_length, string_buffer_length, start, fixed_of, finished, fixup_with_version, again,
  fixup_crash_report,
}
use kfcrash.Fixer.Rewriting.InStep.{
  Good, good, good_null, Fitting, fitting, fitting_null, callbacks-KeepsUntil,
}

-- Within the buffer, and no access outside the arrays of the encoder.
pub data Fits (capacity : ℕ) : Fixed → Type 0 where
  fits : {t : Bytes} {v : Version} → length t ≤ capacity → Fits capacity (fixed t v)
  fits_refused : Fits capacity refused
  fits_null : Fits capacity fault_null_path
  fits_decoder : Fits capacity fault_decoder

module _ {F : Type 0} (ops : FloatOps F) (clock : Clock) where
  fixed_of-Fits :
      (capacity code : ℕ) (u : Fixing)
      → Kept (Good capacity) (Fitting capacity) (code, u)
      → Fits capacity (fixed_of ops clock code u)
  unfolding fixed_of
  fixed_of-Fits capacity zero u (good {f} h) = fits (omega (arith, h.sound.kept))
  fixed_of-Fits capacity zero u good_null = fits_null
  fixed_of-Fits capacity (suc code) u (fitting h) = fits_refused
  fixed_of-Fits capacity (suc code) u fitting_null = fits_null

  start-Good :
      (report : Bytes) (version : Version)
      → Good (fixed_report_length report) (running (start report version))
  unfolding begin_encode
  start-Good report version = good (record {
    sound = record { level = omega arith; size = length-replicate 200 false; kept = omega arith };
    depth = omega arith;
  })

  -- One run of the fixer.
  pub fixup_with_version-Fits :
      (report : Bytes) (version : Version)
      → Fits (fixed_report_length report) (fixup_with_version ops clock report version)
  unfolding fixup_with_version finished
  fixup_with_version-Fits report version =
      let capacity = fixed_report_length report in
      let begun = running (start report version) in
      let result = decode ops (callbacks ops clock) report 0 string_buffer_length 0 begun in
      elim (Option-cases result) [
        | inl none' ↦ subst (λ r. Fits capacity (finished ops clock r)) (sym none') fits_decoder
        | inr (d, e) ↦
            subst (λ r. Fits capacity (finished ops clock r)) (sym e)
              (fixed_of-Fits capacity d.code d.user_data (
                decode_keeps_until ops (callbacks ops clock) (Good capacity) (Fitting capacity)
                  (callbacks-KeepsUntil ops clock capacity) report 0 string_buffer_length 0 begun d
                  (start-Good report version) e))
      ]

  again-Fits :
      (report : Bytes) {r : Fixed}
      → Fits (fixed_report_length report) r
      → Fits (fixed_report_length report) (again ops clock report r)
  unfolding again
  again-Fits report (fits {t} {v} l) = fixup_with_version-Fits report v
  again-Fits report fits_refused = fits_refused
  again-Fits report fits_null = fits_null
  again-Fits report fits_decoder = fits_decoder

  -- Whatever the bytes of a report are, `kscrf_fixupCrashReport` touches no entry outside
  -- `isObject` in either of its runs; and the text that it returns is no longer than one and a half
  -- times the report, which is what its buffer has room for before the terminator. The other outcomes
  -- are NULL, a NULL passed to `strncmp`, and a fault of the decoder itself.
  pub fixup_crash_report-Fits :
      (report : Bytes) → Fits (fixed_report_length report) (fixup_crash_report ops clock report)
  unfolding fixup_crash_report
  fixup_crash_report-Fits report = again-Fits report (fixup_with_version-Fits report no_version)
