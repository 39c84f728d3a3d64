-- ===== src/Reports/Names.antt =====
-- The names of report files in KFCrashReportStoreC.c: written with `snprintf`, read with `sscanf`.
pub mod RoundTrip
use kfcrash.Prelude.{
  ℕ, zero, suc, ◌+◌, ◌-◌, ◌*◌, ◌/◌, ◌%◌, ◌^◌, Bool, ◌&&◌, ◌||◌, none, some, [], ◌∷◌, ◌++◌, ltb,
  ◌==◌, if◌then◌else◌, Bytes, codes, take,
}
use kfcrash.CString.Hex.{hex_digit, nybble_of}
use kfcrash.Json.Decode.Scalars.{is_space, skip_whitespace, is_prefix}

-- `KSCRS_MAX_PATH_LENGTH`
abbrev pub max_path_length : ℕ
max_path_length = 500

-- `"%016llx"` of 64 bits.
unfoldable pub padded_hex : ℕ → ℕ → Bytes
padded_hex zero n = []
padded_hex (suc width) n = padded_hex width (n / 16) ++ (hex_digit (n % 16) ∷ [])

abbrev pub file_name : Bytes → ℕ → Bytes
file_name app_name id = app_name ++ (codes "-report-" ++ (padded_hex 16 id ++ codes ".json"))

unfoldable pub get_crash_report_path_by_id : Bytes → Bytes → ℕ → Bytes
unfolding padded_hex
get_crash_report_path_by_id reports_path app_name id =
    take (max_path_length - 1) (reports_path ++ (b'/' ∷ file_name app_name id))

-- The digits of `"%llx"`, as `strtoull` reads them.
unfoldable pub scan_digits : ℕ → Bytes → ℕ
scan_digits accum [] = accum
scan_digits accum (c ∷ s) =
    let more = λ (v : ℕ).
      scan_digits (if ltb (2 ^ 64 - 1) (accum * 16 + v) then 2 ^ 64 - 1 else accum * 16 + v) s in
    elim (nybble_of c) [ none ↦ accum | some v ↦ more v ]

-- Behind the sign: "0x" may stand in front of the digits.
scan_magnitude : Bytes → ℕ
unfolding scan_digits
scan_magnitude [] = 0
scan_magnitude (c ∷ []) = scan_digits 0 (c ∷ [])
scan_magnitude (c ∷ d ∷ s) =
    if c == b'0' && (d == b'x' || d == b'X') then scan_digits 0 s else scan_digits 0 (c ∷ d ∷ s)

scan_sign : Bytes → ℕ
unfolding scan_magnitude
scan_sign [] = 0
scan_sign (c ∷ s) =
    if c == b'-'
    then (2 ^ 64 - scan_magnitude s) % 2 ^ 64
    else if c == b'+'
    then scan_magnitude s
    else scan_magnitude (c ∷ s)

-- `sscanf` up to its first conversion, which is stored whatever follows it; 0 where the text does
-- not match up to there, or where the conversion is not `"%llx"`.
unfoldable pub scan_format : Bytes → Bytes → ℕ
unfolding scan_sign skip_whitespace is_prefix
scan_format [] s = 0
scan_format (c ∷ format) s =
    let skipped = scan_format format (skip_whitespace s) in
    if c == b'%'
    then (if is_prefix (codes "llx") format then scan_sign (skip_whitespace s) else 0)
    else if is_space c
    then skipped
    else (elim s [
      | [] ↦ 0
      | d ∷ rest ↦ (let more = scan_format format rest in if d == c then more else 0)
    ])

-- The format has 100 bytes with its NUL.
unfoldable pub get_report_id_from_filename : Bytes → Bytes → ℕ
unfolding scan_format
get_report_id_from_filename app_name filename =
    scan_format (take 99 (app_name ++ codes "-report-%llx.json")) filename

-- `reportID > 0` for an `int64_t`.
abbrev pub is_positive : ℕ → Bool
is_positive id = ltb 0 id && ltb id (2 ^ 63)
