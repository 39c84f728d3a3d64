-- ===== src/Reports/Names/RoundTrip.antt =====
-- The identifier in the name of a report file, KFCrashReportStoreC.c, read back.
use kfcrash.Prelude.{
  ℕ, zero, suc, ◌+◌, ◌-◌, ◌*◌, ◌/◌, ◌%◌, ◌^◌, ◌≤◌, ◌<◌, ◌≡◌, refl, sym, ap, subst, ◌∙◌, Bool, true,
  false, not, ◌&&◌, ◌||◌, [], ◌∷◌, ◌++◌, append_assoc, arith, ltb, ◌==◌, if-true, if-false, Bytes,
  codes, length, take,
}
use native.Mathlib.Nat.{pow-suc}
use kfcrash.CString.Hex.{hex_digit, nybble_of-hex_digit}
use kfcrash.Json.Decode.Scalars.{is_space, skip_whitespace}
use kfcrash.Reports.Names.{
  padded_hex, file_name, scan_digits, scan_magnitude, scan_sign, scan_format,
  get_report_id_from_filename,
}

scan_digits-hex_digit :
    (accum v : ℕ) (s : Bytes)
    → v < 16
    → accum * 16 + v < 2 ^ 64
    → scan_digits accum (hex_digit v ∷ s) ≡ scan_digits (accum * 16 + v) s
unfolding scan_digits
scan_digits-hex_digit accum v s h fits =
    let wide : ltb (2 ^ 64 - 1) (accum * 16 + v) ≡ false = ground arith in
    rw (scan_digits, nybble_of-hex_digit v h, wide)

scan_digits-padded_hex :
    (width n : ℕ) (s : Bytes)
    → n < 16 ^ width
    → n < 2 ^ 64
    → scan_digits 0 (padded_hex width n ++ s) ≡ scan_digits n s
unfolding padded_hex
scan_digits-padded_hex zero n s h fits = ap (λ k. scan_digits k s) (omega arith)
scan_digits-padded_hex (suc width) n s h fits =
    ap (scan_digits 0) (append_assoc (padded_hex width (n / 16)) (hex_digit (n % 16) ∷ []) s)
    ∙ scan_digits-padded_hex width (n / 16) (hex_digit (n % 16) ∷ s)
        (omega (arith, pow-suc 16 width)) (omega arith)
    ∙ scan_digits-hex_digit (n / 16) (n % 16) s (omega arith) (omega arith)
    ∙ ap (λ k. scan_digits k s) (omega arith)

-- Two digits stand in front.
abbrev StartsWithTwo : Bytes → Type 0
StartsWithTwo t =
    (a : ℕ) × (b : ℕ) × (rest : Bytes) × (t ≡ hex_digit a ∷ hex_digit b ∷ rest)
    × (a < 16)
    × (b < 16)

padded_hex-StartsWithTwo :
    (width n : ℕ) (s : Bytes) → StartsWithTwo (padded_hex (suc (suc width)) n ++ s)
unfolding padded_hex
padded_hex-StartsWithTwo zero n s = (n / 16 % 16, n % 16, s, refl, omega arith, omega arith)
padded_hex-StartsWithTwo (suc width) n s =
    subst StartsWithTwo
      (sym (append_assoc (padded_hex (suc (suc width)) (n / 16)) (hex_digit (n % 16) ∷ []) s))
      (padded_hex-StartsWithTwo width (n / 16) (hex_digit (n % 16) ∷ s))

hex_digit_plain :
    (v : ℕ)
    → v < 16
    → (is_space (hex_digit v) ≡ false)
      × (hex_digit v == b'-' ≡ false)
      × (hex_digit v == b'+' ≡ false)
      × (hex_digit v == b'x' ≡ false)
      × (hex_digit v == b'X' ≡ false)
hex_digit_plain v h = (ground arith, ground arith, ground arith, ground arith, ground arith)

-- No sign, and no "0x".
scan_sign_plain :
    (c d : ℕ) (s : Bytes)
    → is_space c ≡ false
    → c == b'-' ≡ false
    → c == b'+' ≡ false
    → d == b'x' ≡ false
    → d == b'X' ≡ false
    → scan_sign (skip_whitespace (c ∷ d ∷ s)) ≡ scan_digits 0 (c ∷ d ∷ s)
unfolding scan_sign scan_magnitude skip_whitespace
scan_sign_plain c d s black minus plus x big =
    let digits = scan_digits 0 (c ∷ d ∷ s) in
    if-false (λ t. scan_sign t ≡ digits) {b = is_space c} (skip_whitespace (d ∷ s)) (c ∷ d ∷ s)
      black
      (if-false (λ n. n ≡ digits) {b = c == b'-'} ((2 ^ 64 - scan_magnitude (d ∷ s)) % 2 ^ 64) _
        minus
        (if-false (λ n. n ≡ digits) {b = c == b'+'} (scan_magnitude (d ∷ s)) _ plus
          (if-false (λ n. n ≡ digits) {b = c == b'0' && (d == b'x' || d == b'X')} (scan_digits 0 s)
            digits (ground (arith, x, big)) refl)))

scan_sign-digits :
    (a b : ℕ) (s : Bytes)
    → a < 16
    → b < 16
    → scan_sign (skip_whitespace (hex_digit a ∷ hex_digit b ∷ s))
      ≡ scan_digits 0 (hex_digit a ∷ hex_digit b ∷ s)
scan_sign-digits a b s ha hb =
    let pa = hex_digit_plain a ha in
    let pb = hex_digit_plain b hb in
    scan_sign_plain (hex_digit a) (hex_digit b) s pa.0 pa.1 pa.2 pb.3 pb.4

scan_sign-StartsWithTwo :
    (t : Bytes) → StartsWithTwo t → scan_sign (skip_whitespace t) ≡ scan_digits 0 t
scan_sign-StartsWithTwo t (a, b, s, e, ha, hb) =
    ap (λ k. scan_sign (skip_whitespace k)) e
    ∙ scan_sign-digits a b s ha hb
    ∙ sym (ap (scan_digits 0) e)

-- No conversion and no whitespace.
abbrev pub is_literal : Bytes → Bool
is_literal [] = true
is_literal (c ∷ s) = not (c == b'%') && not (is_space c) && is_literal s

scan_format-is_literal :
    (t format s : Bytes)
    → is_literal t ≡ true
    → scan_format (t ++ format) (t ++ s) ≡ scan_format format s
unfolding scan_format
scan_format-is_literal [] format s h = refl
scan_format-is_literal (c ∷ t) format s h =
    let Same = λ (n : ℕ). n ≡ scan_format format s in
    if-false Same {b = c == b'%'} _ _ (ground (arith, h)) (
      if-false Same {b = is_space c} _ _ (ground (arith, h)) (
        if-true Same {b = c == c} _ _ (ground arith)
          (scan_format-is_literal t format s (ground (arith, h)))))

take-append_long :
    (n : ℕ) (xs ys : Bytes) → length xs ≤ n → take n (xs ++ ys) ≡ xs ++ take (n - length xs) ys
take-append_long n [] ys h = ap (λ k. take k ys) (omega arith)
take-append_long zero (x ∷ xs) ys h = absurd (omega arith)
take-append_long (suc n) (x ∷ xs) ys h =
    ap (λ l. x ∷ l)
      (take-append_long n xs ys (omega arith) ∙ ap (λ k. xs ++ take k ys) (omega arith))

scan_report :
    (tail s : Bytes)
    → scan_format (codes "-report-%llx" ++ tail) (codes "-report-" ++ s)
      ≡ scan_sign (skip_whitespace s)
unfolding scan_format
scan_report tail s = scan_format-is_literal (codes "-report-") (codes "%llx" ++ tail) s refl

scan_digits_end : (n : ℕ) → scan_digits n (codes ".json") ≡ n
unfolding scan_digits
scan_digits_end n = refl

-- The identifier of a report, any 64 bits, is read back from the name of its file, for an application
-- whose name has neither a `%` nor whitespace and 87 bytes at most, so that the format that
-- `sscanf` gets is not cut off in its conversion.
pub get_report_id_from_filename-file_name :
    (app_name : Bytes) (id : ℕ)
    → is_literal app_name ≡ true
    → length app_name ≤ 87
    → id < 2 ^ 64
    → get_report_id_from_filename app_name (file_name app_name id) ≡ id
unfolding get_report_id_from_filename
get_report_id_from_filename-file_name app_name id literal short fits =
    let digits = padded_hex 16 id ++ codes ".json" in
    let left = 99 - length app_name in
    let tail = take (left - 12) (codes ".json") in
    ap (λ f. scan_format f (file_name app_name id))
      (take-append_long 99 app_name (codes "-report-%llx.json") (omega arith)
        ∙ ap (λ f. app_name ++ f)
            (take-append_long left (codes "-report-%llx") (codes ".json") (omega arith)))
    ∙ scan_format-is_literal app_name (codes "-report-%llx" ++ tail) (codes "-report-" ++ digits)
        literal
    ∙ scan_report tail digits
    ∙ scan_sign-StartsWithTwo digits (padded_hex-StartsWithTwo 14 id (codes ".json"))
    ∙ scan_digits-padded_hex 16 id (codes ".json") (omega arith) fits
    ∙ scan_digits_end id
