-- ===== src/Fixer/Context.antt =====
-- `FixupContext` of KFCrashReportFixer.c: the stack of names, the paths, and the version.
use kfcrash.Prelude.{
  ℕ, zero, suc, ◌+◌, ◌-◌, ◌*◌, Bool, true, false, ◌&&◌, ◌||◌, Option, none, some, List, [], ◌∷◌,
  ◌++◌, ltb, leb, ◌==◌, if◌then◌else◌, Bytes, codes, length, set, take,
}
use kfcrash.Prelude.Int.{ℤ, pos, negsuc}
use kfcrash.Json.Codes.{json_ok, data_too_long}
use kfcrash.Json.Encode.{Encoder}
use kfcrash.Json.Decode.Scalars.{is_digit, is_space}
use kfcrash.Sessions.State.{same}

-- `MAX_DEPTH` and `MAX_NAME_LENGTH`
abbrev pub max_depth : ℕ
max_depth = 100

abbrev pub max_name_length : ℕ
max_name_length = 100

-- `reportVersionComponents`
pub record Version : Type 0 where
  pub major : ℤ
  pub minor : ℤ
  pub patch : ℤ

abbrev pub no_version : Version
no_version = record { major = pos 0; minor = pos 0; patch = pos 0 }

-- What lies before `outputPtr`, and `outputBytesLeft`.
pub record Output : Type 0 where
  pub written : Bytes
  pub bytes_left : ℕ

unfoldable pub add_json_data : Bytes → Output → ℕ × Output
add_json_data text o =
    if ltb o.bytes_left (length text)
    then (data_too_long, o)
    else (json_ok, record { written = o.written ++ text; bytes_left = o.bytes_left - length text })

-- `FixupContext`, with the encoder that it points to. The entries of `objectPath` are cut to their 100
-- bytes, and have their terminator left out.
pub record Fixup : Type 0 where
  pub encoder : Encoder Output
  pub version : Version
  pub object_path : List Bytes
  pub current_depth : ℕ

abbrev path_entry : Option Bytes → Bytes
path_entry none = []
path_entry (some name) = take max_name_length name

unfoldable pub increase_depth : Option Bytes → Fixup → Bool × Fixup
increase_depth name f = if leb max_depth f.current_depth then (false, f) else (
  true,
  record f {
    object_path = set f.object_path f.current_depth (path_entry name);
    current_depth = f.current_depth + 1;
  },
)

unfoldable pub decrease_depth : Fixup → Bool × Fixup
decrease_depth f =
    if f.current_depth == 0
    then (false, f)
    else (true, record f { current_depth = f.current_depth - 1 })

-- `strncmp(a, b, MAX_NAME_LENGTH) == 0`
abbrev pub same_name : Bytes → Bytes → Bool
same_name a b = same (take max_name_length a) (take max_name_length b)

-- The names of the open containers along a path, then the final name. The entries of a path behind
-- its names are NULL, which `strncmp` does not take: then the result is `none`.
unfoldable pub matches_from : List Bytes → List Bytes → Bytes → Option Bool
matches_from names [] final_name = none
matches_from [] (p ∷ path) final_name = some (same_name final_name p)
matches_from (o ∷ names) (p ∷ path) final_name =
    if same_name o p then matches_from names path final_name else some false

abbrev pub final_name_of : Option Bytes → Bytes
final_name_of none = []
final_name_of (some name) = name

unfoldable pub matches_path : Fixup → List Bytes → Option Bytes → Option Bool
unfolding matches_from
matches_path f path final_name =
    matches_from (take f.current_depth f.object_path) path (final_name_of final_name)

-- The next path, unless this one matches.
abbrev pub or_else : Option Bool → Option Bool → Option Bool
or_else none more = none
or_else (some true) more = some true
or_else (some false) more = more

unfoldable pub matches_a_path : Fixup → Option Bytes → List (List Bytes) → Option Bool
unfolding matches_path
matches_a_path f name [] = some false
matches_a_path f name (path ∷ paths) =
    or_else (matches_path f path name) (matches_a_path f name paths)

-- Whether a version is some other one or above.
abbrev pub above : ℤ → ℕ → Bool
above (pos n) m = ltb m n
above (negsuc n) m = false

abbrev pub equals : ℤ → ℕ → Bool
equals (pos n) m = n == m
equals (negsuc n) m = false

abbrev pub is_from : Version → ℕ → ℕ → ℕ → Bool
is_from v major minor patch =
    above v.major major
    || (equals v.major major && above v.minor minor)
    || (equals v.major major
        && equals v.minor minor
        && (above v.patch patch || equals v.patch patch))

unfoldable pub matches_min_version : Fixup → ℕ → ℕ → ℕ → Bool
matches_min_version f major minor patch = is_from f.version major minor patch

abbrev report_key : Bytes
report_key = codes "report"

abbrev recrash_key : Bytes
recrash_key = codes "recrash_report"

abbrev pub date_paths : List (List Bytes)
date_paths =
    ([] ∷ report_key ∷ codes "timestamp" ∷ [])
    ∷ ([] ∷ recrash_key ∷ report_key ∷ codes "timestamp" ∷ [])
    ∷ []

abbrev pub version_paths : List (List Bytes)
version_paths =
    ([] ∷ report_key ∷ codes "version" ∷ [])
    ∷ ([] ∷ recrash_key ∷ report_key ∷ codes "version" ∷ [])
    ∷ []

unfoldable pub should_fix_date : Fixup → Option Bytes → Option Bool
should_fix_date f name = matches_a_path f name date_paths

unfoldable pub should_save_version : Fixup → Option Bytes → Option Bool
should_save_version f name = matches_a_path f name version_paths

-- `strtok` with ".": the parts between dots that are not empty.
add_part : Bytes → List Bytes → List Bytes
add_part [] parts = parts
add_part (c ∷ part) parts = (c ∷ part) ∷ parts

split_parts : Bytes → Bytes → List Bytes
unfolding add_part
split_parts part [] = add_part part []
split_parts part (c ∷ s) =
    let ended = add_part part (split_parts [] s) in
    let more = split_parts (part ++ (c ∷ [])) s in if c == b'.' then ended else more

-- `atoi`; a number that does not fit an `int` is open in C, and kept here.
digits_value : ℕ → Bytes → ℕ
digits_value accum [] = accum
digits_value accum (c ∷ s) =
    let more = digits_value (accum * 10 + (c - b'0')) s in if is_digit c then more else accum

abbrev negative_of : ℕ → ℤ
negative_of zero = pos 0
negative_of (suc n) = negsuc n

unfoldable pub atoi : Bytes → ℤ
unfolding digits_value
atoi [] = pos 0
atoi (c ∷ s) =
    let more = atoi s in
    if is_space c
    then more
    else if c == b'-'
    then negative_of (digits_value 0 s)
    else if c == b'+'
    then pos (digits_value 0 s)
    else pos (digits_value 0 (c ∷ s))

version_of : List Bytes → Version
unfolding atoi
version_of [] = no_version
version_of (a ∷ []) = record no_version { major = atoi a }
version_of (a ∷ b ∷ []) = record no_version { major = atoi a; minor = atoi b }
version_of (a ∷ b ∷ c ∷ rest) = record { major = atoi a; minor = atoi b; patch = atoi c }

-- The version in a text, in `onStringElement`.
unfoldable pub parse_version : Bytes → Version
unfolding version_of split_parts
parse_version value = version_of (split_parts [] value)
