-- ===== src/Fixer/Rewriting.antt =====
-- The callbacks of KFCrashReportFixer.c, which encode what is decoded, and `kscrf_fixupCrashReport`.
pub mod InStep
pub mod Bounds
pub mod Paths
use kfcrash.Prelude.{
  ℕ, zero, suc, ◌*◌, ◌/◌, Bool, true, false, Option, none, some, [], if◌then◌else◌, Bytes, length,
  replicate,
}
use kfcrash.Prelude.Int.{ℤ}
use kfcrash.Json.Codes.{data_too_long, invalid_data, c_string, exactly}
use kfcrash.Json.Number.{FloatOps}
use kfcrash.Json.Encode.{
  Encoder, Call, add_boolean_element, add_floating_point_element, add_integer_element,
  add_uinteger_element, add_null_element, add_string_element, begin_object, begin_array,
  end_container, end_encode, begin_encode,
}
use kfcrash.Json.Decode.Scalars.{
  Scalar, boolean, null, integer, unsigned_integer, floating_point, text,
}
use kfcrash.Json.Decode.{Callbacks, Decoding, decode}
use kfcrash.Fixer.Dates.{Clock, utc_string_from_timestamp, utc_string_from_microseconds}
use kfcrash.Fixer.Context.{
  Version, no_version, Output, add_json_data, Fixup, increase_depth, decrease_depth,
  matches_min_version, should_fix_date, should_save_version, parse_version, max_depth,
}

-- A fixup under way, or stopped by an access outside `isObject`, or by a NULL that `strncmp` gets.
pub data Fixing : Type 0 where
  running : Fixup → Fixing
  outside : Fixing
  null_path : Fixing

-- What a call on the encoder leaves.
encoded : Fixup → Option (ℕ × Encoder Output) → ℕ × Fixing
encoded f none = (invalid_data, outside)
encoded f (some (code, e)) = (code, running (record f { encoder = e }))

on_encoder : Call Output → Fixup → ℕ × Fixing
unfolding encoded
on_encoder m f = encoded f (m f.encoder)

-- `KSDATE_BUFFERSIZE`
abbrev pub date_buffer_size : ℕ
date_buffer_size = 64

abbrev while_running : (Fixup → ℕ × Fixing) → Fixing → ℕ × Fixing
while_running m (running f) = m f
while_running m outside = (invalid_data, outside)
while_running m null_path = (invalid_data, null_path)

module _ {F : Type 0} (ops : FloatOps F) (clock : Clock) where
  date_of : ℤ → Fixup → Bytes
  date_of value f =
      if matches_min_version f 3 3 0
      then utc_string_from_microseconds clock value date_buffer_size
      else utc_string_from_timestamp clock value date_buffer_size

  -- Whether to fix a date, and then the element.
  integer_element : Option Bool → Option Bytes → ℤ → Fixup → ℕ × Fixing
  unfolding date_of on_encoder
  integer_element none name value f = (invalid_data, null_path)
  integer_element (some true) name value f =
      let buffer = date_of value f in
      on_encoder (add_string_element add_json_data name (some buffer) (exactly (length buffer))) f
  integer_element (some false) name value f =
      on_encoder (add_integer_element add_json_data name value) f

  pub on_integer_element : Option Bytes → ℤ → Fixup → ℕ × Fixing
  unfolding integer_element
  on_integer_element name value f = integer_element (should_fix_date f name) name value f

  -- Behind the element: the version, if it is one.
  save_version : Option Bool → Bytes → Fixup → Fixing
  save_version none value f = null_path
  save_version (some true) value f = running (record f { version = parse_version value })
  save_version (some false) value f = running f

  saved : Option Bytes → Bytes → ℕ × Fixing → ℕ × Fixing
  unfolding save_version
  saved name value (code, running f) = (code, save_version (should_save_version f name) value f)
  saved name value (code, outside) = (code, outside)
  saved name value (code, null_path) = (code, null_path)

  pub on_string_element : Option Bytes → Bytes → Fixup → ℕ × Fixing
  unfolding saved on_encoder
  on_string_element name value f = saved name value (
      on_encoder
        (add_string_element add_json_data name (some value) (exactly (length (c_string value)))) f)

  -- Behind the bracket: the depth.
  deeper : Option Bytes → ℕ × Fixing → ℕ × Fixing
  deeper name (code, running f) =
      let (success, f') = increase_depth name f in
      (if success then code else data_too_long, running f')
  deeper name (code, outside) = (code, outside)
  deeper name (code, null_path) = (code, null_path)

  unfoldable pub on_begin_object : Option Bytes → Fixup → ℕ × Fixing
  unfolding deeper on_encoder
  on_begin_object name f = deeper name (on_encoder (begin_object add_json_data name) f)

  unfoldable pub on_begin_array : Option Bytes → Fixup → ℕ × Fixing
  unfolding deeper on_encoder
  on_begin_array name f = deeper name (on_encoder (begin_array add_json_data name) f)

  higher : ℕ × Fixing → ℕ × Fixing
  higher (code, running f) = let (success, f') = decrease_depth f in (code, running f')
  higher (code, outside) = (code, outside)
  higher (code, null_path) = (code, null_path)

  unfoldable pub on_end_container : Fixup → ℕ × Fixing
  unfolding higher on_encoder
  on_end_container f = higher (on_encoder (end_container add_json_data) f)

  unfoldable pub on_end_data : Fixup → ℕ × Fixing
  unfolding on_encoder
  on_end_data f = on_encoder (end_encode add_json_data) f

  unfoldable pub on_scalar : Option Bytes → Scalar F → Fixup → ℕ × Fixing
  unfolding on_encoder on_integer_element on_string_element
  on_scalar name (boolean b) = on_encoder (add_boolean_element add_json_data name b)
  on_scalar name null = on_encoder (add_null_element add_json_data name)
  on_scalar name (integer i) = on_integer_element name i
  on_scalar name (unsigned_integer n) = on_encoder (add_uinteger_element add_json_data name n)
  on_scalar name (floating_point v) =
      on_encoder (add_floating_point_element add_json_data ops name v)
  on_scalar name (text t) = on_string_element name t

  abbrev pub callbacks : Callbacks F Fixing
  callbacks = record {
    on_scalar = λ name s. while_running (on_scalar name s);
    on_begin_array = λ name. while_running (on_begin_array name);
    on_begin_object = λ name. while_running (on_begin_object name);
    on_end_container = while_running on_end_container;
    on_end_data = while_running on_end_data;
  }

-- The fixed report with the version that was found, NULL, or a fault: of the fixup, or of the decoder.
pub data Fixed : Type 0 where
  fixed : Bytes → Version → Fixed
  refused : Fixed
  fault_outside : Fixed
  fault_null_path : Fixed
  fault_decoder : Fixed

-- `(int)(crashReportLength * 1.5)`
abbrev pub fixed_report_length : Bytes → ℕ
fixed_report_length report = length report * 3 / 2

abbrev pub string_buffer_length : ℕ
string_buffer_length = 10000

abbrev pub start : Bytes → Version → Fixup
start report version = record {
  encoder = begin_encode true (record { written = []; bytes_left = fixed_report_length report });
  version = version;
  object_path = replicate max_depth [];
  current_depth = 0;
}

module _ {F : Type 0} (ops : FloatOps F) (clock : Clock) where
  fixed_of : ℕ → Fixing → Fixed
  fixed_of zero (running f) = fixed f.encoder.sink.written f.version
  fixed_of (suc code) (running f) = refused
  fixed_of code outside = fault_outside
  fixed_of code null_path = fault_null_path

  finished : Option (Decoding Fixing) → Fixed
  unfolding fixed_of
  finished none = fault_decoder
  finished (some d) = fixed_of d.code d.user_data

  -- `kscrf_fixupCrashReportWithVersionComponents` on the bytes of a C string.
  unfoldable pub fixup_with_version : Bytes → Version → Fixed
  unfolding finished
  fixup_with_version report version = finished (
      decode ops (callbacks ops clock) report 0 string_buffer_length 0
        (running (start report version)))

  -- The second run, with the version that the first one found.
  again : Bytes → Fixed → Fixed
  unfolding fixup_with_version
  again report (fixed t version) = fixup_with_version report version
  again report refused = refused
  again report fault_outside = fault_outside
  again report fault_null_path = fault_null_path
  again report fault_decoder = fault_decoder

  unfoldable pub fixup_crash_report : Bytes → Fixed
  unfolding again fixup_with_version
  fixup_crash_report report = again report (fixup_with_version report no_version)
