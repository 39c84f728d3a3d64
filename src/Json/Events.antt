-- ===== src/Json/Events.antt =====
-- What the decoder reports and the encoder is asked to write, as a list of events: one for each
-- callback of `KSJSONDecodeCallbacks`, and for each call that adds to an encoding.
use kfcrash.Prelude.{ℕ, true, false, Option, List, [], ◌∷◌, ◌++◌, Bytes, codes}
use kfcrash.Json.Codes.{json_ok}
use kfcrash.Json.Number.{FloatOps}
use kfcrash.Json.Decode.Scalars.{Scalar}
use kfcrash.Json.Decode.{Callbacks}

pub data Event (F : Type 0) : Type 0 where
  scalar : Option Bytes → Scalar F → Event F
  begin_array : Option Bytes → Event F
  begin_object : Option Bytes → Event F
  end_container : Event F
  end_data : Event F

-- Callbacks that keep a log, newest last, and accept everything.
abbrev pub note : {F : Type 0} → Event F → List (Event F) → ℕ × List (Event F)
note e log = (json_ok, log ++ (e ∷ []))

abbrev pub logging : {F : Type 0} → Callbacks F (List (Event F))
logging = record {
  on_scalar = λ name s. note (scalar name s);
  on_begin_array = λ name. note (begin_array name);
  on_begin_object = λ name. note (begin_object name);
  on_end_container = note end_container;
  on_end_data = note end_data;
}

-- The floats of the tests: a value is its text.
abbrev pub text_floats : FloatOps Bytes
text_floats = record {
  is_nan = λ v. false;
  is_inf = λ v. false;
  is_positive = λ v. true;
  near_single = λ v. true;
  print_single = λ v. v;
  print_double = λ v. v;
  print_tenths = λ v. v ++ codes ".0";
  scan = λ s. s;
  negate = λ v. b'-' ∷ v;
}
