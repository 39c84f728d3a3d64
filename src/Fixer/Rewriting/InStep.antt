-- ===== src/Fixer/Rewriting/InStep.antt =====
-- The callbacks of KFCrashReportFixer.c keep the fixer in step with its encoder, and within its buffer.
use kfcrash.Prelude.{
  ℕ, zero, suc, ◌+◌, ◌-◌, ◌≤◌, ◌≡◌, inl, inr, Bool, true, false, Option, none, some, arith, ltb,
  leb, ◌==◌, if◌then◌else◌, Bool-cases, if-true, if-false, Bytes, length, length-append,
}
use kfcrash.Prelude.Int.{ℤ}
use kfcrash.Json.Codes.{data_too_long}
use kfcrash.Json.Number.{FloatOps}
use kfcrash.Json.Encode.{Encoder, Call}
use kfcrash.Json.Decode.Scalars.{
  Scalar, boolean, null, integer, unsigned_integer, floating_point, text,
}
use kfcrash.Fixer.Dates.{Clock}
use kfcrash.Fixer.Context.{
  Output, add_json_data, Fixup, increase_depth, decrease_depth, should_fix_date,
  should_save_version, max_depth,
}
use kfcrash.Json.Encode.Safe.{Sound, Within, within, Steady}
use kfcrash.Json.Encode.Calls.{
  add_boolean_element-Steady, add_null_element-Steady, add_integer_element-Steady,
  add_uinteger_element-Steady, add_floating_point_element-Steady, add_string_element-Steady,
}
use kfcrash.Json.Encode.Levels.{
  begin_array-Within, begin_object-Within, end_container-Within, end_encode-Steady,
}
use kfcrash.Json.Decode.Kept.{Kept, KeepsUntil}
use kfcrash.Fixer.Rewriting.{
  Fixing, running, null_path, encoded, on_encoder, while_running, integer_element,
  on_integer_element, save_version, saved, on_string_element, deeper, on_begin_object,
  on_begin_array, higher, on_end_container, on_end_data, on_scalar, callbacks,
}

-- What is written and what is left make up the buffer.
abbrev pub Fills : ℕ → Output → Type 0
Fills capacity o = length o.written + o.bytes_left ≡ capacity

pub add_json_data-Fills :
    (capacity : ℕ) (t : Bytes) (o : Output)
    → Fills capacity o
    → Fills capacity (add_json_data t o).1
unfolding add_json_data
add_json_data-Fills capacity t o h = elim (Bool-cases (ltb o.bytes_left (length t))) [
  | inl full ↦
      if-true (λ (r : ℕ × Output). Fills capacity r.1) {b = ltb o.bytes_left (length t)} _ _ full h
  | inr room ↦
      if-false (λ (r : ℕ × Output). Fills capacity r.1) {b = ltb o.bytes_left (length t)} _ _ room
        (ground (arith, room, h, length-append o.written t))
]

module _ (capacity : ℕ) where
  -- A fixup in step with its encoder.
  pub record InStep (f : Fixup) : Type 0 where
    pub sound : Sound (Fills capacity) f.current_depth f.encoder
    pub depth : f.current_depth ≤ max_depth

  pub data Good : Fixing → Type 0 where
    good : {f : Fixup} → InStep f → Good (running f)
    good_null : Good null_path

  pub data Fitting : Fixing → Type 0 where
    fitting : {f : Fixup} → Fills capacity f.encoder.sink → Fitting (running f)
    fitting_null : Fitting null_path

  Good-Fitting : (u : Fixing) → Good u → Fitting u
  Good-Fitting u (good h) = fitting h.sound.kept
  Good-Fitting u good_null = fitting_null

  any_code : (r : ℕ × Fixing) → Good r.1 → Kept Good Fitting r
  any_code (zero, u) h = h
  any_code (suc code, u) h = Good-Fitting u h

  pub keeps : (t : Bytes) (o : Output) → Fills capacity o → Fills capacity (add_json_data t o).1
  keeps = add_json_data-Fills capacity

  encoded-Good :
      (f : Fixup) {r : Option (ℕ × Encoder Output)}
      → InStep f
      → Within (Fills capacity) f.current_depth r
      → Good (encoded f r).1
  unfolding encoded
  encoded-Good f h (within s) = good (record { sound = s; depth = h.depth })

  on_encoder-Good :
      (m : Call Output) (f : Fixup) → Steady (Fills capacity) m → InStep f → Good (on_encoder m f).1
  unfolding on_encoder
  on_encoder-Good m f steady h =
      encoded-Good f h (steady f.current_depth f.encoder (omega (arith, h.depth)) h.sound)

  deeper-Kept :
      {F : Type 0} (ops : FloatOps F) (clock : Clock) (name : Option Bytes) (f : Fixup)
      {r : Option (ℕ × Encoder Output)}
      → InStep f
      → Within (Fills capacity) (f.current_depth + 1) r
      → Kept Good Fitting (deeper ops clock name (encoded f r))
  unfolding deeper encoded increase_depth
  deeper-Kept ops clock name f h (within {code} {e} s) =
      let f' : Fixup = record f { encoder = e } in
      let After = λ (r : Bool × Fixup).
        Kept Good Fitting (if r.0 then code else data_too_long, running r.1) in
      elim (Bool-cases (leb max_depth f.current_depth)) [
        | inl full ↦
            if-true After {b = leb max_depth f.current_depth} (false, f') _ full (fitting s.kept)
        | inr room ↦
            if-false After {b = leb max_depth f.current_depth} (false, f') _ room
              (any_code (code, _) (good (record { sound = s; depth = ground (arith, room) })))
      ]

  higher-Good :
      {F : Type 0} (ops : FloatOps F) (clock : Clock) (f : Fixup) {r : Option (ℕ × Encoder Output)}
      → InStep f
      → Within (Fills capacity) (f.current_depth - 1) r
      → Good (higher ops clock (encoded f r)).1
  unfolding higher encoded decrease_depth
  higher-Good ops clock f h (within {code} {e} s) =
      let f' : Fixup = record f { encoder = e } in
      let After = λ (r : Bool × Fixup). Good (running r.1) in
      elim (Bool-cases (f.current_depth == 0)) [
        | inl root ↦
            if-true After {b = f.current_depth == 0} (false, f') _ root
              (good (record {
                sound = record {
                  level = ground (arith, root, s.level);
                  size = s.size;
                  kept = s.kept;
                };
                depth = h.depth;
              }))
        | inr inside ↦
            if-false After {b = f.current_depth == 0} (false, f') _ inside
              (good (record { sound = s; depth = omega (arith, h.depth) }))
      ]

module _ {F : Type 0} (ops : FloatOps F) (clock : Clock) (capacity : ℕ) where
  integer_element-Good :
      (o : Option Bool) (name : Option Bytes) (i : ℤ) (f : Fixup)
      → InStep capacity f
      → Good capacity (integer_element ops clock o name i f).1
  unfolding integer_element
  integer_element-Good none name i f h = good_null
  integer_element-Good (some true) name i f h =
      on_encoder-Good capacity _ f
        (add_string_element-Steady (Fills capacity) add_json_data (keeps capacity) name _ _) h
  integer_element-Good (some false) name i f h =
      on_encoder-Good capacity _ f
        (add_integer_element-Steady (Fills capacity) add_json_data (keeps capacity) name i) h

  save_version-Good :
      (o : Option Bool) (value : Bytes) (f : Fixup)
      → InStep capacity f
      → Good capacity (save_version ops clock o value f)
  unfolding save_version
  save_version-Good none value f h = good_null
  save_version-Good (some true) value f h = good (record { sound = h.sound; depth = h.depth })
  save_version-Good (some false) value f h = good h

  saved-Good :
      (name : Option Bytes) (value : Bytes) (code : ℕ) (u : Fixing)
      → Good capacity u
      → Good capacity (saved ops clock name value (code, u)).1
  unfolding saved
  saved-Good name value code u (good {f} h) =
      save_version-Good (should_save_version f name) value f h
  saved-Good name value code u good_null = good_null

  on_scalar-Good :
      (name : Option Bytes) (s : Scalar F) (f : Fixup)
      → InStep capacity f
      → Good capacity (on_scalar ops clock name s f).1
  unfolding on_scalar on_integer_element on_string_element
  on_scalar-Good name (boolean b) f h =
      on_encoder-Good capacity _ f
        (add_boolean_element-Steady (Fills capacity) add_json_data (keeps capacity) name b) h
  on_scalar-Good name null f h =
      on_encoder-Good capacity _ f
        (add_null_element-Steady (Fills capacity) add_json_data (keeps capacity) name) h
  on_scalar-Good name (integer i) f h = integer_element-Good (should_fix_date f name) name i f h
  on_scalar-Good name (unsigned_integer n) f h =
      on_encoder-Good capacity _ f
        (add_uinteger_element-Steady (Fills capacity) add_json_data (keeps capacity) name n) h
  on_scalar-Good name (floating_point v) f h =
      on_encoder-Good capacity _ f
        (add_floating_point_element-Steady (Fills capacity) add_json_data (keeps capacity) ops name
          v)
        h
  on_scalar-Good name (text t) f h = saved-Good name t _ _ (
      on_encoder-Good capacity _ f
        (add_string_element-Steady (Fills capacity) add_json_data (keeps capacity) name _ _) h)

  running-Good :
      (m : Fixup → ℕ × Fixing) (u : Fixing)
      → ((f : Fixup) → InStep capacity f → Good capacity (m f).1)
      → Good capacity u
      → Good capacity (while_running m u).1
  running-Good m u g (good {f} h) = g f h
  running-Good m u g good_null = good_null

  running-Kept :
      (m : Fixup → ℕ × Fixing) (u : Fixing)
      → ((f : Fixup) → InStep capacity f → Kept (Good capacity) (Fitting capacity) (m f))
      → Good capacity u
      → Kept (Good capacity) (Fitting capacity) (while_running m u)
  running-Kept m u g (good {f} h) = g f h
  running-Kept m u g good_null = fitting_null

  begin_object-Kept :
      (name : Option Bytes) (f : Fixup)
      → InStep capacity f
      → Kept (Good capacity) (Fitting capacity) (on_begin_object ops clock name f)
  unfolding on_begin_object on_encoder
  begin_object-Kept name f h = deeper-Kept capacity ops clock name f h (
      begin_object-Within (Fills capacity) add_json_data (keeps capacity) name f.current_depth
        f.encoder (omega (arith, h.depth)) h.sound)

  begin_array-Kept :
      (name : Option Bytes) (f : Fixup)
      → InStep capacity f
      → Kept (Good capacity) (Fitting capacity) (on_begin_array ops clock name f)
  unfolding on_begin_array on_encoder
  begin_array-Kept name f h = deeper-Kept capacity ops clock name f h (
      begin_array-Within (Fills capacity) add_json_data (keeps capacity) name f.current_depth
        f.encoder (omega (arith, h.depth)) h.sound)

  end_container-Good :
      (f : Fixup) → InStep capacity f → Good capacity (on_end_container ops clock f).1
  unfolding on_end_container on_encoder
  end_container-Good f h = higher-Good capacity ops clock f h (
      end_container-Within (Fills capacity) add_json_data (keeps capacity) f.current_depth f.encoder
        (omega (arith, h.depth)) h.sound)

  end_data-Good : (f : Fixup) → InStep capacity f → Good capacity (on_end_data ops clock f).1
  unfolding on_end_data
  end_data-Good f h =
      on_encoder-Good capacity _ f
        (end_encode-Steady (Fills capacity) add_json_data (keeps capacity)) h

  pub callbacks-KeepsUntil : KeepsUntil (callbacks ops clock) (Good capacity) (Fitting capacity)
  callbacks-KeepsUntil = record {
    weaker = Good-Fitting capacity;
    scalar = λ name s u h.
        any_code capacity _ (running-Good (on_scalar ops clock name s) u (on_scalar-Good name s) h);
    begin_array =
        λ name u h. running-Kept (on_begin_array ops clock name) u (begin_array-Kept name) h;
    begin_object =
        λ name u h. running-Kept (on_begin_object ops clock name) u (begin_object-Kept name) h;
    end_container = λ u h.
        any_code capacity _ (running-Good (on_end_container ops clock) u end_container-Good h);
    end_data = λ u h. any_code capacity _ (running-Good (on_end_data ops clock) u end_data-Good h);
  }
