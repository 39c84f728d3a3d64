-- ===== src/Json/Encode/Levels.antt =====
-- The calls of the encoder of KFCJSONCodec.c that open and close containers, whatever the sink answers.
use kfcrash.Prelude.{
  ℕ, zero, suc, ◌+◌, ◌-◌, ◌<◌, sym, subst, ◌∙◌, inl, inr, Bool, true, false, not, ◌&&◌, Option,
  none, arith, ltb, ◌==◌, Bool-cases, if-elim, if-true, if-false, Bytes, length-set,
}
use kfcrash.Json.Encode.{
  Encoder, max_levels, done, opening, closing, enter, begin_array, begin_object, leave, last_line,
  close_container, end_container, end_levels, end_encode,
}
use kfcrash.Json.Encode.Safe.{
  get_elem?-below, Sound, Within, within, Within-le, Steady, after_code-Within, then-Steady,
  done-Steady, put-Steady, new_line-Steady, begin_element-Steady,
}

module _ {S : Type 0} (P : S → Type 0) (add_json_data : Bytes → S → ℕ × S)
    (keeps : (text : Bytes) (sink : S) → P sink → P (add_json_data text sink).1) where
  -- A container takes a level.
  pub enter-Within :
      (object : Bool) (n : ℕ) (e : Encoder S)
      → n + 1 < max_levels
      → Sound P n e
      → Within P (n + 1) (enter add_json_data object e)
  unfolding enter
  enter-Within object n e below s =
      if-true (Within P (n + 1)) {b = ltb (e.container_level + 1) max_levels} _ none
        (ground (arith, s.level))
        (put-Steady P add_json_data keeps (opening object) (n + 1) _ below (record {
          level = omega (arith, s.level);
          size = length-set e.is_object (e.container_level + 1) object ∙ s.size;
          kept = s.kept;
        }))

  pub begin_array-Within :
      (name : Option Bytes) (n : ℕ) (e : Encoder S)
      → n + 1 < max_levels
      → Sound P n e
      → Within P (n + 1) (begin_array add_json_data name e)
  unfolding begin_array
  begin_array-Within name n e below s =
      after_code-Within P n (n + 1) (enter add_json_data false) (omega arith)
        (begin_element-Steady P add_json_data keeps name n e (omega arith) s)
        (λ e' s'. enter-Within false n e' below s')

  pub begin_object-Within :
      (name : Option Bytes) (n : ℕ) (e : Encoder S)
      → n + 1 < max_levels
      → Sound P n e
      → Within P (n + 1) (begin_object add_json_data name e)
  unfolding begin_object
  begin_object-Within name n e below s =
      after_code-Within P n (n + 1) (enter add_json_data true) (omega arith)
        (begin_element-Steady P add_json_data keeps name n e (omega arith) s)
        (λ e' s'. enter-Within true n e' below s')

  leave-Steady : (object : Bool) → Steady P (leave add_json_data object)
  unfolding leave
  leave-Steady object n e below s =
      put-Steady P add_json_data keeps (closing object) n _ below
        (record { level = s.level; size = s.size; kept = s.kept })

  last_line-Steady : Steady P (last_line add_json_data)
  unfolding last_line
  last_line-Steady n e below s =
      if-elim (Within P n) (e.pretty_print && not e.container_first_entry)
        (new_line-Steady P add_json_data keeps n e below s) (within s)

  -- From a level above 0, one level down.
  pub end_container-Within :
      (n : ℕ) (e : Encoder S)
      → n < max_levels
      → Sound P n e
      → Within P (n - 1) (end_container add_json_data e)
  unfolding end_container close_container
  end_container-Within n e below s =
      let (object, at) =
        get_elem?-below e.is_object e.container_level (omega (arith, s.level, s.size)) in
      elim (Bool-cases (e.container_level == 0)) [
        | inl root ↦
            if-true (Within P (n - 1)) {b = e.container_level == 0} (done e) _ root
              (within (record { level = ground (arith, root); size = s.size; kept = s.kept }))
        | inr inside ↦ if-false (Within P (n - 1)) {b = e.container_level == 0} (done e) _ inside (
            subst (λ o. Within P (n - 1) (close_container add_json_data o e)) (sym at)
              (then-Steady P _ _ last_line-Steady (leave-Steady object) (n - 1) _ (omega arith)
                (record { level = omega (arith, s.level); size = s.size; kept = s.kept })))
      ]

  end_levels-Steady : (rounds : ℕ) → Steady P (end_levels add_json_data rounds)
  unfolding end_levels
  end_levels-Steady zero = done-Steady P
  end_levels-Steady (suc rounds) = λ n e below s.
      if-elim (Within P n) (e.container_level == 0) (within s) (
        after_code-Within P n n (end_levels add_json_data rounds) (omega arith)
          (Within-le P (n - 1) n (omega arith) (end_container-Within n e below s))
          (λ e' s'. end_levels-Steady rounds n e' below s'))

  pub end_encode-Steady : Steady P (end_encode add_json_data)
  unfolding end_encode
  end_encode-Steady n e below s = end_levels-Steady e.container_level n e below s
