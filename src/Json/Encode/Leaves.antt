-- ===== src/Json/Encode/Leaves.antt =====
-- What the encoder of KFCJSONCodec.c writes for an element that is no container, and where a container
-- begins and ends.
use kfcrash.Prelude.{
  ℕ, zero, suc, ◌≡◌, refl, ap, ◌∙◌, Bool, Option, none, some, [], ◌∷◌, ◌++◌, if◌then◌else◌, Bytes,
  codes, length, get_elem?, take,
}
use kfcrash.Json.Codes.{json_ok, exactly}
use kfcrash.Json.Escape.{escape_loop}
use kfcrash.Json.Number.{FloatOps, format_i64, format_u64, format_double}
use kfcrash.Json.Decode.Scalars.{
  Scalar, boolean, null, integer, unsigned_integer, floating_point, text,
}
use kfcrash.Json.Encode.Strings.{
  to_text, Gives, some-inj, then-Gives, quoted, add_quoted_escaped_string-Gives, lead, led,
  wrote-led, begin_element-Gives,
}
use kfcrash.Json.Encode.{
  Encoder, Call, ◌then◌, put, begin_element, add_formatted, add_boolean_element, add_null_element,
  add_integer_element, add_uinteger_element, add_floating_point_element, add_string_element,
  add_quoted_escaped_string,
}

-- The text of a number, unless it is too long for its buffer.
abbrev pub formatted : ℕ × Bytes → Option Bytes
formatted (zero, t) = some t
formatted (suc code, t) = none

abbrev pub in_quotes : Option Bytes → Option Bytes
in_quotes none = none
in_quotes (some t) = some (quoted t)

module _ {F : Type 0} (ops : FloatOps F) where
  -- The text of a scalar; `none` where the encoder refuses it.
  abbrev pub leaf_text : Scalar F → Option Bytes
  leaf_text (boolean b) = some (if b then codes "true" else codes "false")
  leaf_text null = some (codes "null")
  leaf_text (integer i) = formatted (format_i64 i)
  leaf_text (unsigned_integer n) = formatted (format_u64 n)
  leaf_text (floating_point v) = formatted (format_double ops 64 v)
  leaf_text (text s) = in_quotes (escape_loop s)

  -- The call that adds a scalar.
  pub add_leaf : Bytes → Scalar F → Call Bytes
  add_leaf name (boolean b) = add_boolean_element to_text (some name) b
  add_leaf name null = add_null_element to_text (some name)
  add_leaf name (integer i) = add_integer_element to_text (some name) i
  add_leaf name (unsigned_integer n) = add_uinteger_element to_text (some name) n
  add_leaf name (floating_point v) = add_floating_point_element to_text ops (some name) v
  add_leaf name (text s) = add_string_element to_text (some name) (some s) (exactly (length s))

  led_as :
      (e : Encoder Bytes) (l : Bytes) {u t : Bytes}
      → u ≡ t
      → ◌≡◌ {A = Option (ℕ × Encoder Bytes)}
          (some (json_ok, led e (l ++ u)))
          (some (json_ok, led e (l ++ t)))
  led_as e l h = ap (λ r. some (json_ok, led e (l ++ r))) h

  put_behind :
      (name q t : Bytes) (object : Bool) (e : Encoder Bytes)
      → get_elem? e.is_object e.container_level ≡ some object
      → escape_loop name ≡ some q
      → Gives
          (begin_element to_text (some name) then put to_text t)
          e
          (led e (lead e object q ++ t))
  put_behind name q t object e kind h =
      then-Gives (begin_element to_text (some name)) (put to_text t) e
        (begin_element-Gives name q object e kind h) refl
      ∙ ap (λ e'. some (json_ok, e')) (wrote-led e (lead e object q) t)

  formatted-Gives :
      (name q t : Bytes) (object : Bool) (r : ℕ × Bytes) (e : Encoder Bytes)
      → get_elem? e.is_object e.container_level ≡ some object
      → escape_loop name ≡ some q
      → formatted r ≡ some t
      → Gives (add_formatted to_text (some name) r) e (led e (lead e object q ++ t))
  unfolding add_formatted
  formatted-Gives name q t object (zero, u) e kind h f =
      put_behind name q u object e kind h ∙ led_as e _ (some-inj f)
  formatted-Gives name q t object (suc code, u) e kind h f = absurd (cc)

  take-length : (s : Bytes) → take (length s) s ≡ s
  take-length [] = refl
  take-length (c ∷ s) = ap (λ r. c ∷ r) (take-length s)

  text-Gives :
      (name q s t : Bytes) (object : Bool) (o : Option Bytes) (e : Encoder Bytes)
      → get_elem? e.is_object e.container_level ≡ some object
      → escape_loop name ≡ some q
      → escape_loop s ≡ o
      → in_quotes o ≡ some t
      → Gives (add_leaf name (text s)) e (led e (lead e object q ++ t))
  unfolding add_leaf add_string_element
  text-Gives name q s t object none e kind h p f = absurd (cc)
  text-Gives name q s t object (some u) e kind h p f =
      then-Gives (begin_element to_text (some name))
        (add_quoted_escaped_string to_text (take (length s) s)) e
        (begin_element-Gives name q object e kind h)
        (add_quoted_escaped_string-Gives (take (length s) s) u (led e (lead e object q))
          (ap escape_loop (take-length s) ∙ p))
      ∙ ap (λ e'. some (json_ok, e')) (wrote-led e (lead e object q) (quoted u))
      ∙ led_as e _ (some-inj f)

  -- A scalar is written as its text, behind what stands in front of an element.
  pub add_leaf-Gives :
      (name q t : Bytes) (object : Bool) (s : Scalar F) (e : Encoder Bytes)
      → get_elem? e.is_object e.container_level ≡ some object
      → escape_loop name ≡ some q
      → leaf_text s ≡ some t
      → Gives (add_leaf name s) e (led e (lead e object q ++ t))
  unfolding add_leaf add_boolean_element add_null_element add_integer_element add_uinteger_element
      add_floating_point_element
  add_leaf-Gives name q t object (boolean b) e kind h f =
      put_behind name q _ object e kind h ∙ led_as e _ (some-inj f)
  add_leaf-Gives name q t object null e kind h f =
      put_behind name q _ object e kind h ∙ led_as e _ (some-inj f)
  add_leaf-Gives name q t object (integer i) e kind h f =
      formatted-Gives name q t object (format_i64 i) e kind h f
  add_leaf-Gives name q t object (unsigned_integer i) e kind h f =
      formatted-Gives name q t object (format_u64 i) e kind h f
  add_leaf-Gives name q t object (floating_point v) e kind h f =
      formatted-Gives name q t object (format_double ops 64 v) e kind h f
  add_leaf-Gives name q t object (text s) e kind h f =
      text-Gives name q s t object (escape_loop s) e kind h refl f
