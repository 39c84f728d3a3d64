-- ===== src/Json/Encode/Safe.antt =====
-- What the encoder of KFCJSONCodec.c does whatever its sink answers: it stays within `isObject`.
use kfcrash.Prelude.{
  ℕ, zero, suc, ◌≤◌, ◌<◌, ◌≡◌, refl, sym, subst, Bool, true, false, ◌&&◌, Option, none, some, List,
  [], ◌∷◌, arith, ltb, if◌then◌else◌, if-elim, Bytes, codes, length, get_elem?, take, drop,
}
use kfcrash.Json.Escape.{escaped_portion}
use kfcrash.Json.Encode.{
  Encoder, max_levels, Call, after_code, ◌then◌, done, portion_size, put, append_portion,
  append_escaped, add_portions, add_escaped_string, close_quote, add_quoted_escaped_string,
  separate, indent, new_line, add_colon, add_name, optional_line, name_here, begin_element,
}

pub get_elem?-below :
    (xs : List Bool) (i : ℕ) → i < length xs → (b : Bool) × (get_elem? xs i ≡ some b)
get_elem?-below [] i h = absurd (omega arith)
get_elem?-below (x ∷ xs) zero h = (x, refl)
get_elem?-below (x ∷ xs) (suc i) h = get_elem?-below xs i (omega arith)

module _ {S : Type 0} (P : S → Type 0) where
  -- An encoder with its whole array, at the level `n` at most.
  pub record Sound (n : ℕ) (e : Encoder S) : Type 0 where
    pub level : e.container_level ≤ n
    pub size : length e.is_object ≡ max_levels
    pub kept : P e.sink

  -- A call that gave a result.
  pub data Within (n : ℕ) : Option (ℕ × Encoder S) → Type 0 where
    within : {code : ℕ} {e : Encoder S} → Sound n e → Within n (some (code, e))

  -- A call that does not go up.
  abbrev pub Steady : Call S → Type 0
  Steady m = (n : ℕ) (e : Encoder S) → n < max_levels → Sound n e → Within n (m e)

  pub Within-le : (m n : ℕ) {r : Option (ℕ × Encoder S)} → m ≤ n → Within m r → Within n r
  Within-le m n le (within s) =
      within (record { level = omega (arith, s.level); size = s.size; kept = s.kept })

  pub after_code-Within :
      (n n' : ℕ) {r : Option (ℕ × Encoder S)} (k : Call S)
      → n ≤ n'
      → Within n r
      → ((e : Encoder S) → Sound n e → Within n' (k e))
      → Within n' (after_code r k)
  after_code-Within n n' k le (within {code = zero} {e} s) h = h e s
  after_code-Within n n' k le (within {code = suc code} {e} s) h =
      within (record { level = omega (arith, s.level); size = s.size; kept = s.kept })

  pub then-Steady : (m k : Call S) → Steady m → Steady k → Steady (m then k)
  then-Steady m k f g n e below s =
      after_code-Within n n k (omega arith) (f n e below s) (λ e' s'. g n e' below s')

  pub done-Steady : Steady done
  done-Steady n e below s = within s

  if-Steady :
      (b : Encoder S → Bool) (m k : Call S)
      → Steady m
      → Steady k
      → Steady (λ e. if b e then m e else k e)
  if-Steady b m k f g n e below s = if-elim (Within n) (b e) (f n e below s) (g n e below s)

  module _ (add_json_data : Bytes → S → ℕ × S)
      (keeps : (text : Bytes) (sink : S) → P sink → P (add_json_data text sink).1) where
    pub put-Steady : (text : Bytes) → Steady (put add_json_data text)
    put-Steady text n e below s =
        within (record { level = s.level; size = s.size; kept = keeps text e.sink s.kept })

    append_portion-Steady : (o : Option Bytes) → Steady (append_portion add_json_data o)
    unfolding append_portion
    append_portion-Steady none = λ n e below s. within s
    append_portion-Steady (some text) = put-Steady text

    add_portions-Steady : (rounds : ℕ) (s : Bytes) → Steady (add_portions add_json_data rounds s)
    unfolding add_portions append_escaped
    add_portions-Steady zero s = done-Steady
    add_portions-Steady (suc rounds) [] = done-Steady
    add_portions-Steady (suc rounds) (c ∷ s) =
        then-Steady _ _ (append_portion-Steady (escaped_portion (take portion_size (c ∷ s))))
          (add_portions-Steady rounds (drop portion_size (c ∷ s)))

    pub add_escaped_string-Steady : (s : Bytes) → Steady (add_escaped_string add_json_data s)
    unfolding add_escaped_string
    add_escaped_string-Steady s = add_portions-Steady (length s) s

    close_quote-Within :
        (n : ℕ) {r : Option (ℕ × Encoder S)} → Within n r → Within n (close_quote add_json_data r)
    unfolding close_quote
    close_quote-Within n (within {code} {e} s) =
        within (record { level = s.level; size = s.size; kept = keeps (b'"' ∷ []) e.sink s.kept })

    pub add_quoted_escaped_string-Steady :
        (s : Bytes) → Steady (add_quoted_escaped_string add_json_data s)
    unfolding add_quoted_escaped_string
    add_quoted_escaped_string-Steady s =
        then-Steady _ _ (put-Steady (b'"' ∷ []))
          (λ n e below h. close_quote-Within n (add_escaped_string-Steady s n e below h))

    separate-Steady : Steady (separate add_json_data)
    unfolding separate
    separate-Steady n e below s =
        if-elim (Within n) e.container_first_entry
          (within (record { level = s.level; size = s.size; kept = s.kept }))
          (put-Steady (b',' ∷ []) n e below s)

    indent-Steady : (levels : ℕ) → Steady (indent add_json_data levels)
    unfolding indent
    indent-Steady zero = done-Steady
    indent-Steady (suc levels) = then-Steady _ _ (put-Steady (codes "    ")) (indent-Steady levels)

    pub new_line-Steady : Steady (new_line add_json_data)
    unfolding new_line
    new_line-Steady n e below s =
        then-Steady _ _ (put-Steady (b'\n' ∷ [])) (indent-Steady e.container_level) n e below s

    add_colon-Steady : Steady (add_colon add_json_data)
    unfolding add_colon
    add_colon-Steady n e below s = put-Steady _ n e below s

    add_name-Steady :
        (name : Option Bytes) (object : Bool) → Steady (add_name add_json_data name (some object))
    unfolding add_name
    add_name-Steady name false = done-Steady
    add_name-Steady none true = λ n e below s. within s
    add_name-Steady (some t) true =
        then-Steady _ _ (add_quoted_escaped_string-Steady t) add_colon-Steady

    optional_line-Steady : Steady (optional_line add_json_data)
    unfolding optional_line
    optional_line-Steady n e below s =
        if-elim (Within n) (e.pretty_print && ltb 0 e.container_level) (new_line-Steady n e below s)
          (within s)

    name_here-Steady : (name : Option Bytes) → Steady (name_here add_json_data name)
    unfolding name_here
    name_here-Steady name n e below s =
        let (object, at) =
          get_elem?-below e.is_object e.container_level (omega (arith, s.level, s.size)) in
        subst (λ o. Within n (add_name add_json_data name o e)) (sym at)
          (add_name-Steady name object n e below s)

    pub begin_element-Steady : (name : Option Bytes) → Steady (begin_element add_json_data name)
    unfolding begin_element
    begin_element-Steady name =
        then-Steady _ _ (then-Steady _ _ separate-Steady optional_line-Steady)
          (name_here-Steady name)
