-- ===== src/Json/Encode/Strings.antt =====
-- What the encoder of KFCJSONCodec.c writes to a sink that accepts every text: strings and the
-- beginnings of elements.
use kfcrash.Prelude.{
  ℕ, zero, suc, ◌≤◌, ◌≡◌, sym, ap, ◌∙◌, inl, inr, Bool, true, false, ◌&&◌, some, [], ◌∷◌, ◌++◌,
  append-nil, append_assoc, arith, ltb, if◌then◌else◌, Bool-cases, Bytes, codes, length, get_elem?,
  take, drop, length-drop, take-append-drop,
}
use kfcrash.Json.Codes.{json_ok}
use kfcrash.Json.Escape.{escape_loop}
use kfcrash.Json.Escape.Laws.{escaped_portion-eq-escape_loop, escape_loop-append, joined-eq-some}
use kfcrash.Json.Encode.{
  Encoder, Call, ◌then◌, after_code, append_escaped, append_portion, add_portions,
  add_escaped_string, add_quoted_escaped_string, close_quote, begin_element, optional_line,
  name_here, separate, new_line, indent, add_name, add_colon, portion_size,
}

-- A sink that keeps the text.
abbrev pub to_text : Bytes → Bytes → ℕ × Bytes
to_text text sink = (json_ok, sink ++ text)

abbrev pub wrote : Encoder Bytes → Bytes → Encoder Bytes
wrote e text = record e { sink = e.sink ++ text }

pub wrote_twice : (e : Encoder Bytes) (a b : Bytes) → wrote (wrote e a) b ≡ wrote e (a ++ b)
wrote_twice e a b = ap (λ s. record e { sink = s }) (append_assoc e.sink a b)

pub wrote_nothing : (e : Encoder Bytes) → e ≡ wrote e []
wrote_nothing e = ap (λ s. record e { sink = s }) (sym (append-nil e.sink))

-- The call succeeds and leaves the encoder `e'`.
abbrev pub Gives : Call Bytes → Encoder Bytes → Encoder Bytes → Type 0
Gives m e e' = m e ≡ some (json_ok, e')

pub then-Gives :
    (m k : Call Bytes) (e : Encoder Bytes) {e' e'' : Encoder Bytes}
    → Gives m e e'
    → Gives k e' e''
    → Gives (m then k) e e''
then-Gives m k e h g = ap (λ o. after_code o k) h ∙ g

append_escaped-Gives :
    (portion text : Bytes) (e : Encoder Bytes)
    → escape_loop portion ≡ some text
    → Gives (append_escaped to_text portion) e (wrote e text)
unfolding append_escaped append_portion
append_escaped-Gives portion text e h =
    ap (λ o. append_portion to_text o e) (escaped_portion-eq-escape_loop portion ∙ h)

pub some-inj : {A : Type 0} {a b : A} → some a ≡ some b → a ≡ b
some-inj h = cc

add_portions-Gives :
    (rounds : ℕ) (s text : Bytes) (e : Encoder Bytes)
    → length s ≤ rounds
    → escape_loop s ≡ some text
    → Gives (add_portions to_text rounds s) e (wrote e text)
unfolding add_portions escape_loop
add_portions-Gives zero (c ∷ s) text e h p = absurd (omega arith)
add_portions-Gives zero [] text e h p =
    ap (λ e'. some (json_ok, e')) (wrote_nothing e ∙ ap (wrote e) (some-inj p))
add_portions-Gives (suc rounds) [] text e h p =
    ap (λ e'. some (json_ok, e')) (wrote_nothing e ∙ ap (wrote e) (some-inj p))
add_portions-Gives (suc rounds) (c ∷ s) text e h p =
    let a = take portion_size (c ∷ s) in
    let b = drop portion_size (c ∷ s) in
    let whole = sym (escape_loop-append a b) ∙ ap escape_loop (take-append-drop 256 (c ∷ s)) ∙ p in
    let (x, y, first, more, split) = joined-eq-some (escape_loop a) (escape_loop b) text whole in
    then-Gives (append_escaped to_text a) (add_portions to_text rounds b) e
      (append_escaped-Gives a x e first)
      (add_portions-Gives rounds b y (wrote e x) (omega (arith, length-drop 256 (c ∷ s))) more)
    ∙ ap (λ e'. some (json_ok, e')) (wrote_twice e x y ∙ ap (wrote e) (sym split))

-- A string between quotes.
abbrev pub quoted : Bytes → Bytes
quoted text = b'"' ∷ (text ++ (b'"' ∷ []))

pub add_escaped_string-Gives :
    (s text : Bytes) (e : Encoder Bytes)
    → escape_loop s ≡ some text
    → Gives (add_escaped_string to_text s) e (wrote e text)
unfolding add_escaped_string
add_escaped_string-Gives s text e h = add_portions-Gives (length s) s text e (omega arith) h

pub add_quoted_escaped_string-Gives :
    (s text : Bytes) (e : Encoder Bytes)
    → escape_loop s ≡ some text
    → Gives (add_quoted_escaped_string to_text s) e (wrote e (quoted text))
unfolding add_quoted_escaped_string close_quote
add_quoted_escaped_string-Gives s text e h =
    ap (close_quote to_text) (add_escaped_string-Gives s text (wrote e (b'"' ∷ [])) h)
    ∙ ap (λ e'. some (json_ok, e'))
        (ap (λ e'. wrote e' (b'"' ∷ [])) (wrote_twice e (b'"' ∷ []) text)
          ∙ wrote_twice e (b'"' ∷ text) (b'"' ∷ []))

-- The text in front of an element: a comma unless it is the first, a new line if the text is pretty,
-- and in an object its name.
abbrev pub comma : Bool → Bytes
comma true = []
comma false = b',' ∷ []

abbrev pub spaces : ℕ → Bytes
spaces zero = []
spaces (suc level) = codes "    " ++ spaces level

abbrev pub line : Bool → ℕ → Bytes
line pretty level = if pretty then b'\n' ∷ spaces level else []

abbrev pub colon : Bool → Bytes
colon pretty = if pretty then codes ": " else codes ":"

abbrev pub key : Bool → Bool → Bytes → Bytes
key pretty false name = []
key pretty true name = quoted name ++ colon pretty

indent-Gives : (n : ℕ) (e : Encoder Bytes) → Gives (indent to_text n) e (wrote e (spaces n))
unfolding indent
indent-Gives zero e = ap (λ e'. some (json_ok, e')) (wrote_nothing e)
indent-Gives (suc n) e =
    indent-Gives n (wrote e (codes "    "))
    ∙ ap (λ e'. some (json_ok, e')) (wrote_twice e (codes "    ") (spaces n))

pub new_line-Gives :
    (e : Encoder Bytes) → Gives (new_line to_text) e (wrote e (b'\n' ∷ spaces e.container_level))
unfolding new_line
new_line-Gives e =
    indent-Gives e.container_level (wrote e (b'\n' ∷ []))
    ∙ ap (λ e'. some (json_ok, e')) (wrote_twice e (b'\n' ∷ []) (spaces e.container_level))

separate-Gives :
    (e : Encoder Bytes)
    → Gives
        (separate to_text)
        e
        (record e { container_first_entry = false; sink = e.sink ++ comma e.container_first_entry })
unfolding separate
separate-Gives e = elim (Bool-cases e.container_first_entry) [
  | inl h ↦ rw (h, append-nil e.sink)
  | inr h ↦ rw h
]

add_name-Gives :
    (name text : Bytes) (object : Bool) (e : Encoder Bytes)
    → escape_loop name ≡ some text
    → Gives
        (add_name to_text (some name) (some object))
        e
        (wrote e (key e.pretty_print object text))
unfolding add_name add_colon
add_name-Gives name text false e h = ap (λ e'. some (json_ok, e')) (wrote_nothing e)
add_name-Gives name text true e h =
    ap (λ o. after_code o (add_colon to_text)) (add_quoted_escaped_string-Gives name text e h)
    ∙ ap (λ e'. some (json_ok, e')) (wrote_twice e (quoted text) (colon e.pretty_print))

-- Where the element is written, and what is written in front of it.
abbrev pub lead : Encoder Bytes → Bool → Bytes → Bytes
lead e object name =
    comma e.container_first_entry
    ++ (line (e.pretty_print && ltb 0 e.container_level) e.container_level
        ++ key e.pretty_print object name)

abbrev led_to : Encoder Bytes → Bytes → Encoder Bytes
led_to e s = record e { container_first_entry = false; sink = s }

abbrev pub led : Encoder Bytes → Bytes → Encoder Bytes
led e text = record e { container_first_entry = false; sink = e.sink ++ text }

pub wrote-led : (e : Encoder Bytes) (a b : Bytes) → wrote (led e a) b ≡ led e (a ++ b)
wrote-led e a b = ap (led_to e) (append_assoc e.sink a b)

pub optional_line-Gives :
    (b : Bool) (e : Encoder Bytes)
    → (if b then new_line to_text e else some (json_ok, e))
      ≡ some (json_ok, wrote e (line b e.container_level))
optional_line-Gives true e = new_line-Gives e
optional_line-Gives false e = ap (λ e'. some (json_ok, e')) (wrote_nothing e)

-- Before an element of a container whose kind is known stands the text of `lead`.
pub begin_element-Gives :
    (name text : Bytes) (object : Bool) (e : Encoder Bytes)
    → get_elem? e.is_object e.container_level ≡ some object
    → escape_loop name ≡ some text
    → Gives (begin_element to_text (some name)) e (led e (lead e object text))
unfolding begin_element optional_line name_here
begin_element-Gives name text object e kind h =
    let a = comma e.container_first_entry in
    let b = line (e.pretty_print && ltb 0 e.container_level) e.container_level in
    let c = key e.pretty_print object text in
    let e1 = led e a in
    let e2 = wrote e1 b in
    then-Gives (separate to_text then optional_line to_text) (name_here to_text (some name)) e
      (then-Gives (separate to_text) (optional_line to_text) e (separate-Gives e)
        (optional_line-Gives (e.pretty_print && ltb 0 e.container_level) e1))
      (ap (λ o. add_name to_text (some name) o e2) kind ∙ add_name-Gives name text object e2 h)
    ∙ ap (λ e'. some (json_ok, e')) (wrote_twice e1 b c ∙ wrote-led e a (b ++ c))
