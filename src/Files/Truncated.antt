-- ===== src/Files/Truncated.antt =====
-- What the mmap writer of KFCFileUtils.c keeps of a report that does not fit.
use kfcrash.Prelude.{
  ℕ, zero, suc, ◌+◌, ◌-◌, ◌^◌, ◌≤◌, ◌<◌, ◌≡◌, refl, sym, ap, ap₂, subst, ◌∙◌, inl, inr, Bool, true,
  false, ◌&&◌, List, [], ◌∷◌, ◌++◌, append-nil, append_assoc, arith, ltb, leb, Bool-cases,
  if◌then◌else◌, get_elem?, if-elim, if-true, if-false, Bytes, length, length-append, length-take,
  take,
}
use kfcrash.Files.{
  mmap_writer_reserve, truncation_marker_len, MmapWriter, init_mmap_writer, size_minus,
  is_structural, write_structural, write_between, write_mmap_writer, write_all, is_closer,
  closer_position, truncation_marker, mark_at, apply_truncation_marker,
}

-- Closing brackets and whitespace only.
abbrev pub all_structural : Bytes → Bool
all_structural [] = true
all_structural (c ∷ rest) = is_structural c && all_structural rest

abbrev pub joined_texts : List Bytes → Bytes
joined_texts [] = []
joined_texts (text ∷ rest) = text ++ joined_texts rest

take_shorter : (n : ℕ) (s t : Bytes) → n ≤ length s → take n (s ++ t) ≡ take n s
take_shorter zero s t h = refl
take_shorter (suc n) [] t h = absurd (omega arith)
take_shorter (suc n) (c ∷ s) t h = ap (λ k. c ∷ k) (take_shorter n s t (omega arith))

take_longer : (n m : ℕ) (s t : Bytes) → n ≡ length s + m → take n (s ++ t) ≡ s ++ take m t
take_longer n m [] t h = ap (λ k. take k t) (omega (arith, h))
take_longer zero m (c ∷ s) t h = absurd (omega (arith, h))
take_longer (suc n) m (c ∷ s) t h = ap (λ k. c ∷ k) (take_longer n m s t (omega (arith, h)))

all_structural-append :
    (s t : Bytes)
    → all_structural s ≡ true
    → all_structural t ≡ true
    → all_structural (s ++ t) ≡ true
all_structural-append [] t a b = b
all_structural-append (c ∷ s) t a b =
    ground (arith, a, all_structural-append s t (ground (arith, a)) b)

-- A buffer behind which only structural characters were written, up to an end.
data Structural (end : ℕ) (buffer : Bytes) : Bytes → Type 0 where
  structural :
      (kept : Bytes)
      → all_structural kept ≡ true
      → length (buffer ++ kept) ≤ end
      → Structural end buffer (buffer ++ kept)

Structural-same : (end : ℕ) (buffer : Bytes) → length buffer ≤ end → Structural end buffer buffer
Structural-same end buffer h =
    subst (Structural end buffer) (append-nil buffer)
      (structural [] refl (omega (arith, h, ap length (append-nil buffer))))

Structural-behind :
    (end c : ℕ) (buffer : Bytes) {b : Bytes}
    → is_structural c ≡ true
    → Structural end (buffer ++ (c ∷ [])) b
    → Structural end buffer b
Structural-behind end c buffer is (structural kept all len) =
    subst (Structural end buffer) (sym (append_assoc buffer (c ∷ []) kept)) (
      structural (c ∷ kept) (ap (λ b. b && all_structural kept) is ∙ all)
        (omega (arith, len, ap length (append_assoc buffer (c ∷ []) kept))))

turn-Structural :
    (end c : ℕ) (buffer : Bytes) (more : Bytes → Bytes) (is full : Bool)
    → ((b : Bytes) → length b ≤ end → Structural end b (more b))
    → length buffer ≤ end
    → is_structural c ≡ is
    → leb end (length buffer) ≡ full
    → Structural end buffer
        (if is && full then buffer else more (if is then buffer ++ (c ∷ []) else buffer))
turn-Structural end c buffer more true true goes h e f = Structural-same end buffer h
turn-Structural end c buffer more true false goes h e f =
    let short : length buffer < end = ground (arith, f) in
    Structural-behind end c buffer e
      (goes (buffer ++ (c ∷ [])) (omega (arith, length-append buffer (c ∷ []), short)))
turn-Structural end c buffer more false full goes h e f = goes buffer h

write_structural-Structural :
    (end : ℕ) (text buffer : Bytes)
    → length buffer ≤ end
    → Structural end buffer (write_structural end text buffer)
unfolding write_structural
write_structural-Structural end [] buffer h = Structural-same end buffer h
write_structural-Structural end (c ∷ rest) buffer h =
    turn-Structural end c buffer (write_structural end rest) (is_structural c)
      (leb end (length buffer)) (write_structural-Structural end rest) h refl refl

-- What a writer of a size holds after a text: the whole of it in front of the reserve; or, behind what
-- fits there, structural characters up to the place of the marker.
pub data Holds (size : ℕ) (s : Bytes) : MmapWriter → Type 0 where
  whole :
      length s ≤ size - mmap_writer_reserve
      → Holds size s (record { buffer = s; buffer_size = size; truncated = false })
  cut :
      (front kept : Bytes)
      → size - mmap_writer_reserve < length s
      → front ≡ take (size - mmap_writer_reserve) s
      → all_structural kept ≡ true
      → length (front ++ kept) ≤ size - truncation_marker_len
      → Holds size s (record { buffer = front ++ kept; buffer_size = size; truncated = true })

Holds-cut :
    (size : ℕ) (s front kept : Bytes) {b : Bytes}
    → size - mmap_writer_reserve < length s
    → front ≡ take (size - mmap_writer_reserve) s
    → all_structural kept ≡ true
    → Structural (size - truncation_marker_len) (front ++ kept) b
    → Holds size s (record { buffer = b; buffer_size = size; truncated = true })
Holds-cut size s front kept long e all (structural more all' len) =
    subst (λ b. Holds size s (record { buffer = b; buffer_size = size; truncated = true }))
      (sym (append_assoc front kept more))
      (cut front (kept ++ more) long e (all_structural-append kept more all all')
        (omega (arith, len, ap length (append_assoc front kept more))))

Holds-full :
    (size : ℕ) (s text : Bytes)
    → mmap_writer_reserve ≤ size
    → length s ≤ size - mmap_writer_reserve
    → size - mmap_writer_reserve < length s + length text
    → Holds size (s ++ text) (record {
      buffer = s ++ take (size - mmap_writer_reserve - length s) text;
      buffer_size = size;
      truncated = true;
    })
Holds-full size s text large h long =
    let n = size - mmap_writer_reserve in
    let m = n - length s in
    let e = take_longer n m s text (omega (arith, h)) in
    let b = s ++ take m text in
    subst
      (λ b. Holds size (s ++ text) (record { buffer = b; buffer_size = size; truncated = true }))
      (append-nil b)
      (cut b [] (omega (arith, long, length-append s text)) (sym e) refl (
        omega (arith, ap length (append-nil b), length-append s (take m text), length-take m text)))

write_between-Holds :
    (size : ℕ) (text s : Bytes) {w : MmapWriter}
    → mmap_writer_reserve ≤ size
    → Holds size s w
    → Holds size
        (s ++ text)
        (write_between (size - mmap_writer_reserve) (size - truncation_marker_len) text w)
unfolding write_between
write_between-Holds size text s large (whole h) =
    let n = size - mmap_writer_reserve in
    elim (Bool-cases (ltb n (length s + length text))) [
      | inl over ↦
          if-true (Holds size (s ++ text)) {b = ltb n (length s + length text)} _ _ over
            (Holds-full size s text large h (ground (arith, over)))
      | inr fits ↦ if-false (Holds size (s ++ text)) {b = ltb n (length s + length text)} _ _ fits (
          let room : length s + length text ≤ n = ground (arith, fits) in
          whole (omega (arith, length-append s text, room)))
    ]
write_between-Holds size text s large (cut front kept long e all len) =
    Holds-cut size (s ++ text) front kept (omega (arith, long, length-append s text))
      (e ∙ sym (take_shorter (size - mmap_writer_reserve) s text (omega (arith, long)))) all
      (write_structural-Structural (size - truncation_marker_len) text (front ++ kept) len)

size_minus-below : (a b : ℕ) → b ≤ a → a < 2 ^ 31 → size_minus a b ≡ a - b
size_minus-below a b h l = omega (arith, h, l)

write_between_same :
    (size : ℕ) (text : Bytes) (w : MmapWriter)
    → mmap_writer_reserve ≤ size
    → size < 2 ^ 31
    → write_between (size - mmap_writer_reserve) (size - truncation_marker_len) text w
      ≡ write_between
          (size_minus size mmap_writer_reserve)
          (size_minus size truncation_marker_len)
          text
          w
write_between_same size text w large small =
    ap₂ (λ m n. write_between m n text w)
      (sym (size_minus-below size mmap_writer_reserve large small))
      (sym (size_minus-below size truncation_marker_len (omega (arith, large)) small))

write_mmap_writer-Holds :
    (size : ℕ) (text s : Bytes) {w : MmapWriter}
    → mmap_writer_reserve ≤ size
    → size < 2 ^ 31
    → Holds size s w
    → Holds size (s ++ text) (write_mmap_writer text w).1
unfolding write_mmap_writer
write_mmap_writer-Holds size text s large small (whole h) =
    let w : MmapWriter = record { buffer = s; buffer_size = size; truncated = false } in
    subst (Holds size (s ++ text)) (write_between_same size text w large small)
      (write_between-Holds size text s large (whole h))
write_mmap_writer-Holds size text s large small (cut front kept long e all len) =
    let w : MmapWriter = record { buffer = front ++ kept; buffer_size = size; truncated = true } in
    subst (Holds size (s ++ text)) (write_between_same size text w large small)
      (write_between-Holds size text s large (cut front kept long e all len))

write_all-Holds_from :
    (size : ℕ) (texts : List Bytes) (s : Bytes) {w : MmapWriter}
    → mmap_writer_reserve ≤ size
    → size < 2 ^ 31
    → Holds size s w
    → Holds size (s ++ joined_texts texts) (write_all texts w)
unfolding write_all
write_all-Holds_from size [] s {w} large small h =
    subst (λ t. Holds size t w) (sym (append-nil s)) h
write_all-Holds_from size (text ∷ rest) s {w} large small h =
    subst (λ t. Holds size t (write_all rest (write_mmap_writer text w).1))
      (append_assoc s text (joined_texts rest))
      (write_all-Holds_from size rest (s ++ text) large small
        (write_mmap_writer-Holds size text s large small h))

closer_position_le : (pos : ℕ) (buffer : Bytes) → closer_position pos buffer ≤ pos
unfolding closer_position
closer_position_le zero buffer = omega arith
closer_position_le (suc pos) buffer =
    if-elim (λ (n : ℕ). n ≤ suc pos) (is_closer (get_elem? buffer pos)) (omega arith)
      (omega (arith, closer_position_le pos buffer))

mark_at_le :
    (pos size : ℕ) (w : MmapWriter)
    → pos ≤ length w.buffer
    → length w.buffer + truncation_marker_len ≤ size
    → length (mark_at pos w).buffer ≤ size
unfolding mark_at
mark_at_le zero size w below h = omega (arith, h)
mark_at_le (suc pos) size w below h =
    omega (
      arith,
      below,
      h,
      length-append (take pos w.buffer) truncation_marker,
      length-take pos w.buffer,
    )

Holds-le :
    (size : ℕ) (s : Bytes) {w : MmapWriter}
    → mmap_writer_reserve ≤ size
    → Holds size s w
    → length w.buffer + truncation_marker_len ≤ size
Holds-le size s large (whole h) = omega (arith, large, h)
Holds-le size s large (cut front kept long e all len) = omega (arith, large, len)

-- However a report is cut into texts, a writer whose buffer has 128 bytes at least, and fewer than
-- 2^31, holds the whole report if it has that many bytes less 128 at most. If it has more, the writer
-- is in truncation mode and holds as many bytes of it as fit in front of the reserve, and behind them
-- only closing brackets and whitespace. In both cases 22 bytes of the buffer are still free, and
-- `applyTruncationMarker` stays within it.
pub write_all-Holds :
    (size : ℕ) (texts : List Bytes)
    → mmap_writer_reserve ≤ size
    → size < 2 ^ 31
    → Holds size (joined_texts texts) (write_all texts (init_mmap_writer size))
      × (length (write_all texts (init_mmap_writer size)).buffer + truncation_marker_len ≤ size)
      × (length (apply_truncation_marker (write_all texts (init_mmap_writer size))).buffer ≤ size)
unfolding init_mmap_writer apply_truncation_marker
write_all-Holds size texts large small =
    let w = write_all texts (init_mmap_writer size) in
    let holds : Holds size (joined_texts texts) w =
      write_all-Holds_from size texts [] large small (whole (omega arith)) in
    let room = Holds-le size (joined_texts texts) large holds in
    (
      holds,
      room,
      mark_at_le (closer_position (length w.buffer) w.buffer) size w
          (closer_position_le (length w.buffer) w.buffer) room,
    )
