-- ===== src/Files.antt =====
-- The mmap writer of KFCFileUtils.c and .h, and the marker that KFCrashReportC.c puts into its text.
pub mod Truncated
mod Tests
use kfcrash.Prelude.{
  ℕ, ◌+◌, ◌-◌, ◌%◌, ◌^◌, Bool, true, false, ◌&&◌, ◌||◌, List, [], ◌∷◌, ◌++◌, ltb, leb, ◌==◌,
  if◌then◌else◌, Bytes, length, take, zero, suc, Option, none, some, get_elem?, codes,
}

-- `KSFU_MmapWriterReserve`
abbrev pub mmap_writer_reserve : ℕ
mmap_writer_reserve = 128

-- `KSFU_TruncationMarkerLen`
abbrev pub truncation_marker_len : ℕ
truncation_marker_len = 22

-- `KSFUMmapWriter`; `buffer` holds the bytes in front of `position`.
pub record MmapWriter : Type 0 where
  pub buffer : Bytes
  pub buffer_size : ℕ
  pub truncated : Bool

unfoldable pub init_mmap_writer : ℕ → MmapWriter
init_mmap_writer size = record { buffer = []; buffer_size = size; truncated = false }

-- `size_t` wraps around.
abbrev pub size_minus : ℕ → ℕ → ℕ
size_minus a b = (a + 2 ^ 64 - b) % 2 ^ 64

abbrev pub is_structural : ℕ → Bool
is_structural c = c == b'}' || c == b']' || c == b'\n' || c == b' ' || c == b'\t'

-- The `for` over the data, up to the marker's place.
pub write_structural : ℕ → Bytes → Bytes → Bytes
write_structural end [] buffer = buffer
write_structural end (c ∷ rest) buffer =
    let written =
      write_structural end rest (if is_structural c then buffer ++ (c ∷ []) else buffer) in
    if is_structural c && leb end (length buffer) then buffer else written

-- With the places where the reserve and the marker begin.
pub write_between : ℕ → ℕ → Bytes → MmapWriter → MmapWriter
unfolding write_structural
write_between cut end text w =
    if w.truncated
    then record w { buffer = write_structural end text w.buffer }
    else if ltb cut (length w.buffer + length text)
    then record w { truncated = true; buffer = w.buffer ++ take (cut - length w.buffer) text }
    else record w { buffer = w.buffer ++ text }

-- The result is always true.
unfoldable pub write_mmap_writer : Bytes → MmapWriter → Bool × MmapWriter
unfolding write_between
write_mmap_writer text w = (
  true,
  write_between (size_minus w.buffer_size mmap_writer_reserve)
      (size_minus w.buffer_size truncation_marker_len) text w,
)

pub write_all : List Bytes → MmapWriter → MmapWriter
unfolding write_mmap_writer
write_all [] w = w
write_all (text ∷ rest) w = write_all rest (write_mmap_writer text w).1

-- The marker of `applyTruncationMarker` in KFCrashReportC.c.
abbrev pub truncation_marker : Bytes
truncation_marker = codes ",\"__truncated__\":true}"

abbrev pub is_closer : Option ℕ → Bool
is_closer none = false
is_closer (some c) = c == b'}'

-- Behind the last `}`, or 0.
pub closer_position : ℕ → Bytes → ℕ
closer_position zero buffer = 0
closer_position (suc pos) buffer =
    let before = closer_position pos buffer in
    if is_closer (get_elem? buffer pos) then suc pos else before

pub mark_at : ℕ → MmapWriter → MmapWriter
mark_at zero w = w
mark_at (suc pos) w = record w { buffer = take pos w.buffer ++ truncation_marker }

unfoldable pub apply_truncation_marker : MmapWriter → MmapWriter
unfolding mark_at closer_position
apply_truncation_marker w = mark_at (closer_position (length w.buffer) w.buffer) w
