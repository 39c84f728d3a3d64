-- ===== src/Files/Tests.antt =====
-- The mmap writer of KFCFileUtils.c on small inputs.
use kfcrash.Prelude.{◌+◌, ◌≤◌, ◌≡◌, refl, true, List, [], ◌∷◌, arith, Bytes, codes, length}
use kfcrash.Files.{
  init_mmap_writer, write_between, write_all, apply_truncation_marker, write_structural,
}
use kfcrash.Files.Truncated.{Holds, write_all-Holds}

abbrev texts : List Bytes
texts = codes "{\"a\":" ∷ codes "\"long\"" ∷ codes ",\"b\":[1, 2" ∷ codes "]" ∷ codes "}" ∷ []

-- A writer with room for eight bytes in front of the reserve.
cut_writer :
    write_all texts (init_mmap_writer 136)
    ≡ record { buffer = codes "{\"a\":\"lo ]}"; buffer_size = 136; truncated = true }
unfolding write_all write_between write_structural init_mmap_writer
cut_writer = refl

marked_writer :
    (apply_truncation_marker
      (record { buffer = codes "{\"a\":[ ]}"; buffer_size = 136; truncated = true })).buffer
    ≡ codes "{\"a\":[ ],\"__truncated__\":true}"
unfolding apply_truncation_marker
marked_writer = refl

write_all-Holds_example :
    Holds 136 (codes "{\"a\":\"long\",\"b\":[1, 2]}") (write_all texts (init_mmap_writer 136))
    × (length (write_all texts (init_mmap_writer 136)).buffer + 22 ≤ 136)
    × (length (apply_truncation_marker (write_all texts (init_mmap_writer 136))).buffer ≤ 136)
write_all-Holds_example = write_all-Holds 136 texts (omega arith) (omega arith)
