-- ===== src/ControlFile/Loop.antt =====
-- control_file.py: _bounded_read.
use repo_health_doctor.Base.Int.{ℤ, pos, negsuc, ltb_ℤ, ◌+ℤ◌}
use repo_health_doctor.Base.{
  ℕ, zero, suc, ◌+◌, Option, none, some, List, [], ◌∷◌, ◌++◌, length, ltb, if◌then◌else◌,
}

-- The content, None where it is too large, an OSError of a read, or no answer within the fuel.
pub data Reading : Type 0 where
  content : List ℕ → Reading
  too_much read_failed out_of_fuel : Reading

-- `min(CONTROL_FILE_READ_CHUNK_BYTES, remaining)`
abbrev pub asked : ℤ → ℤ
asked remaining = if ltb_ℤ remaining (pos 8192) then remaining else pos 8192

-- `None if len(content) > max_bytes else content`
abbrev pub limited : ℕ → List ℕ → Reading
limited max_bytes bytes = if ltb max_bytes (length bytes) then too_much else content bytes

module _ (read : List ℕ → ℤ → Option (List ℕ × List ℕ)) (max_bytes : ℕ) where
  -- what one answer of `read_descriptor` leads to, where `again` is the next round
  abbrev pub add_chunk :
      (ℤ → List ℕ → List ℕ → Reading) → ℤ → List ℕ → Option (List ℕ × List ℕ) → Reading
  add_chunk again remaining bytes none = read_failed
  add_chunk again remaining bytes (some ([], left)) = limited max_bytes bytes
  add_chunk again remaining bytes (some (b ∷ chunk, left)) =
      again (remaining +ℤ negsuc (length chunk)) left (bytes ++ (b ∷ chunk))

  -- `while remaining`, which an answer that is longer than asked makes negative, and then true; `bytes`
  -- is what the chunks hold so far
  unfoldable pub read_loop : ℕ → ℤ → List ℕ → List ℕ → Reading
  read_loop zero remaining left bytes = out_of_fuel
  read_loop (suc fuel) (pos zero) left bytes = limited max_bytes bytes
  read_loop (suc fuel) remaining left bytes =
      add_chunk (λ r l b. read_loop fuel r l b) remaining bytes (read left (asked remaining))

  -- Each round but the last takes a byte at least from the max_bytes + 1 that remain.
  unfoldable pub bounded_read : List ℕ → Reading
  unfolding read_loop
  bounded_read left = read_loop (max_bytes + 2) (pos (max_bytes + 1)) left []
