-- ===== src/Io/Offset.antt =====
-- kernel/io.c: the position of an open file, which every descriptor on it shares.
use ubiqos.Common.{
  ltb, ◌==◌, if◌then◌else◌, has_some, put, ℕ, ◌+◌, ◌-◌, ◌%◌, ◌^◌, Bool, Option, none, some, List,
}
use ubiqos.Common.Int.{ℤ, pos, negsuc, failed}
use ubiqos.Io.State.{Io}
use ubiqos.Io.Transfer.{file_entry}

abbrev pub seek_set : ℕ
seek_set = 0

abbrev pub seek_cur : ℕ
seek_cur = 1

-- (uint32_t) of an int32_t.
unfoldable pub to_unsigned : ℤ → ℕ
to_unsigned (pos n) = n % 2 ^ 32
to_unsigned (negsuc n) = 2 ^ 32 - 1 - n % 2 ^ 32

-- (int32_t) of a uint32_t.
unfoldable pub to_signed : ℕ → ℤ
to_signed n = if ltb n (2 ^ 31) then pos n else negsuc (2 ^ 32 - 1 - n)

abbrev pub move_file : Io → ℕ → ℕ → Io
move_file io slot to = record io {
  files = put io.files slot (record (io.files slot) { pos_ = to });
}

unfoldable pub io_is_file : Io → ℤ → ℤ → Bool
unfolding file_entry
io_is_file io path owner = has_some (file_entry io path owner)

-- The path and the position, where the descriptor is on a file.
unfoldable pub io_file_at : Io → ℤ → ℤ → Option (List ℕ × ℕ)
unfolding file_entry
io_file_at io path owner = elim (file_entry io path owner) [
  | none ↦ none
  | some s ↦ some ((io.files s).path, (io.files s).pos_)
]

unfoldable pub io_file_advance : Io → ℤ → ℤ → ℕ → Io
unfolding file_entry
io_file_advance io path owner n = elim (file_entry io path owner) [
  | none ↦ io
  | some s ↦ move_file io s (((io.files s).pos_ + n) % 2 ^ 32)
]

-- Where a seek from `from` goes: SEEK_END has been turned into SEEK_SET before.
unfoldable pub seek_to : ℕ → ℤ → ℕ → Option ℕ
unfolding to_unsigned
seek_to from offset whence =
    if whence == seek_set
    then some (to_unsigned offset)
    else if whence == seek_cur
    then some ((from + to_unsigned offset) % 2 ^ 32)
    else none

unfoldable pub seek_in : Io → ℕ → Option ℕ → ℤ × Io
unfolding to_signed
seek_in io slot none = (failed, io)
seek_in io slot (some to) = (to_signed to, move_file io slot to)

unfoldable pub io_file_seek : Io → ℤ → ℤ → ℤ → ℕ → ℤ × Io
unfolding file_entry seek_to seek_in
io_file_seek io path owner offset whence = elim (file_entry io path owner) [
  | none ↦ (failed, io)
  | some s ↦ seek_in io s (seek_to (io.files s).pos_ offset whence)
]
