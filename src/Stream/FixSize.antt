-- ===== src/Stream/FixSize.antt =====
-- The four loops of `Stream` (src/stream.cc).
--
-- A virtual `read` or `write` is a parameter `call`: from the state of the stream and of the
-- buffer, the offset in the buffer and the number of bytes wanted it gives what it returns and the
-- new state. A length is below 2 ^ 63, so that `int64_t left` holds it. The result is an `int`: the
-- length goes back by its 32 low bits, as a negative number or zero where they say so. The loops
-- run on fuel, and `none` says that it has run out.
use muqiu.Common.{ℕ, zero, suc, ◌+◌, ◌-◌, Option, none, some}
use muqiu.Common.{if◌then◌else◌, ◌==◌}
use muqiu.Common.Int.{ℤ, pos, negsuc, to_int}

module _ {S : Type 0} (call : S → ℕ → ℕ → ℤ × S) where
  -- The loop of `readFixSize(void *, size_t)`: it ends early on a negative length only.
  unfoldable pub read_loop : ℕ → ℕ → ℕ → ℕ → S → Option (ℤ × S)
  read_loop zero length offset left s = none
  read_loop (suc fuel) length offset left s =
      let (len, s') = call s offset left in
      let next : Option (ℤ × S) = elim len [
        | pos n ↦ read_loop fuel length (offset + n) (left - n) s'
        | negsuc n ↦ some (negsuc n, s')
      ] in
      if left == 0 then some (to_int length, s) else next

  -- The loop of the other three: it ends early on a length that is negative or zero.
  unfoldable pub move_loop : ℕ → ℕ → ℕ → ℕ → S → Option (ℤ × S)
  move_loop zero length offset left s = none
  move_loop (suc fuel) length offset left s =
      let (len, s') = call s offset left in
      let next : Option (ℤ × S) = elim len [
        | pos zero ↦ some (pos 0, s')
        | pos (suc n) ↦ move_loop fuel length (offset + suc n) (left - suc n) s'
        | negsuc n ↦ some (negsuc n, s')
      ] in
      if left == 0 then some (to_int length, s) else next

  -- `readFixSize(void *, size_t)` on some fuel.
  unfoldable pub read_fix_size : ℕ → ℕ → S → Option (ℤ × S)
  read_fix_size fuel length s = read_loop fuel length 0 length s

  -- The others never take more rounds than there are bytes.
  unfoldable pub write_fix_size : ℕ → S → Option (ℤ × S)
  write_fix_size length s = move_loop (suc length) length 0 length s

-- The forms on a `ByteArray` pass no offset: the array has a position of its own.
unfoldable pub read_fix_size_array : {S : Type 0} → (S → ℕ → ℤ × S) → ℕ → S → Option (ℤ × S)
read_fix_size_array call length s =
    move_loop (λ s offset left. call s left) (suc length) length 0 length s

unfoldable pub write_fix_size_array : {S : Type 0} → (S → ℕ → ℤ × S) → ℕ → S → Option (ℤ × S)
write_fix_size_array call length s =
    move_loop (λ s offset left. call s left) (suc length) length 0 length s
