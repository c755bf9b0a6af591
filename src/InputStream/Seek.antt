-- ===== src/InputStream/Seek.antt =====
-- s_input_stream_seek: which positions it accepts, and what it leaves in the buffer.
use aws_crt_nodejs.Base.{
  ℕ, zero, suc, ◌+◌, ◌-◌, ◌≤◌, ◌<◌, ◌≡◌, ◌⊎◌, refl, ap, sym, ◌∙◌, List, [], ◌∷◌, arith, length,
  drop, drop_all, length-drop,
}
use aws_crt_nodejs.Base.Int.{pos, negsuc}
use aws_crt_nodejs.Napi.{size_mod}
use aws_crt_nodejs.InputStream.{
  InputStream, begin, end, success, invalid_seek_position, int64_max, advance, input_stream_seek,
}

drop-nil {ℓ} : {A : Type ℓ} (k : ℕ) → drop {A = A} k [] ≡ []
drop-nil zero = refl
drop-nil (suc k) = refl

drop-drop {ℓ} : {A : Type ℓ} (i j : ℕ) (xs : List A) → drop j (drop i xs) ≡ drop (i + j) xs
drop-drop zero j xs = let e : j ≡ zero + j = omega arith in ap (λ k. drop k xs) e
drop-drop (suc i) j [] = drop-nil j ∙ sym (drop-nil (suc i + j))
drop-drop (suc i) j (x ∷ xs) =
    let e : suc (i + j) ≡ suc i + j = omega arith in drop-drop i j xs ∙ ap (λ k. drop k (x ∷ xs)) e

pub buffer-advance :
    (s : InputStream) (o : ℕ) → o ≤ length s.buffer → (advance s o).buffer ≡ drop o s.buffer
unfolding advance
buffer-advance s o h = ground (arith, drop_all o s.buffer)

-- Seeking from the beginning succeeds exactly at the positions between `bytes_read` and the end of
-- the buffer; then exactly the bytes before the position are gone from the buffer. Elsewhere the
-- stream stays as it is. Positions stay below 2^64.
pub input_stream_seek_begin :
    (s : InputStream) (offset : ℕ)
    → s.bytes_read + length s.buffer < size_mod
    → let r = input_stream_seek s (pos offset) begin in
      ((s.bytes_read ≤ offset)
        × (offset ≤ s.bytes_read + length s.buffer)
        × (r.0 ≡ success)
        × (r.1.buffer ≡ drop (offset - s.bytes_read) s.buffer))
      ⊎ (((offset < s.bytes_read) ⊎ (s.bytes_read + length s.buffer < offset))
          × (r ≡ (invalid_seek_position, s)))
unfolding input_stream_seek
input_stream_seek_begin s offset small = ground (arith, buffer-advance s (offset - s.bytes_read))

-- Seeking back from the end by a number of bytes keeps exactly that many; more than there are, or
-- a position behind the end, is refused and changes nothing.
-- The buffer's length fits an int64_t.
pub input_stream_seek_end :
    (s : InputStream) (back : ℕ)
    → length s.buffer ≤ int64_max
    → let r = input_stream_seek s (negsuc back) end in
      ((back + 1 ≤ length s.buffer) × (r.0 ≡ success) × (length r.1.buffer ≡ back + 1))
      ⊎ ((length s.buffer < back + 1) × (r ≡ (invalid_seek_position, s)))
unfolding input_stream_seek
input_stream_seek_end s back small = ground (
  arith,
  buffer-advance s (length s.buffer - (back + 1)),
  length-drop (length s.buffer - (back + 1)) s.buffer,
)

-- A seek that stops inside the buffer drops bytes and leaves `bytes_read` alone: seeking again to
-- the same absolute position is accepted, and drops as many bytes once more.
-- The position is less than half way into the buffer, and positions stay below 2^64.
pub input_stream_seek_twice :
    (s : InputStream) (k : ℕ)
    → 0 < k
    → k + k < length s.buffer
    → s.bytes_read + length s.buffer < size_mod
    → let once = (input_stream_seek s (pos (s.bytes_read + k)) begin).1 in
      let again = input_stream_seek once (pos (s.bytes_read + k)) begin in
      (once.bytes_read ≡ s.bytes_read)
      × (once.buffer ≡ drop k s.buffer)
      × (again.0 ≡ success)
      × (again.1.buffer ≡ drop (k + k) s.buffer)
unfolding input_stream_seek
input_stream_seek_twice s k some_bytes inside small =
    ground (arith, length-drop k s.buffer, drop-drop k k s.buffer)
