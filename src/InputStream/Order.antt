-- ===== src/InputStream/Order.antt =====
-- The bytes that native code reads from a stream, against those that JavaScript appended.
use aws_crt_nodejs.Base.{
  ℕ, ◌+◌, ◌-◌, ◌≤◌, ◌<◌, ◌≡◌, ◌⊎◌, inl, inr, ap, sym, ◌∙◌, true, false, none, some, List, [], ◌++◌,
  arith, length, drop, take, drop_all, length-take_le, take-append-drop, length-append, ltb,
  if◌then◌else◌,
}
use native.Mathlib.Decide.{dec_le}
use aws_crt_nodejs.Base.Int.{pos}
use aws_crt_nodejs.Napi.{got}
use aws_crt_nodejs.InputStream.{
  InputStream, BufApi, Dest, AppendCalls, begin, int64_max, to_int64, input_stream_seek,
  input_stream_read, io_input_stream_append,
}
use aws_crt_nodejs.InputStream.Seek.{input_stream_seek_begin}

-- What aws-c-common documents: a write copies everything if it fits, and nothing otherwise.
pub record BufLaws (api : BufApi) : Type 0 where
  pub append_fits :
      (capacity : ℕ) (xs ys : List ℕ)
      → length xs + length ys ≤ capacity
      → api.append capacity xs ys ≡ some (xs ++ ys)
  pub append_full :
      (capacity : ℕ) (xs ys : List ℕ)
      → capacity < length xs + length ys
      → api.append capacity xs ys ≡ none
  pub write_fits :
      (capacity : ℕ) (xs ys : List ℕ)
      → length xs + length ys ≤ capacity
      → api.write capacity xs ys ≡ some (xs ++ ys)

-- A call of aws_napi_io_input_stream_append with a Buffer of these bytes.
abbrev pub with_bytes : List ℕ → AppendCalls
with_bytes bytes = record {
  has_stream = true;
  is_null_or_undefined = false;
  is_buffer = got true;
  buffer_info = got bytes;
}

-- The positions that the stream reports stay within an int64_t.
abbrev pub InRange : InputStream → Type 0
InRange s = s.bytes_read + length s.buffer ≤ int64_max

to_int64-small : (x : ℕ) → x ≤ int64_max → to_int64 x ≡ pos x
unfolding to_int64
to_int64-small x h = ground arith

seek-drop :
    (s : InputStream) (k : ℕ)
    → InRange s
    → k ≤ length s.buffer
    → (input_stream_seek s (to_int64 (s.bytes_read + k)) begin).1.buffer ≡ drop k s.buffer
seek-drop s k small h =
    rw (to_int64-small (s.bytes_read + k) (omega arith))
      (elim (input_stream_seek_begin s (s.bytes_read + k) (omega arith)) [
        | inl (_, _, _, left) ↦
            let e : s.bytes_read + k - s.bytes_read ≡ k = omega arith in
            left ∙ ap (λ i. drop i s.buffer) e
        | inr (out, _) ↦ absurd (omega arith)
      ])

-- Either the stream is empty afterwards or the destination is full.
all_or_full :
    (s : InputStream) (dest : Dest) (k : ℕ)
    → length dest.written ≤ dest.room
    → k ≤ length s.buffer
    → (length s.buffer ≤ k) ⊎ (k ≡ dest.room - length dest.written)
    → (drop k s.buffer ≡ []) ⊎ (length (dest.written ++ take k s.buffer) ≡ dest.room)
all_or_full s dest k fits h (inl e) = inl (drop_all k s.buffer e)
all_or_full s dest k fits h (inr e) =
    inr (omega (arith, length-append dest.written (take k s.buffer), length-take_le k s.buffer h))

module _ (api : BufApi) (laws : BufLaws api) where
  write-take :
      (s : InputStream) (dest : Dest) (k : ℕ)
      → k ≤ length s.buffer
      → length dest.written + k ≤ dest.room
      → api.write dest.room dest.written (take k s.buffer) ≡ some (dest.written ++ take k s.buffer)
  write-take s dest k h r =
      laws.write_fits dest.room dest.written (take k s.buffer)
        (omega (arith, length-take_le k s.buffer h))

  -- A read into a destination that is within its capacity always succeeds. It moves as many bytes
  -- as both sides allow from the front of the buffer to the end of the destination, and no byte is
  -- lost or repeated.
  -- The laws of `BufLaws` hold. The positions stay within an int64_t.
  pub input_stream_read-append :
      (s : InputStream) (dest : Dest)
      → InRange s
      → length dest.written ≤ dest.room
      → let (result, dest', s') = input_stream_read api s dest in
        (result ≡ true)
        × (moved : List ℕ) × (dest'.written ≡ dest.written ++ moved)
        × (s.buffer ≡ moved ++ s'.buffer)
        × ((s'.buffer ≡ []) ⊎ (length dest'.written ≡ dest.room))
  unfolding input_stream_read
  input_stream_read-append s dest small fits =
      let free = dest.room - length dest.written in
      let k = if ltb (length s.buffer) free then length s.buffer else free in
      let bounds : (k ≤ length s.buffer) × (k ≤ free) = ground arith in
      let written = write-take s dest k bounds.0 (omega arith) in
      let left = seek-drop s k small bounds.0 in
      (
        rw (written, input_stream_read),
        take k s.buffer,
        rw (written, input_stream_read),
        rw (written, input_stream_read, left) (sym (take-append-drop k s.buffer)),
        rw (written, input_stream_read, left) (all_or_full s dest k fits bounds.0 (ground arith)),
      )

  -- A Buffer that fits behind what is in use is appended whole; one that does not fit is dropped
  -- whole, and no exception tells the caller.
  -- The laws of `BufLaws` hold.
  pub io_input_stream_append-room :
      (s : InputStream) (bytes : List ℕ)
      → let (s', thrown) = io_input_stream_append api (got 2) (with_bytes bytes) s in
        (thrown ≡ [])
        × (((length s.buffer + length bytes ≤ s.capacity) × (s'.buffer ≡ s.buffer ++ bytes))
            ⊎ ((s.capacity < length s.buffer + length bytes) × (s' ≡ s)))
  unfolding io_input_stream_append
  io_input_stream_append-room s bytes = elim (dec_le (length s.buffer + length bytes) s.capacity) [
    | yes h ↦ ground (arith, laws.append_fits s.capacity s.buffer bytes)
    | no h ↦ ground (arith, laws.append_full s.capacity s.buffer bytes)
  ]
