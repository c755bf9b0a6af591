-- ===== src/Tests/StreamExamples.antt =====
-- The input stream of source/io.c on short histories.
use aws_crt_nodejs.Base.{ℕ, ◌≡◌, ◌≤◌, ◌<◌, ◌⊎◌, arith, List, [], ◌∷◌, ◌++◌, length, true, false}
use aws_crt_nodejs.Base.Int.{pos}
use aws_crt_nodejs.Napi.{got}
use aws_crt_nodejs.InputStream.{
  InputStream, begin, success, input_stream_seek, input_stream_read, io_input_stream_append,
}
use aws_crt_nodejs.InputStream.Seek.{input_stream_seek_twice}
use aws_crt_nodejs.InputStream.Order.{
  BufLaws, with_bytes, input_stream_read-append, io_input_stream_append-room,
}
use aws_crt_nodejs.InputStream.History.{Op, put, get, run, accepted, run-accepted}
use aws_crt_nodejs.Tests.Samples.{buf_api}

buf_laws : BufLaws buf_api
buf_laws = record {
  append_fits = λ capacity xs ys h. ground arith;
  append_full = λ capacity xs ys h. ground arith;
  write_fits = λ capacity xs ys h. ground arith;
}

-- ten bytes were read before, five are in the buffer
abbrev five : InputStream
five = record { buffer = 1 ∷ 2 ∷ 3 ∷ 4 ∷ 5 ∷ []; capacity = 8; bytes_read = 10; eos = false }

abbrev history : List Op
history = get 2 ∷ put (6 ∷ 7 ∷ []) ∷ put (8 ∷ 8 ∷ 8 ∷ 8 ∷ []) ∷ get 10 ∷ []

run-accepted_example :
    let (out, t) = run buf_api five history in
    out ++ t.buffer ≡ (1 ∷ 2 ∷ 3 ∷ 4 ∷ 5 ∷ []) ++ accepted buf_api five history
run-accepted_example = run-accepted buf_api buf_laws five history (omega arith)

input_stream_read-append_example :
    let (result, dest, s) =
      input_stream_read buf_api five (record { written = 9 ∷ []; room = 4 }) in
    (result ≡ true)
    × (moved : List ℕ) × (dest.written ≡ (9 ∷ []) ++ moved)
    × (five.buffer ≡ moved ++ s.buffer)
    × ((s.buffer ≡ []) ⊎ (length dest.written ≡ 4))
input_stream_read-append_example =
    input_stream_read-append buf_api buf_laws five (record { written = 9 ∷ []; room = 4 })
      (omega arith) (omega arith)

io_input_stream_append-room_example :
    let (s, thrown) =
      io_input_stream_append buf_api (got 2) (with_bytes (6 ∷ 6 ∷ 6 ∷ 6 ∷ [])) five in
    (thrown ≡ [])
    × (((9 ≤ 8) × (s.buffer ≡ five.buffer ++ 6 ∷ 6 ∷ 6 ∷ 6 ∷ [])) ⊎ ((8 < 9) × (s ≡ five)))
io_input_stream_append-room_example =
    io_input_stream_append-room buf_api buf_laws five (6 ∷ 6 ∷ 6 ∷ 6 ∷ [])

input_stream_seek_twice_example :
    let once = (input_stream_seek five (pos 12) begin).1 in
    let again = input_stream_seek once (pos 12) begin in
    (once.bytes_read ≡ 10)
    × (once.buffer ≡ 3 ∷ 4 ∷ 5 ∷ [])
    × (again.0 ≡ success)
    × (again.1.buffer ≡ 5 ∷ [])
input_stream_seek_twice_example =
    input_stream_seek_twice five 2 (omega arith) (omega arith) (omega arith)
