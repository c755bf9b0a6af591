-- ===== src/InputStream/History.antt =====
-- A whole history of an input stream: JavaScript appends and native code reads, in any order.
use aws_crt_nodejs.Base.{
  ℕ, ◌+◌, ◌-◌, ◌≤◌, ◌≡◌, inl, inr, refl, ap, sym, ◌∙◌, List, [], ◌∷◌, ◌++◌, arith, append_assoc,
  append-nil, length, length-drop, length-append, leb, ltb, take, Option-cases, Bool-cases,
  if◌then◌else◌,
}
use native.Mathlib.Decide.{dec_le}
use aws_crt_nodejs.Base.Int.{ℤ}
use aws_crt_nodejs.Napi.{got}
use aws_crt_nodejs.InputStream.{
  InputStream, BufApi, Dest, begin, int64_max, to_int64, advance, seek_offset, input_stream_seek,
  input_stream_read, io_input_stream_append,
}
use aws_crt_nodejs.InputStream.Order.{BufLaws, InRange, with_bytes, input_stream_read-append}

-- One step: an append of these bytes, or a read into an empty destination of this capacity.
pub data Op : Type 0 where
  put : List ℕ → Op
  get : ℕ → Op

advance-total :
    (s : InputStream) (o : ℕ)
    → InRange s
    → (advance s o).bytes_read + length (advance s o).buffer ≤ s.bytes_read + length s.buffer
unfolding advance
advance-total s o small = ground (arith, length-drop o s.buffer)

-- A seek never moves the end of the stream forward.
seek-total :
    (s : InputStream) (z : ℤ)
    → InRange s
    → let t = (input_stream_seek s z begin).1 in
      t.bytes_read + length t.buffer ≤ s.bytes_read + length s.buffer
unfolding input_stream_seek
seek-total s z small = elim (Option-cases (seek_offset s z begin).0) [
  | inl e ↦ rw (e, input_stream_seek) (omega arith)
  | inr (o, e) ↦ rw (e, input_stream_seek) (advance-total s o small)
]

module _ (api : BufApi) where
  unfoldable pub step : InputStream → Op → List ℕ × InputStream
  step s (put bytes) = ([], (io_input_stream_append api (got 2) (with_bytes bytes) s).0)
  step s (get room) =
      let (_, dest, t) = input_stream_read api s (record { written = []; room = room }) in
      (dest.written, t)

  -- the bytes read, in order, and the stream at the end
  unfoldable pub run : InputStream → List Op → List ℕ × InputStream
  run s [] = ([], s)
  run s (op ∷ ops) = let (out, t) = step s op in let (rest, u) = run t ops in (out ++ rest, u)

  -- the bytes of the appends that fit at their time, in order
  unfoldable pub accepted : InputStream → List Op → List ℕ
  accepted s [] = []
  accepted s (op ∷ ops) =
      let rest = accepted (step s op).1 ops in
      elim op [
        | put bytes ↦
            if leb (length s.buffer + length bytes) s.capacity then bytes ++ rest else rest
        | get room ↦ rest
      ]

  abbrev pub offered : List Op → ℕ
  offered [] = 0
  offered (put bytes ∷ ops) = length bytes + offered ops
  offered (get room ∷ ops) = offered ops

  read-total :
      (s : InputStream) (dest : Dest)
      → InRange s
      → let t = (input_stream_read api s dest).2 in
        t.bytes_read + length t.buffer ≤ s.bytes_read + length s.buffer
  unfolding input_stream_read
  read-total s dest small =
      let free = dest.room - length dest.written in
      let k = if ltb (length s.buffer) free then length s.buffer else free in
      elim (Option-cases (api.write dest.room dest.written (take k s.buffer))) [
        | inl e ↦ rw (e, input_stream_read) (omega arith)
        | inr (bytes, e) ↦
            rw (e, input_stream_read) (seek-total s (to_int64 (s.bytes_read + k)) small)
      ]

  module _ (laws : BufLaws api) where
    -- the accepted part of one append
    abbrev taken : InputStream → List ℕ → List ℕ
    taken s bytes = if leb (length s.buffer + length bytes) s.capacity then bytes else []

    put-step :
        (s : InputStream) (bytes : List ℕ)
        → let (out, t) = step s (put bytes) in
          (out ≡ []) × (t.buffer ≡ s.buffer ++ taken s bytes) × (t.bytes_read ≡ s.bytes_read)
    unfolding step io_input_stream_append
    put-step s bytes = elim (dec_le (length s.buffer + length bytes) s.capacity) [
      | yes h ↦ ground (arith, laws.append_fits s.capacity s.buffer bytes)
      | no h ↦ ground (arith, laws.append_full s.capacity s.buffer bytes, append-nil s.buffer)
    ]

    get-step :
        (s : InputStream) (room : ℕ)
        → InRange s
        → let (out, t) = step s (get room) in
          (s.buffer ≡ out ++ t.buffer)
          × (t.bytes_read + length t.buffer ≤ s.bytes_read + length s.buffer)
    unfolding step
    get-step s room small =
        let dest : Dest = record { written = []; room = room } in
        let (_, moved, written, split, _) =
          input_stream_read-append api laws s dest small (omega arith) in
        (
          split ∙ ap (λ l. l ++ (input_stream_read api s dest).2.buffer) (sym written),
          read-total s dest small,
        )

    taken-le : (s : InputStream) (bytes : List ℕ) → length (taken s bytes) ≤ length bytes
    taken-le s bytes = ground arith

    accepted-put :
        (s : InputStream) (bytes : List ℕ) (ops : List Op)
        → accepted s (put bytes ∷ ops) ≡ taken s bytes ++ accepted (step s (put bytes)).1 ops
    unfolding accepted
    accepted-put s bytes ops = elim (Bool-cases (leb (length s.buffer + length bytes) s.capacity)) [
      | inl e ↦ rw e
      | inr e ↦ rw e
    ]

    accepted-get :
        (s : InputStream) (room : ℕ) (ops : List Op)
        → accepted s (get room ∷ ops) ≡ accepted (step s (get room)).1 ops
    unfolding accepted
    accepted-get s room ops = refl

    -- Whatever the order of appends and reads, the bytes read so far and those still in the buffer
    -- are together the bytes that were there at first and the accepted ones, in their order: none
    -- is lost, repeated or moved. The positions stay within an int64_t.
    -- The laws of `BufLaws` hold.
    pub run-accepted :
        (s : InputStream) (ops : List Op)
        → s.bytes_read + length s.buffer + offered ops ≤ int64_max
        → let (out, t) = run s ops in out ++ t.buffer ≡ s.buffer ++ accepted s ops
    unfolding run
    run-accepted s [] small = unfold accepted in sym (append-nil s.buffer)
    run-accepted s (put bytes ∷ ops) small =
        let t = (step s (put bytes)).1 in
        let (quiet, grown, still) = put-step s bytes in
        let ih = run-accepted t ops (
          omega
            (arith, ap length grown, length-append s.buffer (taken s bytes), taken-le s bytes)) in
        rw (accepted-put s bytes ops, quiet)
          (ih
            ∙ ap (λ l. l ++ accepted t ops) grown
            ∙ append_assoc s.buffer (taken s bytes) (accepted t ops))
    run-accepted s (get room ∷ ops) small =
        let t = (step s (get room)).1 in
        let (split, total) = get-step s room (omega arith) in
        let ih = run-accepted t ops (omega arith) in
        rw (accepted-get s room ops) (
          append_assoc (step s (get room)).0 (run t ops).0 (run t ops).1.buffer
          ∙ ap (λ l. (step s (get room)).0 ++ l) ih
          ∙ sym (append_assoc (step s (get room)).0 t.buffer (accepted t ops))
          ∙ ap (λ l. l ++ accepted t ops) (sym split))
