-- ===== src/InputStream.antt =====
-- The input stream of source/io.c that JavaScript fills and native code reads:
-- struct aws_napi_input_stream_impl, its vtable, and the functions that make and fill it.
-- The mutex, which some operations hold (s_input_stream_read reads the buffer without it), is not
-- modelled: every operation is one step.
pub mod Seek
pub mod History
pub mod Order
use Prim.Native.Nat.{min}
use aws_crt_nodejs.Base.{
  ℕ, zero, suc, ◌+◌, ◌-◌, ◌%◌, ◌^◌, Bool, true, false, not, ◌||◌, Option, none, some, List, [], ◌∷◌,
  ltb, ◌==◌, if◌then◌else◌, length, drop, take,
}
use aws_crt_nodejs.Base.Int.{ℤ, pos, negsuc}
use aws_crt_nodejs.Napi.{Reply, got, failed, ValueType, Napi, Throw, error, size_mod}

-- struct aws_napi_input_stream_impl; `buffer` is the part of the byte buffer that is in use
pub record InputStream : Type 0 where
  pub buffer : List ℕ
  pub capacity : ℕ
  pub bytes_read : ℕ
  pub eos : Bool

-- aws_byte_buf_append and aws_byte_buf_write at a buffer of the given capacity; `none` is failure
pub record BufApi : Type 0 where
  pub append : ℕ → List ℕ → List ℕ → Option (List ℕ)
  pub write : ℕ → List ℕ → List ℕ → Option (List ℕ)

-- enum aws_stream_seek_basis
pub data SeekBasis : Type 0 where
  begin end : SeekBasis
  unknown_basis : SeekBasis

pub data SeekResult : Type 0 where
  success invalid_seek_position invalid_argument : SeekResult

abbrev pub int64_max : ℕ
int64_max = 0x7fff_ffff_ffff_ffff

-- INT64_MIN
abbrev pub is_int64_min : ℕ → Bool
is_int64_min n = n == int64_max

-- size_t passed as an int64_t
unfoldable pub to_int64 : ℕ → ℤ
to_int64 x = let y = x % size_mod in if ltb int64_max y then negsuc (size_mod - 1 - y) else pos y

-- the switch of s_input_stream_seek: the offset in the buffer, or the error that is raised
unfoldable pub seek_offset : InputStream → ℤ → SeekBasis → Option ℕ × SeekResult
seek_offset s (pos offset) begin =
    if ltb ((s.bytes_read + length s.buffer) % size_mod) offset || ltb offset s.bytes_read
    then (none, invalid_seek_position)
    else (some (offset - s.bytes_read), success)
seek_offset s (negsuc n) begin = (none, invalid_seek_position)
seek_offset s (pos zero) end = (some (length s.buffer), success)
seek_offset s (pos (suc n)) end = (none, invalid_seek_position)
seek_offset s (negsuc n) end =
    if is_int64_min n || ltb (length s.buffer) (n + 1)
    then (none, invalid_seek_position)
    else (some (length s.buffer - (n + 1)), success)
seek_offset s offset unknown_basis = (none, invalid_argument)

-- the end of s_input_stream_seek
unfoldable pub advance : InputStream → ℕ → InputStream
advance s buf_offset =
    if buf_offset == length s.buffer
    then record s { bytes_read = (s.bytes_read + length s.buffer) % size_mod; buffer = [] }
    else if ltb 0 buf_offset
    then record s { buffer = drop buf_offset s.buffer }
    else s

unfoldable pub input_stream_seek : InputStream → ℤ → SeekBasis → SeekResult × InputStream
unfolding seek_offset advance
input_stream_seek s offset basis =
    let (at, result) = seek_offset s offset basis in
    elim at [ none ↦ (result, s) | some o ↦ (result, advance s o) ]

-- a destination buffer: the bytes in it, and its capacity
pub record Dest : Type 0 where
  pub written : List ℕ
  pub room : ℕ

-- s_input_stream_read; the result of the seek is not looked at
unfoldable pub input_stream_read : BufApi → InputStream → Dest → Bool × Dest × InputStream
input_stream_read api s dest =
    let free = dest.room - length dest.written in
    let bytes_to_read = if ltb (length s.buffer) free then length s.buffer else free in
    elim (api.write dest.room dest.written (take bytes_to_read s.buffer)) [
      | none ↦ (false, dest, s)
      | some bytes ↦ (
        true,
        record dest { written = bytes },
        (input_stream_seek s (to_int64 (s.bytes_read + bytes_to_read)) begin).1,
      )
    ]

-- struct aws_stream_status
pub record StreamStatus : Type 0 where
  pub is_end_of_stream : Bool
  pub is_valid : Bool

-- s_input_stream_get_status
unfoldable pub input_stream_get_status : InputStream → StreamStatus
input_stream_get_status s = record { is_end_of_stream = s.eos; is_valid = true }

-- The answers of the calls that make the new stream; a failure of one of them is an exception.
pub record NewCalls : Type 0 where
  pub cb_info : Reply ℕ
  pub capacity_argument : Reply ℤ
  pub calloc : Bool
  pub mutex_init : Bool
  pub buf_init : Bool
  -- does a failing aws_byte_buf_init write the buffer's allocator all the same?
  pub failed_init_allocator : Bool
  pub create_external : Bool

-- What aws_napi_io_input_stream_new leaves behind. `destroyed_unallocated`: s_input_stream_destroy
-- runs before the buffer has an allocator, and gives the block back to a NULL allocator.
pub data NewStream : Type 0 where
  created : InputStream → NewStream
  refused : Throw → NewStream
  destroyed_unallocated : NewStream

-- aws_napi_io_input_stream_new: the argument `capacity` is read and not used
unfoldable pub io_input_stream_new : NewCalls → NewStream
io_input_stream_new calls = elim calls.cb_info [
  | failed f ↦ refused (error "Failed to retrieve callback information")
  | got num_args ↦
      if not (num_args == 1)
      then refused (error "io_input_stream_new requires exactly 1 arguments")
      else elim calls.capacity_argument [
        | failed f ↦ refused (error "capacity must be a number")
        | got capacity ↦
            if not calls.calloc
            then refused (error "Unable to allocate native aws_input_stream")
            else if not calls.mutex_init
            then destroyed_unallocated
            else if not calls.buf_init
            then if calls.failed_init_allocator
              then refused (error "Unable to allocate stream buffer")
              else destroyed_unallocated
            else if not calls.create_external
            then refused (error "Unable to create external for native aws_input_stream")
            else created (record { buffer = []; capacity = 16384; bytes_read = 0; eos = false })
      ]
]

-- the answers of the reads of aws_napi_io_input_stream_append's arguments
pub record AppendCalls : Type 0 where
  pub has_stream : Bool
  pub is_null_or_undefined : Bool
  pub is_buffer : Reply Bool
  pub buffer_info : Reply (List ℕ)

-- aws_napi_io_input_stream_append; the result of aws_byte_buf_append is not looked at
unfoldable pub io_input_stream_append :
    BufApi → Reply ℕ → AppendCalls → InputStream → InputStream × List Throw
io_input_stream_append api (failed f) calls s =
    (s, error "Failed to retrieve callback information" ∷ [])
io_input_stream_append api (got num_args) calls s =
    if not (num_args == 2)
    then (s, error "io_input_stream_append requires exactly 2 arguments" ∷ [])
    else if not calls.has_stream
    then (s, error "stream must be a node external" ∷ [])
    else if calls.is_null_or_undefined
    then (record s { eos = true }, [])
    else elim calls.is_buffer [
      | got true ↦ elim calls.buffer_info [
        | failed f ↦ (s, error "Unable to extract data from buffer" ∷ [])
        | got data_bytes ↦ elim (api.append s.capacity s.buffer data_bytes) [
          | none ↦ (s, [])
          | some bytes ↦ (record s { buffer = bytes }, [])
        ]
      ]
      | _ ↦ (s, error "buffer must be a valid Buffer object or undefined/null" ∷ [])
    ]
