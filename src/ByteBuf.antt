-- ===== src/ByteBuf.antt =====
-- The conversions of source/module.c between JavaScript values and native bytes:
-- aws_byte_buf_init_from_napi, aws_string_new_from_napi, aws_napi_is_null_or_undefined.
pub mod Balance
use mathlib.Core.Option
use aws_crt_nodejs.Base.{ℕ, ◌+◌, ◌*◌, ◌%◌, Bool, true, false, Option, none, some, List, [], length}
use aws_crt_nodejs.Napi.{
  Status, ok, fail, invalid_arg, generic_failure, Reply, got, failed, ValueType, TypedArrayType,
  TypedArrayInfo, Napi, Memory, size_mod,
}
use aws_crt_nodejs.Napi.TypedArrayType.{
  int8_array, uint8_array, uint8_clamped_array, int16_array, uint16_array, int32_array,
  uint32_array, float32_array, float64_array, bigint64_array, biguint64_array, unknown_array,
}

-- The `buffer` pointer: NULL, a block of the allocator, or memory that belongs to JavaScript.
pub data Buffer : Type 0 where
  null : Buffer
  owned : ℕ → Buffer
  borrowed : Buffer

-- struct aws_byte_buf, with the bytes that stand at `buffer`
pub record ByteBuf : Type 0 where
  pub buffer : Buffer
  pub contents : List ℕ
  pub len : ℕ
  pub capacity : ℕ

-- AWS_ZERO_STRUCT
abbrev pub zeroed : ByteBuf
zeroed = record { buffer = null; contents = []; len = 0; capacity = 0 }

-- the switch on `type_hack`; a type that it does not name leaves 0
unfoldable pub element_size : TypedArrayType → ℕ
element_size int8_array = 1
element_size uint8_array = 1
element_size uint8_clamped_array = 1
element_size int16_array = 2
element_size uint16_array = 2
element_size int32_array = 4
element_size uint32_array = 4
element_size float32_array = 4
element_size float64_array = 8
element_size bigint64_array = 8
element_size biguint64_array = 8
element_size unknown_array = 0

-- the buffer over JavaScript's own memory
unfoldable pub borrow : List ℕ → ByteBuf
borrow bytes = record {
  buffer = borrowed;
  contents = bytes;
  len = length bytes;
  capacity = length bytes;
}

module _ (n : Napi) (m : Memory) where
  abbrev pub Inited : Type 0
  Inited = (Status × ByteBuf) × m.Store

  -- the second napi_get_value_string_utf8: on failure the new block stays in `buf`
  unfoldable pub fill_string : ℕ → ℕ → Reply (List ℕ) → Status × ByteBuf
  fill_string b capacity (got bytes) =
      (ok, record { buffer = owned b; contents = bytes; len = length bytes; capacity = capacity })
  fill_string b capacity (failed f) =
      (fail f, record { buffer = owned b; contents = []; len = 0; capacity = capacity })

  -- the branch for a string
  unfoldable pub init_from_string : ByteBuf → n.Value → m.Store → Inited
  unfolding fill_string
  init_from_string buf v s = elim (n.get_string_length v) [
    | failed f ↦ ((fail f, buf), s)
    | got length ↦
        let capacity = (length + 1) % size_mod in
        elim (m.buf_init capacity s) [
          | none ↦ ((fail generic_failure, buf), s)
          | some (b, t) ↦ (fill_string b capacity (n.get_value_string_utf8 v capacity), t)
        ]
  ]

  -- the branch for a TypedArray
  unfoldable pub init_from_typedarray : ByteBuf → Reply TypedArrayInfo → Status × ByteBuf
  unfolding element_size
  init_from_typedarray buf (failed f) = (fail f, buf)
  init_from_typedarray buf (got info) =
      let len = (info.length * element_size info.array_type) % size_mod in
      (ok, record { buffer = borrowed; contents = info.memory; len = len; capacity = len })

  -- napi_get_arraybuffer_info and napi_get_dataview_info
  unfoldable pub init_from_view : ByteBuf → Reply (List ℕ) → Status × ByteBuf
  unfolding borrow
  init_from_view buf (failed f) = (fail f, record buf { capacity = buf.len })
  init_from_view buf (got bytes) = (ok, borrow bytes)

  -- the branch for an object: ArrayBuffer, then DataView, then TypedArray
  unfoldable pub init_from_object : ByteBuf → n.Value → Status × ByteBuf
  unfolding init_from_typedarray init_from_view
  init_from_object buf v = elim (n.is_arraybuffer v) [
    | failed f ↦ (fail f, buf)
    | got true ↦ init_from_view buf (n.get_arraybuffer_info v)
    | got false ↦ elim (n.is_dataview v) [
      | failed f ↦ (fail f, buf)
      | got true ↦ init_from_view buf (n.get_dataview_info v)
      | got false ↦ elim (n.is_typedarray v) [
        | failed f ↦ (fail f, buf)
        | got true ↦ init_from_typedarray buf (n.get_typedarray_info v)
        | got false ↦ (fail invalid_arg, buf)
      ]
    ]
  ]

  unfoldable pub byte_buf_init_from_napi : ByteBuf → n.Value → m.Store → Inited
  unfolding init_from_string init_from_object
  byte_buf_init_from_napi buf v s = elim (n.typeof v) [
    | failed f ↦ ((fail f, buf), s)
    | got ValueType.string ↦ init_from_string buf v s
    | got ValueType.object ↦ (init_from_object buf v, s)
    | got _ ↦ ((fail invalid_arg, buf), s)
  ]

  -- aws_byte_buf_clean_up at a buffer of this program: only a block of the allocator is released
  unfoldable pub byte_buf_clean_up : ByteBuf → m.Store → m.Store
  byte_buf_clean_up buf s = elim buf.buffer [ null ↦ s | owned b ↦ m.clean_up b s | borrowed ↦ s ]

  -- The same call at a struct that was declared without an initialiser: its `allocator` field is
  -- written by aws_byte_buf_init only. `none`: the call reads an indeterminate pointer.
  unfoldable pub clean_up_uninitialised : ByteBuf → m.Store → Option m.Store
  clean_up_uninitialised buf s = elim buf.buffer [
    | null ↦ none
    | owned b ↦ some (m.clean_up b s)
    | borrowed ↦ none
  ]

  -- The bytes of the new string, or `none` for NULL; the string's own memory is the caller's.
  -- `temp_buf` has no initialiser; the outer `none` is undefined behaviour.
  unfoldable pub string_new_from_napi : n.Value → m.Store → Option (Option (List ℕ) × m.Store)
  unfolding byte_buf_init_from_napi clean_up_uninitialised
  string_new_from_napi v s =
      let ((status, buf), t) = byte_buf_init_from_napi zeroed v s in
      elim status [
        | ok ↦ Option.map (λ u. (some buf.contents, u)) (clean_up_uninitialised buf t)
        | fail f ↦ some (none, t)
      ]

  unfoldable pub is_null_or_undefined : n.Value → Bool
  is_null_or_undefined v = elim (n.typeof v) [
    | failed f ↦ true
    | got ValueType.null ↦ true
    | got ValueType.undefined ↦ true
    | got _ ↦ false
  ]
