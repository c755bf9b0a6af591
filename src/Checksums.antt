-- ===== src/Checksums.antt =====
-- source/checksums.c: crc_common, which both checksum functions of the addon are. The checksum of
-- aws-checksums is a parameter: the bytes and the previous value to the new value.
pub mod Whole
use aws_crt_nodejs.Base.{
  ℕ, zero, suc, ◌+◌, ◌-◌, Bool, true, false, Option, none, some, List, [], ◌∷◌, ltb, if◌then◌else◌,
  take, drop,
}
use aws_crt_nodejs.Napi.{
  ok, fail, Reply, got, failed, Napi, Memory, error, type_error, World, throw,
}
use aws_crt_nodejs.ByteBuf.{
  ByteBuf, zeroed, byte_buf_init_from_napi, byte_buf_clean_up, is_null_or_undefined,
}

abbrev pub int_max : ℕ
int_max = 0x7fff_ffff

abbrev pub Checksum : Type 0
Checksum = List ℕ → ℕ → ℕ

-- The loop and the call behind it, at chunks of the given size; `none`: the fuel is used up.
unfoldable pub crc_loop : Checksum → ℕ → ℕ → List ℕ → ℕ → ℕ → Option ℕ
crc_loop checksum_fn chunk zero buffer length val = none
crc_loop checksum_fn chunk (suc fuel) buffer length val =
    let rest =
      crc_loop checksum_fn chunk fuel (drop chunk buffer) (length - chunk)
        (checksum_fn (take chunk buffer) val) in
    if ltb chunk length then rest else some (checksum_fn (take length buffer) val)

module _ (n : Napi) (m : Memory) (checksum_fn : Checksum) (creates : ℕ → Bool) where
  -- the value returned, with NULL as `none`
  abbrev pub Answer : Type 0
  Answer = Option ℕ × World m

  -- the part from `done:` on
  unfoldable pub crc_done : ByteBuf → Option ℕ → World m → Answer
  crc_done to_hash node_val w =
      (node_val, record w { store = byte_buf_clean_up n m to_hash w.store })

  -- the argument `previous`
  unfoldable pub read_previous : n.Value → Reply ℕ
  read_previous v = if is_null_or_undefined n m v then got 0 else n.get_value_uint32 v

  -- from the loop on
  unfoldable pub crc_value : ByteBuf → ℕ → World m → Option Answer
  crc_value to_hash previous w =
      elim (crc_loop checksum_fn int_max (to_hash.len + 1) to_hash.contents to_hash.len previous) [
        | none ↦ none
        | some val ↦ some (crc_done to_hash (if creates val then some val else none) w)
      ]

  unfoldable pub crc_bytes : n.Value → n.Value → World m → Option Answer
  crc_bytes node_bytes node_previous w =
      let ((status, to_hash), s) = byte_buf_init_from_napi n m zeroed node_bytes w.store in
      let w' : World m = record w { store = s } in
      elim status [
        | fail f ↦ some (
            crc_done to_hash none
              (throw (type_error "to_hash argument must be a string or array") w'))
        | ok ↦ elim (read_previous node_previous) [
          | failed f ↦ some (
              crc_done to_hash none
                (throw (type_error "previous argument must be undefined or a positive number") w'))
          | got previous ↦ crc_value to_hash previous w'
        ]
      ]

  -- crc_common; `none`: the fuel of the loop is used up
  unfoldable pub crc_common : Reply (List n.Value) → World m → Option Answer
  crc_common (failed f) w =
      some (crc_done zeroed none (throw (error "Failed to retreive callback information") w))
  crc_common (got values) w = elim values [
    | node_bytes ∷ node_previous ∷ [] ↦ crc_bytes node_bytes node_previous w
    | _ ↦
        some (
          crc_done zeroed none (throw (error "aws_napi_checksums_crc needs exactly 2 arguments") w))
  ]
