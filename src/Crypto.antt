-- ===== src/Crypto.antt =====
-- source/crypto.c: the hashes and the HMAC, in steps and at once. The functions of the three hashes
-- differ in the algorithm and in the texts of exceptions, and so do those of the HMAC after its key is
-- read. The algorithms of aws-c-cal and the values that Node makes are a parameter (`DigestApi`).
pub mod Compute
pub mod Texts
pub mod Streaming
pub mod Keyed
use aws_crt_nodejs.Base.{
  ℕ, Bool, true, false, Option, none, some, List, [], ◌∷◌, ltb, take, if◌then◌else◌,
}
use aws_crt_nodejs.Napi.{
  ok, fail, Status, Reply, got, failed, Napi, Memory, Throw, error, type_error, last_error, World,
  throw, Outcome, done, undefined_behaviour,
}
use aws_crt_nodejs.ByteBuf.{
  ByteBuf, zeroed, byte_buf_init_from_napi, clean_up_uninitialised, is_null_or_undefined,
}
use aws_crt_nodejs.Arguments.{Argument, read, refused, ◌>>=◌, expect}

pub data Algorithm : Type 0 where
  md5 sha1 sha256 sha256_hmac : Algorithm

-- The texts of the exceptions.
unfoldable pub update_arguments : Algorithm → Throw
update_arguments sha256_hmac = error "hmac_update needs exactly 2 arguments"
update_arguments _ = error "hash_update needs exactly 2 arguments"

unfoldable pub digest_arguments : Algorithm → Throw
digest_arguments sha256_hmac = error "hmac_digest needs exactly 2 arguments"
digest_arguments _ = error "hash_digest needs exactly 2 arguments"

unfoldable pub extract_failed : Algorithm → Throw
extract_failed sha256_hmac = error "Failed to extract hmac from first argument"
extract_failed _ = error "Failed to extract hash from first argument"

unfoldable pub bad_update : Algorithm → Throw
bad_update sha256_hmac = type_error "to_hmac argument must be a string or array"
bad_update _ = type_error "to_hash argument must be a string or array"

-- A hash's state is aws-c-cal's; `Hashes` is that of all of them.
pub record DigestApi (n : Napi) : Type 1 where
  pub Hashes : Type 0
  -- aws_md5_new and the others, with the key of an HMAC
  pub new : List ℕ → Hashes → Option n.Pointer × Hashes
  pub destroy : n.Pointer → Hashes → Hashes
  pub digest_size : n.Pointer → Hashes → ℕ
  pub update : n.Pointer → List ℕ → Hashes → Bool × Hashes
  -- does it succeed, what stands in the output buffer of this size, the state
  pub finalize : n.Pointer → ℕ → Hashes → (Bool × List ℕ) × Hashes
  -- aws_md5_compute and the others: key, input, size
  pub compute : List ℕ → List ℕ → ℕ → Bool × List ℕ
  pub create_external : n.Pointer → Reply n.Value
  pub create_arraybuffer : ℕ → Bool
  pub create_dataview : ℕ → Bool

-- AWS_MD5_LEN
abbrev pub md5_len : ℕ
md5_len = 16

module _ (n : Napi) (m : Memory) (api : DigestApi n) where
  pub record Crypto : Type 0 where
    pub world : World m
    pub hashes : api.Hashes

  abbrev pub raise : Throw → Crypto → Crypto
  raise t c = record c { world = throw t c.world }

  abbrev pub with_blocks : m.Store → Crypto → Crypto
  with_blocks s c = record c { world = record c.world { store = s } }

  -- aws_byte_cursor_from_buf
  abbrev pub cursor : ByteBuf → List ℕ
  cursor buf = take buf.len buf.contents

  -- aws_byte_buf_clean_up of a struct without an initialiser
  unfoldable pub release : ByteBuf → Crypto → Outcome Crypto
  unfolding clean_up_uninitialised
  release buf c = elim (clean_up_uninitialised n m buf c.world.store) [
    | none ↦ undefined_behaviour
    | some s ↦ done (with_blocks s c)
  ]

  -- napi_create_external of a new hash
  unfoldable pub hash_external : Option n.Pointer × api.Hashes → Crypto → Option n.Value × Crypto
  hash_external (none, h) c = (none, record c { hashes = h })
  hash_external (some hash, h) c = elim (api.create_external hash) [
    | failed f ↦ (none, raise (error "Failed create n-api external") (record c { hashes = h }))
    | got node_external ↦ (some node_external, record c { hashes = h })
  ]

  -- aws_napi_hash_md5_new, aws_napi_hash_sha1_new, aws_napi_hash_sha256_new
  unfoldable pub hash_new : Crypto → Option n.Value × Crypto
  unfolding hash_external
  hash_new c = hash_external (api.new [] c.hashes) c

  -- aws_hash_update and what follows
  unfoldable pub updated : ByteBuf → Bool × api.Hashes → Crypto → Outcome Crypto
  unfolding release
  updated to_hash (true, h) c = release to_hash (record c { hashes = h })
  updated to_hash (false, h) c = release to_hash (raise last_error (record c { hashes = h }))

  -- from the conversion of the bytes on
  unfoldable pub update_bytes :
      Algorithm → n.Pointer → (Status × ByteBuf) × m.Store → Crypto → Outcome Crypto
  unfolding updated bad_update
  update_bytes alg hash ((fail f, to_hash), s) c = done (raise (bad_update alg) (with_blocks s c))
  update_bytes alg hash ((ok, to_hash), s) c =
      updated to_hash (api.update hash (cursor to_hash) c.hashes) (with_blocks s c)

  -- aws_napi_hash_update and aws_napi_hmac_update
  unfoldable pub hash_update : Algorithm → Reply (List n.Value) → Crypto → Outcome Crypto
  unfolding update_bytes byte_buf_init_from_napi update_arguments extract_failed
  hash_update alg (failed f) c = done (raise (error "Failed to retreive callback information") c)
  hash_update alg (got values) c = elim values [
    | node_hash ∷ bytes ∷ [] ↦ elim (n.get_value_external node_hash) [
      | failed f ↦ done (raise (extract_failed alg) c)
      | got hash ↦ update_bytes alg hash (byte_buf_init_from_napi n m zeroed bytes c.world.store) c
    ]
    | _ ↦ done (raise (update_arguments alg) c)
  ]

  -- the argument `truncate_to`, applied to the size
  unfoldable pub truncation : ℕ → n.Value → Argument ℕ
  unfolding expect is_null_or_undefined
  truncation size v =
      if is_null_or_undefined n m v
      then read size
      else expect (type_error "truncate_to argument must be undefined or a positive number")
          (n.get_value_uint32 v)
        >>= λ truncate_to. read (if ltb truncate_to size then truncate_to else size)

  -- the bytes of the view that JavaScript gets, NULL as `none`
  abbrev pub View : Type 0
  View = Option (List ℕ) × Crypto

  -- aws_hash_finalize and what follows
  unfoldable pub finalized : ℕ → (Bool × List ℕ) × api.Hashes → Crypto → View
  finalized size ((false, bytes), h) c = (none, raise last_error (record c { hashes = h }))
  finalized size ((true, bytes), h) c =
      if api.create_dataview size
      then (some bytes, record c { hashes = h })
      else (none, raise (error "Failed to create output dataview") (record c { hashes = h }))

  unfoldable pub digest_into : n.Pointer → ℕ → Crypto → View
  unfolding finalized
  digest_into hash size c =
      if api.create_arraybuffer size
      then finalized size (api.finalize hash size c.hashes) c
      else (none, raise (error "Failed to create output arraybuffer") c)

  -- aws_napi_hash_digest and aws_napi_hmac_digest
  unfoldable pub hash_digest : Algorithm → Reply (List n.Value) → Crypto → View
  unfolding digest_into truncation digest_arguments extract_failed
  hash_digest alg (failed f) c = (none, raise (error "Failed to retreive callback information") c)
  hash_digest alg (got values) c = elim values [
    | node_hash ∷ truncate_to ∷ [] ↦ elim (n.get_value_external node_hash) [
      | failed f ↦ (none, raise (extract_failed alg) c)
      | got hash ↦ elim (truncation (api.digest_size hash c.hashes) truncate_to) [
        | refused thrown ↦ (none, raise thrown c)
        | read size ↦ digest_into hash size c
      ]
    ]
    | _ ↦ (none, raise (digest_arguments alg) c)
  ]
