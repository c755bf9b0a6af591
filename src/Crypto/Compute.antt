-- ===== src/Crypto/Compute.antt =====
-- source/crypto.c: the digests at once, and the making of an HMAC.
use aws_crt_nodejs.Base.{ℕ, Bool, true, false, Option, none, some, List, [], ◌∷◌, if◌then◌else◌}
use aws_crt_nodejs.Napi.{
  ok, fail, Status, Reply, got, failed, Napi, Memory, Throw, error, type_error, last_error, Outcome,
  done, ◌>>=◌,
}
use aws_crt_nodejs.ByteBuf.{ByteBuf, zeroed, byte_buf_init_from_napi}
use aws_crt_nodejs.Arguments.{read, refused}
use aws_crt_nodejs.Crypto.{
  Algorithm, DigestApi, md5_len, hash_update, hash_digest, Crypto, raise, with_blocks, cursor,
  release, truncation, View,
}
use aws_crt_nodejs.Crypto.Algorithm.{md5, sha1, sha256, sha256_hmac}

unfoldable pub compute_arguments : Algorithm → Throw
compute_arguments md5 = error "hash_md5_compute needs exactly 2 arguments"
compute_arguments sha1 = error "hash_sha1_compute needs exactly 2 arguments"
compute_arguments sha256 = error "hash_sha256_compute needs exactly 2 arguments"
compute_arguments sha256_hmac = error "hmac_sha256_compute needs exactly 3 arguments"

module _ (n : Napi) (m : Memory) (api : DigestApi n) where
  -- the view, and the release of the input
  unfoldable pub compute_view : ByteBuf → ℕ → List ℕ → Crypto n m api → Outcome (View n m api)
  unfolding release
  compute_view to_hash size bytes c =
      if api.create_dataview size
      then (do c' ← release n m api to_hash c; done (some bytes, c'))
      else done (none, raise n m api (error "Failed to create output dataview") c)

  -- aws_md5_compute and what follows: where it fails, the output is returned all the same
  unfoldable pub computed : ByteBuf → ℕ → Bool × List ℕ → Crypto n m api → Outcome (View n m api)
  unfolding compute_view
  computed to_hash size (true, bytes) c = compute_view to_hash size bytes c
  computed to_hash size (false, bytes) c =
      compute_view to_hash size bytes (raise n m api last_error c)

  unfoldable pub compute_into : List ℕ → ByteBuf → ℕ → Crypto n m api → Outcome (View n m api)
  unfolding computed
  compute_into key to_hash size c =
      if api.create_arraybuffer size
      then computed to_hash size (api.compute key (cursor n m api to_hash) size) c
      else done (none, raise n m api (error "Failed to create output arraybuffer") c)

  -- from the conversion of the input on
  unfoldable pub compute_bytes :
      List ℕ → n.Value → (Status × ByteBuf) × m.Store → Crypto n m api → Outcome (View n m api)
  unfolding compute_into truncation
  compute_bytes key truncate_to ((fail f, to_hash), s) c = done (
    none,
    raise n m api (type_error "to_hash argument must be a string or array")
        (with_blocks n m api s c),
  )
  compute_bytes key truncate_to ((ok, to_hash), s) c =
      elim (truncation n m api md5_len truncate_to) [
        | refused thrown ↦ done (none, raise n m api thrown (with_blocks n m api s c))
        | read size ↦ compute_into key to_hash size (with_blocks n m api s c)
      ]

  -- aws_napi_hash_md5_compute, aws_napi_hash_sha256_compute, aws_napi_hash_sha1_compute
  unfoldable pub hash_compute :
      Algorithm → Reply (List n.Value) → Crypto n m api → Outcome (View n m api)
  unfolding compute_bytes byte_buf_init_from_napi compute_arguments
  hash_compute alg (failed f) c =
      done (none, raise n m api (error "Failed to retreive callback information") c)
  hash_compute alg (got values) c = elim values [
    | bytes ∷ truncate_to ∷ [] ↦
        compute_bytes [] truncate_to (byte_buf_init_from_napi n m zeroed bytes c.world.store) c
    | _ ↦ done (none, raise n m api (compute_arguments alg) c)
  ]

  -- napi_create_external of a new HMAC; where it succeeds, the copy of the key is not given back
  unfoldable pub hmac_external :
      ByteBuf
      → Option n.Pointer × api.Hashes
      → Crypto n m api
      → Outcome (Option n.Value × Crypto n m api)
  unfolding release
  hmac_external secret (none, h) c = do
    c' ← release n m api secret (record c { hashes = h })
    done (none, c')
  hmac_external secret (some hmac, h) c = elim (api.create_external hmac) [
    | failed f ↦ (do
      c' ← release n m api secret (
          raise n m api (error "Failed create n-api external")
            (record c { hashes = api.destroy hmac h }))
      done (none, c'))
    | got node_external ↦ done (some node_external, record c { hashes = h })
  ]

  -- from the conversion of the key on
  unfoldable pub hmac_key :
      (Status × ByteBuf) × m.Store → Crypto n m api → Outcome (Option n.Value × Crypto n m api)
  unfolding hmac_external
  hmac_key ((fail f, secret), s) c = done (
    none,
    raise n m api (type_error "secret argument must be a string or array")
        (with_blocks n m api s c),
  )
  hmac_key ((ok, secret), s) c =
      hmac_external secret (api.new (cursor n m api secret) c.hashes) (with_blocks n m api s c)

  -- aws_napi_hmac_sha256_new
  unfoldable pub hmac_sha256_new :
      Reply (List n.Value) → Crypto n m api → Outcome (Option n.Value × Crypto n m api)
  unfolding hmac_key byte_buf_init_from_napi
  hmac_sha256_new (failed f) c =
      done (none, raise n m api (error "Failed to retreive callback information") c)
  hmac_sha256_new (got values) c = elim values [
    | secret ∷ [] ↦ hmac_key (byte_buf_init_from_napi n m zeroed secret c.world.store) c
    | _ ↦ done (none, raise n m api (error "hmac_sha256_new needs exactly 1 argument") c)
  ]

  -- the key, and then as for a hash; the copy of the key is not given back
  unfoldable pub compute_keyed :
      (bytes truncate_to : n.Value)
      → (Status × ByteBuf) × m.Store
      → Crypto n m api
      → Outcome (View n m api)
  unfolding compute_bytes byte_buf_init_from_napi
  compute_keyed bytes truncate_to ((fail f, secret), s) c = done (
    none,
    raise n m api (type_error "secret argument must be a string or array")
        (with_blocks n m api s c),
  )
  compute_keyed bytes truncate_to ((ok, secret), s) c =
      compute_bytes (cursor n m api secret) truncate_to (byte_buf_init_from_napi n m zeroed bytes s)
        (with_blocks n m api s c)

  -- aws_napi_hmac_sha256_compute
  unfoldable pub hmac_sha256_compute :
      Reply (List n.Value) → Crypto n m api → Outcome (View n m api)
  unfolding compute_keyed byte_buf_init_from_napi compute_arguments
  hmac_sha256_compute (failed f) c =
      done (none, raise n m api (error "Failed to retreive callback information") c)
  hmac_sha256_compute (got values) c = elim values [
    | secret ∷ bytes ∷ truncate_to ∷ [] ↦
        compute_keyed bytes truncate_to (byte_buf_init_from_napi n m zeroed secret c.world.store) c
    | _ ↦ done (none, raise n m api (compute_arguments sha256_hmac) c)
  ]

  -- aws_napi_hmac_update and aws_napi_hmac_digest, line for line the functions of a hash
  unfoldable pub hmac_update : Reply (List n.Value) → Crypto n m api → Outcome (Crypto n m api)
  unfolding hash_update
  hmac_update info c = hash_update n m api sha256_hmac info c

  unfoldable pub hmac_digest : Reply (List n.Value) → Crypto n m api → View n m api
  unfolding hash_digest
  hmac_digest info c = hash_digest n m api sha256_hmac info c
