-- ===== src/Crypto/Keyed.antt =====
-- A keyed digest at once.
use aws_crt_nodejs.Base.{
  ℕ, ◌≤◌, ◌≡◌, ap, ◌∙◌, subst, true, Option, some, List, [], ◌∷◌, arith, take,
}
use aws_crt_nodejs.Napi.{got, Napi, Memory, done}
use aws_crt_nodejs.ByteBuf.{zeroed, byte_buf_init_from_napi}
use aws_crt_nodejs.ByteBuf.Balance.{blocks, byte_buf_init_from_napi-Holds}
use aws_crt_nodejs.Ownership.{Holds, Holds-prepend, Holds-of_SameLive}
use aws_crt_nodejs.Crypto.{DigestApi, Crypto, with_blocks}
use aws_crt_nodejs.Crypto.Compute.{compute_bytes, compute_keyed, hmac_sha256_compute}
use aws_crt_nodejs.Crypto.Texts.{
  limited, limited-Limits, limited_at_most, take-length, IsText, Limits, text-SameLive,
  compute_bytes-text,
}

-- The keyed digest of aws-c-cal does as it should, and Node makes every value.
pub record KeyedLaws (n : Napi) (api : DigestApi n) : Type 0 where
  -- key and input to digest, of 16 bytes or more
  pub mac : List ℕ → List ℕ → List ℕ
  pub computes :
      (key bs : List ℕ) (size : ℕ)
      → 1 ≤ size
      → size ≤ 16
      → api.compute key bs size ≡ (true, take size (mac key bs))
  pub makes_arraybuffer : (size : ℕ) → api.create_arraybuffer size ≡ true
  pub makes_dataview : (size : ℕ) → api.create_dataview size ≡ true

module _ (n : Napi) (m : Memory) (api : DigestApi n) (laws : KeyedLaws n api) where
  -- The HMAC of a string under a key that is a string, at once, is cut to `truncate_to` and never
  -- longer than 16 bytes. The copy of the input is given back; that of the key is not: one block that
  -- was free before the call is in use after it, and no other. `truncate_to` is absent or a number
  -- other than 0, both strings fit in memory, and the laws of `KeyedLaws` hold.
  pub hmac_sha256_compute-key_kept :
      (secret v t : n.Value) (key bytes : List ℕ) (l : Option ℕ) (c : Crypto n m api)
      → IsText n m secret key
      → IsText n m v bytes
      → Limits n m t l
      → (b : ℕ) × (c' : Crypto n m api) × (hmac_sha256_compute n m api (got (secret ∷ v ∷ t ∷ [])) c
          ≡ done (some (take (limited l 16) (laws.mac key bytes)), c'))
        × Holds m c.world.store c'.world.store (b ∷ [])
  unfolding hmac_sha256_compute compute_keyed
  hmac_sha256_compute-key_kept secret v t key bytes l c is_key is_text limit =
      let size = limited l 16 in
      let (b, capacity, s, e) = is_key c.world.store in
      let (b', capacity', u, e') = is_text s in
      let held : Holds m c.world.store s (b ∷ []) =
        subst (λ q. Holds m c.world.store q.1 (blocks q.0.1)) e
          (byte_buf_init_from_napi-Holds n m secret c.world.store) in
      (
        b,
        with_blocks n m api (m.clean_up b' u) c,
        ap (λ q. compute_keyed n m api v t q c) e
            ∙ ap
                (λ k.
                  compute_bytes n m api k t (byte_buf_init_from_napi n m zeroed v s)
                    (with_blocks n m api s c))
                (take-length key)
            ∙ ap (λ q. compute_bytes n m api key t q (with_blocks n m api s c)) e'
            ∙ compute_bytes-text n m api key bytes (take size (laws.mac key bytes)) b' capacity' t l
                u (with_blocks n m api s c) laws.makes_arraybuffer laws.makes_dataview
                (laws.computes key bytes size (limited-Limits n m t l 16 limit (omega arith))
                  (limited_at_most l 16))
                limit,
        Holds-prepend {m = m} held
            (Holds-of_SameLive {m = m} (text-SameLive n m v b' capacity' bytes s u e')),
      )
