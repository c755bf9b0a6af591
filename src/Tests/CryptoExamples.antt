-- ===== src/Tests/CryptoExamples.antt =====
-- The functions of source/crypto.c on a hash of 20 bytes: the input and zeros behind it.
use aws_crt_nodejs.Base.{ℕ, ◌+◌, ◌≡◌, refl, arith, true, some, List, [], ◌∷◌, ◌++◌, take, replicate}
use aws_crt_nodejs.Napi.{got, done}
use aws_crt_nodejs.ByteBuf.{
  byte_buf_init_from_napi, init_from_string, fill_string, is_null_or_undefined,
}
use aws_crt_nodejs.Ownership.{SameLive, Holds}
use aws_crt_nodejs.Crypto.{Algorithm, DigestApi, Crypto, hash_new, hash_digest}
use aws_crt_nodejs.Crypto.Compute.{hash_compute, hmac_sha256_compute}
use aws_crt_nodejs.Crypto.Texts.{limited, IsText, Limits}
use aws_crt_nodejs.Crypto.Streaming.{DigestLaws, update_all, hash_compute-digest}
use aws_crt_nodejs.Crypto.Keyed.{KeyedLaws, hmac_sha256_compute-key_kept}
use aws_crt_nodejs.Tests.Samples.{
  Sample, amount, text, handle, top, sample_napi, sample_memory, idle,
}

abbrev padded : List ℕ → List ℕ
padded bs = bs ++ replicate 20 0

-- one hash, and the bytes that it has been given
abbrev digest_api : DigestApi sample_napi
digest_api = record {
  Hashes = List ℕ;
  new = λ key h. (some 1, []);
  destroy = λ p h. [];
  digest_size = λ p h. 20;
  update = λ p xs h. (true, h ++ xs);
  finalize = λ p size h. ((true, take size (padded h)), h);
  compute = λ key bs size. (true, take size (padded bs));
  create_external = λ p. got (handle p);
  create_arraybuffer = λ size. true;
  create_dataview = λ size. true;
}

abbrev digest_laws : DigestLaws sample_napi digest_api
digest_laws = record {
  hash = padded;
  full = 20;
  long = omega arith;
  Absorbed = λ p h bs. h ≡ bs;
  begins = λ h. (1, [], handle 1, refl, refl, refl, refl);
  updates = λ p h bs xs e. (h ++ xs, refl, λ i. e i ++ xs);
  sized = λ p h bs e. refl;
  finalizes = λ p h bs size e one le. (h, λ i. ((true, take size (padded (e i))), h));
  computes = λ bs size one le. refl;
  makes_arraybuffer = λ size. refl;
  makes_dataview = λ size. refl;
}

abbrev new_crypto : Crypto sample_napi sample_memory digest_api
new_crypto = record { world = idle; hashes = [] }

text-IsText : IsText sample_napi sample_memory (text (1 ∷ 2 ∷ [])) (1 ∷ 2 ∷ [])
unfolding byte_buf_init_from_napi init_from_string fill_string
text-IsText s = (top s + 1, 3, (top s + 1) ∷ s, refl)

third-IsText : IsText sample_napi sample_memory (text (3 ∷ [])) (3 ∷ [])
unfolding byte_buf_init_from_napi init_from_string fill_string
third-IsText s = (top s + 1, 2, (top s + 1) ∷ s, refl)

all-IsText : IsText sample_napi sample_memory (text (1 ∷ 2 ∷ 3 ∷ [])) (1 ∷ 2 ∷ 3 ∷ [])
unfolding byte_buf_init_from_napi init_from_string fill_string
all-IsText s = (top s + 1, 4, (top s + 1) ∷ s, refl)

eighteen-Limits : Limits sample_napi sample_memory (amount 18) (some 18)
unfolding is_null_or_undefined
eighteen-Limits = (refl, refl, omega arith)

hash_compute-digest_example :
    (node : Sample) × (c1 c2 c3 c4 : Crypto sample_napi sample_memory digest_api) × (digest : List
      ℕ)
    × (hash_new sample_napi sample_memory digest_api new_crypto ≡ (some node, c1))
    × (update_all sample_napi sample_memory digest_api digest_laws Algorithm.sha1 node
          (text (1 ∷ 2 ∷ []) ∷ text (3 ∷ []) ∷ [])
          c1
        ≡ done c2)
    × (hash_digest sample_napi sample_memory digest_api Algorithm.sha1
          (got (node ∷ amount 18 ∷ []))
          c2
        ≡ (some digest, c3))
    × (hash_compute sample_napi sample_memory digest_api Algorithm.sha1
          (got (text (1 ∷ 2 ∷ 3 ∷ []) ∷ amount 18 ∷ []))
          c3
        ≡ done (some (take 16 digest), c4))
    × (digest ≡ take (limited (some 18) digest_laws.full) (digest_laws.hash (1 ∷ 2 ∷ 3 ∷ [])))
    × SameLive sample_memory new_crypto.world.store c4.world.store
hash_compute-digest_example =
    hash_compute-digest sample_napi sample_memory digest_api digest_laws Algorithm.sha1
      (text (1 ∷ 2 ∷ []) ∷ text (3 ∷ []) ∷ []) (text (1 ∷ 2 ∷ 3 ∷ [])) (amount 18) (1 ∷ 2 ∷ 3 ∷ [])
      (some 18) new_crypto
      (1 ∷ 2 ∷ [], 3 ∷ [], text-IsText, (3 ∷ [], [], third-IsText, refl, refl), refl) all-IsText
      eighteen-Limits

-- a keyed digest: the key, the input and zeros behind them
abbrev keyed_api : DigestApi sample_napi
keyed_api = record digest_api { compute = λ key bs size. (true, take size (padded (key ++ bs))) }

abbrev keyed_laws : KeyedLaws sample_napi keyed_api
keyed_laws = record {
  mac = λ key bs. padded (key ++ bs);
  computes = λ key bs size one le. refl;
  makes_arraybuffer = λ size. refl;
  makes_dataview = λ size. refl;
}

abbrev keyed_crypto : Crypto sample_napi sample_memory keyed_api
keyed_crypto = record { world = idle; hashes = [] }

hmac_sha256_compute-key_kept_example :
    (b : ℕ) × (c' : Crypto sample_napi sample_memory keyed_api) × (hmac_sha256_compute sample_napi
        sample_memory keyed_api
        (got (text (3 ∷ []) ∷ text (1 ∷ 2 ∷ []) ∷ amount 18 ∷ []))
        keyed_crypto
      ≡ done (some (take (limited (some 18) 16) (keyed_laws.mac (3 ∷ []) (1 ∷ 2 ∷ []))), c'))
    × Holds sample_memory keyed_crypto.world.store c'.world.store (b ∷ [])
hmac_sha256_compute-key_kept_example =
    hmac_sha256_compute-key_kept sample_napi sample_memory keyed_api keyed_laws (text (3 ∷ []))
      (text (1 ∷ 2 ∷ [])) (amount 18) (3 ∷ []) (1 ∷ 2 ∷ []) (some 18) keyed_crypto third-IsText
      text-IsText eighteen-Limits
