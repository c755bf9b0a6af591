-- ===== src/Crypto/Streaming.antt =====
-- A digest in steps and the digest at once.
use aws_crt_nodejs.Base.{
  ℕ, ◌≤◌, ◌≡◌, refl, ap, ◌∙◌, sym, subst, true, Option, some, List, [], ◌∷◌, ◌++◌, append_assoc,
  append-nil, arith, take,
}
use aws_crt_nodejs.Napi.{got, Napi, Memory, Outcome, done, ◌>>=◌}
use aws_crt_nodejs.ByteBuf.{clean_up_uninitialised}
use aws_crt_nodejs.Ownership.{SameLive}
use aws_crt_nodejs.Crypto.{
  Algorithm, DigestApi, Crypto, with_blocks, release, hash_external, hash_new, updated,
  update_bytes, hash_update, finalized, digest_into, hash_digest,
}
use aws_crt_nodejs.Crypto.Compute.{compute_bytes, hash_compute}
use aws_crt_nodejs.Crypto.Texts.{
  limited, limited-Limits, take-length, limited-take, limited_at_most, text_buf, IsText, AreTexts,
  Limits, text-SameLive, truncation-limited, compute_bytes-text,
}

-- The hash functions of aws-c-cal do as they should, and Node makes every value.
pub record DigestLaws (n : Napi) (api : DigestApi n) : Type 1 where
  -- the digest of bytes, and its size, which is that of MD5 or more
  pub hash : List ℕ → List ℕ
  pub full : ℕ
  pub long : 16 ≤ full
  -- the bytes that a hash has been given
  pub Absorbed : n.Pointer → api.Hashes → List ℕ → Type 0
  pub begins :
      (h : api.Hashes)
      → (p : n.Pointer) × (h' : api.Hashes) × (v : n.Value) × (api.new [] h ≡ (some p, h'))
        × (api.create_external p ≡ got v)
        × (n.get_value_external v ≡ got p)
        × Absorbed p h' []
  pub updates :
      (p : n.Pointer) (h : api.Hashes) (bs xs : List ℕ)
      → Absorbed p h bs
      → (h' : api.Hashes) × (api.update p xs h ≡ (true, h')) × Absorbed p h' (bs ++ xs)
  pub sized :
      (p : n.Pointer) (h : api.Hashes) (bs : List ℕ) → Absorbed p h bs → api.digest_size p h ≡ full
  pub finalizes :
      (p : n.Pointer) (h : api.Hashes) (bs : List ℕ) (size : ℕ)
      → Absorbed p h bs
      → 1 ≤ size
      → size ≤ full
      → (h' : api.Hashes) × (api.finalize p size h ≡ ((true, take size (hash bs)), h'))
  pub computes :
      (bs : List ℕ) (size : ℕ)
      → 1 ≤ size
      → size ≤ full
      → api.compute [] bs size ≡ (true, take size (hash bs))
  pub makes_arraybuffer : (size : ℕ) → api.create_arraybuffer size ≡ true
  pub makes_dataview : (size : ℕ) → api.create_dataview size ≡ true

module _ (n : Napi) (m : Memory) (api : DigestApi n) (laws : DigestLaws n api)
    (alg : Algorithm) where
  hash_update-text :
      (node v : n.Value) (p : n.Pointer) (bs xs : List ℕ) (c : Crypto n m api)
      → n.get_value_external node ≡ got p
      → laws.Absorbed p c.hashes bs
      → IsText n m v xs
      → (h' : api.Hashes) × (s' : m.Store) × (hash_update n m api alg (got (node ∷ v ∷ [])) c
          ≡ done (record { world = record c.world { store = s' }; hashes = h' }))
        × laws.Absorbed p h' (bs ++ xs)
        × SameLive m c.world.store s'
  unfolding hash_update update_bytes updated release clean_up_uninitialised
  hash_update-text node v p bs xs c external absorbed text =
      let (b, capacity, t, e) = text c.world.store in
      let (h', e', absorbed') = laws.updates p c.hashes bs xs absorbed in
      (
        h',
        m.clean_up b t,
        rw (external, hash_update)
            (ap (λ q. update_bytes n m api alg p q c) e
              ∙ ap
                  (λ bytes.
                    updated n m api (text_buf n m b capacity xs) (api.update p bytes c.hashes)
                      (with_blocks n m api t c))
                  (take-length xs)
              ∙ ap (λ q. updated n m api (text_buf n m b capacity xs) q (with_blocks n m api t c))
                  e'),
        absorbed',
        text-SameLive n m v b capacity xs c.world.store t e,
      )

  -- hash_update, once for each of the values
  abbrev pub update_all : n.Value → List n.Value → Crypto n m api → Outcome (Crypto n m api)
  update_all node [] c = done c
  update_all node (v ∷ vs) c =
      hash_update n m api alg (got (node ∷ v ∷ [])) c >>= update_all node vs

  update_all-texts :
      (node : n.Value) (vs : List n.Value) (p : n.Pointer) (bs ys : List ℕ) (c : Crypto n m api)
      → n.get_value_external node ≡ got p
      → laws.Absorbed p c.hashes bs
      → AreTexts n m vs ys
      → (c' : Crypto n m api) × (update_all node vs c ≡ done c')
        × laws.Absorbed p c'.hashes (bs ++ ys)
        × SameLive m c.world.store c'.world.store
  update_all-texts node [] p bs ys c external absorbed e = (
    c,
    refl,
    subst (laws.Absorbed p c.hashes) (sym (append-nil bs) ∙ ap (λ l. bs ++ l) (sym e)) absorbed,
    λ b. refl,
  )
  update_all-texts node (v ∷ vs) p bs zs c external absorbed (xs, ys, text, texts, e) =
      let (h', s', updates, absorbed', same) =
        hash_update-text node v p bs xs c external absorbed text in
      let next : Crypto n m api = record { world = record c.world { store = s' }; hashes = h' } in
      let (c', rest, whole, same') =
        update_all-texts node vs p (bs ++ xs) ys next external absorbed' texts in
      (
        c',
        ap (λ o. o >>= update_all node vs) updates ∙ rest,
        subst (laws.Absorbed p c'.hashes) (append_assoc bs xs ys ∙ ap (λ l. bs ++ l) (sym e)) whole,
        λ b. same' b ∙ same b,
      )

  hash_digest-absorbed :
      (node t : n.Value) (p : n.Pointer) (bs : List ℕ) (l : Option ℕ) (c : Crypto n m api)
      → n.get_value_external node ≡ got p
      → laws.Absorbed p c.hashes bs
      → Limits n m t l
      → (h' : api.Hashes) × (hash_digest n m api alg (got (node ∷ t ∷ [])) c
          ≡ (some (take (limited l laws.full) (laws.hash bs)), record c { hashes = h' }))
  unfolding hash_digest digest_into finalized
  hash_digest-absorbed node t p bs l c external absorbed limit =
      let size = limited l laws.full in
      let (h', e) =
        laws.finalizes p c.hashes bs size absorbed
          (limited-Limits n m t l laws.full limit (omega (arith, laws.long)))
          (limited_at_most l laws.full) in
      (
        h',
        rw
            (
              external,
              hash_digest,
              laws.sized p c.hashes bs absorbed,
              truncation-limited n m api t l laws.full limit,
              digest_into,
              laws.makes_arraybuffer size,
              e,
              finalized,
              laws.makes_dataview size,
            )
            refl,
      )

  hash_compute-text :
      (v t : n.Value) (bytes : List ℕ) (l : Option ℕ) (c : Crypto n m api)
      → IsText n m v bytes
      → Limits n m t l
      → (s' : m.Store) × (hash_compute n m api alg (got (v ∷ t ∷ [])) c
          ≡ done (some (take (limited l 16) (laws.hash bytes)), with_blocks n m api s' c))
        × SameLive m c.world.store s'
  unfolding hash_compute
  hash_compute-text v t bytes l c text limit =
      let (b, capacity, u, e) = text c.world.store in
      let size = limited l 16 in
      let fits : size ≤ laws.full = omega (arith, limited_at_most l 16, laws.long) in
      (
        m.clean_up b u,
        ap (λ q. compute_bytes n m api [] t q c) e
            ∙ compute_bytes-text n m api [] bytes (take size (laws.hash bytes)) b capacity t l u c
                laws.makes_arraybuffer laws.makes_dataview
                (laws.computes bytes size (limited-Limits n m t l 16 limit (omega arith)) fits)
                limit,
        text-SameLive n m v b capacity bytes c.world.store u e,
      )

  -- A new hash that is given strings one after the other, and then asked for its digest, answers with
  -- the digest of their bytes together, cut to `truncate_to` where that is given. The digest of one
  -- string of the same bytes at once is the same, but never longer than the 16 bytes of an MD5. After
  -- both, the allocator's blocks are those of before. `truncate_to` is absent or a number other than
  -- 0, the strings fit in memory, and the laws of `DigestLaws` hold.
  pub hash_compute-digest :
      (vs : List n.Value) (v t : n.Value) (bytes : List ℕ) (l : Option ℕ) (c : Crypto n m api)
      → AreTexts n m vs bytes
      → IsText n m v bytes
      → Limits n m t l
      → (node : n.Value) × (c1 c2 c3 c4 : Crypto n m api) × (digest : List ℕ) × (hash_new n m api c
          ≡ (some node, c1))
        × (update_all node vs c1 ≡ done c2)
        × (hash_digest n m api alg (got (node ∷ t ∷ [])) c2 ≡ (some digest, c3))
        × (hash_compute n m api alg (got (v ∷ t ∷ [])) c3 ≡ done (some (take 16 digest), c4))
        × (digest ≡ take (limited l laws.full) (laws.hash bytes))
        × SameLive m c.world.store c4.world.store
  unfolding hash_new hash_external
  hash_compute-digest vs v t bytes l c texts text limit =
      let (p, h, node, e, e', external, fresh) = laws.begins c.hashes in
      let c1 : Crypto n m api = record c { hashes = h } in
      let (c2, updates, whole, same) =
        update_all-texts node vs p [] bytes c1 external fresh texts in
      let (h', digests) = hash_digest-absorbed node t p bytes l c2 external whole limit in
      let c3 : Crypto n m api = record c2 { hashes = h' } in
      let (s', computes, same') = hash_compute-text v t bytes l c3 text limit in
      (
        node,
        c1,
        c2,
        c3,
        with_blocks n m api s' c3,
        take (limited l laws.full) (laws.hash bytes),
        ap (λ q. hash_external n m api q c) e ∙ rw (e', hash_external) refl,
        updates,
        digests,
        computes
            ∙ ap (λ bytes. done (some bytes, with_blocks n m api s' c3))
                (sym (limited-take l 16 laws.full (laws.hash bytes) laws.long)),
        refl,
        λ b. same' b ∙ same b,
      )
