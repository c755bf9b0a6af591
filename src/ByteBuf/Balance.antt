-- ===== src/ByteBuf/Balance.antt =====
-- Blocks that the conversions of ByteBuf.antt take and give back.
use aws_crt_nodejs.Base.{
  ℕ, ◌+◌, ◌%◌, ◌≡◌, refl, true, false, none, some, List, [], ◌∷◌, ◌++◌, arith, Option, Option-cases,
  ◌⊎◌, ap, subst, inl, inr,
}
use aws_crt_nodejs.Napi.{
  ok, Failure, Reply, got, failed, ValueType, Napi, Memory, size_mod, Reply-cases, Status-cases,
}
use aws_crt_nodejs.Ownership.{
  Holds, SameLive, Holds-nil, Holds-init, Holds-clean_up, SameLive-of_Holds,
}
use aws_crt_nodejs.ByteBuf.{
  Buffer, null, owned, borrowed, ByteBuf, zeroed, fill_string, init_from_string, init_from_object,
  byte_buf_init_from_napi, byte_buf_clean_up, string_new_from_napi, clean_up_uninitialised,
}

-- The blocks that a buffer keeps alive.
abbrev pub blocks_at : Buffer → List ℕ
blocks_at null = []
blocks_at (owned b) = b ∷ []
blocks_at borrowed = []

abbrev pub blocks : ByteBuf → List ℕ
blocks buf = blocks_at buf.buffer

module _ (n : Napi) (m : Memory) where
  blocks-fill_string :
      (b capacity : ℕ) (r : Reply (List ℕ)) → blocks (fill_string n m b capacity r).1 ≡ b ∷ []
  unfolding fill_string
  blocks-fill_string b capacity (got bytes) = refl
  blocks-fill_string b capacity (failed f) = refl

  blocks-init_from_object : (v : n.Value) → blocks (init_from_object n m zeroed v).1 ≡ []
  unfolding init_from_object
  blocks-init_from_object v = ground arith

  init_from_string-Holds :
      (v : n.Value) (s : m.Store)
      → let r = init_from_string n m zeroed v s in Holds m s r.1 (blocks r.0.1)
  unfolding init_from_string
  init_from_string-Holds v s = elim (Reply-cases (n.get_string_length v)) [
    | inr (f, e) ↦ rw (e, init_from_string) (Holds-nil s)
    | inl (l, e) ↦
        let capacity = (l + 1) % size_mod in
        elim (Option-cases (m.buf_init capacity s)) [
          | inl full ↦ rw (e, init_from_string, full) (Holds-nil s)
          | inr ((b, t), took) ↦
              rw
                (
                  e,
                  init_from_string,
                  took,
                  blocks-fill_string b capacity (n.get_value_string_utf8 v capacity),
                )
                (Holds-init capacity s t b took)
        ]
  ]

  -- Whatever the value and the answers of Node, a buffer that was zeroed holds afterwards exactly
  -- the blocks that the call took, also where the call fails.
  pub byte_buf_init_from_napi-Holds :
      (v : n.Value) (s : m.Store)
      → let r = byte_buf_init_from_napi n m zeroed v s in Holds m s r.1 (blocks r.0.1)
  unfolding byte_buf_init_from_napi
  byte_buf_init_from_napi-Holds v s =
      ground (arith, Holds-nil s, init_from_string-Holds v s, blocks-init_from_object v)

  pub Holds-byte_buf_clean_up :
      {s t : m.Store} (buf : ByteBuf) {bs : List ℕ}
      → Holds m s t (blocks buf ++ bs)
      → Holds m s (byte_buf_clean_up n m buf t) bs
  unfolding byte_buf_clean_up
  Holds-byte_buf_clean_up {s} {t} buf {bs} h = go buf.buffer h
    where
      go :
          (p : Buffer)
          → Holds m s t (blocks_at p ++ bs)
          → Holds m s (byte_buf_clean_up n m (record buf { buffer = p }) t) bs
      go null k = k
      go (owned b) k = Holds-clean_up b k
      go borrowed k = k

Buffer-cases : (p : Buffer) → (p ≡ null) ⊎ ((b : ℕ) × (p ≡ owned b)) ⊎ (p ≡ borrowed)
Buffer-cases null = inl refl
Buffer-cases (owned b) = inr (inl (b, refl))
Buffer-cases borrowed = inr (inr refl)

abbrev second_or : {A B : Type 0} → B → Option (A × B) → B
second_or b none = b
second_or b (some p) = p.1

module _ (n : Napi) (m : Memory) (v : n.Value) (s : m.Store) where
  -- A call that returns a string gives its temporary buffer back.
  pub string_new_from_napi-SameLive :
      (bytes : List ℕ) (t : m.Store)
      → string_new_from_napi n m v s ≡ some (some bytes, t)
      → SameLive m s t
  unfolding string_new_from_napi clean_up_uninitialised
  string_new_from_napi-SameLive bytes t =
      let r = byte_buf_init_from_napi n m zeroed v s in
      let held : Holds m s r.1 (blocks r.0.1) = byte_buf_init_from_napi-Holds n m v s in
      elim (Status-cases r.0.0) [
        | inr (f, e) ↦ rw (e, string_new_from_napi) (λ h. cc)
        | inl e ↦ elim (Buffer-cases r.0.1.buffer) [
          | inl e' ↦ rw (e, string_new_from_napi, e', clean_up_uninitialised) (λ h. cc)
          | inr (inl (b, e')) ↦
              let owns : Holds m s r.1 (b ∷ []) =
                subst (λ p. Holds m s r.1 (blocks_at p)) e' held in
              rw (e, string_new_from_napi, e', clean_up_uninitialised)
                λ h.
                  subst (SameLive m s) (ap (second_or t) h)
                    (SameLive-of_Holds {m = m} (Holds-clean_up {m = m} b owns))
          | inr (inr e') ↦ rw (e, string_new_from_napi, e', clean_up_uninitialised) (λ h. cc)
        ]
      ]

  -- A string whose bytes Node hands over becomes a native string of those bytes, and the temporary
  -- buffer is given back: the blocks in use are those of before.
  pub string_new_from_napi_string :
      (l b : ℕ) (t : m.Store) (bytes : List ℕ)
      → n.typeof v ≡ got ValueType.string
      → n.get_string_length v ≡ got l
      → m.buf_init ((l + 1) % size_mod) s ≡ some (b, t)
      → n.get_value_string_utf8 v ((l + 1) % size_mod) ≡ got bytes
      → (string_new_from_napi n m v s ≡ some (some bytes, m.clean_up b t))
        × SameLive m s (m.clean_up b t)
  unfolding string_new_from_napi
  string_new_from_napi_string l b t bytes is_string has_length took read = (
    ground arith,
    SameLive-of_Holds {m = m}
        (Holds-clean_up {m = m} b (Holds-init {m = m} ((l + 1) % size_mod) s t b took)),
  )

  -- If the second read of the string fails, the call returns NULL and the temporary buffer stays
  -- in use: nothing else knows the block, so it is lost.
  pub string_new_from_napi_leaks :
      (l b : ℕ) (t : m.Store) (f : Failure)
      → n.typeof v ≡ got ValueType.string
      → n.get_string_length v ≡ got l
      → m.buf_init ((l + 1) % size_mod) s ≡ some (b, t)
      → n.get_value_string_utf8 v ((l + 1) % size_mod) ≡ failed f
      → (string_new_from_napi n m v s ≡ some (none, t)) × (m.live s b ≡ false) × (m.live t b ≡ true)
  unfolding string_new_from_napi
  string_new_from_napi_leaks l b t f is_string has_length took read =
      (ground arith, m.buf_init_fresh _ s t b took, ground (arith, m.buf_init_live _ s t b b took))

  -- An ArrayBuffer, DataView or TypedArray that converts makes the call release a buffer whose
  -- allocator field was never written: the call has no defined result.
  pub string_new_from_napi_undefined :
      n.typeof v ≡ got ValueType.object
      → (init_from_object n m zeroed v).0 ≡ ok
      → string_new_from_napi n m v s ≡ none
  unfolding string_new_from_napi
  string_new_from_napi_undefined is_object converts = ground (arith, blocks-init_from_object n m v)
