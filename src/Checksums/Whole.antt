-- ===== src/Checksums/Whole.antt =====
-- The chunked checksum is that of the whole input, and the call always returns and leaks nothing.
use aws_crt_nodejs.Base.{
  ℕ, zero, suc, ◌+◌, ◌-◌, ◌<◌, ◌≡◌, ◌⊎◌, inl, inr, refl, ap, sym, ◌∙◌, Bool, true, Option, none,
  some, List, [], ◌∷◌, ◌++◌, append-nil, arith, if◌then◌else◌, take, drop,
}
use native.Mathlib.Decide.{dec_lt}
use aws_crt_nodejs.Napi.{
  ok, Reply, Reply-cases, Status-cases, got, failed, ValueType, Napi, Memory, World, Throw,
  type_error,
}
use aws_crt_nodejs.Ownership.{SameLive, SameLive-of_Holds}
use aws_crt_nodejs.ByteBuf.{
  ByteBuf, zeroed, byte_buf_init_from_napi, byte_buf_clean_up, is_null_or_undefined,
}
use aws_crt_nodejs.ByteBuf.Balance.{byte_buf_init_from_napi-Holds, Holds-byte_buf_clean_up}
use aws_crt_nodejs.Checksums.{
  Checksum, int_max, crc_loop, crc_done, read_previous, crc_value, crc_bytes, crc_common,
}

-- The checksum of a concatenation goes on with the checksum of the first part.
abbrev pub Composes : Checksum → Type 0
Composes f = (xs ys : List ℕ) (v : ℕ) → f (xs ++ ys) v ≡ f ys (f xs v)

take-split : (i j : ℕ) (xs : List ℕ) → take (i + j) xs ≡ take i xs ++ take j (drop i xs)
take-split zero j xs = let e : zero + j ≡ j = omega arith in ap (λ k. take k xs) e
take-split (suc i) zero [] = let e : suc i + zero ≡ suc i = omega arith in ap (λ k. take k []) e
take-split (suc i) (suc j) [] =
    let e : suc i + suc j ≡ suc (i + suc j) = omega arith in ap (λ k. take k []) e
take-split (suc i) j (x ∷ xs) =
    let e : suc i + j ≡ suc (i + j) = omega arith in
    ap (λ k. take k (x ∷ xs)) e ∙ ap (λ l. x ∷ l) (take-split i j xs)

-- Whatever the size of the chunks, as long as they are not empty, the loop ends with fuel above the
-- number of bytes, and its result is the checksum of all of them at once.
-- The checksum of a concatenation is that of its second part, continued from that of its first.
pub crc_loop-whole :
    (f : Checksum) (chunk fuel : ℕ) (buffer : List ℕ) (len val : ℕ)
    → Composes f
    → 0 < chunk
    → len < fuel
    → crc_loop f chunk fuel buffer len val ≡ some (f (take len buffer) val)
unfolding crc_loop
crc_loop-whole f chunk zero buffer len val composes some_bytes enough = absurd (omega arith)
crc_loop-whole f chunk (suc fuel) buffer len val composes some_bytes enough =
    elim (dec_lt chunk len) [
      | yes h ↦
          let rest = len - chunk in
          let ih =
            crc_loop-whole f chunk fuel (drop chunk buffer) rest (f (take chunk buffer) val)
              composes some_bytes (omega arith) in
          let whole : chunk + rest ≡ len = omega arith in
          let split : take len buffer ≡ take chunk buffer ++ take rest (drop chunk buffer) =
            ap (λ k. take k buffer) (sym whole) ∙ take-split chunk rest buffer in
          ground
            (arith, ih, split, composes (take chunk buffer) (take rest (drop chunk buffer)) val)
      | no h ↦ ground arith
    ]

module _ (n : Napi) (m : Memory) (f : Checksum) (creates : ℕ → Bool) (composes : Composes f) where
  crc_value-whole :
      (buf : ByteBuf) (previous : ℕ) (w : World m)
      → crc_value n m f creates buf previous w ≡ (
          let val = f (take buf.len buf.contents) previous in
          some (crc_done n m f creates buf (if creates val then some val else none) w))
  unfolding crc_value
  crc_value-whole buf previous w = rw (
    crc_loop-whole f int_max (buf.len + 1) buf.contents buf.len previous composes (omega arith)
        (omega arith),
    crc_value,
  )

  -- The call returns and the blocks are those of before.
  abbrev Returns : World m → Option (Option ℕ × World m) → Type 0
  Returns w o = (r : Option ℕ) × (w' : World m) × (o ≡ some (r, w')) × SameLive m w.store w'.store

  crc_bytes-Returns :
      (node_bytes node_previous : n.Value) (w : World m)
      → Returns w (crc_bytes n m f creates node_bytes node_previous w)
  unfolding crc_bytes crc_done
  crc_bytes-Returns node_bytes node_previous w =
      let r = byte_buf_init_from_napi n m zeroed node_bytes w.store in
      let cleaned : SameLive m w.store (byte_buf_clean_up n m r.0.1 r.1) = SameLive-of_Holds (
        Holds-byte_buf_clean_up n m r.0.1 {bs = []}
          (rw append-nil (byte_buf_init_from_napi-Holds n m node_bytes w.store))) in
      let thrown : Throw → World m =
        λ t. record { store = byte_buf_clean_up n m r.0.1 r.1; thrown = w.thrown ++ t ∷ [] } in
      elim (Status-cases r.0.0) [
        | inr (g, e) ↦ (
          none,
          thrown (type_error "to_hash argument must be a string or array"),
          rw (e, crc_bytes),
          cleaned,
        )
        | inl e ↦ elim (Reply-cases (read_previous n m f creates node_previous)) [
          | inr (g, e') ↦ (
            none,
            thrown (type_error "previous argument must be undefined or a positive number"),
            rw (e, e', crc_bytes),
            cleaned,
          )
          | inl (previous, e') ↦
              let val = f (take r.0.1.len r.0.1.contents) previous in
              (
                if creates val then some val else none,
                record w { store = byte_buf_clean_up n m r.0.1 r.1 },
                rw (e, e', crc_bytes) (crc_value-whole r.0.1 previous (record w { store = r.1 })),
                cleaned,
              )
        ]
      ]

  -- A checksum call always returns, whatever its arguments, and leaves the allocator's blocks as
  -- they were, also where it fails.
  -- The checksum of a concatenation is that of its second part, continued from that of its first.
  pub crc_common-SameLive :
      (info : Reply (List n.Value)) (w : World m)
      → (r : Option ℕ) × (w' : World m) × (crc_common n m f creates info w ≡ some (r, w'))
        × SameLive m w.store w'.store
  unfolding crc_common crc_done byte_buf_clean_up
  crc_common-SameLive (failed g) w = (_, _, refl, λ c. refl)
  crc_common-SameLive (got (node_bytes ∷ node_previous ∷ [])) w =
      crc_bytes-Returns node_bytes node_previous w
  crc_common-SameLive (got _) w = (_, _, refl, λ c. refl)

  -- The argument `previous`: absent, which is 0, or a number.
  abbrev pub Previous : n.Value → ℕ → Type 0
  Previous v k =
      ((n.typeof v ≡ got ValueType.undefined) × (k ≡ 0))
      ⊎ ((n.typeof v ≡ got ValueType.null) × (k ≡ 0))
      ⊎ ((n.typeof v ≡ got ValueType.number) × (n.get_value_uint32 v ≡ got k))

  read_previous-Previous :
      (v : n.Value) (k : ℕ) → Previous v k → read_previous n m f creates v ≡ got k
  unfolding read_previous is_null_or_undefined
  read_previous-Previous v k (inl (e, z)) = ground arith
  read_previous-Previous v k (inr (inl (e, z))) = ground arith
  read_previous-Previous v k (inr (inr (e, q))) = ground arith

  -- A checksum call whose first argument converts to a buffer and whose second is a number, null or
  -- undefined returns the checksum of all of the buffer's bytes, continued from that number or from
  -- 0, and raises no exception; the engine makes the number.
  -- The checksum of a concatenation is that of its second part, continued from that of its first.
  pub crc_common-value :
      (node_bytes node_previous : n.Value) (w : World m) (previous : ℕ)
      → (byte_buf_init_from_napi n m zeroed node_bytes w.store).0.0 ≡ ok
      → Previous node_previous previous
      → ((v : ℕ) → creates v ≡ true)
      → let buf = (byte_buf_init_from_napi n m zeroed node_bytes w.store).0.1 in
        (w' : World m) × (crc_common n m f creates (got (node_bytes ∷ node_previous ∷ [])) w
          ≡ some (some (f (take buf.len buf.contents) previous), w'))
        × (w'.thrown ≡ w.thrown)
  unfolding crc_common crc_bytes crc_done
  crc_common-value node_bytes node_previous w previous e given makes =
      let e' = read_previous-Previous node_previous previous given in
      let r = byte_buf_init_from_napi n m zeroed node_bytes w.store in
      (
        record w { store = byte_buf_clean_up n m r.0.1 r.1 },
        rw (e, e', crc_bytes, crc_value-whole r.0.1 previous (record w { store = r.1 }), makes),
        refl,
      )
