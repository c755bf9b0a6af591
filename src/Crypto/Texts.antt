-- ===== src/Crypto/Texts.antt =====
-- The string arguments of source/crypto.c: the bytes to digest, and the size to cut to.
use aws_crt_nodejs.Base.{
  ℕ, zero, suc, ◌≤◌, ◌≡◌, refl, ap, subst, true, false, Option, none, some, List, [], ◌∷◌, ◌++◌,
  arith, ltb, take, length, if◌then◌else◌,
}
use aws_crt_nodejs.Napi.{ok, got, Napi, Memory, done}
use aws_crt_nodejs.ByteBuf.{
  ByteBuf, owned, zeroed, byte_buf_init_from_napi, clean_up_uninitialised, is_null_or_undefined,
}
use aws_crt_nodejs.ByteBuf.Balance.{blocks, byte_buf_init_from_napi-Holds}
use aws_crt_nodejs.Ownership.{Holds, SameLive, Holds-clean_up, SameLive-of_Holds}
use aws_crt_nodejs.Arguments.{read, expect}
use aws_crt_nodejs.Crypto.{DigestApi, Crypto, with_blocks, release, truncation}
use aws_crt_nodejs.Crypto.Compute.{compute_view, computed, compute_into, compute_bytes}

-- the size that an argument `truncate_to` leaves, where `none` is undefined
abbrev pub limited : Option ℕ → ℕ → ℕ
limited none size = size
limited (some k) size = if ltb k size then k else size

pub take-length : (xs : List ℕ) → take (length xs) xs ≡ xs
take-length [] = refl
take-length (x ∷ xs) = ap (λ l. x ∷ l) (take-length xs)

take-take : (a b : ℕ) (xs : List ℕ) → a ≤ b → take a (take b xs) ≡ take a xs
take-take zero b xs h = refl
take-take (suc a) zero xs h = absurd (omega arith)
take-take (suc a) (suc b) [] h = refl
take-take (suc a) (suc b) (x ∷ xs) h = ap (λ l. x ∷ l) (take-take a b xs (omega arith))

take-take_less : (a b : ℕ) (xs : List ℕ) → b ≤ a → take a (take b xs) ≡ take b xs
take-take_less zero zero xs h = refl
take-take_less zero (suc b) xs h = absurd (omega arith)
take-take_less (suc a) zero xs h = refl
take-take_less (suc a) (suc b) [] h = refl
take-take_less (suc a) (suc b) (x ∷ xs) h = ap (λ l. x ∷ l) (take-take_less a b xs (omega arith))

pub limited-take :
    (l : Option ℕ) (short full : ℕ) (xs : List ℕ)
    → short ≤ full
    → take short (take (limited l full) xs) ≡ take (limited l short) xs
limited-take none short full xs h = take-take short full xs h
limited-take (some k) short full xs h =
    ground (arith, take-take short full xs, take-take short k xs, take-take_less short k xs)

pub limited_at_most : (l : Option ℕ) (size : ℕ) → limited l size ≤ size
limited_at_most none size = omega arith
limited_at_most (some k) size = ground arith

module _ (n : Napi) (m : Memory) where
  -- the copy of a string
  abbrev pub text_buf : ℕ → ℕ → List ℕ → ByteBuf
  text_buf b capacity bytes = record {
    buffer = owned b;
    contents = bytes;
    len = length bytes;
    capacity = capacity;
  }

  -- A string of these bytes that fits in memory.
  abbrev pub IsText : n.Value → List ℕ → Type 0
  IsText v bytes =
      (s : m.Store)
      → (b capacity : ℕ) × (t : m.Store) × (byte_buf_init_from_napi n m zeroed v s
          ≡ ((ok, text_buf b capacity bytes), t))

  -- Strings whose bytes are these, one after the other.
  abbrev pub AreTexts : List n.Value → List ℕ → Type 0
  AreTexts [] bytes = bytes ≡ []
  AreTexts (v ∷ vs) bytes = (xs ys : List ℕ) × IsText v xs × AreTexts vs ys × (bytes ≡ xs ++ ys)

  -- The argument `truncate_to` is undefined or the number, which is not 0: aws-c-cal takes 0 as the
  -- whole size.
  abbrev pub Limits : n.Value → Option ℕ → Type 0
  Limits v none = is_null_or_undefined n m v ≡ true
  Limits v (some k) =
      (is_null_or_undefined n m v ≡ false) × (n.get_value_uint32 v ≡ got k) × (1 ≤ k)

  pub limited-Limits :
      (v : n.Value) (l : Option ℕ) (size : ℕ) → Limits v l → 1 ≤ size → 1 ≤ limited l size
  limited-Limits v none size h one = one
  limited-Limits v (some k) size (h, e, positive) one = ground arith

  pub text-SameLive :
      (v : n.Value) (b capacity : ℕ) (bytes : List ℕ) (s t : m.Store)
      → byte_buf_init_from_napi n m zeroed v s ≡ ((ok, text_buf b capacity bytes), t)
      → SameLive m s (m.clean_up b t)
  text-SameLive v b capacity bytes s t e = SameLive-of_Holds {m = m} (
      Holds-clean_up {m = m} b
        (subst (λ q. Holds m s q.1 (blocks q.0.1)) e (byte_buf_init_from_napi-Holds n m v s)))

module _ (n : Napi) (m : Memory) (api : DigestApi n) where
  pub truncation-limited :
      (v : n.Value) (l : Option ℕ) (size : ℕ)
      → Limits n m v l
      → truncation n m api size v ≡ read (limited l size)
  unfolding truncation expect
  truncation-limited v none size h = rw (h, truncation) refl
  truncation-limited v (some k) size (h, e, positive) = rw (h, truncation, e) refl

  -- The digest of a string at once, from the conversion on.
  pub compute_bytes-text :
      (key bytes out : List ℕ) (b capacity : ℕ) (t : n.Value) (l : Option ℕ) (u : m.Store)
      (c : Crypto n m api)
      → ((size : ℕ) → api.create_arraybuffer size ≡ true)
      → ((size : ℕ) → api.create_dataview size ≡ true)
      → api.compute key bytes (limited l 16) ≡ (true, out)
      → Limits n m t l
      → compute_bytes n m api key t ((ok, text_buf n m b capacity bytes), u) c
        ≡ done (some out, with_blocks n m api (m.clean_up b u) c)
  unfolding compute_bytes compute_into computed compute_view release clean_up_uninitialised
  compute_bytes-text key bytes out b capacity t l u c buffers views computes limit =
      rw
        (
          truncation-limited t l 16 limit,
          compute_bytes,
          compute_into,
          buffers (limited l 16),
          take-length bytes,
          computes,
          computed,
          compute_view,
          views (limited l 16),
        )
        refl
