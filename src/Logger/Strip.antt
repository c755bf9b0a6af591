-- ===== src/Logger/Strip.antt =====
-- The white space at the end of a log message, against a reference that looks at the bytes from the
-- front.
use aws_crt_nodejs.Base.{
  ℕ, zero, suc, ◌+◌, ◌-◌, ◌≤◌, ◌<◌, ◌≡◌, refl, sym, ap, ◌∙◌, Bool, true, false, some, List, [], ◌∷◌,
  ◌++◌, arith, length, take, get_elem?, take_all, inl, inr, subst, Bool-cases, lt→ltb, ge→ltb,
}
use native.Mathlib.Decide.{dec_lt}
use aws_crt_nodejs.Logger.{strip, count_newlines, last_byte}

module _ (isspace : ℕ → Bool) where
  -- a byte in front of a message that is stripped already
  abbrev pub cons : ℕ → List ℕ → List ℕ
  cons c [] = elim (isspace c) [ true ↦ [] | false ↦ c ∷ [] ]
  cons c (d ∷ ds) = c ∷ d ∷ ds

  -- The message without the white space at its end.
  unfoldable pub trim_end : List ℕ → List ℕ
  trim_end [] = []
  trim_end (c ∷ cs) = cons c (trim_end cs)

  trim_end-space : (cs : List ℕ) (c : ℕ) → isspace c ≡ true → trim_end (cs ++ c ∷ []) ≡ trim_end cs
  unfolding trim_end
  trim_end-space [] c h = rw (h, cons)
  trim_end-space (d ∷ cs) c h = ap (cons d) (trim_end-space cs c h)

  trim_end-other :
      (cs : List ℕ) (c : ℕ) → isspace c ≡ false → trim_end (cs ++ c ∷ []) ≡ cs ++ c ∷ []
  unfolding trim_end
  trim_end-other [] c h = rw (h, cons)
  trim_end-other (d ∷ []) c h = ap (cons d) (trim_end-other [] c h)
  trim_end-other (d ∷ e ∷ cs) c h = ap (cons d) (trim_end-other (e ∷ cs) c h)

take-get_elem? :
    (cs : List ℕ) (k c : ℕ) → get_elem? cs k ≡ some c → take (suc k) cs ≡ take k cs ++ c ∷ []
take-get_elem? [] k c h = cc
take-get_elem? (d ∷ cs) zero c h = ground arith
take-get_elem? (d ∷ cs) (suc k) c h = ap (λ l. d ∷ l) (take-get_elem? cs k c h)

get_elem?-some : (cs : List ℕ) (k : ℕ) → k < length cs → (c : ℕ) × (get_elem? cs k ≡ some c)
get_elem?-some [] k h = absurd (omega arith)
get_elem?-some (d ∷ cs) zero h = (d, refl)
get_elem?-some (d ∷ cs) (suc k) h = get_elem?-some cs k (omega arith)

last_byte-elem :
    (before : ℕ) (output : List ℕ) (k c : ℕ)
    → k < length output
    → get_elem? output (length output - k - 1) ≡ some c
    → last_byte before output k ≡ c
unfolding last_byte
last_byte-elem before output k c h e = rw (lt→ltb k (length output) h, e, last_byte) refl

take-step :
    (output : List ℕ) (n j i c : ℕ)
    → n ≡ suc j
    → i ≡ j
    → get_elem? output j ≡ some c
    → take n output ≡ take i output ++ c ∷ []
take-step output n j i c e e' at = rw (e, e') (take-get_elem? output j c at)

last_byte-snoc :
    (before : ℕ) (output : List ℕ) (k : ℕ)
    → k < length output
    → take (length output - k) output
      ≡ take (length output - (k + 1)) output ++ last_byte before output k ∷ []
last_byte-snoc before output k h =
    let j = length output - k - 1 in
    let (c, e) = get_elem?-some output j (omega arith) in
    rw (last_byte-elem before output k c h e) (
      take-step output (length output - k) j (length output - (k + 1)) c (omega arith) (omega arith)
        e)

-- Nothing is left to look at.
nothing_left :
    (isspace : ℕ → Bool) (output : List ℕ) (k : ℕ)
    → length output ≤ k
    → trim_end isspace output ≡ trim_end isspace (take (length output - k) output)
    → take (length output - k) output ≡ trim_end isspace output
unfolding trim_end
nothing_left isspace output k h e =
    let z : length output - k ≡ 0 = omega arith in
    let e' : trim_end isspace output ≡ trim_end isspace (take 0 output) =
      subst (λ i. trim_end isspace output ≡ trim_end isspace (take i output)) z e in
    ap (λ i. take i output) z ∙ sym e'

-- What the loop leaves of the message, from any round on.
count_newlines-trim_end :
    (isspace : ℕ → Bool) (before : ℕ) (output : List ℕ) (fuel k : ℕ)
    → length output < k + fuel
    → trim_end isspace output ≡ trim_end isspace (take (length output - k) output)
    → let n = count_newlines isspace before output fuel k in
      take (length output - n) output ≡ trim_end isspace output
unfolding count_newlines
count_newlines-trim_end isspace before output zero k h e =
    nothing_left isspace output k (omega arith) e
count_newlines-trim_end isspace before output (suc fuel) k h e =
    let c = last_byte before output k in
    elim (Bool-cases (isspace c)) [
      | inr other ↦
          rw (other, count_newlines)
            (elim (dec_lt k (length output)) [
              | no le ↦ nothing_left isspace output k (omega arith) e
              | yes lt ↦
                  let snoc = last_byte-snoc before output k lt in
                  snoc ∙ sym (e ∙ ap (trim_end isspace) snoc ∙ trim_end-other isspace _ c other)
            ])
      | inl space ↦ elim (dec_lt k (length output)) [
        | no le ↦
            rw (space, ge→ltb k (length output) (omega arith), count_newlines)
              (nothing_left isspace output k (omega arith) e)
        | yes lt ↦
            let snoc = last_byte-snoc before output k lt in
            rw (space, lt→ltb k (length output) lt, count_newlines)
              (count_newlines-trim_end isspace before output fuel (k + 1) (omega arith)
                (e ∙ ap (trim_end isspace) snoc ∙ trim_end-space isspace _ c space))
      ]
    ]

-- The loop of s_napi_log_writer_write leaves what the reference leaves, whatever byte stands in front
-- of the string: exactly the white space at the end is dropped.
pub strip-trim_end :
    (isspace : ℕ → Bool) (before : ℕ) (output : List ℕ)
    → strip isspace before output ≡ trim_end isspace output
unfolding strip
strip-trim_end isspace before output =
    count_newlines-trim_end isspace before output (suc (length output)) 0 (omega arith)
      (ap (trim_end isspace) (sym (take_all (length output - 0) output (omega arith))))
