-- ===== src/HttpHeaders/Iterator.antt =====
-- The iterator of HttpHeaders: what a `for` loop sees of a block that is not changed meanwhile.
use aws_crt_nodejs.Base.{
  ℕ, zero, suc, ◌+◌, ◌<◌, ◌≡◌, refl, sym, ap, ◌∙◌, true, false, List, [], ◌∷◌, ◌++◌, map,
  append_assoc, arith, ltb, lt→ltb, length, length-append,
}
use aws_crt_nodejs.Napi.{size_mod}
use aws_crt_nodejs.HttpHeaders.{
  Header, Js, undefined, result, Outcome, done, ◌>>=◌, Engine, HeadersApi, HeadersIterator,
  iterator_new, iterator_next,
}
use aws_crt_nodejs.HttpHeaders.Contents.{
  HeadersLaws, Creates, pair, create-done, create_header_array-done, at_middle, step,
}

module _ (e : Engine) (creates : Creates e) (api : HeadersApi) (laws : HeadersLaws api) where
  open laws use {entries, count_lem}

  -- `k` calls of next(), and the results in order
  unfoldable pub take_next : ℕ → api.Headers → HeadersIterator → Outcome (List Js × HeadersIterator)
  take_next zero h it = done ([], it)
  take_next (suc k) h it = do
    (r, it') ← iterator_next e api h it
    (rs, last) ← take_next k h it'
    done (r ∷ rs, last)

  size :
      {h : api.Headers} (before rest : List Header) (x : Header)
      → entries h ≡ before ++ x ∷ rest
      → length (entries h) ≡ length before + 1 + length rest
  size before rest x split = omega (arith, ap length split, length-append before (x ∷ rest))

  next_inside :
      (h : api.Headers) (before rest : List Header) (x : Header)
      → entries h ≡ before ++ x ∷ rest
      → length (entries h) < size_mod
      → iterator_next e api h (record { current_index = length before })
        ≡ done (result false (pair x), record { current_index = length before + 1 })
  unfolding iterator_next
  next_inside h before rest x split small =
      let inside : ltb (length before) (api.count h) ≡ true =
        rw count_lem
          (lt→ltb (length before) (length (entries h)) (omega (arith, size before rest x split))) in
      rw
        (
          inside,
          at_middle e creates api laws h before rest x split,
          create_header_array-done e creates x,
          create-done e creates (result false (pair x)),
        )
        (ap (λ i. done (result false (pair x), record { current_index = i }))
          (omega (arith, size before rest x split)))

  take_next-entries :
      (h : api.Headers) (before rest : List Header)
      → entries h ≡ before ++ rest
      → length (entries h) < size_mod
      → take_next (length rest) h (record { current_index = length before })
        ≡ done
            (map (λ x. result false (pair x)) rest, record { current_index = length (entries h) })
  unfolding take_next
  take_next-entries h before [] split small =
      ap (λ i. done ([], record { current_index = i }))
        (omega (arith, ap length split, length-append before []))
  take_next-entries h before (x ∷ rest) split small = rw (
    next_inside h before rest x split small,
    step before x,
    take_next-entries h (before ++ x ∷ []) rest (split ∙ sym (append_assoc before (x ∷ []) rest))
        small,
  )

  -- A new iterator yields the whole block in order, one [name, value] array for each call; the next
  -- call reports that it is done, and so does every later one, since the iterator then stays as it is.
  -- The block is not changed meanwhile and holds fewer than 2^64 headers.
  -- The laws of `HeadersLaws` hold and the engine makes every value.
  pub iterator_next-entries :
      (h : api.Headers)
      → length (entries h) < size_mod
      → (last : HeadersIterator) × (take_next (length (entries h)) h iterator_new
          ≡ done (map (λ x. result false (pair x)) (entries h), last))
        × (iterator_next e api h last ≡ done (result true undefined, last))
  unfolding iterator_new iterator_next
  iterator_next-entries h small = (
    record { current_index = length (entries h) },
    take_next-entries h [] (entries h) refl small,
    ground (arith, count_lem h, create-done e creates (result true undefined)),
  )
