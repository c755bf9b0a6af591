-- ===== src/Tests/HeaderExamples.antt =====
-- source/http_headers.c on a small header block.
use aws_crt_nodejs.Base.{
  ℕ, ◌≡◌, ◌<◌, refl, arith, List, [], ◌∷◌, map, length, get_elem?, true, false, some, ◌++◌, zero,
  suc,
}
use aws_crt_nodejs.Napi.{ok}
use aws_crt_nodejs.HttpHeaders.{
  Header, array, result, undefined, string, done, HeadersIterator, iterator_new, headers_flatten,
  headers_get_values, iterator_next,
}
use aws_crt_nodejs.HttpHeaders.Construct.{wrapped, fill_headers}
use aws_crt_nodejs.HttpHeaders.Contents.{HeadersLaws, elements, pair, headers_get_values-entries}
use aws_crt_nodejs.HttpHeaders.Iterator.{take_next, iterator_next-entries}
use aws_crt_nodejs.HttpHeaders.RoundTrip.{
  AddLaws, IsPlain, IsString, IsPair, IsHeaderList, fill_headers-flatten,
}
use aws_crt_nodejs.Tests.Samples.{
  Sample, text, pairs, sample_napi, engine, headers_api, two_headers, add_last,
}

abbrev laws : HeadersLaws headers_api
laws = record { entries = λ hs. hs; count_lem = λ h. refl; get_index_lem = λ h i. refl }

add_named :
    (hs : List Header) (name value : List ℕ)
    → IsPlain (record { name = name; value = value })
    → (hs' : List Header) × (add_last hs name value ≡ some hs')
      × (hs' ≡ hs ++ record { name = name; value = value } ∷ [])
add_named hs [] value h = absurd (h.has_name refl)
add_named hs (c ∷ name) value h = (_, refl, refl)

add_laws : AddLaws headers_api laws
add_laws = record { new_lem = refl; add_lem = add_named }

headers_get_values-entries_example :
    headers_get_values engine headers_api ((65 ∷ []) ∷ []) two_headers
    ≡ done (array (elements (string (1 ∷ 2 ∷ []) ∷ [])))
headers_get_values-entries_example =
    headers_get_values-entries engine (λ v. refl) headers_api laws (65 ∷ []) two_headers
      (omega arith)

iterator_next-entries_example :
    (last : HeadersIterator) × (take_next engine
        (λ v. refl)
        headers_api
        laws
        2
        two_headers
        iterator_new
      ≡ done (map (λ x. result false (pair x)) two_headers, last))
    × (iterator_next engine headers_api two_headers last ≡ done (result true undefined, last))
iterator_next-entries_example =
    iterator_next-entries engine (λ v. refl) headers_api laws two_headers (omega arith)

text-IsString : (cs : List ℕ) → length cs < 100 → IsString sample_napi (text cs) cs
text-IsString cs h = record {
  has_length = refl;
  fits = omega arith;
  copied = λ capacity k. ground arith;
}

pair-IsPair :
    (h : Header)
    → length h.name < 100
    → length h.value < 100
    → IsPair sample_napi (Sample.pair h.name h.value) h
pair-IsPair h a b = record {
  pair_array = refl;
  pair_length = refl;
  first = text h.name;
  second = text h.value;
  at_0 = refl;
  at_1 = refl;
  is_name = text-IsString h.name a;
  is_value = text-IsString h.value b;
}

two_at :
    (i : ℕ) (h : Header)
    → get_elem? two_headers i ≡ some h
    → (length h.name < 100) × (length h.value < 100)
two_at zero h e = ground arith
two_at (suc zero) h e = ground arith
two_at (suc (suc i)) h e = cc

two-IsHeaderList : IsHeaderList sample_napi (pairs two_headers) two_headers
two-IsHeaderList = record {
  list_array = refl;
  list_length = refl;
  at = λ i h e. (Sample.pair h.name h.value, rw e, pair-IsPair h (two_at i h e).0 (two_at i h e).1);
}

first-IsPlain : IsPlain (record { name = 65 ∷ []; value = 1 ∷ 2 ∷ [] })
first-IsPlain = record {
  has_name = λ e. cc;
  regular = refl;
  trimmed_name = (refl, refl);
  trimmed_value = (refl, refl);
  small = omega arith;
}

second-IsPlain : IsPlain (record { name = 66 ∷ []; value = [] })
second-IsPlain = record {
  has_name = λ e. cc;
  regular = refl;
  trimmed_name = (refl, refl);
  trimmed_value = (refl, refl);
  small = omega arith;
}

fill_headers-flatten_example :
    (h : List Header) × (fill_headers sample_napi headers_api ok (pairs two_headers) ≡ wrapped h)
    × (headers_flatten engine headers_api 0 h ≡ done (array (elements (map pair two_headers))))
fill_headers-flatten_example =
    fill_headers-flatten sample_napi headers_api laws add_laws engine (pairs two_headers)
      two_headers (λ v. refl) two-IsHeaderList (first-IsPlain, (second-IsPlain, tt)) (omega arith)
