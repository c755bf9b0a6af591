-- ===== src/HttpHeaders/Contents.antt =====
-- What the methods of HttpHeaders show of the header block, under what aws-c-http documents of it.
use aws_crt_nodejs.Base.{
  ℕ, ◌+◌, ◌%◌, ◌<◌, ◌≤◌, ◌≡◌, refl, sym, ap, ◌∙◌, true, false, some, List, [], ◌∷◌, ◌++◌, map,
  append_assoc, append-nil, arith, length, length-append, get_elem?, inl, inr, Bool-cases,
}
use aws_crt_nodejs.HttpHeaders.{
  Header, Js, string, array, Elements, empty, element, done, Engine, HeadersApi, u32_mod,
  set_element, create, create_header_array, get_values_loop, headers_get_values, values_array,
  flatten_array, flatten_loop, headers_flatten,
}

-- aws_http_headers is a sequence of headers: its count, and its elements by position.
pub record HeadersLaws (api : HeadersApi) : Type 0 where
  pub entries : api.Headers → List Header
  pub count_lem : (h : api.Headers) → api.count h ≡ length (entries h)
  pub get_index_lem : (h : api.Headers) (i : ℕ) → api.get_index h i ≡ get_elem? (entries h) i

-- An engine that never runs out of memory.
abbrev pub Creates : Engine → Type 0
Creates e = (v : Js) → e.creates v ≡ true

abbrev pub elements : List Js → Elements
elements [] = empty
elements (x ∷ xs) = element x (elements xs)

-- A header as JavaScript sees it: an array of two strings.
abbrev pub pair : Header → Js
pair h = array (elements (string h.name ∷ string h.value ∷ []))

set_element-elements :
    (xs : List Js) (v : Js) → set_element (elements xs) (length xs) v ≡ elements (xs ++ v ∷ [])
unfolding set_element
set_element-elements [] v = refl
set_element-elements (x ∷ xs) v = ap (element x) (set_element-elements xs v)

pub get_elem?-middle :
    (xs ys : List Header) (h : Header) → get_elem? (xs ++ h ∷ ys) (length xs) ≡ some h
get_elem?-middle [] ys h = refl
get_elem?-middle (x ∷ xs) ys h = get_elem?-middle xs ys h

pub step : (before : List Header) (x : Header) → length before + 1 ≡ length (before ++ x ∷ [])
step before x = omega (arith, length-append before (x ∷ []))

step_same :
    (before : List Header) (x : Header) (out : List Js) (v : Js)
    → length out ≡ length before
    → length (out ++ v ∷ []) ≡ length (before ++ x ∷ [])
step_same before x out v h =
    omega (arith, length-append before (x ∷ []), length-append out (v ∷ []))

module _ (e : Engine) (creates : Creates e) where
  pub create-done : (v : Js) → create e v ≡ done v
  unfolding create
  create-done v = ground (arith, creates v)

  pub create_header_array-done : (h : Header) → create_header_array e h ≡ done (pair h)
  unfolding create_header_array set_element
  create_header_array-done h = simp creates

  module _ (api : HeadersApi) (laws : HeadersLaws api) where
    open laws use {entries, count_lem, get_index_lem}

    pub at_middle :
        (h : api.Headers) (before rest : List Header) (x : Header)
        → entries h ≡ before ++ x ∷ rest
        → api.get_index h (length before) ≡ some x
    at_middle h before rest x split =
        get_index_lem h (length before) ∙ rw split (get_elem?-middle before rest x)

    step_u32 :
        (h : api.Headers) (before rest : List Header) (x : Header) (out : List Js) (v : Js)
        → entries h ≡ before ++ x ∷ rest
        → length out ≤ length before
        → length (entries h) < u32_mod
        → (length out + 1) % u32_mod ≡ length (out ++ v ∷ [])
    step_u32 h before rest x out v split fits small =
        omega (arith, ap length split, length-append before (x ∷ rest), length-append out (v ∷ []))

    flatten_loop-entries :
        (h : api.Headers) (before rest : List Header) (out : List Js)
        → entries h ≡ before ++ rest
        → length out ≡ length before
        → length (entries h) < u32_mod
        → flatten_loop e api h (length rest) (length before) (length out) (elements out)
          ≡ done (elements (out ++ map pair rest))
    unfolding flatten_loop
    flatten_loop-entries h before [] out split same small = rw append-nil
    flatten_loop-entries h before (x ∷ rest) out split same small =
        rw
          (
            at_middle h before rest x split,
            flatten_loop,
            create_header_array-done x,
            set_element-elements out (pair x),
            step before x,
            step_u32 h before rest x out (pair x) split (omega arith) small,
          )
          (flatten_loop-entries h (before ++ x ∷ []) rest (out ++ pair x ∷ [])
              (split ∙ sym (append_assoc before (x ∷ []) rest))
              (step_same before x out (pair x) same) small
            ∙ ap (λ l. done (elements l)) (append_assoc out (pair x ∷ []) (map pair rest)))

    -- `_flatten` returns the whole block, in order, as an array of [name, value] arrays, for a block
    -- of fewer than 2^32 headers.
    -- The laws of `HeadersLaws` hold and the engine makes every value.
    pub headers_flatten-entries :
        (h : api.Headers)
        → length (entries h) < u32_mod
        → headers_flatten e api 0 h ≡ done (array (elements (map pair (entries h))))
    unfolding headers_flatten flatten_array
    headers_flatten-entries h small = rw (
      create-done (array empty),
      count_lem h,
      flatten_loop-entries h [] (entries h) [] refl refl small,
    )

    -- The values of the headers whose name is the key, up to case, in order.
    abbrev pub values : List ℕ → List Header → List Js
    values key [] = []
    values key (x ∷ xs) = elim (api.eq_ignore_case x.name key) [
      | true ↦ string x.value ∷ values key xs
      | false ↦ values key xs
    ]

    values-match :
        (key : List ℕ) (x : Header) (xs : List Header)
        → api.eq_ignore_case x.name key ≡ true
        → values key (x ∷ xs) ≡ string x.value ∷ values key xs
    values-match key x xs e' = ground arith

    values-other :
        (key : List ℕ) (x : Header) (xs : List Header)
        → api.eq_ignore_case x.name key ≡ false
        → values key (x ∷ xs) ≡ values key xs
    values-other key x xs e' = ground arith

    get_values_loop-entries :
        (key : List ℕ) (h : api.Headers) (before rest : List Header) (out : List Js)
        → entries h ≡ before ++ rest
        → length out ≤ length before
        → length (entries h) < u32_mod
        → get_values_loop e api key h (length rest) (length before) (length out) (elements out)
          ≡ done (elements (out ++ values key rest))
    unfolding get_values_loop
    get_values_loop-entries key h before [] out split fits small = rw append-nil
    get_values_loop-entries key h before (x ∷ rest) out split fits small =
        let next = λ (o : List Js).
          get_values_loop-entries key h (before ++ x ∷ []) rest o
            (split ∙ sym (append_assoc before (x ∷ []) rest)) in
        rw (at_middle h before rest x split, get_values_loop)
          (elim (Bool-cases (api.eq_ignore_case x.name key)) [
            | inl e' ↦
                rw
                  (
                    e',
                    create-done (string x.value),
                    set_element-elements out (string x.value),
                    step before x,
                    step_u32 h before rest x out (string x.value) split fits small,
                  )
                  (next (out ++ string x.value ∷ [])
                      (omega (
                        arith,
                        length-append before (x ∷ []),
                        length-append out (string x.value ∷ []),
                      ))
                      small
                    ∙ ap (λ l. done (elements l))
                        (append_assoc out (string x.value ∷ []) (values key rest))
                    ∙ ap (λ l. done (elements (out ++ l))) (sym (values-match key x rest e')))
            | inr e' ↦
                rw (e', step before x)
                  (next out (omega (arith, length-append before (x ∷ []))) small
                    ∙ ap (λ l. done (elements (out ++ l))) (sym (values-other key x rest e')))
          ])

    -- `get_values` returns the values of exactly the headers with that name, up to case, in order,
    -- for a block of fewer than 2^32 headers.
    -- The laws of `HeadersLaws` hold and the engine makes every value.
    pub headers_get_values-entries :
        (key : List ℕ) (h : api.Headers)
        → length (entries h) < u32_mod
        → headers_get_values e api (key ∷ []) h ≡ done (array (elements (values key (entries h))))
    unfolding headers_get_values values_array
    headers_get_values-entries key h small = rw (
      create-done (array empty),
      count_lem h,
      get_values_loop-entries key h [] (entries h) [] refl (omega arith) small,
    )
