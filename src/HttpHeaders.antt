-- ===== src/HttpHeaders.antt =====
-- source/http_headers.c: the HttpHeaders class over aws_http_headers of aws-c-http, which is a
-- parameter (`HeadersApi`), as is the engine that makes JavaScript values (`Engine`). The methods other
-- than get_values and `_flatten` start behind their assertion on the number of arguments.
pub mod Construct
pub mod Contents
pub mod Iterator
pub mod RoundTrip
use aws_crt_nodejs.Base.{
  ℕ, zero, suc, ◌+◌, ◌%◌, ◌≡◌, Bool, true, false, not, Option, none, some, List, [], ◌∷◌, ◌++◌, ltb,
  ◌==◌, if◌then◌else◌, length, get_elem?,
}
use aws_crt_nodejs.Base.Int.{ℤ, pos, negsuc}
use aws_crt_nodejs.Napi.{Throw, error, last_error, size_mod}
pub use aws_crt_nodejs.Napi.{Outcome, done, aborted, undefined_behaviour, ◌>>=◌}

-- struct aws_http_header
pub record Header : Type 0 where
  pub name : List ℕ
  pub value : List ℕ

-- The JavaScript values that this file makes. `null` is the C pointer NULL, which N-API callbacks
-- turn into undefined.
mutual
  pub data Js : Type 0 where
    null : Js
    undefined : Js
    string : List ℕ → Js
    number : ℕ → Js
    array : Elements → Js
    result : Bool → Js → Js

  pub data Elements : Type 0 where
    empty : Elements
    element : Js → Elements → Elements

-- Does napi_create_string_utf8, napi_create_array and the like succeed for this value?
pub record Engine : Type 0 where
  pub creates : Js → Bool

-- the answer of aws_http_headers_get
pub data Lookup : Type 0 where
  found : List ℕ → Lookup
  not_found : Lookup
  lookup_error : Lookup

-- aws_http_headers; `none` is AWS_OP_ERR with the last error set
pub record HeadersApi : Type 1 where
  pub Headers : Type 0
  pub new : Headers
  pub count : Headers → ℕ
  pub get_index : Headers → ℕ → Option Header
  pub get : Headers → List ℕ → Lookup
  pub add : Headers → List ℕ → List ℕ → Option Headers
  pub set : Headers → List ℕ → List ℕ → Option Headers
  pub erase : Headers → List ℕ → Option Headers
  pub erase_value : Headers → List ℕ → List ℕ → Option Headers
  pub clear : Headers → Headers
  -- aws_byte_cursor_eq_ignore_case
  pub eq_ignore_case : List ℕ → List ℕ → Bool

-- struct headers_iterator. Its `headers` points to the block of the HttpHeaders object, which
-- may change between two calls, so each call is given the block as it then is.
pub record HeadersIterator : Type 0 where
  pub current_index : ℕ

-- s_iterator_ctor
unfoldable pub iterator_new : HeadersIterator
iterator_new = record { current_index = 0 }

abbrev pub u32_mod : ℕ
u32_mod = 0x1_0000_0000

-- napi_set_element, which succeeds here: elements between the end and the index become undefined
unfoldable pub set_element : Elements → ℕ → Js → Elements
set_element empty zero v = element v empty
set_element empty (suc i) v = element undefined (set_element empty i v)
set_element (element x xs) zero v = element v xs
set_element (element x xs) (suc i) v = element x (set_element xs i v)

module _ (e : Engine) where
  -- a creating call under AWS_NAPI_ENSURE
  unfoldable pub create : Js → Outcome Js
  create v = if e.creates v then done v else aborted

  -- s_headers_create_header_array
  unfoldable pub create_header_array : Header → Outcome Js
  unfolding create set_element
  create_header_array header = do
    _ ← create (array empty)
    node_name ← create (string header.name)
    node_value ← create (string header.value)
    done (array (set_element (set_element empty 0 node_name) 1 node_value))

  module _ (api : HeadersApi) where
    -- a method's result: the value it returns, the block afterwards, the exceptions it raises
    abbrev pub Reaction : Type 0
    Reaction = Js × api.Headers × List Throw

    -- s_headers_length_get
    unfoldable pub length_get : api.Headers → Reaction
    length_get headers =
        let v = number (api.count headers % u32_mod) in
        if e.creates v then (v, headers, []) else (null, headers, last_error ∷ [])

    -- s_headers_get
    unfoldable pub headers_get : List ℕ → api.Headers → Outcome Reaction
    unfolding create
    headers_get name headers = elim (api.get headers name) [
      | found value ↦ do v ← create (string value); done (v, headers, [])
      | not_found ↦ done (null, headers, [])
      | lookup_error ↦ done (null, headers, last_error ∷ [])
    ]

    -- the loop of s_headers_get_values: `k` rounds are left
    unfoldable pub get_values_loop : List ℕ → api.Headers → ℕ → ℕ → ℕ → Elements → Outcome Elements
    unfolding create set_element
    get_values_loop key headers zero i array_idx out = done out
    get_values_loop key headers (suc k) i array_idx out = elim (api.get_index headers i) [
      | none ↦ undefined_behaviour
      | some header ↦ elim (api.eq_ignore_case header.name key) [
        | true ↦ do
          v ← create (string header.value)
          get_values_loop key headers k (i + 1) ((array_idx + 1) % u32_mod)
              (set_element out array_idx v)
        | false ↦ get_values_loop key headers k (i + 1) array_idx out
      ]
    ]

    -- the array behind the assertion
    unfoldable pub values_array : List ℕ → api.Headers → Outcome Js
    unfolding create
    values_array key headers = do
      _ ← create (array empty)
      out ← get_values_loop key headers (api.count headers) 0 0 empty
      done (array out)

    -- s_headers_get_values, with its arguments
    unfoldable pub headers_get_values : List (List ℕ) → api.Headers → Outcome Js
    unfolding values_array
    headers_get_values (key ∷ []) headers = values_array key headers
    headers_get_values _ headers = aborted

    -- s_headers_get_index; the cast to size_t of an index that is not negative is exact
    unfoldable pub headers_get_index : ℤ → api.Headers → Outcome Reaction
    unfolding create_header_array
    headers_get_index (negsuc n) headers =
        done (null, headers, error "Header index is out of bounds" ∷ [])
    headers_get_index (pos i) headers = elim (api.get_index headers i) [
      | none ↦ done (null, headers, last_error ∷ [])
      | some header ↦ do v ← create_header_array header; done (v, headers, [])
    ]

    -- the common end of the four updates: an error is raised and the block stays
    abbrev pub updated : api.Headers → Option api.Headers → Reaction
    updated headers none = (null, headers, last_error ∷ [])
    updated headers (some h) = (null, h, [])

    unfoldable pub headers_add_header : List ℕ → List ℕ → api.Headers → Reaction
    headers_add_header name value headers = updated headers (api.add headers name value)

    unfoldable pub headers_set_header : List ℕ → List ℕ → api.Headers → Reaction
    headers_set_header name value headers = updated headers (api.set headers name value)

    unfoldable pub headers_remove : List ℕ → api.Headers → Reaction
    headers_remove name headers = updated headers (api.erase headers name)

    unfoldable pub headers_remove_value : List ℕ → List ℕ → api.Headers → Reaction
    headers_remove_value name value headers = updated headers (api.erase_value headers name value)

    unfoldable pub headers_clear : api.Headers → Reaction
    headers_clear headers = (null, api.clear headers, [])

    -- the loop of s_headers__flatten: `k` rounds are left
    unfoldable pub flatten_loop : api.Headers → ℕ → ℕ → ℕ → Elements → Outcome Elements
    unfolding create_header_array set_element
    flatten_loop headers zero i array_idx out = done out
    flatten_loop headers (suc k) i array_idx out = elim (api.get_index headers i) [
      | none ↦ undefined_behaviour
      | some header ↦ do
        v ← create_header_array header
        flatten_loop headers k (i + 1) ((array_idx + 1) % u32_mod) (set_element out array_idx v)
    ]

    -- the array behind the assertion
    unfoldable pub flatten_array : api.Headers → Outcome Js
    unfolding create
    flatten_array headers = do
      _ ← create (array empty)
      out ← flatten_loop headers (api.count headers) 0 0 empty
      done (array out)

    -- s_headers__flatten, with the number of its arguments
    unfoldable pub headers_flatten : ℕ → api.Headers → Outcome Js
    unfolding flatten_array
    headers_flatten num_args headers = if num_args == 0 then flatten_array headers else aborted

    -- s_iterator_next, once Node has handed over the iterator; the calls that only make the result
    -- object are one `create`
    unfoldable pub iterator_next : api.Headers → HeadersIterator → Outcome (Js × HeadersIterator)
    unfolding create create_header_array
    iterator_next headers it =
        if ltb it.current_index (api.count headers)
        then elim (api.get_index headers it.current_index) [
          | none ↦ undefined_behaviour
          | some header ↦ do
            v ← create_header_array header
            r ← create (result false v)
            done (r, record { current_index = (it.current_index + 1) % size_mod })
        ]
        else do r ← create (result true undefined); done (r, it)
