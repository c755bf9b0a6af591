-- ===== src/HttpHeaders/Construct.antt =====
-- s_headers_constructor of source/http_headers.c: a header block from an array of
-- [name, value] arrays.
use Prim.Native.Nat.{max}
use aws_crt_nodejs.Base.{
  ℕ, zero, suc, ◌+◌, ◌%◌, Bool, true, false, Option, none, some, ◌==◌, length, get_elem?,
}
use aws_crt_nodejs.Napi.{
  Status, ok, fail, Reply, got, failed, ValueType, Napi, Throw, error, type_error, size_mod,
}
use aws_crt_nodejs.ClassBinder.{CallbackInfo}
use aws_crt_nodejs.ClassBinder.Calls.{method_next_argument}
use aws_crt_nodejs.HttpHeaders.{Header, HeadersApi}

-- A step that goes on with a value, or raises an exception and leaves.
pub data Attempt (A : Type 0) : Type 0 where
  parsed : A → Attempt A
  raises : Throw → Attempt A

infixl 5 ◌>>=◌ ◌>>◌
abbrev ◌>>=◌ : {A B : Type 0} → Attempt A → (A → Attempt B) → Attempt B
parsed a >>= f = f a
raises t >>= f = raises t

abbrev ◌>>◌ : {B : Type 0} → Attempt (Unit {0}) → Attempt B → Attempt B
m >> k = m >>= λ _. k

-- AWS_NAPI_CALL(…, { napi_throw_error(…); goto header_parse_error; })
abbrev or_raise : {A : Type 0} → Reply A → Throw → Attempt A
or_raise (got a) t = parsed a
or_raise (failed f) t = raises t

abbrev require : Bool → Throw → Attempt (Unit {0})
require true t = parsed tt
require false t = raises t

-- the capacities of `name_buf` and `value_buf`, which the loop reuses
pub record Buffers : Type 0 where
  pub name_capacity : ℕ
  pub value_capacity : ℕ

-- aws_byte_buf_reserve: a smaller buffer grows to the size asked for
abbrev pub reserve : ℕ → ℕ → ℕ
reserve capacity length = max capacity ((length + 1) % size_mod)

not_a_string : Throw
not_a_string = type_error "HTTP header was not a string or length could not be extracted"

module _ (n : Napi) where
  -- the body of the loop for the element at `idx`
  unfoldable pub read_header : n.Value → ℕ → Buffers → Attempt (Header × Buffers)
  unfolding not_a_string
  read_header node_headers idx bufs = do
    node_header ← or_raise (n.get_element node_headers idx) (error "Failed to extract headers")
    is_array ← or_raise (n.is_array node_header) (error "Cannot determine if headers are an array")
    require is_array (type_error "headers must be an array of 2 element arrays")
    num_parts ←
        or_raise (n.get_array_length node_header) (error "Could not get length of header parts")
    require (num_parts == 2) (error "Could not get length of header parts or length was not 2")
    node_name ← or_raise (n.get_element node_header 0) (error "Could not extract header name")
    node ← or_raise (n.get_element node_header 1) (error "Could not extract header value")
    name_length ← or_raise (n.get_string_length node_name) not_a_string
    let name_capacity = reserve bufs.name_capacity name_length
    value_length ← or_raise (n.get_string_length node) not_a_string
    let value_capacity = reserve bufs.value_capacity value_length
    name ←
        or_raise (n.get_value_string_utf8 node_name name_capacity)
          (error "HTTP header name could not be extracted")
    value ←
        or_raise (n.get_value_string_utf8 node value_capacity)
          (error "HTTP header value could not be extracted")
    parsed (
      record { name = name; value = value },
      record { name_capacity = name_capacity; value_capacity = value_capacity },
    )

  module _ (api : HeadersApi) where
    -- the result of aws_http_headers_add is not looked at
    abbrev pub add_or_keep : api.Headers → Header → api.Headers
    add_or_keep headers h = elim (api.add headers h.name h.value) [
      | none ↦ headers
      | some new ↦ new
    ]

    -- the loop, with `k` rounds left; a failure keeps the block as filled so far, for its release
    unfoldable pub read_headers :
        n.Value → ℕ → ℕ → Buffers → api.Headers → api.Headers × Option Throw
    read_headers node_headers zero idx bufs headers = (headers, none)
    read_headers node_headers (suc k) idx bufs headers = elim (read_header node_headers idx bufs) [
      | raises t ↦ (headers, some t)
      | parsed (h, bufs') ↦ read_headers node_headers k (idx + 1) bufs' (add_or_keep headers h)
    ]

    -- What becomes of the new block: JavaScript owns it, or it was released after an exception.
    pub data Constructed : Type 0 where
      wrapped : api.Headers → Constructed
      released : Throw → Constructed
      overrun : Constructed

    -- from `header_parse_success:` on, with napi_wrap's status
    unfoldable pub wrap_headers : Status → api.Headers → Constructed
    wrap_headers ok headers = wrapped headers
    wrap_headers (fail f) headers = released (error "Failed to wrap HttpHeaders")

    -- the part under `if (aws_napi_method_next_argument(…))`
    unfoldable pub fill_headers : Status → n.Value → Constructed
    unfolding wrap_headers
    fill_headers wrap node_headers = elim (n.is_array node_headers) [
      | got true ↦ elim (n.get_array_length node_headers) [
        | failed f ↦ released (error "Could not get length of header array")
        | got num_headers ↦
            let bufs : Buffers = record { name_capacity = 256; value_capacity = 256 } in
            let (headers, left) = read_headers node_headers num_headers 0 bufs api.new in
            elim left [ none ↦ wrap_headers wrap headers | some t ↦ released t ]
      ]
      | _ ↦ released (type_error "headers must be an array of arrays")
    ]

    unfoldable pub headers_constructor : Status → CallbackInfo n.Value n.Pointer → Constructed
    unfolding wrap_headers
    headers_constructor wrap cb_info =
        let (i, here) = method_next_argument ValueType.object cb_info none in
        elim here [
          | none ↦ overrun
          | some false ↦ wrap_headers wrap api.new
          | some true ↦ elim (get_elem? cb_info.arguments i) [
            | none ↦ overrun
            | some arg ↦ elim arg.node [
              | none ↦ released (type_error "headers must be an array of arrays")
              | some node ↦ fill_headers wrap node
            ]
          ]
        ]
