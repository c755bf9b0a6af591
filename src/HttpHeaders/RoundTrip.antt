-- ===== src/HttpHeaders/RoundTrip.antt =====
-- The HttpHeaders constructor against `_flatten`: what goes in comes out.
use aws_crt_nodejs.Base.{
  ℕ, ◌+◌, ◌<◌, ◌≡◌, ◌≢◌, refl, sym, ap, ◌∙◌, Bool, true, false, ◌&&◌, ◌||◌, ◌==◌, leb, Option, none,
  some, List, [], ◌∷◌, ◌++◌, map, append_assoc, append-nil, arith, length, get_elem?,
}
use aws_crt_nodejs.Napi.{Throw, ok, got, Napi, size_mod}
use aws_crt_nodejs.HttpHeaders.{Header, array, done, Engine, HeadersApi, u32_mod, headers_flatten}
use aws_crt_nodejs.HttpHeaders.Contents.{
  HeadersLaws, Creates, elements, pair, headers_flatten-entries, get_elem?-middle, step,
}
use aws_crt_nodejs.HttpHeaders.Construct.{
  parsed, Buffers, reserve, read_header, read_headers, wrapped, fill_headers, add_or_keep,
}

-- white space that aws-c-http takes off a header
abbrev is_white : ℕ → Bool
is_white c = (c == 32) || (leb 9 c && leb c 13)

abbrev first_white : List ℕ → Bool
first_white [] = false
first_white (c ∷ cs) = is_white c

abbrev last_white : List ℕ → Bool
last_white [] = false
last_white (c ∷ []) = is_white c
last_white (c ∷ d ∷ cs) = last_white (d ∷ cs)

-- the name of a pseudo-header starts with a colon
abbrev is_pseudo : List ℕ → Bool
is_pseudo [] = false
is_pseudo (c ∷ cs) = c == 58

-- A header that aws-c-http keeps as it stands: it has a name, is no pseudo-header, has no white space
-- at either end of its name or value, and the length of both together is a size_t.
pub record IsPlain (h : Header) : Type 0 where
  pub has_name : h.name ≢ []
  pub regular : is_pseudo h.name ≡ false
  pub trimmed_name : (first_white h.name ≡ false) × (last_white h.name ≡ false)
  pub trimmed_value : (first_white h.value ≡ false) × (last_white h.value ≡ false)
  pub small : length h.name + length h.value < size_mod

-- aws_http_headers_add puts a plain header at the end. (It takes white space off others, puts
-- pseudo-headers in front, and refuses a header without a name.)
pub record AddLaws (api : HeadersApi) (laws : HeadersLaws api) : Type 0 where
  pub new_lem : laws.entries api.new ≡ []
  pub add_lem :
      (h : api.Headers) (name value : List ℕ)
      → IsPlain (record { name = name; value = value })
      → (h' : api.Headers) × (api.add h name value ≡ some h')
        × (laws.entries h' ≡ laws.entries h ++ record { name = name; value = value } ∷ [])

module _ (n : Napi) where
  -- A JavaScript string of these bytes.
  pub record IsString (v : n.Value) (bytes : List ℕ) : Type 0 where
    pub has_length : n.get_string_length v ≡ got (length bytes)
    pub fits : length bytes + 1 < size_mod
    pub copied :
        (capacity : ℕ) → length bytes < capacity → n.get_value_string_utf8 v capacity ≡ got bytes

  -- A JavaScript array [name, value].
  pub record IsPair (v : n.Value) (h : Header) : Type 0 where
    pub pair_array : n.is_array v ≡ got true
    pub pair_length : n.get_array_length v ≡ got 2
    pub first : n.Value
    pub second : n.Value
    pub at_0 : n.get_element v 0 ≡ got first
    pub at_1 : n.get_element v 1 ≡ got second
    pub is_name : IsString first h.name
    pub is_value : IsString second h.value

  -- A JavaScript array of such pairs.
  pub record IsHeaderList (v : n.Value) (hs : List Header) : Type 0 where
    pub list_array : n.is_array v ≡ got true
    pub list_length : n.get_array_length v ≡ got (length hs)
    pub at :
        (i : ℕ) (h : Header)
        → get_elem? hs i ≡ some h
        → (x : n.Value) × (n.get_element v i ≡ got x) × IsPair x h

  reserve_room : (capacity k : ℕ) → k + 1 < size_mod → k < reserve capacity k
  reserve_room capacity k h = omega arith

  read_string_value :
      (v : n.Value) (bytes : List ℕ) (capacity : ℕ)
      → IsString v bytes
      → n.get_value_string_utf8 v (reserve capacity (length bytes)) ≡ got bytes
  read_string_value v bytes capacity s =
      s.copied (reserve capacity (length bytes)) (reserve_room capacity (length bytes) s.fits)

  read_header-pair :
      (v x : n.Value) (i : ℕ) (bufs : Buffers) (h : Header)
      → n.get_element v i ≡ got x
      → IsPair x h
      → (bufs' : Buffers) × (read_header n v i bufs ≡ parsed (h, bufs'))
  unfolding read_header
  read_header-pair v x i bufs h e p = (
    record {
      name_capacity = reserve bufs.name_capacity (length h.name);
      value_capacity = reserve bufs.value_capacity (length h.value);
    },
    rw (
      e,
      p.pair_array,
      p.pair_length,
      p.at_0,
      p.at_1,
      p.is_name.has_length,
      p.is_value.has_length,
      read_string_value p.first h.name bufs.name_capacity p.is_name,
      read_string_value p.second h.value bufs.value_capacity p.is_value,
    ),
  )

  module _ (api : HeadersApi) (laws : HeadersLaws api) (adds : AddLaws api laws) where
    open laws use {entries}

    abbrev pub Plain : List Header → Type 0
    Plain [] = Unit {0}
    Plain (h ∷ hs) = IsPlain h × Plain hs

    read_headers-entries :
        (v : n.Value) (hs before rest : List Header) (bufs : Buffers) (start : api.Headers)
        → IsHeaderList v hs
        → hs ≡ before ++ rest
        → Plain rest
        → entries start ≡ before
        → (h : api.Headers) × (read_headers n api v (length rest) (length before) bufs start
            ≡ (h, none))
          × (entries h ≡ hs)
    unfolding read_headers
    read_headers-entries v hs before [] bufs start is split named same =
        (start, refl, same ∙ sym (split ∙ append-nil before))
    read_headers-entries v hs before (x ∷ rest) bufs start is split named same =
        let (v', at_v', is_pair) =
          is.at (length before) x (rw split (get_elem?-middle before rest x)) in
        let (bufs', reads) = read_header-pair v v' (length before) bufs x at_v' is_pair in
        let (start', added, entries') = adds.add_lem start x.name x.value named.0 in
        let (h, run, all) =
          read_headers-entries v hs (before ++ x ∷ []) rest bufs' start' is
            (split ∙ sym (append_assoc before (x ∷ []) rest)) named.1
            (entries' ∙ ap (λ l. l ++ x ∷ []) same) in
        (h, rw (reads, read_headers, added, add_or_keep, step before x) run, all)

    -- A JavaScript array of [name, value] arrays of strings becomes a header block that `_flatten`,
    -- called without arguments, turns into the same pairs in the same order. Every header has a name,
    -- is no pseudo-header and has no white space at either end of its name or value. The block holds
    -- fewer than 2^32 headers, the strings of each header together fit in memory, napi_wrap succeeds
    -- and the engine makes every value.
    -- The laws of `HeadersLaws` and `AddLaws` hold.
    pub fill_headers-flatten :
        (e : Engine) (v : n.Value) (hs : List Header)
        → Creates e
        → IsHeaderList v hs
        → Plain hs
        → length hs < u32_mod
        → (h : api.Headers) × (fill_headers n api ok v ≡ wrapped h)
          × (headers_flatten e api 0 h ≡ done (array (elements (map pair hs))))
    unfolding fill_headers
    fill_headers-flatten e v hs creates is named small =
        let bufs : Buffers = record { name_capacity = 256; value_capacity = 256 } in
        let (h, run, all) =
          read_headers-entries v hs [] hs bufs api.new is refl named adds.new_lem in
        (
          h,
          rw (is.list_array, fill_headers, is.list_length, run)
              (ap (λ (p : api.Headers × Option Throw). wrapped p.0) run),
          headers_flatten-entries e creates api laws h (rw all small)
              ∙ ap (λ l. done (array (elements (map pair l)))) all,
        )
