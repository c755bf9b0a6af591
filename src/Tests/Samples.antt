-- ===== src/Tests/Samples.antt =====
-- Instances of the parameters: a Node with a few values, an allocator that numbers its blocks, a
-- header block that is a list, an engine that makes every value.
use aws_crt_nodejs.Base.{
  ℕ, zero, suc, ◌+◌, ◌≤◌, ◌≡◌, Bool, true, false, ◌&&◌, Option, none, some, List, [], ◌∷◌, ◌++◌,
  arith, ltb, leb, if◌then◌else◌, length, get_elem?, has, ◌==◌,
}
use aws_crt_nodejs.Base.Int.{pos}
use aws_crt_nodejs.Napi.{
  Reply, got, failed, invalid_arg, object_expected, string_expected, number_expected,
  array_expected, boolean_expected, ValueType, Napi, Memory, World,
}
use aws_crt_nodejs.HttpHeaders.{Header, Engine, Lookup, found, not_found, HeadersApi}
use aws_crt_nodejs.InputStream.{BufApi}

pub data Sample : Type 0 where
  missing : Sample
  flag : Bool → Sample
  amount : ℕ → Sample
  text : List ℕ → Sample
  -- a string whose bytes Node fails to hand over
  broken : Sample
  pair : List ℕ → List ℕ → Sample
  pairs : List Header → Sample
  bytes : List ℕ → Sample
  instance_of : ℕ → Sample
  handle : ℕ → Sample

abbrev sample_type : Sample → Reply ValueType
sample_type missing = got ValueType.undefined
sample_type (flag b) = got ValueType.boolean
sample_type (amount k) = got ValueType.number
sample_type (text cs) = got ValueType.string
sample_type broken = got ValueType.string
sample_type (handle p) = got ValueType.external
sample_type _ = got ValueType.object

abbrev sample_length : Sample → Reply ℕ
sample_length (text cs) = got (length cs)
sample_length broken = got 3
sample_length _ = failed string_expected

-- at most `capacity` - 1 bytes fit in front of the terminator
abbrev sample_string : Sample → ℕ → Reply (List ℕ)
sample_string (text cs) capacity = if ltb (length cs) capacity then got cs else failed invalid_arg
sample_string _ capacity = failed string_expected

abbrev sample_array_length : Sample → Reply ℕ
sample_array_length (pair a b) = got 2
sample_array_length (pairs hs) = got (length hs)
sample_array_length _ = failed array_expected

abbrev element_of : Option Header → Reply Sample
element_of none = got missing
element_of (some h) = got (pair h.name h.value)

abbrev sample_element : Sample → ℕ → Reply Sample
sample_element (pair a b) i = elim i [ zero ↦ got (text a) | suc j ↦ got (text b) ]
sample_element (pairs hs) i = element_of (get_elem? hs i)
sample_element _ i = failed array_expected

abbrev pub sample_napi : Napi
sample_napi = record {
  Value = Sample;
  Pointer = ℕ;
  typeof = sample_type;
  get_value_bool = λ v. elim v [ flag b ↦ got b | _ ↦ failed boolean_expected ];
  get_value_int64 = λ v. elim v [ amount k ↦ got (pos k) | _ ↦ failed number_expected ];
  get_value_uint32 = λ v. elim v [ amount k ↦ got k | _ ↦ failed number_expected ];
  get_value_external = λ v. elim v [ handle p ↦ got p | _ ↦ failed invalid_arg ];
  unwrap = λ v. elim v [ instance_of p ↦ got p | _ ↦ failed object_expected ];
  get_string_length = sample_length;
  get_value_string_utf8 = sample_string;
  is_array = λ v. elim v [ pair a b ↦ got true | pairs hs ↦ got true | _ ↦ got false ];
  get_array_length = sample_array_length;
  get_element = sample_element;
  is_arraybuffer = λ v. elim v [ bytes bs ↦ got true | _ ↦ got false ];
  get_arraybuffer_info = λ v. elim v [ bytes bs ↦ got bs | _ ↦ failed invalid_arg ];
  is_dataview = λ v. got false;
  get_dataview_info = λ v. failed invalid_arg;
  is_typedarray = λ v. got false;
  get_typedarray_info = λ v. failed invalid_arg;
}

-- the blocks in use, and an allocator that takes the first number above all of them
abbrev pub top : List ℕ → ℕ
top [] = 0
top (b ∷ bs) = if ltb (top bs) b then b else top bs

abbrev remove : ℕ → List ℕ → List ℕ
remove b [] = []
remove b (c ∷ cs) = if c == b then remove b cs else c ∷ remove b cs

top-has : (bs : List ℕ) (c : ℕ) → has c bs ≡ true → c ≤ top bs
top-has [] c h = cc
top-has (b ∷ bs) c h = ground (arith, top-has bs c)

pub has-remove :
    (bs : List ℕ) (b c : ℕ) → has c (remove b bs) ≡ (if b == c then false else has c bs)
has-remove [] b c = ground arith
has-remove (x ∷ bs) b c = ground (arith, has-remove bs b c)

fresh : (bs : List ℕ) → has (top bs + 1) bs ≡ false
fresh bs = ground (arith, top-has bs (top bs + 1))

-- a new block, and the blocks afterwards
abbrev take_block : ℕ → List ℕ → Option (ℕ × List ℕ)
take_block k s = some (top s + 1, (top s + 1) ∷ s)

pub take_block-fresh :
    (k : ℕ) (s t : List ℕ) (b : ℕ) → take_block k s ≡ some (b, t) → has b s ≡ false
take_block-fresh k s t b e = ground (arith, fresh s)

pub take_block-has :
    (k : ℕ) (s t : List ℕ) (b c : ℕ)
    → take_block k s ≡ some (b, t)
    → has c t ≡ (if b == c then true else has c s)
take_block-has k s t b c e = ground arith

abbrev pub sample_memory : Memory
sample_memory = record {
  Store = List ℕ;
  buf_init = take_block;
  clean_up = remove;
  live = λ s c. has c s;
  buf_init_fresh = take_block-fresh;
  buf_init_live = take_block-has;
  clean_up_live = λ s b c h. has-remove s b c;
}

abbrev pub idle : World sample_memory
idle = record { store = []; thrown = [] }

abbrev pub engine : Engine
engine = record { creates = λ v. true }

-- names are compared as they stand
abbrev same : List ℕ → List ℕ → Bool
same [] [] = true
same (x ∷ xs) (y ∷ ys) = (x == y) && same xs ys
same _ _ = false

abbrev look_up : List Header → List ℕ → Lookup
look_up [] name = not_found
look_up (h ∷ hs) name = if same h.name name then found h.value else look_up hs name

abbrev without : (Header → Bool) → List Header → List Header
without drops [] = []
without drops (h ∷ hs) = if drops h then without drops hs else h ∷ without drops hs

abbrev pub add_last : List Header → List ℕ → List ℕ → Option (List Header)
add_last hs [] value = none
add_last hs name value = some (hs ++ record { name = name; value = value } ∷ [])

abbrev pub headers_api : HeadersApi
headers_api = record {
  Headers = List Header;
  new = [];
  count = λ hs. length hs;
  get_index = get_elem?;
  get = look_up;
  add = add_last;
  set = λ hs name value. add_last (without (λ h. same h.name name) hs) name value;
  erase = λ hs name. some (without (λ h. same h.name name) hs);
  erase_value = λ hs name value. some (without (λ h. same h.name name && same h.value value) hs);
  clear = λ hs. [];
  eq_ignore_case = same;
}

abbrev pub two_headers : List Header
two_headers =
    record { name = 65 ∷ []; value = 1 ∷ 2 ∷ [] } ∷ record { name = 66 ∷ []; value = [] } ∷ []

abbrev joined : ℕ → List ℕ → List ℕ → Option (List ℕ)
joined capacity xs ys = if leb (length xs + length ys) capacity then some (xs ++ ys) else none

abbrev pub buf_api : BufApi
buf_api = record { append = joined; write = joined }
