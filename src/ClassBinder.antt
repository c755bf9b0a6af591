-- ===== src/ClassBinder.antt =====
-- source/class_binder.c: how a call from JavaScript reaches a native method.
pub mod Calls
pub mod Accepts
pub mod Balance
pub mod Construct
pub mod Cursor
use aws_crt_nodejs.Base.{
  ℕ, zero, suc, ◌+◌, ◌-◌, ◌≡◌, Bool, true, false, not, ◌&&◌, ◌||◌, Option, none, some, List, [],
  ◌∷◌, ◌++◌, ltb, leb, if◌then◌else◌, length, get_elem?, take, replicate,
}
use aws_crt_nodejs.Base.Int.{ℤ}
use aws_crt_nodejs.Napi.{
  Status, ok, fail, Failure, string_expected, number_expected, generic_failure, Reply, got, failed,
  ValueType, Napi, Memory, Throw, error, type_error, World, throw,
}
use aws_crt_nodejs.ByteBuf.{ByteBuf, zeroed, byte_buf_init_from_napi, byte_buf_clean_up}

-- AWS_NAPI_METHOD_MAX_ARGS
abbrev pub max_args : ℕ
max_args = 9

-- the union `native`; `unset` is the zeroed union
pub data Native (Pointer : Type 0) : Type 0 where
  unset : Native Pointer
  boolean : Bool → Native Pointer
  number : ℤ → Native Pointer
  string : ByteBuf → Native Pointer
  external : Option Pointer → Native Pointer

-- struct aws_napi_argument
pub record Argument (Value Pointer : Type 0) : Type 0 where
  pub node : Option Value
  pub type : ValueType
  pub native : Native Pointer

-- an element of the array after AWS_ZERO_ARRAY
abbrev pub zeroed_argument : {Value Pointer : Type 0} → Argument Value Pointer
zeroed_argument = record { node = none; type = ValueType.undefined; native = unset }

-- `native_this`: NULL, the unwrapped pointer, or (in a constructor) the JavaScript object
pub data This (Value Pointer : Type 0) : Type 0 where
  null_this : This Value Pointer
  native_this : Pointer → This Value Pointer
  object_this : Value → This Value Pointer

-- struct aws_napi_callback_info; `arguments` is the whole array
pub record CallbackInfo (Value Pointer : Type 0) : Type 0 where
  pub node_this : Value
  pub native : This Value Pointer
  pub arguments : List (Argument Value Pointer)
  pub num_args : ℕ

abbrev pub same_type : ValueType → ValueType → Bool
same_type ValueType.undefined ValueType.undefined = true
same_type ValueType.null ValueType.null = true
same_type ValueType.boolean ValueType.boolean = true
same_type ValueType.number ValueType.number = true
same_type ValueType.string ValueType.string = true
same_type ValueType.symbol ValueType.symbol = true
same_type ValueType.object ValueType.object = true
same_type ValueType.function ValueType.function = true
same_type ValueType.external ValueType.external = true
same_type ValueType.bigint ValueType.bigint = true
same_type _ _ = false

-- the condition of the first `if` of s_argument_parse
unfoldable pub is_rejected : ValueType → ValueType → Bool → Bool
is_rejected expected actual accept_undefined =
    not (same_type expected ValueType.undefined)
    && not (same_type actual expected)
    && not (accept_undefined && same_type actual ValueType.undefined)

-- the switch on `expected_type`: the exception and the status
unfoldable pub rejection : ValueType → Throw × Failure
rejection ValueType.string = (type_error "Class binder argument expected a string", string_expected)
rejection ValueType.number = (type_error "Class binder argument expected a number", number_expected)
rejection _ = (type_error "Class binder argument wrong type", generic_failure)

module _ (n : Napi) (m : Memory) where
  abbrev pub Arg : Type 0
  Arg = Argument n.Value n.Pointer

  abbrev pub Parsed : Type 0
  Parsed = (Status × Arg) × World m

  -- the case napi_string of the switch on `out_value->type`
  unfoldable pub read_string : Arg → n.Value → World m → Parsed
  read_string out v w =
      let ((status, buf), t) = byte_buf_init_from_napi n m zeroed v w.store in
      ((status, record out { native = string buf }), record w { store = t })

  unfoldable pub read_boolean : Arg → Reply Bool → World m → Parsed
  read_boolean out (failed f) w = ((fail f, out), w)
  read_boolean out (got b) w = ((ok, record out { native = boolean b }), w)

  unfoldable pub read_number : Arg → Reply ℤ → World m → Parsed
  read_number out (failed f) w =
      ((fail f, out), throw (type_error "Class binder argument expected a number") w)
  read_number out (got z) w = ((ok, record out { native = number z }), w)

  unfoldable pub read_external : Arg → Reply n.Pointer → World m → Parsed
  read_external out (failed f) w =
      ((fail f, out), throw (type_error "Class binder argument expected an external") w)
  read_external out (got p) w = ((ok, record out { native = external (some p) }), w)

  -- an object that wraps nothing is accepted, with a NULL pointer
  unfoldable pub read_object : Arg → Reply n.Pointer → World m → Parsed
  read_object out (failed f) w = ((ok, record out { native = external none }), w)
  read_object out (got p) w = ((ok, record out { native = external (some p) }), w)

  -- the switch on `out_value->type`
  unfoldable pub read_native : ValueType → Arg → n.Value → World m → Parsed
  unfolding read_boolean read_number read_external read_object
  read_native ValueType.boolean out v w = read_boolean out (n.get_value_bool v) w
  read_native ValueType.string out v w = read_string out v w
  read_native ValueType.number out v w = read_number out (n.get_value_int64 v) w
  read_native ValueType.external out v w = read_external out (n.get_value_external v) w
  read_native ValueType.object out v w = read_object out (n.unwrap v) w
  read_native _ out v w = ((ok, out), w)

  -- s_argument_parse after napi_typeof has answered `actual`
  unfoldable pub parse_typed : Arg → n.Value → ValueType → ValueType → Bool → World m → Parsed
  unfolding is_rejected rejection
  parse_typed out v expected actual accept_undefined w =
      if is_rejected expected actual accept_undefined
      then ((fail (rejection expected).1, out), throw (rejection expected).0 w)
      else read_native actual out v w

  unfoldable pub argument_parse : Arg → n.Value → ValueType → Bool → World m → Parsed
  unfolding parse_typed
  argument_parse out v expected accept_undefined w = elim (n.typeof v) [
    | failed f ↦ ((fail f, record out { node = some v }), w)
    | got actual ↦
        parse_typed (record out { node = some v; type = actual }) v expected actual accept_undefined
          w
  ]

  -- the `string` member of the union; a zeroed union reads as a zeroed buffer
  abbrev pub string_member : Native n.Pointer → ByteBuf
  string_member (string buf) = buf
  string_member _ = zeroed

  unfoldable pub argument_cleanup : Arg → World m → World m
  argument_cleanup a w = elim a.type [
    | ValueType.string ↦ record w { store = byte_buf_clean_up n m (string_member a.native) w.store }
    | _ ↦ w
  ]

  -- the loop after `cleanup_arguments:`
  unfoldable pub cleanup_arguments : List Arg → World m → World m
  cleanup_arguments [] w = w
  cleanup_arguments (a ∷ args) w = cleanup_arguments args (argument_cleanup a w)
