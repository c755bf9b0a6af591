-- ===== src/ClassBinder/Calls.antt =====
-- source/class_binder.c: the callbacks that Node calls, s_method_call, s_constructor (for a new
-- object), s_property_getter and s_property_setter, and the cursor aws_napi_method_next_argument.
use aws_crt_nodejs.Base.{
  ℕ, ◌+◌, ◌-◌, Bool, true, false, not, ◌&&◌, ◌||◌, Option, none, some, List, [], ◌∷◌, ◌++◌, ltb,
  leb, if◌then◌else◌, length, get_elem?, take, replicate, ◌==◌,
}
use aws_crt_nodejs.Napi.{ok, fail, Reply, got, failed, ValueType, Napi, Memory, error, World, throw}
use aws_crt_nodejs.ClassBinder.{
  max_args, zeroed_argument, This, null_this, native_this, object_this, CallbackInfo, same_type,
  Arg, argument_parse, argument_cleanup, cleanup_arguments,
}

-- what napi_get_cb_info answers: every argument of the call, and the receiver
pub record CallInfo (Value : Type 0) : Type 0 where
  pub args : List Value
  pub this : Value

-- `num_args` after the clamp: Node reports how many arguments were passed, also past the array
unfoldable pub clamp_args : ℕ → ℕ
clamp_args num_args = if ltb max_args num_args then max_args else num_args

module _ (n : Napi) (m : Memory) where
  abbrev pub Method : Type 0
  Method = CallbackInfo n.Value n.Pointer → World m → Option n.Value × World m

  -- struct aws_napi_method_info, the part that a call reads
  pub record MethodInfo : Type 0 where
    pub num_arguments : ℕ
    pub arg_types : List ValueType
    pub is_static : Bool
    pub method : Option Method

  -- `arg_types[i]`; an array element with no initialiser is 0, which is napi_undefined
  unfoldable pub type_at : List ValueType → ℕ → ValueType
  type_at types i = elim (get_elem? types i) [ none ↦ ValueType.undefined | some t ↦ t ]

  -- The loop over `args[i]`; the arguments behind a failure stay zeroed.
  unfoldable pub parse_arguments :
      MethodInfo → ℕ → List n.Value → World m → (Bool × List (Arg n m)) × World m
  unfolding type_at
  parse_arguments info i [] w = ((true, []), w)
  parse_arguments info i (v ∷ vs) w =
      let ((status, a), w1) =
        argument_parse n m zeroed_argument v (type_at info.arg_types i) (leb info.num_arguments i)
          w in
      let ((parsed, rest), w2) = parse_arguments info (i + 1) vs w1 in
      elim status [
        | ok ↦ ((parsed, a ∷ rest), w2)
        | fail f ↦ ((false, a ∷ replicate (length vs) zeroed_argument), w1)
      ]

  -- the array `args` of AWS_NAPI_METHOD_MAX_ARGS elements
  abbrev pub whole_array : List (Arg n m) → List (Arg n m)
  whole_array args = args ++ replicate (max_args - length args) zeroed_argument

  -- aws_napi_define_class asserts that a method is there; a constructor may have none
  abbrev pub run_method :
      Option Method → CallbackInfo n.Value n.Pointer → World m → Option n.Value × World m
  run_method none info w = (none, w)
  run_method (some f) info w = f info w

  -- s_method_call from the loop on
  unfoldable pub call_parsed :
      MethodInfo
      → n.Value
      → This n.Value n.Pointer
      → List n.Value
      → World m
      → Option n.Value × World m
  call_parsed info this native values w =
      let ((parsed, args), w1) = parse_arguments info 0 values w in
      let cb_info : CallbackInfo n.Value n.Pointer = record {
        node_this = this;
        native = native;
        arguments = whole_array args;
        num_args = length values;
      } in
      let (result, w2) = run_method info.method cb_info w1 in
      if parsed
      then (result, cleanup_arguments n m args w2)
      else (none, cleanup_arguments n m args w1)

  -- s_method_call
  unfoldable pub method_call :
      MethodInfo → Reply (CallInfo n.Value) → World m → Option n.Value × World m
  method_call info (failed f) w = (none, throw (error "Failed to retreive callback information") w)
  method_call info (got call) w =
      let num_args = clamp_args (length call.args) in
      let values = take num_args call.args in
      if ltb num_args info.num_arguments
      then (none, throw (error "Bound class's method requires more arguments") w)
      else if info.is_static
      then call_parsed info call.this null_this values w
      else elim (n.unwrap call.this) [
        | failed f ↦
            (none, throw (error "Bound class's method must be called on instance of the class") w)
        | got p ↦ call_parsed info call.this (native_this p) values w
      ]

  -- s_constructor from the loop on: the loop after `cleanup_arguments:` stops at `num_arguments`
  unfoldable pub construct_parsed : MethodInfo → Method → n.Value → List n.Value → World m → World m
  construct_parsed info f this values w =
      let ((parsed, args), w1) = parse_arguments info 0 values w in
      let cb_info : CallbackInfo n.Value n.Pointer = record {
        node_this = this;
        native = object_this this;
        arguments = whole_array args;
        num_args = length values;
      } in
      let (_, w2) = f cb_info w1 in
      cleanup_arguments n m (take info.num_arguments args) (if parsed then w2 else w1)

  -- s_constructor where no existing native object is being wrapped; `result` is always NULL
  unfoldable pub construct : MethodInfo → Reply (CallInfo n.Value) → World m → World m
  construct info (failed f) w = throw (error "Failed to retreive callback information") w
  construct info (got call) w =
      let num_args = clamp_args (length call.args) in
      let values = take num_args call.args in
      elim info.method [
        | none ↦ w
        | some f ↦
            if ltb num_args info.num_arguments
            then throw (error "Class binder constructor given incorrect number of arguments") w
            else construct_parsed info f call.this values w
      ]

  -- struct aws_napi_property_info, the part that a call reads
  pub record PropertyInfo : Type 0 where
    pub type : ValueType
    pub getter : Option (n.Pointer → World m → Option n.Value × World m)
    pub setter : Option (n.Pointer → Arg n m → World m → World m)

  -- s_property_getter in a release build
  unfoldable pub property_getter :
      PropertyInfo → Reply (CallInfo n.Value) → World m → Option n.Value × World m
  property_getter info (failed f) w =
      (none, throw (error "Failed to retreive callback information") w)
  property_getter info (got call) w =
      if not (length call.args == 0)
      then (none, throw (error "Class binder getter needs exactly 0 arguments") w)
      else elim (n.unwrap call.this) [
        | failed f ↦ (
          none,
          throw (error "Class binder property getter must be called on a wrapped object") w,
        )
        | got p ↦ elim info.getter [
          | none ↦ (none, throw (error "Property is not readable") w)
          | some get ↦ get p w
        ]
      ]

  -- the end of s_property_setter; `new_value` is cleaned up only if it was parsed
  unfoldable pub set_parsed :
      PropertyInfo
      → (n.Pointer → Arg n m → World m → World m)
      → n.Pointer
      → n.Value
      → World m
      → World m
  set_parsed info set p v w =
      let ((status, a), w1) = argument_parse n m zeroed_argument v info.type false w in
      elim status [ ok ↦ argument_cleanup n m a (set p a w1) | fail f ↦ w1 ]

  unfoldable pub property_setter : PropertyInfo → Reply (CallInfo n.Value) → World m → World m
  property_setter info (failed f) w = throw (error "Failed to retreive callback information") w
  property_setter info (got call) w = elim call.args [
    | v ∷ [] ↦ elim (n.unwrap call.this) [
      | failed f ↦
          throw (error "Class binder setter must be called on instance of a wrapped object") w
      | got p ↦ elim info.setter [
        | none ↦ throw (error "Property is not writable") w
        | some set ↦ set_parsed info set p v w
      ]
    ]
    | _ ↦ throw (error "Class binder setter needs exactly 1 arguments") w
  ]

-- The index after `*next_arg` moves on, and the answer; `none` is a read outside the array.
unfoldable pub method_next_argument :
    {Value Pointer : Type 0} → ValueType → CallbackInfo Value Pointer → Option ℕ → ℕ × Option Bool
method_next_argument expected info next_arg =
    let current_index : ℕ = elim next_arg [ none ↦ 0 | some i ↦ i + 1 ] in
    (
      current_index,
      if leb current_index info.num_args
          then elim (get_elem? info.arguments current_index) [
            | none ↦ none
            | some a ↦ some (
                same_type expected ValueType.undefined && not (same_type a.type ValueType.undefined)
                || same_type expected a.type)
          ]
          else some false,
    )
