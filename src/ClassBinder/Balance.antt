-- ===== src/ClassBinder/Balance.antt =====
-- The buffers that the class binder allocates for string arguments.
use aws_crt_nodejs.Base.{
  ℕ, zero, suc, ◌+◌, ◌≡◌, refl, Bool, Option, none, some, List, [], ◌∷◌, ◌++◌, arith, take, leb,
  length, replicate, append-nil, append_assoc, Bool-cases, inl, inr,
}
use aws_crt_nodejs.Napi.{
  Reply, Status-cases, Reply-cases, got, failed, ValueType, Napi, Memory, World,
}
use aws_crt_nodejs.Ownership.{
  Holds, SameLive, Holds-nil, Holds-append, Holds-of_SameLive, SameLive-of_Holds,
}
use aws_crt_nodejs.ByteBuf.Balance.{blocks, byte_buf_init_from_napi-Holds, Holds-byte_buf_clean_up}
use aws_crt_nodejs.ClassBinder.{
  Native, zeroed_argument, Arg, string_member, read_string, read_native, parse_typed, is_rejected,
  argument_parse, argument_cleanup, cleanup_arguments, This, CallbackInfo,
}
use aws_crt_nodejs.ClassBinder.Calls.{
  CallInfo, Method, MethodInfo, type_at, parse_arguments, call_parsed, method_call, run_method,
  clamp_args,
}

module _ (n : Napi) (m : Memory) where
  -- The blocks that cleaning an argument up gives back.
  abbrev pub arg_blocks : Arg n m → List ℕ
  arg_blocks a = elim a.type [ ValueType.string ↦ blocks (string_member n m a.native) | _ ↦ [] ]

  abbrev pub args_blocks : List (Arg n m) → List ℕ
  args_blocks [] = []
  args_blocks (a ∷ args) = arg_blocks a ++ args_blocks args

  args_blocks-zeroed : (k : ℕ) → args_blocks (replicate k zeroed_argument) ≡ []
  args_blocks-zeroed zero = refl
  args_blocks-zeroed (suc k) = args_blocks-zeroed k

  read_native-Holds :
      (actual : ValueType) (v : n.Value) (w : World m)
      → let r =
          read_native n m actual
            (record { node = some v; type = actual; native = Native.unset })
            v
            w in
        Holds m w.store r.1.store (arg_blocks r.0.1)
  unfolding read_native read_string
  read_native-Holds ValueType.string v w = byte_buf_init_from_napi-Holds n m v w.store
  read_native-Holds ValueType.boolean v w = ground (arith, Holds-nil {m = m} w.store)
  read_native-Holds _ v w = ground (arith, Holds-nil {m = m} w.store)

  arg_blocks-unset :
      (v : Option n.Value) (actual : ValueType)
      → arg_blocks (record { node = v; type = actual; native = Native.unset }) ≡ []
  arg_blocks-unset v ValueType.string = refl
  arg_blocks-unset v _ = ground arith

  parse_typed-Holds :
      (v : n.Value) (expected actual : ValueType) (accept_undefined : Bool) (w : World m)
      → let out : Arg n m = record { node = some v; type = actual; native = Native.unset } in
        let r = parse_typed n m out v expected actual accept_undefined w in
        Holds m w.store r.1.store (arg_blocks r.0.1)
  unfolding parse_typed
  parse_typed-Holds v expected actual accept_undefined w =
      elim (Bool-cases (is_rejected expected actual accept_undefined)) [
        | inl e ↦ rw (e, arg_blocks-unset (some v) actual) (Holds-nil {m = m} w.store)
        | inr e ↦ rw e (read_native-Holds actual v w)
      ]

  -- Whatever the value and the answers of Node, also where it is refused.
  pub argument_parse-Holds :
      (v : n.Value) (expected : ValueType) (accept_undefined : Bool) (w : World m)
      → let r = argument_parse n m zeroed_argument v expected accept_undefined w in
        Holds m w.store r.1.store (arg_blocks r.0.1)
  unfolding argument_parse
  argument_parse-Holds v expected accept_undefined w = elim (Reply-cases (n.typeof v)) [
    | inl (actual, e) ↦
        rw (e, argument_parse) (parse_typed-Holds v expected actual accept_undefined w)
    | inr (f, e) ↦ rw (e, argument_parse) (Holds-nil {m = m} w.store)
  ]

  pub parse_arguments-Holds :
      (info : MethodInfo n m) (i : ℕ) (vs : List n.Value) (w : World m)
      → let r = parse_arguments n m info i vs w in Holds m w.store r.1.store (args_blocks r.0.1)
  unfolding parse_arguments
  parse_arguments-Holds info i [] w = Holds-nil w.store
  parse_arguments-Holds info i (v ∷ vs) w =
      let expected = type_at n m info.arg_types i in
      let accept = leb info.num_arguments i in
      let out = argument_parse n m zeroed_argument v expected accept w in
      let first = argument_parse-Holds v expected accept w in
      elim (Status-cases out.0.0) [
        | inl e ↦
            rw (e, parse_arguments)
              (Holds-append first (parse_arguments-Holds info (i + 1) vs out.1))
        | inr (f, e) ↦ rw (e, parse_arguments, args_blocks-zeroed (length vs), append-nil) first
      ]

  pub Holds-argument_cleanup :
      (s : m.Store) (a : Arg n m) (w : World m) (bs : List ℕ)
      → Holds m s w.store (arg_blocks a ++ bs)
      → Holds m s (argument_cleanup n m a w).store bs
  Holds-argument_cleanup s a w bs h = go a.type h
    where
      go :
          (t : ValueType)
          → Holds m s w.store (arg_blocks (record a { type = t }) ++ bs)
          → Holds m s (argument_cleanup n m (record a { type = t }) w).store bs
      go ValueType.string k =
          unfold argument_cleanup in Holds-byte_buf_clean_up n m (string_member n m a.native) k
      go _ k = unfold argument_cleanup in k

  pub Holds-cleanup_arguments :
      (s : m.Store) (args : List (Arg n m)) (w : World m) (bs : List ℕ)
      → Holds m s w.store (args_blocks args ++ bs)
      → Holds m s (cleanup_arguments n m args w).store bs
  unfolding cleanup_arguments
  Holds-cleanup_arguments s [] w bs h = h
  Holds-cleanup_arguments s (a ∷ args) w bs h =
      Holds-cleanup_arguments s args (argument_cleanup n m a w) bs (
        Holds-argument_cleanup s a w (args_blocks args ++ bs)
          (rw (append_assoc (arg_blocks a) (args_blocks args) bs) at h))

  -- The method's own code leaves the allocator's blocks as it finds them.
  abbrev pub KeepsLive : Option (Method n m) → Type 0
  KeepsLive none = Unit {0}
  KeepsLive (some f) =
      (info : CallbackInfo n.Value n.Pointer) (w : World m) → SameLive m w.store (f info w).1.store

  run_method-SameLive :
      (f : Option (Method n m)) (info : CallbackInfo n.Value n.Pointer) (w : World m)
      → KeepsLive f
      → SameLive m w.store (run_method n m f info w).1.store
  run_method-SameLive none info w k c = refl
  run_method-SameLive (some f) info w k c = k info w c

  -- From the parsed arguments on: the method may change the store, as long as it keeps the blocks.
  pub released :
      (info : MethodInfo n m) (i : ℕ) (vs : List n.Value) (w w2 : World m)
      → let r = parse_arguments n m info i vs w in
        SameLive m r.1.store w2.store → SameLive m w.store (cleanup_arguments n m r.0.1 w2).store
  released info i vs w w2 k =
      let r = parse_arguments n m info i vs w in
      SameLive-of_Holds (
        Holds-cleanup_arguments w.store r.0.1 w2 []
          (Holds-append (parse_arguments-Holds info i vs w) (Holds-of_SameLive k)))

  call_parsed-SameLive :
      (info : MethodInfo n m) (this : n.Value) (native : This n.Value n.Pointer) (vs : List n.Value)
      (w : World m)
      → KeepsLive info.method
      → SameLive m w.store (call_parsed n m info this native vs w).1.store
  unfolding call_parsed
  call_parsed-SameLive info this native vs w k =
      let r = parse_arguments n m info 0 vs w in
      elim (Bool-cases r.0.0) [
        | inl e ↦
            rw (e, call_parsed) (released info 0 vs w _ (run_method-SameLive info.method _ r.1 k))
        | inr e ↦ rw (e, call_parsed) (released info 0 vs w r.1 (λ c. refl))
      ]

  -- A call of a bound method leaves the allocator's blocks as they were, for every receiver and
  -- argument list and whatever Node answers: also where too few arguments are passed, where one
  -- is refused after others were copied, and where more are passed than the array holds.
  -- The native method itself is assumed to leave the blocks as it finds them.
  pub method_call-SameLive :
      (info : MethodInfo n m) (call : Reply (CallInfo n.Value)) (w : World m)
      → KeepsLive info.method
      → SameLive m w.store (method_call n m info call w).1.store
  unfolding method_call
  method_call-SameLive info (failed f) w k c = refl
  method_call-SameLive info (got call) w k c =
      let values = take (clamp_args (length call.args)) call.args in
      let static = call_parsed-SameLive info call.this This.null_this values w k c in
      elim (Reply-cases (n.unwrap call.this)) [
        | inl (p, e) ↦
            ground
              (arith, static, call_parsed-SameLive info call.this (This.native_this p) values w k c)
        | inr (f, e) ↦ ground (arith, static)
      ]
