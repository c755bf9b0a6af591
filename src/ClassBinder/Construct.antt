-- ===== src/ClassBinder/Construct.antt =====
-- The buffers that s_constructor allocates, and those that it forgets: its cleanup loop stops at
-- `num_arguments`, where that of s_method_call goes on to `num_args`.
use aws_crt_nodejs.Base.{
  ℕ, ◌≤◌, ◌≡◌, refl, sym, ap, ◌∙◌, some, List, [], ◌∷◌, ◌++◌, arith, take, drop, length, append-nil,
  append_assoc, take-append-drop, Bool-cases, inl, inr,
}
use aws_crt_nodejs.Napi.{got, Napi, Memory, World}
use aws_crt_nodejs.Ownership.{Holds, SameLive, Holds-append, Holds-of_SameLive}
use aws_crt_nodejs.ClassBinder.{Arg, cleanup_arguments}
use aws_crt_nodejs.ClassBinder.Calls.{
  CallInfo, Method, MethodInfo, parse_arguments, construct_parsed, construct, clamp_args,
}
use aws_crt_nodejs.ClassBinder.Balance.{
  args_blocks, arg_blocks, parse_arguments-Holds, Holds-cleanup_arguments, KeepsLive,
}

module _ (n : Napi) (m : Memory) where
  args_blocks-append :
      (xs ys : List (Arg n m))
      → args_blocks n m (xs ++ ys) ≡ args_blocks n m xs ++ args_blocks n m ys
  args_blocks-append [] ys = refl
  args_blocks-append (x ∷ xs) ys =
      rw (args_blocks-append xs ys)
        (sym (append_assoc (arg_blocks n m x) (args_blocks n m xs) (args_blocks n m ys)))

  split-args_blocks :
      (k : ℕ) (args : List (Arg n m))
      → args_blocks n m args ≡ args_blocks n m (take k args) ++ args_blocks n m (drop k args)
  split-args_blocks k args =
      ap (args_blocks n m) (sym (take-append-drop k args))
      ∙ args_blocks-append (take k args) (drop k args)

  -- Cleaning up the first `k` arguments keeps exactly the blocks of the others.
  partly_released :
      (info : MethodInfo n m) (k : ℕ) (vs : List n.Value) (w w2 : World m)
      → let r = parse_arguments n m info 0 vs w in
        SameLive m r.1.store w2.store
        → Holds m w.store
            (cleanup_arguments n m (take k r.0.1) w2).store
            (args_blocks n m (drop k r.0.1))
  partly_released info k vs w w2 same =
      let r = parse_arguments n m info 0 vs w in
      let held = Holds-append (parse_arguments-Holds n m info 0 vs w) (Holds-of_SameLive same) in
      Holds-cleanup_arguments n m w.store (take k r.0.1) w2 (args_blocks n m (drop k r.0.1))
        (rw (← split-args_blocks k r.0.1) (rw append-nil at held))

  construct_parsed-Holds :
      (info : MethodInfo n m) (f : Method n m) (this : n.Value) (vs : List n.Value) (w : World m)
      → KeepsLive n m (some f)
      → Holds m w.store
          (construct_parsed n m info f this vs w).store
          (args_blocks n m (drop info.num_arguments (parse_arguments n m info 0 vs w).0.1))
  unfolding construct_parsed
  construct_parsed-Holds info f this vs w k =
      let r = parse_arguments n m info 0 vs w in
      elim (Bool-cases r.0.0) [
        | inl e ↦
            rw (e, construct_parsed) (partly_released info info.num_arguments vs w _ (k _ r.1))
        | inr e ↦
            rw (e, construct_parsed) (partly_released info info.num_arguments vs w r.1 (λ c. refl))
      ]

  -- After a constructor call with at least the required arguments, the blocks still held are
  -- exactly the buffers of the string arguments behind the required ones; with no further
  -- arguments nothing is held. The native constructor is assumed to keep the blocks as they are.
  pub construct-Holds :
      (info : MethodInfo n m) (f : Method n m) (call : CallInfo n.Value) (w : World m)
      → info.method ≡ some f
      → info.num_arguments ≤ clamp_args (length call.args)
      → KeepsLive n m (some f)
      → let values = take (clamp_args (length call.args)) call.args in
        Holds m w.store
          (construct n m info (got call) w).store
          (args_blocks n m (drop info.num_arguments (parse_arguments n m info 0 values w).0.1))
  unfolding construct
  construct-Holds info f call w is_f enough k =
      let values = take (clamp_args (length call.args)) call.args in
      ground (arith, construct_parsed-Holds info f call.this values w k)
