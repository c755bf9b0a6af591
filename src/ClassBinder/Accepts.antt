-- ===== src/ClassBinder/Accepts.antt =====
-- Which arguments s_argument_parse lets through, and what a native method may rely on.
use aws_crt_nodejs.Base.{
  String, ℕ, zero, suc, ◌+◌, ◌≡◌, ◌≢◌, ◌⊎◌, inl, inr, refl, ap, Bool, true, false, none, some, List,
  [], ◌∷◌, ◌++◌, ◌%◌, arith, leb, get_elem?, length, Bool-cases, Option-cases,
}
use native.Mathlib.Nat.{add-zero}
use aws_crt_nodejs.Base.Int.{ℤ}
use aws_crt_nodejs.Napi.{
  ok, Failure, Reply, Reply-cases, Status-cases, got, failed, ValueType, Napi, Memory, Throw,
  type_error, World, size_mod,
}
use aws_crt_nodejs.ByteBuf.{owned, byte_buf_init_from_napi, init_from_string, fill_string}
use aws_crt_nodejs.ClassBinder.{
  Native, zeroed_argument, same_type, is_rejected, Arg, read_native, read_string, read_number,
  parse_typed, argument_parse, rejection,
}
use aws_crt_nodejs.ClassBinder.Calls.{MethodInfo, type_at, parse_arguments}

same_type_eq : (a b : ValueType) → same_type a b ≡ true → a ≡ b
same_type_eq a b h = ground arith

shift : (i k : ℕ) → i + suc k ≡ i + 1 + k
shift i k = omega arith

same_type_self : (a : ValueType) → same_type a a ≡ true
same_type_self a = ground arith

-- A declared type admits an actual one: it asks for nothing, or for this type, or the argument is
-- optional and was left out.
abbrev pub Accepts : ValueType → ValueType → Bool → Type 0
Accepts expected actual optional =
    (expected ≡ ValueType.undefined)
    ⊎ (actual ≡ expected)
    ⊎ ((optional ≡ true) × (actual ≡ ValueType.undefined))

-- The guard of s_argument_parse lets through exactly what the declared type admits.
pub is_rejected_iff :
    (expected actual : ValueType) (optional : Bool)
    → ((is_rejected expected actual optional ≡ false) → Accepts expected actual optional)
      × (Accepts expected actual optional → (is_rejected expected actual optional ≡ false))
unfolding is_rejected
is_rejected_iff expected actual optional = (
  λ h. ground (
    arith,
    same_type_eq expected ValueType.undefined,
    same_type_eq actual expected,
    same_type_eq actual ValueType.undefined,
  ),
  λ h. ground (arith, same_type_self expected, same_type_self actual),
)

module _ (n : Napi) (m : Memory) where
  -- The native form of a value of the given type; a type that is not converted stays unset.
  abbrev pub NativeOf : n.Value → ValueType → Native n.Pointer → Type 0
  NativeOf v ValueType.boolean x =
      (b : Bool) × (n.get_value_bool v ≡ got b) × (x ≡ Native.boolean b)
  NativeOf v ValueType.number x = (z : ℤ) × (n.get_value_int64 v ≡ got z) × (x ≡ Native.number z)
  NativeOf v ValueType.string x =
      (l b : ℕ) × (bytes : List ℕ) × (n.get_string_length v ≡ got l)
      × (n.get_value_string_utf8 v ((l + 1) % size_mod) ≡ got bytes)
      × (x
          ≡ Native.string (record {
            buffer = owned b;
            contents = bytes;
            len = length bytes;
            capacity = (l + 1) % size_mod;
          }))
  NativeOf v ValueType.external x =
      (p : n.Pointer) × (n.get_value_external v ≡ got p) × (x ≡ Native.external (some p))
  NativeOf v ValueType.object x =
      ((p : n.Pointer) × (n.unwrap v ≡ got p) × (x ≡ Native.external (some p)))
      ⊎ ((f : Failure) × (n.unwrap v ≡ failed f) × (x ≡ Native.external none))
  NativeOf v _ x = x ≡ Native.unset

  -- A string that converts is read in full, into a new block.
  read_string_ok :
      (out : Arg n m) (v : n.Value) (w : World m)
      → n.typeof v ≡ got ValueType.string
      → let r = read_string n m out v w in
        r.0.0 ≡ ok
        → (r.0.1.node ≡ out.node)
          × (r.0.1.type ≡ out.type)
          × NativeOf v ValueType.string r.0.1.native
  unfolding read_string byte_buf_init_from_napi init_from_string fill_string
  read_string_ok out v w is_string = elim (Reply-cases (n.get_string_length v)) [
    | inr (f, e) ↦
        rw (is_string, read_string, byte_buf_init_from_napi, e, init_from_string) (λ h. cc)
    | inl (l, e) ↦ elim (Option-cases (m.buf_init ((l + 1) % size_mod) w.store)) [
      | inl full ↦
          rw (is_string, read_string, byte_buf_init_from_napi, e, init_from_string, full) (λ h. cc)
      | inr ((b, t), took) ↦ elim (Reply-cases (n.get_value_string_utf8 v ((l + 1) % size_mod))) [
        | inr (f, e') ↦
            rw (is_string, read_string, byte_buf_init_from_napi, e, init_from_string, took, e')
              (λ h. cc)
        | inl (bytes, e') ↦
            rw (is_string, read_string, byte_buf_init_from_napi, e, init_from_string, took, e')
              (λ h. (refl, refl, (l, b, bytes, refl, e', refl)))
      ]
    ]
  ]

  read_native_ok :
      (v : n.Value) (actual : ValueType) (w : World m)
      → n.typeof v ≡ got actual
      → let r =
          read_native n m actual
            (record { node = some v; type = actual; native = Native.unset })
            v
            w in
        r.0.0 ≡ ok → (r.0.1.node ≡ some v) × (r.0.1.type ≡ actual) × NativeOf v actual r.0.1.native
  unfolding read_native read_string
  read_native_ok v ValueType.boolean w typed h = ground arith
  read_native_ok v ValueType.number w typed h = go (n.get_value_int64 v) refl h
    where
      go :
          (r : Reply ℤ)
          → n.get_value_int64 v ≡ r
          → let out : Arg n m = record {
            node = some v;
            type = ValueType.number;
            native = Native.unset;
          } in
            let q = read_number n m out r w in
            q.0.0 ≡ ok
            → (q.0.1.node ≡ some v)
              × (q.0.1.type ≡ ValueType.number)
              × NativeOf v ValueType.number q.0.1.native
      go (got z) e k = (refl, refl, (z, e, refl))
      go (failed f) e k = cc
  read_native_ok v ValueType.string w typed h =
      read_string_ok (record { node = some v; type = ValueType.string; native = Native.unset }) v w
        typed h
  read_native_ok v ValueType.external w typed h = ground arith
  read_native_ok v ValueType.object w typed h = ground arith
  read_native_ok v _ w typed h = (refl, refl, refl)

  parse_typed_ok :
      (v : n.Value) (expected actual : ValueType) (optional : Bool) (w : World m)
      → n.typeof v ≡ got actual
      → let out : Arg n m = record { node = some v; type = actual; native = Native.unset } in
        let r = parse_typed n m out v expected actual optional w in
        r.0.0 ≡ ok
        → Accepts expected actual optional
          × (r.0.1.node ≡ some v)
          × (r.0.1.type ≡ actual)
          × NativeOf v actual r.0.1.native
  unfolding parse_typed
  parse_typed_ok v expected actual optional w typed =
      elim (Bool-cases (is_rejected expected actual optional)) [
        | inl e ↦ rw (e, parse_typed) (λ h. cc)
        | inr e ↦
            rw (e, parse_typed)
              λ h.
                let (a, b, c) = read_native_ok v actual w typed h in
                ((is_rejected_iff expected actual optional).0 e, a, b, c)
      ]

  argument_parse_typed :
      (v : n.Value) (expected actual : ValueType) (optional : Bool) (w : World m)
      → n.typeof v ≡ got actual
      → argument_parse n m zeroed_argument v expected optional w
        ≡ parse_typed n m
            (record { node = some v; type = actual; native = Native.unset })
            v
            expected
            actual
            optional
            w
  unfolding argument_parse
  argument_parse_typed v expected actual optional w e = rw (e, argument_parse)

  -- An argument that s_argument_parse accepts has a type that the declared type admits; the filled
  -- argument names the value and its type, and its native member is the value converted at that type:
  -- for a string, a new block with the bytes that Node hands over.
  pub argument_parse_ok :
      (v : n.Value) (expected : ValueType) (optional : Bool) (w : World m)
      → (argument_parse n m zeroed_argument v expected optional w).0.0 ≡ ok
      → let r = argument_parse n m zeroed_argument v expected optional w in
        (actual : ValueType) × (n.typeof v ≡ got actual)
        × Accepts expected actual optional
        × (r.0.1.node ≡ some v)
        × (r.0.1.type ≡ actual)
        × NativeOf v actual r.0.1.native
  unfolding argument_parse
  argument_parse_ok v expected optional w = elim (Reply-cases (n.typeof v)) [
    | inl (actual, e) ↦ rw (argument_parse_typed v expected actual optional w e) λ h.
        let (a, b, c, d) = parse_typed_ok v expected actual optional w e h in
        (actual, e, a, b, c, d)
    | inr (f, e) ↦ rw (e, argument_parse) (λ h. cc)
  ]

  rejection_message :
      (expected : ValueType) (before : List Throw)
      → (s : String) × (before ++ (rejection expected).0 ∷ [] ≡ before ++ type_error s ∷ [])
  unfolding rejection
  rejection_message ValueType.string before = (_, refl)
  rejection_message ValueType.number before = (_, refl)
  rejection_message _ before = (_, refl)

  -- A value whose type the declared type does not admit is refused with exactly one TypeError, and
  -- no buffer is allocated for it.
  pub argument_parse_rejects :
      (v : n.Value) (expected actual : ValueType) (optional : Bool) (w : World m)
      → n.typeof v ≡ got actual
      → ¬ (Accepts expected actual optional)
      → let r = argument_parse n m zeroed_argument v expected optional w in
        (r.0.0 ≢ ok)
        × (r.1.store ≡ w.store)
        × (s : String) × (r.1.thrown ≡ w.thrown ++ type_error s ∷ [])
  unfolding parse_typed rejection
  argument_parse_rejects v expected actual optional w e h =
      elim (Bool-cases (is_rejected expected actual optional)) [
        | inl r ↦
            rw (argument_parse_typed v expected actual optional w e, r, parse_typed)
              (let (s, t) = rejection_message expected w.thrown in ((λ q. cc), refl, s, t))
        | inr r ↦ absurd (h ((is_rejected_iff expected actual optional).0 r))
      ]

  parse_arguments-cons :
      (info : MethodInfo n m) (i : ℕ) (v : n.Value) (vs : List n.Value) (w : World m)
      → let r = parse_arguments n m info i (v ∷ vs) w in
        let out =
          argument_parse n m zeroed_argument v
            (type_at n m info.arg_types i)
            (leb info.num_arguments i)
            w in
        let rest = parse_arguments n m info (i + 1) vs out.1 in
        r.0.0 ≡ true → (out.0.0 ≡ ok) × (rest.0.0 ≡ true) × (r.0.1 ≡ out.0.1 ∷ rest.0.1)
  unfolding parse_arguments
  parse_arguments-cons info i v vs w =
      let out =
        argument_parse n m zeroed_argument v (type_at n m info.arg_types i)
          (leb info.num_arguments i) w in
      elim (Status-cases out.0.0) [
        | inl e ↦ rw (e, parse_arguments) (λ h. (refl, h, refl))
        | inr (f, e) ↦ rw (e, parse_arguments) (λ h. cc)
      ]

  -- The arguments that reach a native method are of the declared types, in order: argument `k` of
  -- the loop that starts at position `i` was admitted by the type declared at `i + k`, where those
  -- from `num_arguments` on may be left out.
  pub parse_arguments-typed :
      (info : MethodInfo n m) (i : ℕ) (vs : List n.Value) (w : World m) (k : ℕ) (a : Arg n m)
      → (parse_arguments n m info i vs w).0.0 ≡ true
      → get_elem? (parse_arguments n m info i vs w).0.1 k ≡ some a
      → Accepts (type_at n m info.arg_types (i + k)) a.type (leb info.num_arguments (i + k))
        × (a.node ≡ get_elem? vs k)
  unfolding parse_arguments
  parse_arguments-typed info i [] w k a h e = cc
  parse_arguments-typed info i (v ∷ vs) w zero a h e =
      let expected = type_at n m info.arg_types i in
      let (done, _, shape) = parse_arguments-cons info i v vs w h in
      let (actual, _, admitted, node, type, _) =
        argument_parse_ok v expected (leb info.num_arguments i) w done in
      let same : (argument_parse n m zeroed_argument v expected (leb info.num_arguments i) w).0.1
          ≡ a =
        cc (ap (λ l. get_elem? l 0) shape) in
      rw (add-zero, ← same, type) (admitted, node)
  parse_arguments-typed info i (v ∷ vs) w (suc k) a h e =
      let (done, more, shape) = parse_arguments-cons info i v vs w h in
      rw shift (parse_arguments-typed info (i + 1) vs _ k a more (rw shape at e))
