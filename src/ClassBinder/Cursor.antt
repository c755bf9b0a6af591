-- ===== src/ClassBinder/Cursor.antt =====
-- aws_napi_method_next_argument over the argument array that s_method_call builds.
use aws_crt_nodejs.Base.{
  ◌⊎◌, inl, inr, ◌∙◌, ℕ, zero, suc, ◌+◌, ◌-◌, ◌≤◌, ◌<◌, ◌≡◌, ◌≢◌, refl, Bool, false, Option, none,
  some, List, [], ◌∷◌, ◌++◌, arith, length, get_elem?, replicate, length-append, length-replicate,
}
use native.Mathlib.Decide.{dec_lt}
use aws_crt_nodejs.Napi.{ValueType}
use aws_crt_nodejs.ClassBinder.{max_args, Argument, zeroed_argument, same_type, CallbackInfo, This}
use aws_crt_nodejs.ClassBinder.Calls.{method_next_argument}

get_elem?-replicate {ℓ} :
    {A : Type ℓ} (k i : ℕ) (a : A) → i < k → get_elem? (replicate k a) i ≡ some a
get_elem?-replicate zero i a h = absurd (omega arith)
get_elem?-replicate (suc k) zero a h = refl
get_elem?-replicate (suc k) (suc i) a h = get_elem?-replicate k i a (omega arith)

get_elem?-append_left {ℓ} :
    {A : Type ℓ} (xs ys : List A) (i : ℕ) → i < length xs → get_elem? (xs ++ ys) i ≡ get_elem? xs i
get_elem?-append_left [] ys i h = absurd (omega arith)
get_elem?-append_left (x ∷ xs) ys zero h = refl
get_elem?-append_left (x ∷ xs) ys (suc i) h = get_elem?-append_left xs ys i (omega arith)

get_elem?-append_right {ℓ} :
    {A : Type ℓ} (xs ys : List A) (i : ℕ) → get_elem? (xs ++ ys) (length xs + i) ≡ get_elem? ys i
get_elem?-append_right [] ys i = ground arith
get_elem?-append_right (x ∷ xs) ys i = ground (arith, get_elem?-append_right xs ys i)

get_elem?-past {ℓ} : {A : Type ℓ} (xs : List A) (i : ℕ) → length xs ≤ i → get_elem? xs i ≡ none
get_elem?-past [] i h = refl
get_elem?-past (x ∷ xs) zero h = absurd (omega arith)
get_elem?-past (x ∷ xs) (suc i) h = get_elem?-past xs i (omega arith)

abbrev pub position : Option ℕ → ℕ
position none = 0
position (some i) = i + 1

same_undefined : (e : ValueType) → e ≢ ValueType.undefined → same_type e ValueType.undefined ≡ false
same_undefined e h = ground arith

get_elem?-inside {ℓ} :
    {A : Type ℓ} (xs : List A) (i : ℕ) → i < length xs → (a : A) × (get_elem? xs i ≡ some a)
get_elem?-inside [] i h = absurd (omega arith)
get_elem?-inside (x ∷ xs) zero h = (x, refl)
get_elem?-inside (x ∷ xs) (suc i) h = get_elem?-inside xs i (omega arith)

module _ {Value Pointer : Type 0} where
  -- What the callbacks hand to a method: the parsed arguments, then zeroed elements up to the end.
  abbrev pub laid_out :
      Value → This Value Pointer → List (Argument Value Pointer) → CallbackInfo Value Pointer
  laid_out this native args = record {
    node_this = this;
    native = native;
    arguments = args ++ replicate (max_args - length args) zeroed_argument;
    num_args = length args;
  }

  -- Is there an argument at the place, of the expected type?
  abbrev pub is_there : List (Argument Value Pointer) → ℕ → ValueType → Bool
  is_there args i expected = elim (get_elem? args i) [
    | none ↦ false
    | some a ↦ same_type expected a.type
  ]

  at_place :
      (args : List (Argument Value Pointer)) (i : ℕ)
      → length args ≤ max_args
      → i < max_args
      → ((a : Argument Value Pointer) × (i < length args)
          × (get_elem? args i ≡ some a)
          × (get_elem? (args ++ replicate (max_args - length args) zeroed_argument) i ≡ some a))
        ⊎ ((length args ≤ i)
            × (get_elem? args i ≡ none)
            × (get_elem? (args ++ replicate (max_args - length args) zeroed_argument) i
                ≡ some zeroed_argument))
  at_place args i fits inside = elim (dec_lt i (length args)) [
    | yes h ↦
        let (a, e) = get_elem?-inside args i h in
        inl (a, h, e, get_elem?-append_left args _ i h ∙ e)
    | no h ↦
        let j = i - length args in
        let here : length args + j ≡ i = omega arith in
        inr (
          omega arith,
          get_elem?-past args i (omega arith),
          rw (← here) (
              get_elem?-append_right args _ j
              ∙ get_elem?-replicate (max_args - length args) j zeroed_argument (omega arith)),
        )
  ]

  -- While the cursor stays inside the array, the answer is exactly whether an argument of the
  -- expected type stands at the next place, for any expected type but napi_undefined; the cursor
  -- moves on by one whatever the answer.
  -- There are at most nine arguments.
  pub method_next_argument_exact :
      (this : Value) (native : This Value Pointer) (args : List (Argument Value Pointer))
      (expected : ValueType) (next_arg : Option ℕ)
      → length args ≤ max_args
      → position next_arg < max_args
      → expected ≢ ValueType.undefined
      → method_next_argument expected (laid_out this native args) next_arg
        ≡ (position next_arg, some (is_there args (position next_arg) expected))
  unfolding method_next_argument
  method_next_argument_exact this native args expected none fits inside typed =
      ground (arith, at_place args 0 fits inside, same_undefined expected typed)
  method_next_argument_exact this native args expected (some i) fits inside typed =
      ground (arith, at_place args (i + 1) fits inside, same_undefined expected typed)

  -- With a full array the step behind the last argument reads past the array's end.
  pub method_next_argument_overrun :
      (this : Value) (native : This Value Pointer) (args : List (Argument Value Pointer))
      (expected : ValueType)
      → length args ≡ max_args
      → method_next_argument expected (laid_out this native args) (some 8) ≡ (9, none)
  unfolding method_next_argument
  method_next_argument_overrun this native args expected full =
      let none_left : List (Argument Value Pointer) =
        replicate (max_args - length args) zeroed_argument in
      ground (
        arith,
        get_elem?-past (args ++ none_left) 9,
        length-append args none_left,
        length-replicate (max_args - length args)
            (zeroed_argument {Value = Value} {Pointer = Pointer}),
      )
