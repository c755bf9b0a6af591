-- ===== src/Napi.antt =====
-- Node's C interface as this program sees it: statuses, value types, the answers of the calls that
-- read a JavaScript value (a parameter, `Napi`), the byte buffer allocator of aws-c-common (a
-- parameter, `Memory`), and the state that a native call threads through both.
-- The constructors are those that source/module.c and source/class_binder.c name.
use aws_crt_nodejs.Base.{
  ℕ, ◌≡◌, refl, ◌⊎◌, inl, inr, Bool, true, false, Option, some, List, [], ◌∷◌, ◌++◌, String, ◌==◌,
  if◌then◌else◌,
}
use aws_crt_nodejs.Base.Int.{ℤ}

-- napi_status other than napi_ok; `other` is for values that a newer Node has added.
pub data Failure : Type 0 where
  invalid_arg object_expected string_expected name_expected function_expected : Failure
  number_expected boolean_expected array_expected generic_failure pending_exception : Failure
  cancelled escape_called_twice handle_scope_mismatch callback_scope_mismatch : Failure
  queue_full closing bigint_expected : Failure
  other : ℕ → Failure

-- napi_status
pub data Status : Type 0 where
  ok : Status
  fail : Failure → Status

-- What a call with an out-parameter answers: napi_ok and the value, or another status.
pub data Reply (A : Type 0) : Type 0 where
  got : A → Reply A
  failed : Failure → Reply A

pub Status-cases : (s : Status) → (s ≡ ok) ⊎ ((f : Failure) × (s ≡ fail f))
Status-cases ok = inl refl
Status-cases (fail f) = inr (f, refl)

-- To split on an answer and keep the equation.
pub Reply-cases :
    {A : Type 0} (r : Reply A) → ((a : A) × (r ≡ got a)) ⊎ ((f : Failure) × (r ≡ failed f))
Reply-cases (got a) = inl (a, refl)
Reply-cases (failed f) = inr (f, refl)

-- napi_valuetype; `undefined` is 0, which zeroed memory reads as.
pub data ValueType : Type 0 where
  undefined null boolean number string symbol object function external bigint : ValueType

pub ValueType-discrete : Discrete ValueType
ValueType-discrete = hlevel

-- napi_typedarray_type, with the two values (9 and 10) that have no name at N-API version 4.
pub data TypedArrayType : Type 0 where
  int8_array uint8_array uint8_clamped_array int16_array uint16_array : TypedArrayType
  int32_array uint32_array float32_array float64_array : TypedArrayType
  bigint64_array biguint64_array unknown_array : TypedArrayType

pub record TypedArrayInfo : Type 0 where
  pub array_type : TypedArrayType
  pub length : ℕ
  pub memory : List ℕ

-- The calls that read a value. A value does not change while one native call runs.
pub record Napi : Type 1 where
  pub Value : Type 0
  pub Pointer : Type 0
  pub typeof : Value → Reply ValueType
  pub get_value_bool : Value → Reply Bool
  pub get_value_int64 : Value → Reply ℤ
  pub get_value_uint32 : Value → Reply ℕ
  pub get_value_external : Value → Reply Pointer
  pub unwrap : Value → Reply Pointer
  -- napi_get_value_string_utf8 without a buffer, and with one of the given capacity
  pub get_string_length : Value → Reply ℕ
  pub get_value_string_utf8 : Value → ℕ → Reply (List ℕ)
  pub is_array : Value → Reply Bool
  pub get_array_length : Value → Reply ℕ
  pub get_element : Value → ℕ → Reply Value
  pub is_arraybuffer : Value → Reply Bool
  pub get_arraybuffer_info : Value → Reply (List ℕ)
  pub is_dataview : Value → Reply Bool
  pub get_dataview_info : Value → Reply (List ℕ)
  pub is_typedarray : Value → Reply Bool
  pub get_typedarray_info : Value → Reply TypedArrayInfo

-- aws_byte_buf_init and aws_byte_buf_clean_up, with the documented behaviour that ownership rests
-- on: a new block was not in use and is in use afterwards, and cleaning up a block that is in use
-- gives back that block and no other.
pub record Memory : Type 1 where
  pub Store : Type 0
  pub buf_init : ℕ → Store → Option (ℕ × Store)
  pub clean_up : ℕ → Store → Store
  pub live : Store → ℕ → Bool
  pub buf_init_fresh : (n : ℕ) (s t : Store) (b : ℕ) → buf_init n s ≡ some (b, t) → live s b ≡ false
  pub buf_init_live :
      (n : ℕ) (s t : Store) (b c : ℕ)
      → buf_init n s ≡ some (b, t)
      → live t c ≡ (if b == c then true else live s c)
  pub clean_up_live :
      (s : Store) (b c : ℕ)
      → live s b ≡ true
      → live (clean_up b s) c ≡ (if b == c then false else live s c)

-- An exception that the code asks Node to raise.
pub data Throw : Type 0 where
  error : String → Throw
  type_error : String → Throw
  last_error : Throw

-- The allocator's state and the exceptions asked for so far, oldest first.
pub record World (m : Memory) : Type 0 where
  pub store : m.Store
  pub thrown : List Throw

-- napi_throw_error, napi_throw_type_error, aws_napi_throw_last_error
abbrev pub throw : {m : Memory} → Throw → World m → World m
throw t w = record w { thrown = w.thrown ++ t ∷ [] }

-- size_t arithmetic
abbrev pub size_mod : ℕ
size_mod = 0x1_0000_0000_0000_0000

-- What a native function does: it returns, or a fatal assertion ends the process
-- (AWS_FATAL_ASSERT, AWS_NAPI_ENSURE), or it reads memory that was never written.
pub data Outcome (A : Type 0) : Type 0 where
  done : A → Outcome A
  aborted : Outcome A
  undefined_behaviour : Outcome A

-- AWS_OP_SUCCESS and AWS_OP_ERR
pub data OpResult : Type 0 where
  op_success op_err : OpResult

infixl 5 ◌>>=◌
abbrev pub ◌>>=◌ : {A B : Type 0} → Outcome A → (A → Outcome B) → Outcome B
done a >>= f = f a
aborted >>= f = aborted
undefined_behaviour >>= f = undefined_behaviour
