-- ===== src/Arguments.antt =====
-- The arguments of native functions that read them one by one with Node's calls: a value, or the
-- exception with which the function refuses it.
use aws_crt_nodejs.Base.{◌≡◌, refl, ◌⊎◌, inl, inr, Option, none, some, if◌then◌else◌}
use aws_crt_nodejs.Napi.{Reply, got, failed, Napi, Memory, Throw}
use aws_crt_nodejs.ByteBuf.{is_null_or_undefined}

pub data Argument (A : Type 0) : Type 0 where
  read : A → Argument A
  refused : Throw → Argument A

pub Argument-cases :
    {A : Type 0} (a : Argument A) → ((x : A) × (a ≡ read x)) ⊎ ((t : Throw) × (a ≡ refused t))
Argument-cases (read x) = inl (x, refl)
Argument-cases (refused t) = inr (t, refl)

-- the next argument, unless one was refused
infixl 5 ◌>>=◌
abbrev pub ◌>>=◌ : {A B : Type 0} → Argument A → (A → Argument B) → Argument B
read a >>= k = k a
refused t >>= k = refused t

-- AWS_NAPI_CALL with an exception for the other statuses
unfoldable pub expect : {A : Type 0} → Throw → Reply A → Argument A
expect thrown (got a) = read a
expect thrown (failed f) = refused thrown

module _ (n : Napi) (m : Memory) where
  -- `if (!aws_napi_is_null_or_undefined(…)) { AWS_NAPI_CALL(…) }`
  unfoldable pub optional :
      {A : Type 0} → Throw → (n.Value → Reply A) → n.Value → Argument (Option A)
  unfolding expect
  optional thrown call v =
      if is_null_or_undefined n m v
      then read none
      else expect thrown (call v) >>= λ a. read (some a)

  -- napi_get_value_external without a look at its status: NULL where it fails
  unfoldable pub external_or_null : n.Value → Option n.Pointer
  external_or_null v = elim (n.get_value_external v) [ failed f ↦ none | got p ↦ some p ]
