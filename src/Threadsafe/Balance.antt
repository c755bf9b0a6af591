-- ===== src/Threadsafe/Balance.antt =====
-- The references to threadsafe functions that the wrappers take and give back.
use aws_crt_nodejs.Base.{
  ◌≡◌, ◌⊎◌, inl, inr, ℕ, true, Option, none, some, List, ◌∷◌, arith, Bool-cases,
}
use aws_crt_nodejs.Napi.{Reply-cases, Napi, Memory, done}
use aws_crt_nodejs.ByteBuf.{is_null_or_undefined}
use aws_crt_nodejs.Threadsafe.{
  Natives, FunctionApi, FunctionLaws, optional_function, release_function, queue_function,
  queue_threadsafe_function, dispatch_function, remove_one,
}

-- The references that a callback field adds.
abbrev pub with_callback : Option ℕ → List ℕ → List ℕ
with_callback none fs = fs
with_callback (some f) fs = f ∷ fs

pub remove_one-cons : (f : ℕ) (fs : List ℕ) → remove_one f (f ∷ fs) ≡ fs
remove_one-cons f fs = ground arith

module _ (n : Napi) (m : Memory) (api : FunctionApi n) where
  pub optional_function-cases :
      (v : n.Value) (st : Natives m)
      → (optional_function n m api v st ≡ none)
        ⊎ ((f : Option ℕ) × (optional_function n m api v st
              ≡ some (f, record st { references = with_callback f st.references })))
  unfolding optional_function
  optional_function-cases v st = elim (Bool-cases (is_null_or_undefined n m v)) [
    | inl e ↦ inr (none, rw (e, optional_function))
    | inr e ↦ elim (Reply-cases (api.create_threadsafe_function v)) [
      | inl (f, e') ↦ inr (some f, rw (e, e', optional_function))
      | inr (f, e') ↦ inl (rw (e, e', optional_function))
    ]
  ]

  module _ (laws : FunctionLaws n m api) where
    pub queue_function-done :
        (f : ℕ) (st : Natives m)
        → queue_function n m api (some f) st ≡ done (record st { references = f ∷ st.references })
    unfolding queue_function queue_threadsafe_function
    queue_function-done f st = rw (laws.acquires f, laws.queues f)

    pub dispatch_function-done :
        (f : ℕ) (st : Natives m) (fs : List ℕ)
        → st.references ≡ f ∷ fs
        → dispatch_function n m api f st ≡ done (record st { references = fs })
    unfolding dispatch_function release_function
    dispatch_function-done f st fs e = rw (laws.releases f, laws.returns f, e, remove_one-cons f fs)

    pub queue_threadsafe_function-done :
        (f : ℕ) (st : Natives m)
        → queue_threadsafe_function n m api (some f) st
          ≡ done (true, record st { references = f ∷ st.references })
    unfolding queue_threadsafe_function
    queue_threadsafe_function-done f st = rw (laws.acquires f, laws.queues f)

    -- A reference can always be given back.
    pub release_function-done :
        (f : ℕ) (st : Natives m)
        → release_function n m api f st
          ≡ done (record st { references = remove_one f st.references })
    unfolding release_function
    release_function-done f st = rw (laws.releases f)
