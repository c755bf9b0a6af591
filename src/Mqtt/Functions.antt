-- ===== src/Mqtt/Functions.antt =====
-- The references to threadsafe functions that a request takes and gives back.
use aws_crt_nodejs.Base.{
  ◌≡◌, refl, inl, inr, ℕ, Bool, true, ◌∷◌, Option, none, some, List, Option-cases,
}
use aws_crt_nodejs.Napi.{Napi, Memory, done}
use aws_crt_nodejs.ByteBuf.{ByteBuf}
use aws_crt_nodejs.ByteBuf.Balance.{blocks}
use aws_crt_nodejs.Ownership.{Holds, Holds-nil}
use aws_crt_nodejs.Threadsafe.{Natives, release_function}
use aws_crt_nodejs.Threadsafe.Balance.{with_callback, remove_one-cons, dispatch_function-done}
use aws_crt_nodejs.Mqtt.{MqttApi, ApiLaws, copy_or_zeroed, release_callback, call_back}

-- A callback is only ever stored beside its binding.
abbrev pub Bound : {A : Type 0} → Option A → Option ℕ → Type 0
Bound binding none = Unit {0}
Bound {A} binding (some f) = (b : A) × (binding ≡ some b)

pub Bound-some : {A : Type 0} (f : Option ℕ) (b : A) → Bound (some b) f
Bound-some none b = tt
Bound-some (some f) b = (b, refl)

module _ (n : Napi) (m : Memory) (api : MqttApi n m) where
  module _ (laws : ApiLaws n m api) where
    pub release_callback-done :
        (callback : Option ℕ) (binding : Option n.Pointer) (st : Natives m) (fs : List ℕ)
        → Bound binding callback
        → st.references ≡ with_callback callback fs
        → release_callback n m api callback binding st ≡ done (record st { references = fs })
    unfolding release_callback
    release_callback-done none binding st fs bound e = rw e
    release_callback-done (some f) none st fs (b, e') e = cc
    release_callback-done (some f) (some b) st fs bound e =
        rw (laws.functions.releases f, release_function, e, remove_one-cons f fs)

    pub call_back-done :
        {A : Type 0} (f : ℕ) (parameters : A) (made : Bool) (st : Natives m) (fs : List ℕ)
        → made ≡ true
        → st.references ≡ f ∷ fs
        → call_back n m api (some f) made parameters st
          ≡ done (
            some (record { function = f; parameters = parameters }),
            record st { references = fs },
          )
    unfolding call_back
    call_back-done f parameters made st fs e e' =
        rw (e, call_back, dispatch_function-done n m api.functions laws.functions f st fs e')

    pub copy_or_zeroed-Holds :
        (buf : ByteBuf) (s : m.Store)
        → let r = copy_or_zeroed n m api buf s in Holds m s r.1 (blocks r.0)
    unfolding copy_or_zeroed
    copy_or_zeroed-Holds buf s = elim (Option-cases (api.init_copy buf s)) [
      | inl e ↦ rw (e, copy_or_zeroed) (Holds-nil {m = m} s)
      | inr ((copy, t), e) ↦ rw (e, copy_or_zeroed) (laws.copies buf copy s t e)
    ]
