-- ===== src/HttpManager/Acquisition.antt =====
-- What an acquisition holds, from the call to the callback.
use aws_crt_nodejs.Base.{
  ℕ, ◌≡◌, refl, ◌⊎◌, inl, inr, true, Option, none, some, List, [], ◌∷◌, arith,
}
use aws_crt_nodejs.Napi.{Reply, got, failed, Reply-cases, Napi, Memory, done}
use aws_crt_nodejs.Threadsafe.{Natives, FunctionLaws, calloc, mem_release}
use aws_crt_nodejs.Threadsafe.Balance.{queue_function-done, dispatch_function-done}
use aws_crt_nodejs.HttpManager.{ManagerApi}
use aws_crt_nodejs.HttpManager.Acquire.{
  ConnectionAcquiredArgs, http_connection_manager_acquire, manager_acquired, on_acquired_call,
  http_connection_from_manager, tell_acquired, from_manager_finalize,
}

-- Node does as it should, and makes the external of any connection.
pub record ManagerLaws (n : Napi) (m : Memory) (api : ManagerApi n) : Type 0 where
  pub functions : FunctionLaws n m api.functions
  pub external_of : Option n.Pointer → n.Value
  pub makes_external : (c : Option n.Pointer) → api.create_external c ≡ got (external_of c)
  pub makes_int32 : (k : ℕ) → api.create_int32 k ≡ true
  pub unreferences : (f : ℕ) → api.unref_threadsafe_function f ≡ true

module _ (n : Napi) (m : Memory) (api : ManagerApi n) (laws : ManagerLaws n m api) where
  -- What follows once the manager has the arguments.
  abbrev Answered : Option n.Pointer → ℕ → Natives m → ℕ → Natives m → Type 0
  Answered connection error_code st f st' =
      (args' : ConnectionAcquiredArgs n) × (queued after : Natives m) × (manager_acquired n m api
          connection error_code (record { on_acquired = f; connection = none; error_code = 0 }) st'
        ≡ done (args', queued))
      × (on_acquired_call n m api true args' queued
          ≡ done
              (some (record { external = laws.external_of connection; code = error_code }), after))
      × (after.references ≡ f ∷ st.references)
      × ((from_manager_finalize n m api after).structs ≡ st.structs)

  answered :
      (connection : Option n.Pointer) (error_code : ℕ) (st : Natives m) (f : ℕ)
      → Answered connection error_code st f (record (calloc st) { references = f ∷ st.references })
  unfolding manager_acquired on_acquired_call http_connection_from_manager tell_acquired
      from_manager_finalize
  answered connection error_code st f =
      let st' : Natives m = record (calloc st) { references = f ∷ st.references } in
      let queued : Natives m = record st' { references = f ∷ f ∷ st.references } in
      (
        record { on_acquired = f; connection = connection; error_code = error_code },
        queued,
        mem_release (record (calloc queued) { references = f ∷ st.references }),
        rw (queue_function-done n m api.functions laws.functions f st'),
        rw (
          laws.makes_external connection,
          http_connection_from_manager,
          laws.makes_int32 error_code,
          dispatch_function-done n m api.functions laws.functions f (calloc queued)
              (f ∷ st.references) refl,
          laws.unreferences f,
        ),
        refl,
        omega arith,
      )

  -- An acquire call, whatever its arguments and whatever Node answers, either passes on nothing, and
  -- then no reference and no struct is held that was not held before; or it passes on its arguments,
  -- and when the manager has answered with a connection and a code and the callback has run, while
  -- Node runs, JavaScript has got the external of that connection and the code. Then the arguments
  -- are given back, the struct behind the external is held until its finalizer, and so is, for ever,
  -- the first reference to the callback.
  -- The laws of `ManagerLaws` hold.
  pub http_connection_manager_acquire-keeps :
      (info : Reply (List n.Value)) (st : Natives m) (connection : Option n.Pointer)
      (error_code : ℕ)
      → ((st' : Natives m) × (http_connection_manager_acquire n m api info st ≡ (none, st'))
          × (st'.references ≡ st.references)
          × (st'.structs ≡ st.structs))
        ⊎ ((args args' : ConnectionAcquiredArgs n) × (st' queued after : Natives m)
            × (http_connection_manager_acquire n m api info st ≡ (some args, st'))
            × (manager_acquired n m api connection error_code args st' ≡ done (args', queued))
            × (on_acquired_call n m api true args' queued
                ≡ done (
                  some (record { external = laws.external_of connection; code = error_code }),
                  after,
                ))
            × (after.references ≡ args.on_acquired ∷ st.references)
            × ((from_manager_finalize n m api after).structs ≡ st.structs))
  unfolding http_connection_manager_acquire
  http_connection_manager_acquire-keeps info st connection error_code = go info
    where
      Ends : Option (ConnectionAcquiredArgs n) × Natives m → Type 0
      Ends r =
          ((st' : Natives m) × (r ≡ (none, st'))
            × (st'.references ≡ st.references)
            × (st'.structs ≡ st.structs))
          ⊎ ((args args' : ConnectionAcquiredArgs n) × (st' queued after : Natives m) × (r
                ≡ (some args, st'))
              × (manager_acquired n m api connection error_code args st' ≡ done (args', queued))
              × (on_acquired_call n m api true args' queued
                  ≡ done (
                    some (record { external = laws.external_of connection; code = error_code }),
                    after,
                  ))
              × (after.references ≡ args.on_acquired ∷ st.references)
              × ((from_manager_finalize n m api after).structs ≡ st.structs))

      go : (info : Reply (List n.Value)) → Ends (http_connection_manager_acquire n m api info st)
      go (failed f) = inl (_, refl, refl, refl)
      go (got (e ∷ v ∷ [])) = elim (Reply-cases (n.get_value_external e)) [
        | inr (f, q) ↦ rw (q, http_connection_manager_acquire) (inl (_, refl, refl, refl))
        | inl (b, q) ↦ elim (Reply-cases (api.functions.create_threadsafe_function v)) [
          | inr (f, q') ↦
              rw (q, q', http_connection_manager_acquire) (inl (_, refl, refl, omega arith))
          | inl (f, q') ↦
              let (args', queued, after, e1, e2, e3, e4) = answered connection error_code st f in
              rw (q, q', http_connection_manager_acquire)
                (inr (_, args', _, queued, after, refl, e1, e2, e3, e4))
        ]
      ]
      go (got _) = inl (_, refl, refl, refl)
