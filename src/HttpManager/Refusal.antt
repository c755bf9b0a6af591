-- ===== src/HttpManager/Refusal.antt =====
-- What a call that makes a connection manager leaves behind, where it makes one and where it does not.
use aws_crt_nodejs.Base.{
  ℕ, ◌+◌, ◌≤◌, ◌≡◌, refl, sym, subst, ◌⊎◌, inl, inr, true, Option, none, some, List, [], ◌∷◌, ◌++◌,
  append-nil,
}
use aws_crt_nodejs.Napi.{got, Napi, Memory, ok, Outcome, done, ◌>>=◌}
use aws_crt_nodejs.Ownership.{SameLive, Holds, SameLive-of_Holds}
use aws_crt_nodejs.ByteBuf.{ByteBuf, zeroed, byte_buf_init_from_napi, byte_buf_clean_up}
use aws_crt_nodejs.ByteBuf.Balance.{byte_buf_init_from_napi-Holds, Holds-byte_buf_clean_up, blocks}
use aws_crt_nodejs.Threadsafe.{Natives, FunctionLaws, calloc, with_store, release_if_set}
use aws_crt_nodejs.Threadsafe.Balance.{
  with_callback, remove_one-cons, queue_function-done, release_function-done,
  dispatch_function-done,
}
use aws_crt_nodejs.Arguments.{external_or_null}
use aws_crt_nodejs.HttpManager.{
  ManagerApi, HttpConnectionManagerBinding, Managing, Made, make_binding, release_host, with_host,
  http_connection_manager_new,
}
use aws_crt_nodejs.HttpManager.Options.{ManagerOptions}
use aws_crt_nodejs.HttpManager.Acquire.{shutdown_complete, shutdown_call}
use aws_crt_nodejs.HttpManager.Making.{make_binding-Ends}

module _ (n : Napi) (m : Memory) (api : ManagerApi n) where
  -- The client reports the shutdown of a manager, and Node runs the call that this queues.
  abbrev pub shut_down : Option ℕ → Natives m → Outcome (Natives m)
  shut_down none st = shutdown_complete n m api none st
  shut_down (some f) st =
      shutdown_complete n m api (some f) st >>= shutdown_call n m api true (some f)

module _ (n : Napi) (m : Memory) (api : ManagerApi n) (laws : FunctionLaws n m api.functions) where
  shut_down-done :
      (function : Option ℕ) (st : Natives m) (fs : List ℕ)
      → st.references ≡ with_callback function fs
      → (after : Natives m) × (shut_down n m api function st ≡ done after)
        × (after.references ≡ fs)
        × (after.structs ≡ st.structs)
  unfolding shutdown_complete shutdown_call release_if_set
  shut_down-done none st fs e = (st, refl, e, refl)
  shut_down-done (some f) st fs e = (
    record st { references = fs },
    rw (
      shutdown_complete,
      queue_function-done n m api.functions laws f st,
      release_function-done n m api.functions laws f (record st { references = f ∷ st.references }),
      remove_one-cons f st.references,
      dispatch_function-done n m api.functions laws f st fs e,
    ),
    refl,
    refl,
  )

  -- How the whole call ends.
  abbrev Keeps : Managing m → ByteBuf → Made n m api → Type 0
  Keeps s host_buf r =
      SameLive m s.natives.world.store r.1.natives.world.store
      × (r.1.natives.structs ≡ s.natives.structs + 1)
      × (function : Option ℕ) × (r.1.natives.references
          ≡ with_callback function s.natives.references)
      × (((r.0 ≡ none)
            × (r.1.managers ≡ s.managers)
            × (r.1.node_references ≡ s.node_references)
            × ((r.1.shutdowns ≡ s.shutdowns)
                ⊎ ((r.1.shutdowns ≡ s.shutdowns ++ function ∷ [])
                    × (after : Natives m) × (shut_down n m api function r.1.natives ≡ done after)
                    × (after.references ≡ s.natives.references)
                    × (after.structs ≡ r.1.natives.structs))))
          ⊎ ((binding : HttpConnectionManagerBinding n) × (options : ManagerOptions n) × (r.0
                ≡ some (binding, options))
              × (binding.on_shutdown ≡ function)
              × (options.host ≡ host_buf.contents)
              × (options.port ≤ 65535)
              × (r.1.managers ≡ s.managers + 1)
              × (r.1.node_references ≡ binding.node_external ∷ s.node_references)
              × (r.1.shutdowns ≡ s.shutdowns)))

  -- What becomes of a manager that was made and released again.
  abbrev Settled : Managing m → Made n m api → Option ℕ → Type 0
  Settled s r function =
      (r.1.shutdowns ≡ s.shutdowns)
      ⊎ ((r.1.shutdowns ≡ s.shutdowns ++ function ∷ [])
          × (after : Natives m) × (shut_down n m api function r.1.natives ≡ done after)
          × (after.references ≡ s.natives.references)
          × (after.structs ≡ r.1.natives.structs))

  settled :
      (s : Managing m) (r : Made n m api) (function : Option ℕ)
      → r.1.natives.references ≡ with_callback function s.natives.references
      → (r.1.shutdowns ≡ s.shutdowns) ⊎ (r.1.shutdowns ≡ s.shutdowns ++ function ∷ [])
      → Settled s r function
  settled s r function held (inl e) = inl e
  settled s r function held (inr e) =
      let (after, run, refs, structs) =
        shut_down-done function r.1.natives s.natives.references held in
      inr (e, after, run, refs, structs)

  -- A call that makes a connection manager, with nine arguments of which the host converts to a
  -- buffer. The copy of the host is given back in any case. Either there is a manager with the host
  -- and a port of at most 65535; then its binding, the reference to its function and the reference to
  -- its external are held, and no other struct or reference that was not held before. Or there is
  -- none; then no reference to an external is held that was not held before, and yet the struct of
  -- the binding stays allocated and the reference to the function, if it was made, stays held. But if
  -- a manager was made and released again, then the reference to the function is given back when the
  -- client reports the manager's shutdown and Node has run the call that this queues.
  -- The laws of `FunctionLaws` hold.
  pub http_connection_manager_new-keeps :
      (s : Managing m)
      (bootstrap host port max_conns window_size socket tls proxy on_shutdown : n.Value)
      (host_buf : ByteBuf) (t : m.Store)
      → byte_buf_init_from_napi n m zeroed host s.natives.world.store ≡ ((ok, host_buf), t)
      → let r =
          http_connection_manager_new n m api
            (got (
              bootstrap ∷ host ∷ port ∷ max_conns ∷ window_size ∷ socket ∷ tls ∷ proxy ∷ on_shutdown
              ∷ []))
            s in
        SameLive m s.natives.world.store r.1.natives.world.store
        × (r.1.natives.structs ≡ s.natives.structs + 1)
        × (function : Option ℕ) × (r.1.natives.references
            ≡ with_callback function s.natives.references)
        × (((r.0 ≡ none)
              × (r.1.managers ≡ s.managers)
              × (r.1.node_references ≡ s.node_references)
              × ((r.1.shutdowns ≡ s.shutdowns)
                  ⊎ ((r.1.shutdowns ≡ s.shutdowns ++ function ∷ [])
                      × (after : Natives m) × (shut_down n m api function r.1.natives ≡ done after)
                      × (after.references ≡ s.natives.references)
                      × (after.structs ≡ r.1.natives.structs))))
            ⊎ ((binding : HttpConnectionManagerBinding n) × (options : ManagerOptions n) × (r.0
                  ≡ some (binding, options))
                × (binding.on_shutdown ≡ function)
                × (options.host ≡ host_buf.contents)
                × (options.port ≤ 65535)
                × (r.1.managers ≡ s.managers + 1)
                × (r.1.node_references ≡ binding.node_external ∷ s.node_references)
                × (r.1.shutdowns ≡ s.shutdowns)))
  unfolding http_connection_manager_new with_host release_host
  http_connection_manager_new-keeps s bootstrap host port max_conns window_size socket tls proxy
        on_shutdown host_buf t e =
      let taken = byte_buf_init_from_napi-Holds n m host s.natives.world.store in
      let held : Holds m s.natives.world.store t (blocks host_buf) =
        subst (λ q. Holds m s.natives.world.store q.1 (blocks q.0.1)) e taken in
      let released : SameLive m s.natives.world.store (byte_buf_clean_up n m host_buf t) =
        SameLive-of_Holds {m = m} (
          Holds-byte_buf_clean_up n m host_buf
            (subst (Holds m s.natives.world.store t) (sym (append-nil (blocks host_buf))) held)) in
      let s' : Managing m = record s { natives = calloc (with_store t s.natives) } in
      let ends =
        make_binding-Ends n m api s' (external_or_null n m bootstrap) host_buf.contents port
          max_conns window_size socket tls proxy on_shutdown in
      let made : Made n m api = release_host n m api host_buf (
        make_binding n m api (external_or_null n m bootstrap) host_buf.contents port max_conns
          window_size socket tls proxy on_shutdown s') in
      subst
        (λ q. Keeps s host_buf (
          with_host n m api (external_or_null n m bootstrap) port max_conns window_size socket tls
            proxy on_shutdown s q))
        (sym e)
        (
          subst (λ x. SameLive m s.natives.world.store (byte_buf_clean_up n m host_buf x))
              (sym ends.same_store) released,
          ends.same_structs,
          ends.function,
          ends.references_held,
          elim ends.result [
            | inl (e1, e2, e3, e4) ↦
                inl (e1, e2, e3, settled s made ends.function ends.references_held e4)
            | inr made_ ↦ inr made_
          ],
        )
