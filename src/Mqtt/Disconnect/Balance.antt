-- ===== src/Mqtt/Disconnect/Balance.antt =====
-- What a disconnect request holds: nothing where it fails, and nothing once it has completed.
use aws_crt_nodejs.Base.{
  ℕ, ◌+◌, ◌-◌, ◌≡◌, ◌⊎◌, inl, inr, refl, true, Option, none, some, List, [], ◌∷◌, arith, Bool-cases,
}
use aws_crt_nodejs.Napi.{
  Reply, Reply-cases, got, failed, error, Napi, Memory, Outcome, done, last_error,
}
use aws_crt_nodejs.Ownership.{SameLive}
use aws_crt_nodejs.Threadsafe.{Natives, Same, calloc, throwing}
use aws_crt_nodejs.Threadsafe.Balance.{optional_function-cases, queue_function-done, with_callback}
use aws_crt_nodejs.Mqtt.{MqttApi, ApiLaws}
use aws_crt_nodejs.Mqtt.Functions.{Bound, Bound-some, release_callback-done, call_back-done}
use aws_crt_nodejs.Mqtt.Disconnect.{
  Args, destroy_disconnect_args, refuse_disconnect, disconnect_callback,
  mqtt_client_connection_disconnect, on_disconnected, on_disconnect_call,
}

module _ (n : Napi) (m : Memory) (api : MqttApi n m) where
  -- What the request with these arguments holds in addition to `st`.
  pub record Pending (st : Natives m) (args : Args n m api) (st' : Natives m) : Type 0 where
    pub same_live : SameLive m st.world.store st'.world.store
    pub callback_held : st'.references ≡ with_callback args.on_disconnect st.references
    pub struct_held : st'.structs ≡ st.structs + 1
    pub bound : Bound args.binding args.on_disconnect

  module _ (laws : ApiLaws n m api) where
    destroy_disconnect_args-done :
        (st st' : Natives m) (args : Args n m api)
        → Pending st args st'
        → (after : Natives m) × (destroy_disconnect_args n m api args st' ≡ done after)
          × Same st after
    unfolding destroy_disconnect_args
    destroy_disconnect_args-done st st' args h = (
      record st' { references = st.references; structs = st'.structs - 1 },
      rw (
          release_callback-done n m api laws args.on_disconnect args.binding st' st.references
            h.bound h.callback_held),
      record {
        same_live = h.same_live;
        same_references = refl;
        same_structs = omega (arith, h.struct_held);
      },
    )

    refuse_disconnect-done :
        (st st' : Natives m) (args : Args n m api)
        → Pending st args st'
        → (after : Natives m) × (refuse_disconnect n m api args st' ≡ done (none, after))
          × Same st after
    unfolding refuse_disconnect
    refuse_disconnect-done st st' args h =
        let (after, run, same) = destroy_disconnect_args-done st st' args h in (after, rw run, same)

    -- The two ways in which a disconnect call may end.
    abbrev Ends : Natives m → Outcome (Option (Args n m api) × Natives m) → Type 0
    Ends st r =
        ((args : Args n m api) × (st' : Natives m) × (r ≡ done (some args, st'))
          × Pending st args st')
        ⊎ ((st' : Natives m) × (r ≡ done (none, st')) × Same st st')

    disconnect_callback-balanced :
        (b : n.Pointer) (v : n.Value) (st : Natives m)
        → Ends st (disconnect_callback n m api b v st)
    unfolding disconnect_callback
    disconnect_callback-balanced b v st =
        elim (optional_function-cases n m api.functions v (calloc st)) [
          | inl e ↦
              let (after, run, same) =
                refuse_disconnect-done st (calloc st)
                  (record { binding = some b; on_disconnect = none })
                  (record {
                    same_live = λ c. refl;
                    callback_held = refl;
                    struct_held = refl;
                    bound = tt;
                  }) in
              inr (after, rw (e, disconnect_callback) run, same)
          | inr (f, e) ↦
              let args : Args n m api = record { binding = some b; on_disconnect = f } in
              let st' : Natives m = record (calloc st) {
                references = with_callback f st.references;
              } in
              elim (Bool-cases (api.disconnect b)) [
                | inl e' ↦ inl (
                  args,
                  st',
                  rw (e, e', disconnect_callback),
                  record {
                    same_live = λ c. refl;
                    callback_held = refl;
                    struct_held = refl;
                    bound = Bound-some f b;
                  },
                )
                | inr e' ↦
                    let (after, run, same) =
                      refuse_disconnect-done st (throwing last_error st') args (record {
                        same_live = λ c. refl;
                        callback_held = refl;
                        struct_held = refl;
                        bound = Bound-some f b;
                      }) in
                    inr (after, rw (e, e', disconnect_callback) run, same)
              ]
        ]

    -- A disconnect call, whatever its arguments and whatever Node and the client answer, ends in one
    -- of two ways. Either the client takes the request: then its argument struct and the reference to
    -- its callback are held, and nothing else. Or it does not: then nothing more is held than before.
    -- The laws of `ApiLaws` hold.
    pub mqtt_client_connection_disconnect-balanced :
        (info : Reply (List n.Value)) (st : Natives m)
        → ((args : Args n m api) × (st' : Natives m) × (mqtt_client_connection_disconnect n m api
                info st
              ≡ done (some args, st'))
            × Pending st args st')
          ⊎ ((st' : Natives m) × (mqtt_client_connection_disconnect n m api info st
                ≡ done (none, st'))
              × Same st st')
    unfolding mqtt_client_connection_disconnect
    mqtt_client_connection_disconnect-balanced info st = go info
      where
        same : (w : _) → Same st (record st { world = record st.world { thrown = w } })
        same w = record { same_live = λ c. refl; same_references = refl; same_structs = refl }

        go :
            (info : Reply (List n.Value))
            → Ends st (mqtt_client_connection_disconnect n m api info st)
        go (failed f) = inr (_, refl, same _)
        go (got (node_binding ∷ v ∷ [])) = elim (Reply-cases (n.get_value_external node_binding)) [
          | inr (f, e) ↦ inr (
            throwing (error "Failed to extract binding from external") st,
            rw (e, mqtt_client_connection_disconnect),
            same _,
          )
          | inl (b, e) ↦
              rw (e, mqtt_client_connection_disconnect) (disconnect_callback-balanced b v st)
        ]
        go (got _) = inr (_, refl, same _)

    -- When the connection is closed, everything that a request which the client has taken held is
    -- given back: at once if it has no callback, and if it has one, after the queued call of that
    -- callback. Node runs meanwhile.
    -- The laws of `ApiLaws` hold.
    pub on_disconnected-balanced :
        (st st' : Natives m) (args : Args n m api)
        → Pending st args st'
        → ((after : Natives m) × (args.on_disconnect ≡ none)
            × (on_disconnected n m api args st' ≡ done (none, after))
            × Same st after)
          ⊎ ((f : ℕ) × (queued : Natives m) × (after : Natives m) × (args.on_disconnect ≡ some f)
              × (on_disconnected n m api args st' ≡ done (some args, queued))
              × (on_disconnect_call n m api true args queued
                  ≡ done (some (record { function = f; parameters = tt }), after))
              × Same st after)
    unfolding on_disconnected on_disconnect_call
    on_disconnected-balanced st st' args h = go args.on_disconnect h
      where
        with : Option ℕ → Args n m api
        with o = record { binding = args.binding; on_disconnect = o }

        go :
            (o : Option ℕ)
            → Pending st (with o) st'
            → ((after : Natives m) × (o ≡ none)
                × (on_disconnected n m api (with o) st' ≡ done (none, after))
                × Same st after)
              ⊎ ((f : ℕ) × (queued : Natives m) × (after : Natives m) × (o ≡ some f)
                  × (on_disconnected n m api (with o) st' ≡ done (some (with o), queued))
                  × (on_disconnect_call n m api true (with o) queued
                      ≡ done (some (record { function = f; parameters = tt }), after))
                  × Same st after)
        go none h =
            let (after, run, same) = refuse_disconnect-done st st' (with none) h in
            inl (after, refl, run, same)
        go (some f) h =
            let queued : Natives m = record st' { references = f ∷ st'.references } in
            let (after, run, same) = destroy_disconnect_args-done st st' (with (some f)) h in
            inr (
              f,
              queued,
              after,
              refl,
              rw (on_disconnected, queue_function-done n m api.functions laws.functions f st'),
              rw
                  (
                    on_disconnect_call,
                    call_back-done n m api laws f tt true queued st'.references refl refl,
                    run,
                  )
                  refl,
              same,
            )
