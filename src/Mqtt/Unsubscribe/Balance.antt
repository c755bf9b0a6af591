-- ===== src/Mqtt/Unsubscribe/Balance.antt =====
-- What an unsubscribe request holds: nothing where it fails, and nothing once it has completed.
use aws_crt_nodejs.Base.{
  ℕ, ◌+◌, ◌-◌, ◌≡◌, ◌⊎◌, inl, inr, refl, ap, ◌∙◌, true, ◌&&◌, none, some, List, [], ◌∷◌, append-nil,
  arith, Bool-cases, Option-cases, ◌==◌,
}
use aws_crt_nodejs.Napi.{Reply, Reply-cases, Status-cases, got, failed, error, Napi, Memory, done}
use aws_crt_nodejs.Ownership.{Holds, SameLive-of_Holds}
use aws_crt_nodejs.ByteBuf.{ByteBuf, zeroed, byte_buf_init_from_napi, byte_buf_clean_up}
use aws_crt_nodejs.ByteBuf.Balance.{blocks, byte_buf_init_from_napi-Holds, Holds-byte_buf_clean_up}
use aws_crt_nodejs.Threadsafe.{Natives, Same, throwing, with_store}
use aws_crt_nodejs.Threadsafe.Balance.{optional_function-cases, queue_function-done, with_callback}
use aws_crt_nodejs.Mqtt.{MqttApi, ApiLaws}
use aws_crt_nodejs.Mqtt.Functions.{Bound, Bound-some, release_callback-done, call_back-done}
use aws_crt_nodejs.Mqtt.Unsubscribe.{
  Args, destroy_unsuback_args, unsubscribe_callback, unsubscribe_topic,
  mqtt_client_connection_unsubscribe, on_unsubscribe_complete, on_unsub_ack_call,
}

module _ (n : Napi) (m : Memory) (api : MqttApi n m) where
  -- What the request with these arguments holds in addition to `st`.
  pub record Pending (st : Natives m) (args : Args n m api) (st' : Natives m) : Type 0 where
    pub topic_held : Holds m st.world.store st'.world.store (blocks args.topic)
    pub callback_held : st'.references ≡ with_callback args.on_unsuback st.references
    pub struct_held : st'.structs ≡ st.structs + 1
    pub bound : Bound args.binding args.on_unsuback

  unsubscribe_callback-Pending :
      (b : n.Pointer) (v : n.Value) (st st' : Natives m) (topic : ByteBuf)
      → Holds m st.world.store st'.world.store (blocks topic)
      → st'.references ≡ st.references
      → st'.structs ≡ st.structs + 1
      → let r =
          unsubscribe_callback n m api b v
            (record {
              binding = some b;
              topic = topic;
              packet_id = 0;
              error_code = 0;
              on_unsuback = none;
            })
            st' in
        Pending st r.1 r.2
  unfolding unsubscribe_callback
  unsubscribe_callback-Pending b v st st' topic held refs one =
      elim (optional_function-cases n m api.functions v st') [
        | inl e ↦
            rw (e, unsubscribe_callback)
              (record { topic_held = held; callback_held = refs; struct_held = one; bound = tt })
        | inr (f, e) ↦ elim (Bool-cases (api.unsubscribe b topic == 0)) [
          | inl e' ↦
              rw (e, e', unsubscribe_callback)
                (record {
                  topic_held = held;
                  callback_held = ap (with_callback f) refs;
                  struct_held = one;
                  bound = Bound-some f b;
                })
          | inr e' ↦
              rw (e, e', unsubscribe_callback)
                (record {
                  topic_held = held;
                  callback_held = ap (with_callback f) refs;
                  struct_held = one;
                  bound = Bound-some f b;
                })
        ]
      ]

  unsubscribe_topic-Pending :
      (b : n.Pointer) (node_topic v : n.Value) (st : Natives m)
      → let r = unsubscribe_topic n m api b node_topic v st in Pending st r.1 r.2
  unfolding unsubscribe_topic
  unsubscribe_topic-Pending b node_topic v st =
      let r = byte_buf_init_from_napi n m zeroed node_topic st.world.store in
      let held = byte_buf_init_from_napi-Holds n m node_topic st.world.store in
      elim (Status-cases r.0.0) [
        | inr (f, e) ↦
            rw (e, unsubscribe_topic)
              (record { topic_held = held; callback_held = refl; struct_held = refl; bound = tt })
        | inl e ↦
            rw (e, unsubscribe_topic) (unsubscribe_callback-Pending b v st _ r.0.1 held refl refl)
      ]

  module _ (laws : ApiLaws n m api) where
    destroy_unsuback_args-done :
        (st st' : Natives m) (args : Args n m api)
        → Pending st args st'
        → (after : Natives m) × (destroy_unsuback_args n m api args st' ≡ done after)
          × Same st after
    unfolding destroy_unsuback_args
    destroy_unsuback_args-done st st' args h =
        let s = byte_buf_clean_up n m args.topic st'.world.store in
        (
          record st' {
            world = record st'.world { store = s };
            references = st.references;
            structs = st'.structs - 1;
          },
          rw (
              release_callback-done n m api laws args.on_unsuback args.binding (with_store s st')
                st.references h.bound h.callback_held),
          record {
            same_live =
                SameLive-of_Holds
                  (Holds-byte_buf_clean_up n m args.topic {bs = []} (rw append-nil h.topic_held));
            same_references = refl;
            same_structs = omega (arith, h.struct_held);
          },
        )

    -- An unsubscribe call, whatever its arguments and whatever Node and the client answer, ends in
    -- one of two ways. Either the client takes the request: then its argument struct, its copy of the
    -- topic and the reference to its callback are held, and nothing else. Or it does not: then
    -- nothing more is held than before, wherever the call failed.
    -- The laws of `ApiLaws` hold.
    pub mqtt_client_connection_unsubscribe-balanced :
        (info : Reply (List n.Value)) (st : Natives m)
        → ((args : Args n m api) × (st' : Natives m) × (mqtt_client_connection_unsubscribe n m api
                info st
              ≡ done (some args, st'))
            × Pending st args st')
          ⊎ ((st' : Natives m) × (mqtt_client_connection_unsubscribe n m api info st
                ≡ done (none, st'))
              × Same st st')
    unfolding mqtt_client_connection_unsubscribe
    mqtt_client_connection_unsubscribe-balanced info st = go info
      where
        same : (w : _) → Same st (record st { world = record st.world { thrown = w } })
        same w = record { same_live = λ c. refl; same_references = refl; same_structs = refl }

        go :
            (info : Reply (List n.Value))
            → ((args : Args n m api) × (st' : Natives m) × (mqtt_client_connection_unsubscribe n m
                    api info st
                  ≡ done (some args, st'))
                × Pending st args st')
              ⊎ ((st' : Natives m) × (mqtt_client_connection_unsubscribe n m api info st
                    ≡ done (none, st'))
                  × Same st st')
        go (failed f) = inr (_, refl, same _)
        go (got (node_binding ∷ t ∷ v ∷ [])) =
            elim (Reply-cases (n.get_value_external node_binding)) [
              | inr (f, e) ↦ inr (
                throwing (error "Failed to extract binding from external") st,
                rw (e, mqtt_client_connection_unsubscribe),
                same _,
              )
              | inl (b, e) ↦
                  let r = unsubscribe_topic n m api b t v st in
                  let h = unsubscribe_topic-Pending b t v st in
                  elim (Bool-cases r.0) [
                    | inl e' ↦ inl (r.1, r.2, rw (e, e', mqtt_client_connection_unsubscribe), h)
                    | inr e' ↦
                        let (after, run, same') = destroy_unsuback_args-done st r.2 r.1 h in
                        inr (after, rw (e, e', mqtt_client_connection_unsubscribe, run), same')
                  ]
            ]
        go (got _) = inr (_, refl, same _)

    -- When the client acknowledges a request that it has taken, everything that the request held is
    -- given back: at once if it has no callback, and if it has one, after the queued call of that
    -- callback with the packet id and the error code. Node runs meanwhile.
    -- The laws of `ApiLaws` hold.
    pub on_unsubscribe_complete-balanced :
        (st st' : Natives m) (args : Args n m api) (packet_id error_code : ℕ)
        → Pending st args st'
        → ((after : Natives m) × (args.on_unsuback ≡ none)
            × (on_unsubscribe_complete n m api packet_id error_code args st' ≡ done (none, after))
            × Same st after)
          ⊎ ((f : ℕ) × (args' : Args n m api) × (queued : Natives m) × (after : Natives m)
              × (args.on_unsuback ≡ some f)
              × (on_unsubscribe_complete n m api packet_id error_code args st'
                  ≡ done (some args', queued))
              × (on_unsub_ack_call n m api true args' queued
                  ≡ done
                      (some (record { function = f; parameters = (packet_id, error_code) }), after))
              × Same st after)
    unfolding on_unsubscribe_complete on_unsub_ack_call
    on_unsubscribe_complete-balanced st st' args packet_id error_code h =
        elim (Option-cases args.on_unsuback) [
          | inl e ↦
              let (after, run, same) = destroy_unsuback_args-done st st' args h in
              inl (after, e, rw (e, on_unsubscribe_complete, run), same)
          | inr (f, e) ↦
              let args' : Args n m api = record args {
                packet_id = packet_id;
                error_code = error_code;
                on_unsuback = some f;
              } in
              let queued : Natives m = record st' { references = f ∷ st'.references } in
              let (after, run, same) = destroy_unsuback_args-done st st' args' (record {
                topic_held = h.topic_held;
                callback_held = h.callback_held ∙ ap (λ o. with_callback o st.references) e;
                struct_held = h.struct_held;
                bound = rw e at h.bound;
              }) in
              inr (
                f,
                args',
                queued,
                after,
                e,
                rw
                    (
                      e,
                      on_unsubscribe_complete,
                      queue_function-done n m api.functions laws.functions f st',
                    )
                    (ap (λ o. done (some (record args' { on_unsuback = o }), queued)) e),
                rw
                    (
                      on_unsub_ack_call,
                      call_back-done n m api laws {A = ℕ × ℕ} f (packet_id, error_code)
                          (api.create_uint32 packet_id && api.create_int32 error_code) queued
                          st'.references
                          (rw (laws.makes_uint32 packet_id, laws.makes_int32 error_code)) refl,
                      run,
                    )
                    refl,
                same,
              )
        ]
