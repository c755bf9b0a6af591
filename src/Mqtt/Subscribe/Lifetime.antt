-- ===== src/Mqtt/Subscribe/Lifetime.antt =====
-- A subscription from the call of subscribe to its end: what is given back, and when.
use aws_crt_nodejs.Base.{
  ℕ, ◌+◌, ◌-◌, ◌≡◌, ◌⊎◌, inl, inr, refl, ap, ◌∙◌, true, ◌&&◌, take, Option, none, some, List, [],
  ◌∷◌, append-nil, arith, Bool-cases,
}
use aws_crt_nodejs.Napi.{Reply, Reply-cases, got, failed, error, Napi, Memory, Outcome, done}
use aws_crt_nodejs.Ownership.{Holds, Holds-swap, SameLive-of_Holds}
use aws_crt_nodejs.ByteBuf.{byte_buf_clean_up}
use aws_crt_nodejs.ByteBuf.Balance.{blocks, Holds-byte_buf_clean_up}
use aws_crt_nodejs.Threadsafe.{Natives, Same, release_function, throwing, with_store}
use aws_crt_nodejs.Threadsafe.Balance.{queue_function-done, with_callback}
use aws_crt_nodejs.Mqtt.{MqttApi, ApiLaws}
use aws_crt_nodejs.Mqtt.Functions.{release_callback-done, call_back-done}
use aws_crt_nodejs.Mqtt.Subscribe.{
  Subscription, Suback, destroy_suback_args, destroy_subscription, subscribe_topic,
  mqtt_client_connection_subscribe, on_suback, on_suback_call, acknowledged,
}
use aws_crt_nodejs.Mqtt.Subscribe.Balance.{
  Held, suback_blocks, suback_callback, suback_structs, SubackBound, subscribe_topic-Tracks,
  remove_one-second,
}

module _ (n : Napi) (m : Memory) (api : MqttApi n m) (laws : ApiLaws n m api) where
  -- What the arguments of the acknowledgement alone hold.
  record AloneHeld (st : Natives m) (suback : Option (Suback n m api)) (st' : Natives m)
      : Type 0 where
    topic_held : Holds m st.world.store st'.world.store (suback_blocks n m api suback)
    callback_held : st'.references ≡ with_callback (suback_callback n m api suback) st.references
    structs_held : st'.structs ≡ st.structs + suback_structs n m api suback
    bound : SubackBound n m api suback

  destroy_subscription-done :
      (st st' : Natives m) (sub : Subscription) (suback : Option (Suback n m api))
      → Held n m api st sub suback st'
      → (after : Natives m) × (destroy_subscription n m api sub st' ≡ done after)
        × AloneHeld st suback after
  unfolding destroy_subscription release_function
  destroy_subscription-done st st' sub suback h = go sub.on_publish h
    where
      with : Option ℕ → Subscription
      with o = record { topic = sub.topic; on_publish = o }

      s : m.Store
      s = byte_buf_clean_up n m sub.topic st'.world.store

      after : Natives m
      after = record {
        world = record st'.world { store = s };
        references = with_callback (suback_callback n m api suback) st.references;
        structs = st'.structs - 1;
      }

      go :
          (o : Option ℕ)
          → Held n m api st (with o) suback st'
          → (after : Natives m) × (destroy_subscription n m api (with o) st' ≡ done after)
            × AloneHeld st suback after
      go none h = (
        after,
        rw h.callbacks_held,
        record {
          topic_held = Holds-byte_buf_clean_up n m sub.topic h.topics_held;
          callback_held = refl;
          structs_held = omega (arith, h.structs_held);
          bound = h.bound;
        },
      )
      go (some f) h = (
        after,
        rw (
          laws.functions.releases f,
          release_function,
          h.callbacks_held,
          remove_one-second (suback_callback n m api suback) f st.references,
        ),
        record {
          topic_held = Holds-byte_buf_clean_up n m sub.topic h.topics_held;
          callback_held = refl;
          structs_held = omega (arith, h.structs_held);
          bound = h.bound;
        },
      )

  destroy_suback_args-done :
      (st st' : Natives m) (suback : Option (Suback n m api))
      → AloneHeld st suback st'
      → (after : Natives m) × (destroy_suback_args n m api suback st' ≡ done after) × Same st after
  unfolding destroy_suback_args
  destroy_suback_args-done st st' none h = (
    st',
    refl,
    record {
      same_live = SameLive-of_Holds h.topic_held;
      same_references = h.callback_held;
      same_structs = omega (arith, h.structs_held);
    },
  )
  destroy_suback_args-done st st' (some args) h =
      let s = byte_buf_clean_up n m args.topic st'.world.store in
      (
        record st' {
          world = record st'.world { store = s };
          references = st.references;
          structs = st'.structs - 1;
        },
        rw (
            release_callback-done n m api laws args.on_suback args.binding (with_store s st')
              st.references h.bound h.callback_held),
        record {
          same_live =
              SameLive-of_Holds
                (Holds-byte_buf_clean_up n m args.topic {bs = []} (rw append-nil h.topic_held));
          same_references = refl;
          same_structs = omega (arith, h.structs_held);
        },
      )

  -- The two ways in which a call may end.
  abbrev Ends :
      Natives m → Outcome (Option (Subscription × Option (Suback n m api)) × Natives m) → Type 0
  Ends st r =
      ((sub : Subscription) × (suback : Option (Suback n m api)) × (st' : Natives m) × (r
          ≡ done (some (sub, suback), st'))
        × Held n m api st sub suback st')
      ⊎ ((st' : Natives m) × (r ≡ done (none, st')) × Same st st')

  -- A subscribe call, whatever its arguments and whatever Node and the client answer, ends in one of
  -- two ways. Either the client takes the request: then the subscription and, if there is a callback
  -- for the acknowledgement, its argument struct are held, with their copies of the topic and the
  -- references to their callbacks, and nothing else. Or it does not: then nothing more is held than
  -- before, wherever the call failed.
  -- The laws of `ApiLaws` hold.
  pub mqtt_client_connection_subscribe-balanced :
      (info : Reply (List n.Value)) (st : Natives m)
      → ((sub : Subscription) × (suback : Option (Suback n m api)) × (st' : Natives m)
          × (mqtt_client_connection_subscribe n m api info st ≡ done (some (sub, suback), st'))
          × Held n m api st sub suback st')
        ⊎ ((st' : Natives m) × (mqtt_client_connection_subscribe n m api info st ≡ done (none, st'))
            × Same st st')
  unfolding mqtt_client_connection_subscribe
  mqtt_client_connection_subscribe-balanced info st = go info
    where
      same : (w : _) → Same st (record st { world = record st.world { thrown = w } })
      same w = record { same_live = λ c. refl; same_references = refl; same_structs = refl }

      go :
          (info : Reply (List n.Value)) → Ends st (mqtt_client_connection_subscribe n m api info st)
      go (failed f) = inr (_, refl, same _)
      go (got (node_binding ∷ t ∷ q ∷ p ∷ v ∷ [])) =
          elim (Reply-cases (n.get_value_external node_binding)) [
            | inr (f, e) ↦ inr (
              throwing (error "Failed to extract binding from external") st,
              rw (e, mqtt_client_connection_subscribe),
              same _,
            )
            | inl (b, e) ↦
                let r = subscribe_topic n m api b t q p v st in
                let h = subscribe_topic-Tracks n m api laws st b t q p v in
                elim (Bool-cases r.0) [
                  | inl e' ↦ inl (
                    r.1.sub,
                    r.1.suback,
                    r.1.natives,
                    rw (e, e', mqtt_client_connection_subscribe),
                    h,
                  )
                  | inr e' ↦
                      let (mid, first, alone) =
                        destroy_subscription-done st r.1.natives r.1.sub r.1.suback h in
                      let (after, second, same') =
                        destroy_suback_args-done st mid r.1.suback alone in
                      inr
                        (after, rw (e, e', mqtt_client_connection_subscribe, first, second), same')
                ]
          ]
      go (got _) = inr (_, refl, same _)

  -- A subscription that the client has taken is acknowledged with a callback while Node runs, and
  -- ends later. The callback is called with the packet id, the bytes of the argument struct's copy of
  -- the topic, the granted QoS and the error code; after that call the argument struct and its copy
  -- of the topic are given back, and the subscription still holds its own. When the client then gives up the subscription,
  -- nothing more is held than before the subscribe call.
  -- The laws of `ApiLaws` hold.
  pub on_suback-balanced :
      (st st' : Natives m) (sub : Subscription) (args : Suback n m api)
      (f packet_id qos error_code : ℕ)
      → args.on_suback ≡ some f
      → Held n m api st sub (some args) st'
      → (args' : Suback n m api) × (queued : Natives m) × (acked : Natives m) × (after : Natives m)
        × (on_suback n m api packet_id qos error_code (some args) st' ≡ done (some args', queued))
        × (on_suback_call n m api true args' queued
            ≡ done (
              some (record {
                function = f;
                parameters = record {
                  packet_id = packet_id;
                  topic = take args.topic.len args.topic.contents;
                  qos = qos;
                  error_code = error_code;
                };
              }),
              acked,
            ))
        × Held n m api st sub none acked
        × (destroy_subscription n m api sub acked ≡ done after)
        × Same st after
  unfolding on_suback on_suback_call acknowledged destroy_suback_args
  on_suback-balanced st st' sub args f packet_id qos error_code e h =
      let args' : Suback n m api = record args {
        packet_id = packet_id;
        qos = qos;
        error_code = error_code;
        on_suback = some f;
      } in
      let queued : Natives m = record st' { references = f ∷ st'.references } in
      let fs = with_callback sub.on_publish st.references in
      let s = byte_buf_clean_up n m args.topic st'.world.store in
      let acked : Natives m = record {
        world = record st'.world { store = s };
        references = fs;
        structs = st'.structs - 1;
      } in
      let refs : st'.references ≡ f ∷ fs = h.callbacks_held ∙ ap (λ o. with_callback o fs) e in
      let held : Held n m api st sub none acked = record {
        topics_held = rw append-nil (
            Holds-byte_buf_clean_up n m args.topic
              (Holds-swap (blocks sub.topic) (blocks args.topic) h.topics_held));
        callbacks_held = refl;
        structs_held = omega (arith, h.structs_held);
        bound = tt;
      } in
      let (mid, first, alone) = destroy_subscription-done st acked sub none held in
      (
        args',
        queued,
        acked,
        mid,
        rw (e, on_suback, queue_function-done n m api.functions laws.functions f st')
            (ap (λ o. done (some (record args' { on_suback = o }), queued)) e),
        rw (
          on_suback_call,
          call_back-done n m api laws f (acknowledged n m api args')
              (api.create_int32 packet_id
                && api.create_string_utf8 (take args.topic.len args.topic.contents)
                && api.create_int32 qos
                && api.create_int32 error_code)
              queued st'.references
              (rw (
                laws.makes_int32 packet_id,
                laws.makes_string (take args.topic.len args.topic.contents),
                laws.makes_int32 qos,
                laws.makes_int32 error_code,
              ))
              refl,
          release_callback-done n m api laws (some f) args.binding (with_store s st') fs
              (rw e at h.bound) refs,
        ),
        held,
        first,
        record {
          same_live = SameLive-of_Holds alone.topic_held;
          same_references = alone.callback_held;
          same_structs = omega (arith, alone.structs_held);
        },
      )
