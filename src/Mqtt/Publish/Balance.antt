-- ===== src/Mqtt/Publish/Balance.antt =====
-- What a publish request holds: nothing where it fails, and nothing once it has completed.
use aws_crt_nodejs.Base.{
  ℕ, ◌+◌, ◌-◌, ◌≡◌, ◌⊎◌, inl, inr, refl, ap, ◌∙◌, Bool, true, ◌&&◌, Option, none, some, List, [],
  ◌∷◌, ◌++◌, append-nil, arith, Bool-cases, ◌==◌,
}
use aws_crt_nodejs.Napi.{Reply, Reply-cases, Status-cases, got, failed, Napi, Memory, Throw, done}
use aws_crt_nodejs.Ownership.{Holds, SameLive, Holds-nil, Holds-prepend, SameLive-of_Holds}
use aws_crt_nodejs.ByteBuf.{ByteBuf, zeroed, byte_buf_init_from_napi}
use aws_crt_nodejs.ByteBuf.Balance.{blocks, byte_buf_init_from_napi-Holds, Holds-byte_buf_clean_up}
use aws_crt_nodejs.Threadsafe.{Natives, Same, calloc, optional_function, throwing}
use aws_crt_nodejs.Threadsafe.Balance.{optional_function-cases, queue_function-done, with_callback}
use aws_crt_nodejs.Mqtt.{MqttApi, ApiLaws}
use aws_crt_nodejs.Mqtt.Functions.{Bound, Bound-some, release_callback-done, call_back-done}
use aws_crt_nodejs.Mqtt.Publish.{
  PubackArgs, Publishing, destroy_puback_args, publish_callback, publish_options, publish_payload,
  publish_topic, publish_body, release_buffers, mqtt_client_connection_publish, on_publish_complete,
  on_publish_complete_call,
}

module _ (n : Napi) (m : Memory) (api : MqttApi n m) where
  -- What the request holds in addition to `st`, at any point of the function.
  record Tracks (st : Natives m) (p : Publishing n m api) : Type 0 where
    held : Holds m st.world.store p.natives.world.store (blocks p.payload_buf ++ blocks p.topic_buf)
    same_references : p.natives.references ≡ with_callback p.args.on_puback st.references
    one_struct : p.natives.structs ≡ st.structs + 1
    is_bound : Bound p.args.binding p.args.on_puback

  -- A point of the function before the callback is stored.
  abbrev at : Option n.Pointer → ByteBuf → ByteBuf → Natives m → Publishing n m api
  at binding topic payload st = record {
    args = record { binding = binding; packet_id = 0; error_code = 0; on_puback = none };
    topic_buf = topic;
    payload_buf = payload;
    natives = st;
  }

  -- An exception changes nothing of what is held.
  again :
      {st : Natives m} {p : Publishing n m api}
      → (t : Throw) → Tracks st p
      → Tracks st (record p { natives = throwing t p.natives })
  again t h = record {
    held = h.held;
    same_references = h.same_references;
    one_struct = h.one_struct;
    is_bound = h.is_bound;
  }

  publish_callback-Tracks :
      (st : Natives m) (b : n.Pointer) (topic payload : ByteBuf) (cur : Natives m) (qos : ℕ)
      (retain : Bool) (v : n.Value)
      → Tracks st (at (some b) topic payload cur)
      → Tracks st (publish_callback n m api b qos retain v (at (some b) topic payload cur)).1
  unfolding publish_callback optional_function
  publish_callback-Tracks st b topic payload cur qos retain v h =
      elim (optional_function-cases n m api.functions v cur) [
        | inl e ↦ rw (e, publish_callback) h
        | inr (f, e) ↦
            let rec : Tracks st (record (at (some b) topic payload cur) {
              args = record { binding = some b; packet_id = 0; error_code = 0; on_puback = f };
              natives = record cur { references = with_callback f cur.references };
            }) =
              record {
                held = h.held;
                same_references = ap (with_callback f) h.same_references;
                one_struct = h.one_struct;
                is_bound = Bound-some f b;
              } in
            elim (Bool-cases (api.publish b topic qos retain payload == 0)) [
              | inl e' ↦ rw (e, e', publish_callback) (again _ rec)
              | inr e' ↦ rw (e, e', publish_callback) rec
            ]
      ]

  publish_options-Tracks :
      (st : Natives m) (b : n.Pointer) (topic payload : ByteBuf) (cur : Natives m)
      (node_qos node_retain v : n.Value)
      → Tracks st (at (some b) topic payload cur)
      → Tracks st
          (publish_options n m api b node_qos node_retain v (at (some b) topic payload cur)).1
  unfolding publish_options
  publish_options-Tracks st b topic payload cur node_qos node_retain v h =
      elim (Reply-cases (n.get_value_uint32 node_qos)) [
        | inr (f, e) ↦ rw (e, publish_options) (again _ h)
        | inl (qos, e) ↦ elim (Reply-cases (n.get_value_bool node_retain)) [
          | inr (f, e') ↦ rw (e, e', publish_options) (again _ h)
          | inl (retain, e') ↦
              rw (e, e', publish_options)
                (publish_callback-Tracks st b topic payload cur qos retain v h)
        ]
      ]

  publish_payload-Tracks :
      (st : Natives m) (b : n.Pointer) (topic : ByteBuf) (cur : Natives m)
      (node_payload node_qos node_retain v : n.Value)
      → Tracks st (at (some b) topic zeroed cur)
      → Tracks st
          (publish_payload n m api b node_payload node_qos node_retain v
            (at (some b) topic zeroed cur)).1
  unfolding publish_payload
  publish_payload-Tracks st b topic cur node_payload node_qos node_retain v h =
      let r = byte_buf_init_from_napi n m zeroed node_payload cur.world.store in
      let held =
        Holds-prepend h.held (byte_buf_init_from_napi-Holds n m node_payload cur.world.store) in
      elim (Status-cases r.0.0) [
        | inr (f, e) ↦
            rw (e, publish_payload)
              (record {
                held = held;
                same_references = h.same_references;
                one_struct = h.one_struct;
                is_bound = tt;
              })
        | inl e ↦
            rw (e, publish_payload)
              (publish_options-Tracks st b topic r.0.1 _ node_qos node_retain v (record {
                held = held;
                same_references = h.same_references;
                one_struct = h.one_struct;
                is_bound = tt;
              }))
      ]

  publish_topic-Tracks :
      (st : Natives m) (b : n.Pointer) (cur : Natives m)
      (node_topic node_payload node_qos node_retain v : n.Value)
      → Tracks st (at (some b) zeroed zeroed cur)
      → Tracks st
          (publish_topic n m api b node_topic node_payload node_qos node_retain v
            (at (some b) zeroed zeroed cur)).1
  unfolding publish_topic
  publish_topic-Tracks st b cur node_topic node_payload node_qos node_retain v h =
      let r = byte_buf_init_from_napi n m zeroed node_topic cur.world.store in
      let held =
        Holds-prepend h.held (byte_buf_init_from_napi-Holds n m node_topic cur.world.store) in
      let rec : Tracks st
          (at (some b) r.0.1 zeroed (record cur { world = record cur.world { store = r.1 } })) =
        record {
          held = rw (append-nil (blocks r.0.1)) at held;
          same_references = h.same_references;
          one_struct = h.one_struct;
          is_bound = tt;
        } in
      elim (Status-cases r.0.0) [
        | inr (f, e) ↦ rw (e, publish_topic) (again _ rec)
        | inl e ↦
            rw (e, publish_topic)
              (publish_payload-Tracks st b r.0.1 _ node_payload node_qos node_retain v rec)
      ]

  publish_body-Tracks :
      (st : Natives m) (info : Reply (List n.Value))
      → Tracks st (publish_body n m api info (at none zeroed zeroed (calloc st))).1
  unfolding publish_body
  publish_body-Tracks st info = go info
    where
      start : Tracks st (at none zeroed zeroed (calloc st))
      start = record {
        held = Holds-nil st.world.store;
        same_references = refl;
        one_struct = refl;
        is_bound = tt;
      }

      go :
          (info : Reply (List n.Value))
          → Tracks st (publish_body n m api info (at none zeroed zeroed (calloc st))).1
      go (failed f) = again _ start
      go (got (node_binding ∷ t ∷ p ∷ q ∷ r ∷ v ∷ [])) =
          elim (Reply-cases (n.get_value_external node_binding)) [
            | inr (f, e) ↦ rw (e, publish_body) (again _ start)
            | inl (b, e) ↦
                rw (e, publish_body)
                  (publish_topic-Tracks st b (calloc st) t p q r v (record {
                    held = start.held;
                    same_references = refl;
                    one_struct = refl;
                    is_bound = tt;
                  }))
          ]
      go (got _) = again _ start

  release_buffers-live :
      (st : Natives m) (p : Publishing n m api)
      → Tracks st p
      → SameLive m st.world.store (release_buffers n m api p).world.store
  unfolding release_buffers
  release_buffers-live st p h = SameLive-of_Holds (
      Holds-byte_buf_clean_up n m p.topic_buf {bs = []}
        (rw (append-nil (blocks p.topic_buf)) (Holds-byte_buf_clean_up n m p.payload_buf h.held)))

  -- What `st` becomes when the client takes a request with these arguments.
  pub record Pending (st : Natives m) (args : PubackArgs n.Pointer) (st' : Natives m) : Type 0 where
    pub same_live : SameLive m st.world.store st'.world.store
    pub callback_held : st'.references ≡ with_callback args.on_puback st.references
    pub struct_held : st'.structs ≡ st.structs + 1
    pub bound : Bound args.binding args.on_puback

  module _ (laws : ApiLaws n m api) where
    destroy_puback_args-done :
        (st st' : Natives m) (args : PubackArgs n.Pointer)
        → Pending st args st'
        → (after : Natives m) × (destroy_puback_args n m api args st' ≡ done after) × Same st after
    unfolding destroy_puback_args
    destroy_puback_args-done st st' args h = (
      record st' { references = st.references; structs = st'.structs - 1 },
      rw (
          release_callback-done n m api laws args.on_puback args.binding st' st.references h.bound
            h.callback_held),
      record {
        same_live = h.same_live;
        same_references = refl;
        same_structs = omega (arith, h.struct_held);
      },
    )

    -- A publish call, whatever its arguments and whatever Node and the client answer, ends in one of
    -- two ways. Either the client takes the request: then its argument struct and the reference to
    -- its callback are held, and nothing else. Or it does not: then nothing more is held than before,
    -- wherever the call failed. The copies of topic and payload are given back in both cases.
    -- The laws of `ApiLaws` hold.
    pub mqtt_client_connection_publish-balanced :
        (info : Reply (List n.Value)) (st : Natives m)
        → ((args : PubackArgs n.Pointer) × (st' : Natives m) × (mqtt_client_connection_publish n m
                api info st
              ≡ done (some args, st'))
            × Pending st args st')
          ⊎ ((st' : Natives m) × (mqtt_client_connection_publish n m api info st ≡ done (none, st'))
              × Same st st')
    unfolding mqtt_client_connection_publish release_buffers
    mqtt_client_connection_publish-balanced info st =
        let r = publish_body n m api info (at none zeroed zeroed (calloc st)) in
        let h = publish_body-Tracks st info in
        let pending : Pending st r.1.args (release_buffers n m api r.1) = record {
          same_live = release_buffers-live st r.1 h;
          callback_held = h.same_references;
          struct_held = h.one_struct;
          bound = h.is_bound;
        } in
        elim (Bool-cases r.0) [
          | inl e ↦ inl (
            r.1.args,
            release_buffers n m api r.1,
            rw (e, mqtt_client_connection_publish),
            pending,
          )
          | inr e ↦
              let (after, run, same) = destroy_puback_args-done st _ r.1.args pending in
              inr (after, rw (e, mqtt_client_connection_publish, run), same)
        ]

    -- A request with a callback that the client has taken is completed while Node runs: the callback
    -- is called with the packet id and error code, and afterwards everything that the request held
    -- has been given back.
    -- The laws of `ApiLaws` hold.
    pub on_publish_complete-balanced :
        (st st' : Natives m) (args : PubackArgs n.Pointer) (f packet_id error_code : ℕ)
        → args.on_puback ≡ some f
        → Pending st args st'
        → (args' : PubackArgs n.Pointer) × (queued : Natives m) × (after : Natives m)
          × (on_publish_complete n m api packet_id error_code args st' ≡ done (args', queued))
          × (args'.packet_id ≡ packet_id)
          × (args'.error_code ≡ error_code)
          × (on_publish_complete_call n m api true args' queued
              ≡ done (some (record { function = f; parameters = (packet_id, error_code) }), after))
          × Same st after
    unfolding on_publish_complete on_publish_complete_call
    on_publish_complete-balanced st st' args f packet_id error_code has_callback h =
        let args' : PubackArgs n.Pointer = record args {
          packet_id = packet_id;
          error_code = error_code;
          on_puback = some f;
        } in
        let queued : Natives m = record st' { references = f ∷ st'.references } in
        let (after, destroyed, same) = destroy_puback_args-done st st' args' (record {
          same_live = h.same_live;
          callback_held = h.callback_held ∙ ap (λ o. with_callback o st.references) has_callback;
          struct_held = h.struct_held;
          bound = rw has_callback at h.bound;
        }) in
        (
          args',
          queued,
          after,
          rw (
            has_callback,
            on_publish_complete,
            queue_function-done n m api.functions laws.functions f st',
          ),
          refl,
          refl,
          rw
              (
                on_publish_complete_call,
                call_back-done n m api laws {A = ℕ × ℕ} f (packet_id, error_code)
                    (api.create_uint32 packet_id && api.create_int32 error_code) queued
                    st'.references (rw (laws.makes_uint32 packet_id, laws.makes_int32 error_code))
                    refl,
                destroyed,
              )
              refl,
          same,
        )
