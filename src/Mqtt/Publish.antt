-- ===== src/Mqtt/Publish.antt =====
-- source/mqtt_client_connection.c: aws_napi_mqtt_client_connection_publish and its completion.
pub mod Balance
use aws_crt_nodejs.Base.{
  ℕ, ◌≡◌, Bool, true, false, ◌&&◌, Option, none, some, List, [], ◌∷◌, ◌==◌, if◌then◌else◌,
}
use aws_crt_nodejs.Napi.{
  ok, fail, Reply, got, failed, Napi, Memory, error, type_error, last_error, Outcome, done, aborted,
  ◌>>=◌,
}
use aws_crt_nodejs.ByteBuf.{ByteBuf, zeroed, byte_buf_init_from_napi, byte_buf_clean_up}
use aws_crt_nodejs.Threadsafe.{
  Natives, calloc, dispatch_function, mem_release, optional_function, queue_function, throwing,
  with_store,
}
use aws_crt_nodejs.Mqtt.{MqttApi, Call, call_back, release_callback}

-- struct puback_args
pub record PubackArgs (Pointer : Type 0) : Type 0 where
  pub binding : Option Pointer
  pub packet_id : ℕ
  pub error_code : ℕ
  pub on_puback : Option ℕ

module _ (n : Napi) (m : Memory) (api : MqttApi n m) where
  -- the local variables that the `cleanup:` label reads, and whether the client took the request
  pub record Publishing : Type 0 where
    pub args : PubackArgs n.Pointer
    pub topic_buf : ByteBuf
    pub payload_buf : ByteBuf
    pub natives : Natives m

  abbrev pub Attempted : Type 0
  Attempted = Bool × Publishing

  -- s_destroy_puback_args
  unfoldable pub destroy_puback_args : PubackArgs n.Pointer → Natives m → Outcome (Natives m)
  destroy_puback_args args st = do
    st' ← release_callback n m api args.on_puback args.binding st
    done (mem_release st')

  -- from the callback argument on
  unfoldable pub publish_callback : n.Pointer → ℕ → Bool → n.Value → Publishing → Attempted
  publish_callback binding qos retain node_on_puback p =
      elim (optional_function n m api.functions node_on_puback p.natives) [
        | none ↦ (false, p)
        | some (f, st) ↦
            let q = record p { args = record p.args { on_puback = f }; natives = st } in
            if api.publish binding p.topic_buf qos retain p.payload_buf == 0
            then (false, record q { natives = throwing last_error st })
            else (true, q)
      ]

  -- qos and retain
  unfoldable pub publish_options : n.Pointer → n.Value → n.Value → n.Value → Publishing → Attempted
  publish_options binding node_qos node_retain node_on_puback p =
      elim (n.get_value_uint32 node_qos) [
        | failed f ↦
            (false, record p { natives = throwing (type_error "qos must be a number") p.natives })
        | got qos ↦ elim (n.get_value_bool node_retain) [
          | failed f ↦ (
            false,
            record p { natives = throwing (type_error "retain must be a bool") p.natives },
          )
          | got retain ↦ publish_callback binding qos retain node_on_puback p
        ]
      ]

  unfoldable pub publish_payload :
      n.Pointer → n.Value → n.Value → n.Value → n.Value → Publishing → Attempted
  publish_payload binding node_payload node_qos node_retain node_on_puback p =
      let ((status, buf), s) =
        byte_buf_init_from_napi n m p.payload_buf node_payload p.natives.world.store in
      let q = record p { payload_buf = buf; natives = with_store s p.natives } in
      elim status [
        | fail f ↦ (
          false,
          record q { natives = throwing (type_error "payload is invalid type") q.natives },
        )
        | ok ↦ publish_options binding node_qos node_retain node_on_puback q
      ]

  unfoldable pub publish_topic :
      n.Pointer → n.Value → n.Value → n.Value → n.Value → n.Value → Publishing → Attempted
  publish_topic binding node_topic node_payload node_qos node_retain node_on_puback p =
      let ((status, buf), s) =
        byte_buf_init_from_napi n m p.topic_buf node_topic p.natives.world.store in
      let q = record p { topic_buf = buf; natives = with_store s p.natives } in
      elim status [
        | fail f ↦
            (false, record q { natives = throwing (type_error "topic must be a String") q.natives })
        | ok ↦ publish_payload binding node_payload node_qos node_retain node_on_puback q
      ]

  -- from napi_get_cb_info on
  unfoldable pub publish_body : Reply (List n.Value) → Publishing → Attempted
  publish_body (failed f) p = (
    false,
    record p { natives = throwing (error "Failed to retreive callback information") p.natives },
  )
  publish_body (got values) p = elim values [
    | node_binding ∷ node_topic ∷ node_payload ∷ node_qos ∷ node_retain ∷ node_on_puback ∷ [] ↦
        elim (n.get_value_external node_binding) [
          | failed f ↦ (
            false,
            record p {
              natives = throwing (error "Failed to extract binding from external") p.natives;
            },
          )
          | got binding ↦
              publish_topic binding node_topic node_payload node_qos node_retain node_on_puback
                (record p { args = record p.args { binding = some binding } })
        ]
    | _ ↦ (
      false,
      record p {
        natives =
            throwing (error "mqtt_client_connection_publish needs exactly 6 arguments") p.natives;
      },
    )
  ]

  -- both ends of the function release both buffers
  unfoldable pub release_buffers : Publishing → Natives m
  release_buffers p =
      with_store
        (byte_buf_clean_up n m p.topic_buf
          (byte_buf_clean_up n m p.payload_buf p.natives.world.store))
        p.natives

  -- aws_napi_mqtt_client_connection_publish: the arguments that the client now holds, if it took
  -- the request
  unfoldable pub mqtt_client_connection_publish :
      Reply (List n.Value) → Natives m → Outcome (Option (PubackArgs n.Pointer) × Natives m)
  mqtt_client_connection_publish info st =
      let (accepted, p) = publish_body info (record {
        args = record { binding = none; packet_id = 0; error_code = 0; on_puback = none };
        topic_buf = zeroed;
        payload_buf = zeroed;
        natives = calloc st;
      }) in
      if accepted
      then done (some p.args, release_buffers p)
      else do st' ← destroy_puback_args p.args (release_buffers p); done (none, st')

  -- s_on_publish_complete
  unfoldable pub on_publish_complete :
      ℕ → ℕ → PubackArgs n.Pointer → Natives m → Outcome (PubackArgs n.Pointer × Natives m)
  on_publish_complete packet_id error_code args st = do
    st' ← queue_function n m api.functions args.on_puback st
    done (record args { packet_id = packet_id; error_code = error_code }, st')

  -- s_on_publish_complete_call, with the call of JavaScript, which gets the packet id and the error
  -- code; `env` is whether Node still runs
  unfoldable pub on_publish_complete_call :
      (env : Bool) → PubackArgs n.Pointer → Natives m → Outcome (Option (Call (ℕ × ℕ)) × Natives m)
  on_publish_complete_call false args st = do
    after ← destroy_puback_args args st
    done (none, after)
  on_publish_complete_call true args st = do
    (told, st') ←
        call_back n m api args.on_puback
          (api.create_uint32 args.packet_id && api.create_int32 args.error_code)
          (args.packet_id, args.error_code) st
    after ← destroy_puback_args args st'
    done (told, after)
