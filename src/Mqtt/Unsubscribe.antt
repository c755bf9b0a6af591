-- ===== src/Mqtt/Unsubscribe.antt =====
-- source/mqtt_client_connection.c: aws_napi_mqtt_client_connection_unsubscribe and its completion.
pub mod Balance
use aws_crt_nodejs.Base.{
  ℕ, Bool, true, false, ◌&&◌, Option, none, some, List, [], ◌∷◌, ◌==◌, if◌then◌else◌,
}
use aws_crt_nodejs.Napi.{
  ok, fail, Reply, got, failed, Napi, Memory, error, type_error, Outcome, done, aborted, ◌>>=◌,
}
use aws_crt_nodejs.ByteBuf.{ByteBuf, zeroed, byte_buf_init_from_napi, byte_buf_clean_up}
use aws_crt_nodejs.Threadsafe.{
  Natives, calloc, dispatch_function, mem_release, optional_function, queue_function, throwing,
  with_store,
}
use aws_crt_nodejs.Mqtt.{MqttApi, Call, call_back, release_callback}

-- struct unsuback_args
pub record UnsubackArgs (Pointer : Type 0) : Type 0 where
  pub binding : Option Pointer
  pub topic : ByteBuf
  pub packet_id : ℕ
  pub error_code : ℕ
  pub on_unsuback : Option ℕ

module _ (n : Napi) (m : Memory) (api : MqttApi n m) where
  abbrev pub Args : Type 0
  Args = UnsubackArgs n.Pointer

  -- did the client take the request, the arguments, and what native code holds
  abbrev pub Attempted : Type 0
  Attempted = Bool × Args × Natives m

  -- s_destroy_unsuback_args
  unfoldable pub destroy_unsuback_args : Args → Natives m → Outcome (Natives m)
  destroy_unsuback_args args st = do
    let cleaned = with_store (byte_buf_clean_up n m args.topic st.world.store) st
    st' ← release_callback n m api args.on_unsuback args.binding cleaned
    done (mem_release st')

  -- from the callback argument on
  unfoldable pub unsubscribe_callback : n.Pointer → n.Value → Args → Natives m → Attempted
  unsubscribe_callback binding node_on_unsuback args st =
      elim (optional_function n m api.functions node_on_unsuback st) [
        | none ↦ (false, args, st)
        | some (f, st') ↦
            let unsub_id = api.unsubscribe binding args.topic in
            if unsub_id == 0
            then (
              false,
              record args { on_unsuback = f },
              throwing (error "Failed to initiate subscribe request") st',
            )
            else (true, record args { on_unsuback = f; packet_id = unsub_id }, st')
      ]

  -- from the allocation of the arguments on
  unfoldable pub unsubscribe_topic : n.Pointer → n.Value → n.Value → Natives m → Attempted
  unsubscribe_topic binding node_topic node_on_unsuback st =
      let ((status, buf), s) = byte_buf_init_from_napi n m zeroed node_topic st.world.store in
      let args : Args = record {
        binding = some binding;
        topic = buf;
        packet_id = 0;
        error_code = 0;
        on_unsuback = none;
      } in
      let st' = with_store s (calloc st) in
      elim status [
        | fail f ↦ (false, args, throwing (type_error "topic must be a String") st')
        | ok ↦ unsubscribe_callback binding node_on_unsuback args st'
      ]

  -- aws_napi_mqtt_client_connection_unsubscribe: the arguments that the client now holds, if it took
  -- the request
  unfoldable pub mqtt_client_connection_unsubscribe :
      Reply (List n.Value) → Natives m → Outcome (Option Args × Natives m)
  mqtt_client_connection_unsubscribe (failed f) st =
      done (none, throwing (error "Failed to retreive callback information") st)
  mqtt_client_connection_unsubscribe (got values) st = elim values [
    | node_binding ∷ node_topic ∷ node_on_unsuback ∷ [] ↦ elim (n.get_value_external node_binding) [
      | failed f ↦ done (none, throwing (error "Failed to extract binding from external") st)
      | got binding ↦
          let (accepted, args, st') = unsubscribe_topic binding node_topic node_on_unsuback st in
          if accepted
          then done (some args, st')
          else do after ← destroy_unsuback_args args st'; done (none, after)
    ]
    | _ ↦
        done
          (none, throwing (error "mqtt_client_connection_unsubscribe needs exactly 3 arguments") st)
  ]

  -- s_on_unsubscribe_complete: the arguments of the queued call, if there is one
  unfoldable pub on_unsubscribe_complete :
      ℕ → ℕ → Args → Natives m → Outcome (Option Args × Natives m)
  on_unsubscribe_complete packet_id error_code args st = elim args.on_unsuback [
    | none ↦ do after ← destroy_unsuback_args args st; done (none, after)
    | some f ↦ do
      queued ← queue_function n m api.functions (some f) st
      done (some (record args { packet_id = packet_id; error_code = error_code }), queued)
  ]

  -- s_on_unsub_ack_call, with the call of JavaScript, which gets the packet id and the error code;
  -- `env` is whether Node still runs
  unfoldable pub on_unsub_ack_call :
      (env : Bool) → Args → Natives m → Outcome (Option (Call (ℕ × ℕ)) × Natives m)
  on_unsub_ack_call false args st = do after ← destroy_unsuback_args args st; done (none, after)
  on_unsub_ack_call true args st = do
    (told, st') ←
        call_back n m api args.on_unsuback
          (api.create_uint32 args.packet_id && api.create_int32 args.error_code)
          (args.packet_id, args.error_code) st
    after ← destroy_unsuback_args args st'
    done (told, after)
