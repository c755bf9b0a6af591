-- ===== src/Mqtt/Subscribe.antt =====
-- source/mqtt_client_connection.c: aws_napi_mqtt_client_connection_subscribe, the acknowledgement
-- and the end of a subscription.
pub mod Balance
pub mod Lifetime
use aws_crt_nodejs.Base.{
  ℕ, Bool, true, false, ◌&&◌, take, Option, none, some, List, [], ◌∷◌, ◌==◌, if◌then◌else◌,
}
use aws_crt_nodejs.Napi.{
  ok, fail, Reply, got, failed, Napi, Memory, error, type_error, last_error, Outcome, done, aborted,
  ◌>>=◌,
}
use aws_crt_nodejs.ByteBuf.{
  ByteBuf, zeroed, byte_buf_init_from_napi, byte_buf_clean_up, is_null_or_undefined,
}
use aws_crt_nodejs.Threadsafe.{
  Natives, calloc, dispatch_function, mem_release, optional_function, queue_function,
  release_function, throwing, with_store,
}
use aws_crt_nodejs.Mqtt.{MqttApi, Call, call_back, copy_or_zeroed, release_callback}

-- struct subscription
pub record Subscription : Type 0 where
  pub topic : ByteBuf
  pub on_publish : Option ℕ

-- struct suback_args
pub record SubackArgs (Pointer : Type 0) : Type 0 where
  pub binding : Option Pointer
  pub packet_id : ℕ
  pub qos : ℕ
  pub error_code : ℕ
  pub topic : ByteBuf
  pub on_suback : Option ℕ

-- The parameters of the callback for an acknowledgement.
pub record Acknowledged : Type 0 where
  pub packet_id : ℕ
  pub topic : List ℕ
  pub qos : ℕ
  pub error_code : ℕ

module _ (n : Napi) (m : Memory) (api : MqttApi n m) where
  abbrev pub Suback : Type 0
  Suback = SubackArgs n.Pointer

  -- the local variables that the `cleanup:` label reads
  pub record Subscribing : Type 0 where
    pub sub : Subscription
    pub suback : Option Suback
    pub natives : Natives m

  abbrev pub Attempted : Type 0
  Attempted = Bool × Subscribing

  -- s_destroy_suback_args
  unfoldable pub destroy_suback_args : Option Suback → Natives m → Outcome (Natives m)
  destroy_suback_args none st = done st
  destroy_suback_args (some args) st = do
    let cleaned = with_store (byte_buf_clean_up n m args.topic st.world.store) st
    st' ← release_callback n m api args.on_suback args.binding cleaned
    done (mem_release st')

  -- s_destroy_subscription
  unfoldable pub destroy_subscription : Subscription → Natives m → Outcome (Natives m)
  destroy_subscription sub st = do
    st' ← elim sub.on_publish [ none ↦ done st | some f ↦ release_function n m api.functions f st ]
    done (mem_release (with_store (byte_buf_clean_up n m sub.topic st'.world.store) st'))

  -- the call of the client
  unfoldable pub subscribe_request : n.Pointer → ℕ → Subscribing → Attempted
  subscribe_request binding qos p =
      if api.subscribe binding p.sub.topic qos == 0
      then (false, record p { natives = throwing last_error p.natives })
      else (true, p)

  -- the block for the argument on_suback; the result of the topic's copy is not looked at
  unfoldable pub subscribe_suback : n.Pointer → ℕ → n.Value → Subscribing → Attempted
  subscribe_suback binding qos node_on_suback p = elim (is_null_or_undefined n m node_on_suback) [
    | true ↦ subscribe_request binding qos p
    | false ↦
        let (buf, s) = copy_or_zeroed n m api p.sub.topic p.natives.world.store in
        let st = with_store s (calloc p.natives) in
        let suback : Suback = record {
          binding = some binding;
          packet_id = 0;
          qos = 0;
          error_code = 0;
          topic = buf;
          on_suback = none;
        } in
        elim (api.functions.create_threadsafe_function node_on_suback) [
          | failed f ↦ (false, record p { suback = some suback; natives = st })
          | got f ↦ subscribe_request binding qos (record p {
            suback = some (record suback { on_suback = some f });
            natives = record st { references = f ∷ st.references };
          })
        ]
  ]

  -- from the argument qos on
  unfoldable pub subscribe_options :
      n.Pointer → n.Value → n.Value → n.Value → Subscribing → Attempted
  subscribe_options binding node_qos node_on_publish node_on_suback p =
      elim (n.get_value_uint32 node_qos) [
        | failed f ↦
            (false, record p { natives = throwing (type_error "qos must be a number") p.natives })
        | got qos ↦ elim (optional_function n m api.functions node_on_publish p.natives) [
          | none ↦ (false, p)
          | some (f, st) ↦
              subscribe_suback binding qos node_on_suback
                (record p { sub = record p.sub { on_publish = f }; natives = st })
        ]
      ]

  -- from the allocation of the subscription on
  unfoldable pub subscribe_topic :
      n.Pointer → n.Value → n.Value → n.Value → n.Value → Natives m → Attempted
  subscribe_topic binding node_topic node_qos node_on_publish node_on_suback st =
      let ((status, buf), s) = byte_buf_init_from_napi n m zeroed node_topic st.world.store in
      let p : Subscribing = record {
        sub = record { topic = buf; on_publish = none };
        suback = none;
        natives = with_store s (calloc st);
      } in
      elim status [
        | fail f ↦
            (false, record p { natives = throwing (type_error "topic must be a String") p.natives })
        | ok ↦ subscribe_options binding node_qos node_on_publish node_on_suback p
      ]

  -- aws_napi_mqtt_client_connection_subscribe: what the client now holds, if it took the request
  unfoldable pub mqtt_client_connection_subscribe :
      Reply (List n.Value) → Natives m → Outcome (Option (Subscription × Option Suback) × Natives m)
  mqtt_client_connection_subscribe (failed f) st =
      done (none, throwing (error "Failed to retreive callback information") st)
  mqtt_client_connection_subscribe (got values) st = elim values [
    | node_binding ∷ node_topic ∷ node_qos ∷ node_on_publish ∷ node_on_suback ∷ [] ↦
        elim (n.get_value_external node_binding) [
          | failed f ↦ done (none, throwing (error "Failed to extract binding from external") st)
          | got binding ↦
              let (accepted, p) =
                subscribe_topic binding node_topic node_qos node_on_publish node_on_suback st in
              if accepted then done (some (p.sub, p.suback), p.natives) else do
                st' ← destroy_subscription p.sub p.natives
                after ← destroy_suback_args p.suback st'
                done (none, after)
        ]
    | _ ↦
        done
          (none, throwing (error "mqtt_client_connection_subscribe needs exactly 5 arguments") st)
  ]

  -- s_on_suback: the arguments of the queued call, if there is one
  unfoldable pub on_suback :
      ℕ → ℕ → ℕ → Option Suback → Natives m → Outcome (Option Suback × Natives m)
  on_suback packet_id qos error_code none st = done (none, st)
  on_suback packet_id qos error_code (some args) st = elim args.on_suback [
    | none ↦ do after ← destroy_suback_args (some args) st; done (none, after)
    | some f ↦ do
      queued ← queue_function n m api.functions (some f) st
      done
          (some (record args { error_code = error_code; qos = qos; packet_id = packet_id }), queued)
  ]

  -- what the callback gets of an acknowledgement
  unfoldable pub acknowledged : Suback → Acknowledged
  acknowledged args = record {
    packet_id = args.packet_id;
    topic = take args.topic.len args.topic.contents;
    qos = args.qos;
    error_code = args.error_code;
  }

  -- s_on_suback_call, with the call of JavaScript; `env` is whether Node still runs
  unfoldable pub on_suback_call :
      (env : Bool) → Suback → Natives m → Outcome (Option (Call Acknowledged) × Natives m)
  unfolding acknowledged
  on_suback_call false args st = do after ← destroy_suback_args (some args) st; done (none, after)
  on_suback_call true args st = do
    (told, st') ←
        call_back n m api args.on_suback
          (api.create_int32 args.packet_id
            && api.create_string_utf8 (take args.topic.len args.topic.contents)
            && api.create_int32 args.qos
            && api.create_int32 args.error_code)
          (acknowledged args) st
    after ← destroy_suback_args (some args) st'
    done (told, after)
