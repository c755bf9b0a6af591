-- ===== src/Mqtt/Disconnect.antt =====
-- source/mqtt_client_connection.c: aws_napi_mqtt_client_connection_disconnect and its completion.
pub mod Balance
use aws_crt_nodejs.Base.{ℕ, Bool, true, false, Option, none, some, List, [], ◌∷◌, if◌then◌else◌}
use aws_crt_nodejs.Napi.{
  Reply, got, failed, Napi, Memory, error, last_error, Outcome, done, aborted, ◌>>=◌,
}
use aws_crt_nodejs.Threadsafe.{
  Natives, calloc, dispatch_function, mem_release, optional_function, queue_function, throwing,
}
use aws_crt_nodejs.Mqtt.{MqttApi, Call, call_back, release_callback}

-- struct disconnect_args
pub record DisconnectArgs (Pointer : Type 0) : Type 0 where
  pub binding : Option Pointer
  pub on_disconnect : Option ℕ

module _ (n : Napi) (m : Memory) (api : MqttApi n m) where
  abbrev pub Args : Type 0
  Args = DisconnectArgs n.Pointer

  -- s_destroy_disconnect_args
  unfoldable pub destroy_disconnect_args : Args → Natives m → Outcome (Natives m)
  destroy_disconnect_args args st = do
    st' ← release_callback n m api args.on_disconnect args.binding st
    done (mem_release st')

  -- the end at `on_error:`
  unfoldable pub refuse_disconnect : Args → Natives m → Outcome (Option Args × Natives m)
  refuse_disconnect args st = do after ← destroy_disconnect_args args st; done (none, after)

  -- from the allocation of the arguments on
  unfoldable pub disconnect_callback :
      n.Pointer → n.Value → Natives m → Outcome (Option Args × Natives m)
  disconnect_callback binding node_on_disconnect st =
      let args : Args = record { binding = some binding; on_disconnect = none } in
      elim (optional_function n m api.functions node_on_disconnect (calloc st)) [
        | none ↦ refuse_disconnect args (calloc st)
        | some (f, st') ↦
            if api.disconnect binding
            then done (some (record args { on_disconnect = f }), st')
            else refuse_disconnect (record args { on_disconnect = f }) (throwing last_error st')
      ]

  -- aws_napi_mqtt_client_connection_disconnect: the arguments that the client now holds, if it took
  -- the request
  unfoldable pub mqtt_client_connection_disconnect :
      Reply (List n.Value) → Natives m → Outcome (Option Args × Natives m)
  mqtt_client_connection_disconnect (failed f) st =
      done (none, throwing (error "Failed to retrieve callback information") st)
  mqtt_client_connection_disconnect (got values) st = elim values [
    | node_binding ∷ node_on_disconnect ∷ [] ↦ elim (n.get_value_external node_binding) [
      | failed f ↦ done (none, throwing (error "Failed to extract binding from external") st)
      | got binding ↦ disconnect_callback binding node_on_disconnect st
    ]
    | _ ↦
        done
          (none, throwing (error "mqtt_client_connection_disconnect needs exactly 2 arguments") st)
  ]

  -- s_on_disconnected: the arguments of the queued call, if there is one
  unfoldable pub on_disconnected : Args → Natives m → Outcome (Option Args × Natives m)
  on_disconnected args st = elim args.on_disconnect [
    | none ↦ refuse_disconnect args st
    | some f ↦ do queued ← queue_function n m api.functions (some f) st; done (some args, queued)
  ]

  -- s_on_disconnect_call, with the call of JavaScript, which gets nothing; `env` is whether Node still
  -- runs
  unfoldable pub on_disconnect_call :
      (env : Bool) → Args → Natives m → Outcome (Option (Call (Unit {0})) × Natives m)
  on_disconnect_call false args st = do after ← destroy_disconnect_args args st; done (none, after)
  on_disconnect_call true args st = do
    (told, st') ← call_back n m api args.on_disconnect true tt st
    after ← destroy_disconnect_args args st'
    done (told, after)
