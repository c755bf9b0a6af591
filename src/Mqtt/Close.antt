-- ===== src/Mqtt/Close.antt =====
-- source/mqtt_client_connection.c: the end of a connection's binding, by
-- aws_napi_mqtt_client_connection_close and by the finalizer.
pub mod Balance
use aws_crt_nodejs.Base.{
  ℕ, ◌+◌, ◌≡◌, Bool, true, false, Option, none, some, List, [], ◌∷◌, if◌then◌else◌,
}
use aws_crt_nodejs.Napi.{Reply, got, failed, Napi, Memory, error, Outcome, done, ◌>>=◌}
use aws_crt_nodejs.Threadsafe.{Natives, mem_release, release_function, throwing}
use aws_crt_nodejs.Mqtt.{MqttApi}

-- struct mqtt_connection_binding
pub record Binding : Type 0 where
  pub use_tls_options : Bool
  pub has_connection : Bool
  pub has_node_external : Bool
  pub on_connection_interrupted : Option ℕ
  pub on_connection_resumed : Option ℕ
  pub on_any_publish : Option ℕ
  pub transform_websocket : Option ℕ

-- The binding, what native code holds, and how often the connection, the reference to the external
-- and the TLS options have been given back.
pub record Closing (m : Memory) : Type 0 where
  pub binding : Binding
  pub natives : Natives m
  pub connection_releases : ℕ
  pub external_deletes : ℕ
  pub tls_clean_ups : ℕ

module _ (n : Napi) (m : Memory) (api : MqttApi n m) where
  -- one `if` of s_mqtt_client_connection_release_threadsafe_function
  unfoldable pub release_field : Option ℕ → Natives m → Outcome (Natives m)
  release_field none st = done st
  release_field (some f) st = release_function n m api.functions f st

  -- s_mqtt_client_connection_release_threadsafe_function
  unfoldable pub release_threadsafe_function : Closing m → Outcome (Closing m)
  release_threadsafe_function c = do
    a ← release_field c.binding.on_connection_interrupted c.natives
    b ← release_field c.binding.on_connection_resumed a
    d ← release_field c.binding.on_any_publish b
    st ← release_field c.binding.transform_websocket d
    done (record c {
      binding = record c.binding {
        on_connection_interrupted = none;
        on_connection_resumed = none;
        on_any_publish = none;
        transform_websocket = none;
      };
      natives = st;
    })

  -- the part of the close that follows the release of the functions
  unfoldable pub close_resources : Closing m → Closing m
  close_resources c = record c {
    binding = record c.binding { has_node_external = false; has_connection = false };
    external_deletes =
        if c.binding.has_node_external then c.external_deletes + 1 else c.external_deletes;
    connection_releases =
        if c.binding.has_connection then c.connection_releases + 1 else c.connection_releases;
  }

  -- aws_napi_mqtt_client_connection_close at the binding that the argument names
  unfoldable pub mqtt_client_connection_close :
      Reply (List n.Value) → Closing m → Outcome (Closing m)
  mqtt_client_connection_close (failed f) c =
      done (record c {
        natives = throwing (error "Failed to retreive callback information") c.natives;
      })
  mqtt_client_connection_close (got values) c = elim values [
    | node_binding ∷ [] ↦ elim (n.get_value_external node_binding) [
      | failed f ↦ done (record c {
        natives = throwing (error "Failed to extract connection from first argument") c.natives;
      })
      | got binding ↦ do released ← release_threadsafe_function c; done (close_resources released)
    ]
    | _ ↦ done (record c {
      natives = throwing (error "mqtt_client_connection_close needs exactly 1 argument") c.natives;
    })
  ]

  -- s_mqtt_client_connection_finalize
  unfoldable pub mqtt_client_connection_finalize : Closing m → Outcome (Closing m)
  mqtt_client_connection_finalize c = do
    released ← release_threadsafe_function c
    done (record released {
      natives = mem_release released.natives;
      tls_clean_ups =
          if released.binding.use_tls_options
          then released.tls_clean_ups + 1
          else released.tls_clean_ups;
      connection_releases =
          if released.binding.has_connection
          then released.connection_releases + 1
          else released.connection_releases;
    })
