-- ===== src/Tests/SubscribeExamples.antt =====
-- A subscription, its messages and the end of a binding of source/mqtt_client_connection.c on
-- concrete arguments.
use aws_crt_nodejs.Base.{ℕ, ◌≡◌, ◌⊎◌, refl, true, Option, none, some, List, [], ◌∷◌}
use aws_crt_nodejs.Napi.{got, done}
use aws_crt_nodejs.ByteBuf.{ByteBuf, owned, borrowed, borrowed}
use aws_crt_nodejs.Ownership.{Holds-init, Holds-append}
use aws_crt_nodejs.Threadsafe.{Natives, Same}
use aws_crt_nodejs.Mqtt.Subscribe.{
  Subscription, SubackArgs, mqtt_client_connection_subscribe, on_suback, on_suback_call,
  destroy_subscription,
}
use aws_crt_nodejs.Mqtt.Deliver.{on_publish}
use aws_crt_nodejs.Mqtt.Close.{
  Closing, mqtt_client_connection_close, mqtt_client_connection_finalize,
}
use aws_crt_nodejs.Mqtt.Subscribe.Balance.{Held}
use aws_crt_nodejs.Mqtt.Subscribe.Lifetime.{
  mqtt_client_connection_subscribe-balanced, on_suback-balanced,
}
use aws_crt_nodejs.Mqtt.Close.Balance.{mqtt_client_connection_close-once}
use aws_crt_nodejs.Tests.Samples.{
  Sample, amount, text, instance_of, handle, sample_napi, sample_memory, idle,
}
use aws_crt_nodejs.Tests.Client.{api, laws, nothing}

-- the acknowledgement's callback cannot be created, after everything else was
abbrev subscribe_args : List Sample
subscribe_args = handle 7 ∷ text (1 ∷ []) ∷ amount 1 ∷ instance_of 4 ∷ amount 0 ∷ []

mqtt_client_connection_subscribe-balanced_example :
    ((sub : Subscription) × (suback : Option (SubackArgs ℕ)) × (st' : Natives sample_memory)
      × (mqtt_client_connection_subscribe sample_napi sample_memory api (got subscribe_args) nothing
          ≡ done (some (sub, suback), st'))
      × Held sample_napi sample_memory api nothing sub suback st')
    ⊎ ((st' : Natives sample_memory) × (mqtt_client_connection_subscribe sample_napi sample_memory
            api
            (got subscribe_args)
            nothing
          ≡ done (none, st'))
        × Same nothing st')
mqtt_client_connection_subscribe-balanced_example =
    mqtt_client_connection_subscribe-balanced sample_napi sample_memory api laws
      (got subscribe_args) nothing

abbrev subscription : Subscription
subscription = record {
  topic = record { buffer = owned 1; contents = 1 ∷ []; len = 1; capacity = 2 };
  on_publish = some 4;
}

abbrev suback_args : SubackArgs ℕ
suback_args = record {
  binding = some 7;
  packet_id = 0;
  qos = 0;
  error_code = 0;
  topic = record { buffer = owned 2; contents = 1 ∷ []; len = 1; capacity = 1 };
  on_suback = some 5;
}

abbrev subscribed : Natives sample_memory
subscribed = record {
  world = record { store = 2 ∷ 1 ∷ []; thrown = [] };
  references = 5 ∷ 4 ∷ [];
  structs = 2;
}

subscribed-Held :
    Held sample_napi sample_memory api nothing subscription (some suback_args) subscribed
subscribed-Held = record {
  topics_held =
      Holds-append {m = sample_memory} (Holds-init {m = sample_memory} 2 [] (1 ∷ []) 1 refl)
        (Holds-init {m = sample_memory} 1 (1 ∷ []) (2 ∷ 1 ∷ []) 2 refl);
  callbacks_held = refl;
  structs_held = refl;
  bound = (7, refl);
}

on_suback-balanced_example :
    (args' : SubackArgs ℕ) × (queued : Natives sample_memory) × (acked : Natives sample_memory)
    × (after : Natives sample_memory) × (on_suback sample_napi sample_memory api 2 1 0
          (some suback_args)
          subscribed
        ≡ done (some args', queued))
    × (on_suback_call sample_napi sample_memory api true args' queued
        ≡ done (
          some (record {
            function = 5;
            parameters = record { packet_id = 2; topic = 1 ∷ []; qos = 1; error_code = 0 };
          }),
          acked,
        ))
    × Held sample_napi sample_memory api nothing subscription none acked
    × (destroy_subscription sample_napi sample_memory api subscription acked ≡ done after)
    × Same nothing after
on_suback-balanced_example =
    on_suback-balanced sample_napi sample_memory api laws nothing subscribed subscription
      suback_args 5 2 1 0 refl subscribed-Held

abbrev open_connection : Closing sample_memory
open_connection = record {
  binding = record {
    use_tls_options = true;
    has_connection = true;
    has_node_external = true;
    on_connection_interrupted = some 1;
    on_connection_resumed = none;
    on_any_publish = some 2;
    transform_websocket = none;
  };
  natives = record { world = idle; references = 1 ∷ 2 ∷ 6 ∷ []; structs = 1 };
  connection_releases = 0;
  external_deletes = 0;
  tls_clean_ups = 0;
}

mqtt_client_connection_close-once_example :
    (closed : Closing sample_memory) × (final : Closing sample_memory)
    × (mqtt_client_connection_close sample_napi sample_memory api
          (got (handle 7 ∷ []))
          open_connection
        ≡ done closed)
    × (closed.natives.references ≡ 6 ∷ [])
    × (closed.connection_releases ≡ 1)
    × (closed.external_deletes ≡ 1)
    × (mqtt_client_connection_close sample_napi sample_memory api (got (handle 7 ∷ [])) closed
        ≡ done closed)
    × (mqtt_client_connection_finalize sample_napi sample_memory api closed ≡ done final)
    × (final.natives.references ≡ 6 ∷ [])
    × (final.natives.structs ≡ 0)
    × (final.connection_releases ≡ closed.connection_releases)
    × (final.external_deletes ≡ closed.external_deletes)
    × (final.tls_clean_ups ≡ 1)
mqtt_client_connection_close-once_example =
    mqtt_client_connection_close-once sample_napi sample_memory api laws (handle 7) 7
      open_connection (6 ∷ []) refl refl

abbrev message : ByteBuf
message = record { buffer = borrowed; contents = 6 ∷ 7 ∷ []; len = 2; capacity = 2 }
