-- ===== src/Tests/MqttExamples.antt =====
-- publish, unsubscribe and disconnect of source/mqtt_client_connection.c on concrete arguments.
use aws_crt_nodejs.Base.{ℕ, ◌≡◌, ◌⊎◌, refl, true, false, none, some, List, [], ◌∷◌}
use aws_crt_nodejs.Napi.{got, done}
use aws_crt_nodejs.ByteBuf.{owned}
use aws_crt_nodejs.Ownership.{Holds-init}
use aws_crt_nodejs.Threadsafe.{Natives, Same}
use aws_crt_nodejs.Mqtt.Publish.{
  PubackArgs, mqtt_client_connection_publish, on_publish_complete, on_publish_complete_call,
}
use aws_crt_nodejs.Mqtt.Unsubscribe.{
  UnsubackArgs, mqtt_client_connection_unsubscribe, on_unsubscribe_complete, on_unsub_ack_call,
}
use aws_crt_nodejs.Mqtt.Disconnect.{
  DisconnectArgs, mqtt_client_connection_disconnect, on_disconnected, on_disconnect_call,
}
use aws_crt_nodejs.Mqtt.Publish.Balance.{
  Pending as PublishPending, mqtt_client_connection_publish-balanced, on_publish_complete-balanced,
}
use aws_crt_nodejs.Mqtt.Unsubscribe.Balance.{
  Pending as UnsubscribePending, mqtt_client_connection_unsubscribe-balanced,
  on_unsubscribe_complete-balanced,
}
use aws_crt_nodejs.Mqtt.Disconnect.Balance.{
  Pending as DisconnectPending, mqtt_client_connection_disconnect-balanced,
  on_disconnected-balanced,
}
use aws_crt_nodejs.Tests.Samples.{
  Sample, flag, amount, text, broken, instance_of, handle, sample_napi, sample_memory, idle,
}
use aws_crt_nodejs.Tests.Client.{api, laws, nothing}

abbrev publish_args : List Sample
publish_args =
    handle 7 ∷ text (1 ∷ []) ∷ text (2 ∷ 3 ∷ []) ∷ amount 1 ∷ flag false ∷ instance_of 5 ∷ []

-- the payload cannot be read, after the topic was copied
abbrev broken_args : List Sample
broken_args = handle 7 ∷ text (1 ∷ []) ∷ broken ∷ amount 1 ∷ flag false ∷ instance_of 5 ∷ []

mqtt_client_connection_publish-balanced_example :
    ((args : PubackArgs ℕ) × (st' : Natives sample_memory) × (mqtt_client_connection_publish
          sample_napi sample_memory api
          (got broken_args)
          nothing
        ≡ done (some args, st'))
      × PublishPending sample_napi sample_memory api nothing args st')
    ⊎ ((st' : Natives sample_memory) × (mqtt_client_connection_publish sample_napi sample_memory api
            (got broken_args)
            nothing
          ≡ done (none, st'))
        × Same nothing st')
mqtt_client_connection_publish-balanced_example =
    mqtt_client_connection_publish-balanced sample_napi sample_memory api laws (got broken_args)
      nothing

-- a publish request that the client holds
abbrev puback : PubackArgs ℕ
puback = record { binding = some 7; packet_id = 0; error_code = 0; on_puback = some 5 }

abbrev one_pending : Natives sample_memory
one_pending = record { world = idle; references = 5 ∷ []; structs = 1 }

puback-Pending : PublishPending sample_napi sample_memory api nothing puback one_pending
puback-Pending = record {
  same_live = λ c. refl;
  callback_held = refl;
  struct_held = refl;
  bound = (7, refl);
}

on_publish_complete-balanced_example :
    (args' : PubackArgs ℕ) × (queued : Natives sample_memory) × (after : Natives sample_memory)
    × (on_publish_complete sample_napi sample_memory api 9 0 puback one_pending
        ≡ done (args', queued))
    × (args'.packet_id ≡ 9)
    × (args'.error_code ≡ 0)
    × (on_publish_complete_call sample_napi sample_memory api true args' queued
        ≡ done (some (record { function = 5; parameters = (9, 0) }), after))
    × Same nothing after
on_publish_complete-balanced_example =
    on_publish_complete-balanced sample_napi sample_memory api laws nothing one_pending puback 5 9 0
      refl puback-Pending

abbrev unsubscribe_args : List Sample
unsubscribe_args = handle 7 ∷ text (1 ∷ []) ∷ amount 0 ∷ []

mqtt_client_connection_unsubscribe-balanced_example :
    ((args : UnsubackArgs ℕ) × (st' : Natives sample_memory) × (mqtt_client_connection_unsubscribe
          sample_napi sample_memory api
          (got unsubscribe_args)
          nothing
        ≡ done (some args, st'))
      × UnsubscribePending sample_napi sample_memory api nothing args st')
    ⊎ ((st' : Natives sample_memory) × (mqtt_client_connection_unsubscribe sample_napi sample_memory
            api
            (got unsubscribe_args)
            nothing
          ≡ done (none, st'))
        × Same nothing st')
mqtt_client_connection_unsubscribe-balanced_example =
    mqtt_client_connection_unsubscribe-balanced sample_napi sample_memory api laws
      (got unsubscribe_args) nothing

-- an unsubscribe request that the client holds, with the topic in block 1
abbrev unsuback : UnsubackArgs ℕ
unsuback = record {
  binding = some 7;
  topic = record { buffer = owned 1; contents = 1 ∷ []; len = 1; capacity = 2 };
  packet_id = 3;
  error_code = 0;
  on_unsuback = some 5;
}

abbrev unsuback_pending : Natives sample_memory
unsuback_pending = record {
  world = record { store = 1 ∷ []; thrown = [] };
  references = 5 ∷ [];
  structs = 1;
}

unsuback-Pending :
    UnsubscribePending sample_napi sample_memory api nothing unsuback unsuback_pending
unsuback-Pending = record {
  topic_held = Holds-init {m = sample_memory} 2 [] (1 ∷ []) 1 refl;
  callback_held = refl;
  struct_held = refl;
  bound = (7, refl);
}

on_unsubscribe_complete-balanced_example :
    ((after : Natives sample_memory) × (unsuback.on_unsuback ≡ none)
      × (on_unsubscribe_complete sample_napi sample_memory api 3 0 unsuback unsuback_pending
          ≡ done (none, after))
      × Same nothing after)
    ⊎ ((f : ℕ) × (args' : UnsubackArgs ℕ) × (queued : Natives sample_memory) × (after : Natives
          sample_memory)
        × (unsuback.on_unsuback ≡ some f)
        × (on_unsubscribe_complete sample_napi sample_memory api 3 0 unsuback unsuback_pending
            ≡ done (some args', queued))
        × (on_unsub_ack_call sample_napi sample_memory api true args' queued
            ≡ done (some (record { function = f; parameters = (3, 0) }), after))
        × Same nothing after)
on_unsubscribe_complete-balanced_example =
    on_unsubscribe_complete-balanced sample_napi sample_memory api laws nothing unsuback_pending
      unsuback 3 0 unsuback-Pending

mqtt_client_connection_disconnect-balanced_example :
    ((args : DisconnectArgs ℕ) × (st' : Natives sample_memory) × (mqtt_client_connection_disconnect
          sample_napi sample_memory api
          (got (handle 7 ∷ instance_of 5 ∷ []))
          nothing
        ≡ done (some args, st'))
      × DisconnectPending sample_napi sample_memory api nothing args st')
    ⊎ ((st' : Natives sample_memory) × (mqtt_client_connection_disconnect sample_napi sample_memory
            api
            (got (handle 7 ∷ instance_of 5 ∷ []))
            nothing
          ≡ done (none, st'))
        × Same nothing st')
mqtt_client_connection_disconnect-balanced_example =
    mqtt_client_connection_disconnect-balanced sample_napi sample_memory api laws
      (got (handle 7 ∷ instance_of 5 ∷ [])) nothing

abbrev disconnecting : DisconnectArgs ℕ
disconnecting = record { binding = some 7; on_disconnect = some 5 }

disconnecting-Pending :
    DisconnectPending sample_napi sample_memory api nothing disconnecting one_pending
disconnecting-Pending = record {
  same_live = λ c. refl;
  callback_held = refl;
  struct_held = refl;
  bound = (7, refl);
}

on_disconnected-balanced_example :
    ((after : Natives sample_memory) × (disconnecting.on_disconnect ≡ none)
      × (on_disconnected sample_napi sample_memory api disconnecting one_pending
          ≡ done (none, after))
      × Same nothing after)
    ⊎ ((f : ℕ) × (queued : Natives sample_memory) × (after : Natives sample_memory)
        × (disconnecting.on_disconnect ≡ some f)
        × (on_disconnected sample_napi sample_memory api disconnecting one_pending
            ≡ done (some disconnecting, queued))
        × (on_disconnect_call sample_napi sample_memory api true disconnecting queued
            ≡ done (some (record { function = f; parameters = tt }), after))
        × Same nothing after)
on_disconnected-balanced_example =
    on_disconnected-balanced sample_napi sample_memory api laws nothing one_pending disconnecting
      disconnecting-Pending
