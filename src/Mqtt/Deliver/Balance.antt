-- ===== src/Mqtt/Deliver/Balance.antt =====
-- The delivery of a message: what it holds, and that it is given back.
use aws_crt_nodejs.Base.{ℕ, ◌+◌, ◌≡◌, ◌⊎◌, Bool, true, take, Option, none, some, List, [], ◌++◌}
use aws_crt_nodejs.Napi.{Napi, Memory, Outcome, done}
use aws_crt_nodejs.Ownership.{Holds}
use aws_crt_nodejs.ByteBuf.{ByteBuf}
use aws_crt_nodejs.ByteBuf.Balance.{blocks}
use aws_crt_nodejs.Threadsafe.{Natives, Same}
use aws_crt_nodejs.Threadsafe.Balance.{with_callback}
use aws_crt_nodejs.Mqtt.{MqttApi, ApiLaws}
use aws_crt_nodejs.Mqtt.Deliver.{OnPublishArgs, release_payload, on_publish, on_publish_call}

abbrev payload_blocks : Option ByteBuf → List ℕ
payload_blocks none = []
payload_blocks (some buf) = blocks buf

abbrev payload_structs : Option ByteBuf → ℕ
payload_structs none = 0
payload_structs (some buf) = 1

module _ (n : Napi) (m : Memory) (api : MqttApi n m) (laws : ApiLaws n m api) where
  -- What the arguments of a delivery hold in addition to `st`.
  record Held (st : Natives m) (args : OnPublishArgs) (st' : Natives m) : Type 0 where
    copies_held :
        Holds m st.world.store st'.world.store (payload_blocks args.payload ++ blocks args.topic)
    callback_held : st'.references ≡ with_callback args.on_publish st.references
    structs_held : st'.structs ≡ st.structs + 1 + payload_structs args.payload

  -- The two ways in which a delivery goes.
  abbrev Delivered :
      Natives m → Option ℕ → Bool → ℕ → Bool → Outcome (Option OnPublishArgs × Natives m) → Type 0
  Delivered st callback dup qos retain r =
      ((st' : Natives m) × (r ≡ done (none, st')) × Same st st')
      ⊎ ((f : ℕ) × (args : OnPublishArgs) × (queued : Natives m) × (payload : ByteBuf)
          × (after : Natives m) × (callback ≡ some f)
          × (r ≡ done (some args, queued))
          × (on_publish_call n m api true args queued
              ≡ done (
                some (record {
                  function = f;
                  parameters = record {
                    topic = take args.topic.len args.topic.contents;
                    payload = payload;
                    dup = dup;
                    qos = qos;
                    retain = retain;
                  };
                }),
                after,
              ))
          × Same st (release_payload n m api (some payload) after))
