-- ===== src/Mqtt/Deliver.antt =====
-- source/mqtt_client_connection.c: the delivery of a message to a subscription's callback,
-- s_on_publish, s_on_publish_call and the finalizer of the payload's ArrayBuffer.
pub mod Balance
use aws_crt_nodejs.Base.{
  ℕ, Bool, true, false, List, take, ◌&&◌, Option, none, some, ◌∷◌, if◌then◌else◌,
}
use aws_crt_nodejs.Napi.{Napi, Memory, Outcome, done, aborted, undefined_behaviour, ◌>>=◌}
use aws_crt_nodejs.ByteBuf.{ByteBuf, zeroed, byte_buf_clean_up}
use aws_crt_nodejs.Threadsafe.{
  Natives, calloc, dispatch_function, mem_release, queue_function, release_function, with_store,
}
use aws_crt_nodejs.Mqtt.{MqttApi, Call, call_back}
use aws_crt_nodejs.Mqtt.Subscribe.{Subscription}

-- struct on_publish_args
pub record OnPublishArgs : Type 0 where
  pub topic : ByteBuf
  pub payload : Option ByteBuf
  pub dup : Bool
  pub qos : ℕ
  pub retain : Bool
  pub on_publish : Option ℕ

-- What the callback of a subscription gets: the payload as an ArrayBuffer.
pub record Delivery : Type 0 where
  pub topic : List ℕ
  pub payload : ByteBuf
  pub dup : Bool
  pub qos : ℕ
  pub retain : Bool

module _ (n : Napi) (m : Memory) (api : MqttApi n m) where
  abbrev pub clean : ByteBuf → Natives m → Natives m
  clean buf st = with_store (byte_buf_clean_up n m buf st.world.store) st

  -- the part of s_destroy_on_publish_args that releases the callback
  unfoldable pub release_on_publish : Option ℕ → Natives m → Outcome (Natives m)
  release_on_publish none st = done st
  release_on_publish (some f) st = release_function n m api.functions f st

  -- the payload's buffer and its struct: a part of s_destroy_on_publish_args, and the body of
  -- s_publish_external_arraybuffer_finalizer
  unfoldable pub release_payload : Option ByteBuf → Natives m → Natives m
  release_payload none st = st
  release_payload (some buf) st = mem_release (clean buf st)

  -- s_destroy_on_publish_args
  unfoldable pub destroy_on_publish_args : OnPublishArgs → Natives m → Outcome (Natives m)
  destroy_on_publish_args args st = do
    st' ← release_on_publish args.on_publish st
    done (mem_release (clean args.topic (release_payload args.payload st')))

  -- the end at `on_error:`
  unfoldable pub drop_message :
      OnPublishArgs → Natives m → Outcome (Option OnPublishArgs × Natives m)
  drop_message args st = do after ← destroy_on_publish_args args st; done (none, after)

  -- from the copy of the topic on; `payload_calloc` is whether the payload's struct is allocated
  unfoldable pub copy_message :
      Bool
      → ByteBuf
      → ByteBuf
      → OnPublishArgs
      → Natives m
      → Outcome (Option OnPublishArgs × Natives m)
  copy_message payload_calloc topic payload args st = elim (api.init_copy topic st.world.store) [
    | none ↦ drop_message args st
    | some (copy, s) ↦
        let with_topic = record args { topic = copy } in
        let st' = with_store s st in
        if payload_calloc
        then elim (api.init_copy payload s) [
          | none ↦ drop_message (record with_topic { payload = some zeroed }) (calloc st')
          | some (payload_copy, t) ↦
              let whole = record with_topic { payload = some payload_copy } in
              do
                queued ←
                    queue_function n m api.functions whole.on_publish (with_store t (calloc st'))
                done (some whole, queued)
        ]
        else drop_message with_topic st'
  ]

  -- s_on_publish, at a subscription whose context is its binding: the arguments of the queued call,
  -- if there is one
  unfoldable pub on_publish :
      Bool
      → ByteBuf
      → ByteBuf
      → Bool
      → ℕ
      → Bool
      → Subscription
      → Natives m
      → Outcome (Option OnPublishArgs × Natives m)
  on_publish payload_calloc topic payload dup qos retain sub st = elim sub.on_publish [
    | none ↦ done (none, st)
    | some f ↦
        if api.functions.acquire_threadsafe_function (some f)
        then copy_message payload_calloc topic payload
            (record {
              topic = zeroed;
              payload = none;
              dup = dup;
              qos = qos;
              retain = retain;
              on_publish = some f;
            })
            (record (calloc st) { references = f ∷ st.references })
        else aborted
  ]

  -- s_on_publish_call, with the call of JavaScript, whose ArrayBuffer then owns the payload and gives it
  -- to the finalizer later; `env` is whether Node still runs. A call is only queued with a payload.
  unfoldable pub on_publish_call :
      (env : Bool) → OnPublishArgs → Natives m → Outcome (Option (Call Delivery) × Natives m)
  on_publish_call false args st = do after ← destroy_on_publish_args args st; done (none, after)
  on_publish_call true args st = elim args.payload [
    | none ↦ undefined_behaviour
    | some payload ↦ do
      (told, st') ←
          call_back n m api args.on_publish
            (api.create_string_utf8 (take args.topic.len args.topic.contents)
              && api.create_external_arraybuffer payload
              && api.get_boolean args.dup
              && api.create_int32 args.qos
              && api.get_boolean args.retain)
            (record {
              topic = take args.topic.len args.topic.contents;
              payload = payload;
              dup = args.dup;
              qos = args.qos;
              retain = args.retain;
            })
            st
      after ← destroy_on_publish_args (record args { payload = none }) st'
      done (told, after)
  ]
