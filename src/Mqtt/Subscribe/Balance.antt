-- ===== src/Mqtt/Subscribe/Balance.antt =====
-- What a subscription and its request hold, from the call to the end of the subscription.
use aws_crt_nodejs.Base.{
  ℕ, ◌+◌, ◌≡◌, inl, inr, refl, ap, Option, none, some, List, [], ◌∷◌, ◌++◌, append-nil, arith,
  Bool-cases, ◌==◌,
}
use aws_crt_nodejs.Napi.{Reply-cases, Status-cases, Napi, Memory}
use aws_crt_nodejs.Ownership.{Holds, Holds-append}
use aws_crt_nodejs.ByteBuf.{ByteBuf, zeroed, byte_buf_init_from_napi, is_null_or_undefined}
use aws_crt_nodejs.ByteBuf.Balance.{blocks, byte_buf_init_from_napi-Holds}
use aws_crt_nodejs.Threadsafe.{Natives, calloc, remove_one, throwing, with_store}
use aws_crt_nodejs.Threadsafe.Balance.{optional_function-cases, with_callback}
use aws_crt_nodejs.Mqtt.{MqttApi, ApiLaws}
use aws_crt_nodejs.Mqtt.Functions.{copy_or_zeroed-Holds, Bound}
use aws_crt_nodejs.Mqtt.Subscribe.{
  Subscription, Suback, Subscribing, subscribe_request, subscribe_suback, subscribe_options,
  subscribe_topic,
}

pub remove_one-second :
    (o : Option ℕ) (f : ℕ) (fs : List ℕ)
    → remove_one f (with_callback o (f ∷ fs)) ≡ with_callback o fs
remove_one-second none f fs = ground arith
remove_one-second (some g) f fs = grind arith

module _ (n : Napi) (m : Memory) (api : MqttApi n m) where
  -- What the optional arguments of the acknowledgement hold.
  abbrev pub suback_blocks : Option (Suback n m api) → List ℕ
  suback_blocks none = []
  suback_blocks (some a) = blocks a.topic

  abbrev pub suback_callback : Option (Suback n m api) → Option ℕ
  suback_callback none = none
  suback_callback (some a) = a.on_suback

  abbrev pub suback_structs : Option (Suback n m api) → ℕ
  suback_structs none = 0
  suback_structs (some a) = 1

  abbrev pub SubackBound : Option (Suback n m api) → Type 0
  SubackBound none = Unit {0}
  SubackBound (some a) = Bound a.binding a.on_suback

  -- What the subscription and the arguments of its acknowledgement hold in addition to `st`.
  pub record Held (st : Natives m) (sub : Subscription) (suback : Option (Suback n m api))
      (st' : Natives m) : Type 0 where
    pub topics_held :
        Holds m st.world.store st'.world.store (blocks sub.topic ++ suback_blocks suback)
    pub callbacks_held :
        st'.references
        ≡ with_callback (suback_callback suback) (with_callback sub.on_publish st.references)
    pub structs_held : st'.structs ≡ st.structs + 1 + suback_structs suback
    pub bound : SubackBound suback

  abbrev pub Tracks : Natives m → Subscribing n m api → Type 0
  Tracks st p = Held st p.sub p.suback p.natives

  again :
      {st : Natives m} {p : Subscribing n m api}
      → (t : _) → Tracks st p
      → Tracks st (record p { natives = throwing t p.natives })
  again t h = record {
    topics_held = h.topics_held;
    callbacks_held = h.callbacks_held;
    structs_held = h.structs_held;
    bound = h.bound;
  }

  subscribe_request-Tracks :
      (st : Natives m) (b : n.Pointer) (qos : ℕ) (p : Subscribing n m api)
      → Tracks st p
      → Tracks st (subscribe_request n m api b qos p).1
  unfolding subscribe_request
  subscribe_request-Tracks st b qos p h = elim (Bool-cases (api.subscribe b p.sub.topic qos == 0)) [
    | inl e ↦ rw (e, subscribe_request) (again _ h)
    | inr e ↦ rw (e, subscribe_request) h
  ]

  abbrev at : Subscription → Natives m → Subscribing n m api
  at sub st = record { sub = sub; suback = none; natives = st }

  module _ (laws : ApiLaws n m api) where
    subscribe_suback-Tracks :
        (st : Natives m) (b : n.Pointer) (qos : ℕ) (v : n.Value) (sub : Subscription)
        (cur : Natives m)
        → Tracks st (at sub cur)
        → Tracks st (subscribe_suback n m api b qos v (at sub cur)).1
    unfolding subscribe_suback
    subscribe_suback-Tracks st b qos v sub cur h = elim (Bool-cases (is_null_or_undefined n m v)) [
      | inl e ↦ rw (e, subscribe_suback) (subscribe_request-Tracks st b qos (at sub cur) h)
      | inr e ↦
          let copied = copy_or_zeroed-Holds n m api laws sub.topic cur.world.store in
          let held = Holds-append (rw append-nil at h.topics_held) copied in
          elim (Reply-cases (api.functions.create_threadsafe_function v)) [
            | inr (f, e') ↦
                rw (e, e', subscribe_suback)
                  (record {
                    topics_held = held;
                    callbacks_held = h.callbacks_held;
                    structs_held = omega (arith, h.structs_held);
                    bound = tt;
                  })
            | inl (f, e') ↦
                rw (e, e', subscribe_suback)
                  (subscribe_request-Tracks st b qos _ (record {
                    topics_held = held;
                    callbacks_held = ap (λ fs. f ∷ fs) h.callbacks_held;
                    structs_held = omega (arith, h.structs_held);
                    bound = (b, refl);
                  }))
          ]
    ]

    subscribe_options-Tracks :
        (st : Natives m) (b : n.Pointer) (q p v : n.Value) (topic : ByteBuf) (cur : Natives m)
        → Tracks st (at (record { topic = topic; on_publish = none }) cur)
        → Tracks st
            (subscribe_options n m api b q p v
              (at (record { topic = topic; on_publish = none }) cur)).1
    unfolding subscribe_options
    subscribe_options-Tracks st b q p v topic cur h = elim (Reply-cases (n.get_value_uint32 q)) [
      | inr (f, e) ↦ rw (e, subscribe_options) (again _ h)
      | inl (qos, e) ↦ elim (optional_function-cases n m api.functions p cur) [
        | inl e' ↦ rw (e, e', subscribe_options) h
        | inr (f, e') ↦
            rw (e, e', subscribe_options)
              (subscribe_suback-Tracks st b qos v (record { topic = topic; on_publish = f })
                (record cur { references = with_callback f cur.references })
                (record {
                  topics_held = h.topics_held;
                  callbacks_held = ap (with_callback f) h.callbacks_held;
                  structs_held = h.structs_held;
                  bound = tt;
                }))
      ]
    ]

    pub subscribe_topic-Tracks :
        (st : Natives m) (b : n.Pointer) (t q p v : n.Value)
        → Tracks st (subscribe_topic n m api b t q p v st).1
    unfolding subscribe_topic
    subscribe_topic-Tracks st b t q p v =
        let r = byte_buf_init_from_napi n m zeroed t st.world.store in
        let held = byte_buf_init_from_napi-Holds n m t st.world.store in
        let cur : Natives m = with_store r.1 (calloc st) in
        let start : Tracks st (at (record { topic = r.0.1; on_publish = none }) cur) = record {
          topics_held = rw append-nil held;
          callbacks_held = refl;
          structs_held = omega arith;
          bound = tt;
        } in
        elim (Status-cases r.0.0) [
          | inr (f, e) ↦ rw (e, subscribe_topic) (again _ start)
          | inl e ↦ rw (e, subscribe_topic) (subscribe_options-Tracks st b q p v r.0.1 cur start)
        ]
