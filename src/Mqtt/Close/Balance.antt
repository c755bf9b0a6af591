-- ===== src/Mqtt/Close/Balance.antt =====
-- The end of a connection's binding: each resource is given back exactly once.
use aws_crt_nodejs.Base.{
  ℕ, ◌+◌, ◌-◌, ◌≡◌, refl, Bool, Option, none, some, List, [], ◌∷◌, arith, if◌then◌else◌,
}
use aws_crt_nodejs.Napi.{got, Napi, Memory, done}
use aws_crt_nodejs.Threadsafe.{Natives, release_function}
use aws_crt_nodejs.Threadsafe.Balance.{remove_one-cons, with_callback}
use aws_crt_nodejs.Mqtt.{MqttApi, ApiLaws}
use aws_crt_nodejs.Mqtt.Close.{
  Binding, Closing, release_field, release_threadsafe_function, close_resources,
  mqtt_client_connection_close, mqtt_client_connection_finalize,
}

-- The references that the four function fields of a binding stand for, in the order of their release.
abbrev pub with_functions : Binding → List ℕ → List ℕ
with_functions b fs = with_callback b.on_connection_interrupted (
    with_callback b.on_connection_resumed
      (with_callback b.on_any_publish (with_callback b.transform_websocket fs)))

abbrev pub one_if : Bool → ℕ
one_if b = if b then 1 else 0

module _ (n : Napi) (m : Memory) (api : MqttApi n m) (laws : ApiLaws n m api) where
  release_field-done :
      (o : Option ℕ) (st : Natives m) (fs : List ℕ)
      → st.references ≡ with_callback o fs
      → release_field n m api o st ≡ done (record st { references = fs })
  unfolding release_field release_function
  release_field-done none st fs e = rw e
  release_field-done (some f) st fs e = rw (laws.functions.releases f, e, remove_one-cons f fs)

  abbrev cleared : Closing m → List ℕ → Closing m
  cleared c fs = record c {
    binding = record c.binding {
      on_connection_interrupted = none;
      on_connection_resumed = none;
      on_any_publish = none;
      transform_websocket = none;
    };
    natives = record c.natives { references = fs };
  }

  release_threadsafe_function-done :
      (c : Closing m) (fs : List ℕ)
      → c.natives.references ≡ with_functions c.binding fs
      → release_threadsafe_function n m api c ≡ done (cleared c fs)
  unfolding release_threadsafe_function
  release_threadsafe_function-done c fs e =
      let b = c.binding in
      let st1 : Natives m = record c.natives {
        references =
            with_callback b.on_connection_resumed
              (with_callback b.on_any_publish (with_callback b.transform_websocket fs));
      } in
      let st2 : Natives m = record c.natives {
        references = with_callback b.on_any_publish (with_callback b.transform_websocket fs);
      } in
      let st3 : Natives m = record c.natives {
        references = with_callback b.transform_websocket fs;
      } in
      rw (
        release_field-done b.on_connection_interrupted c.natives st1.references e,
        release_field-done b.on_connection_resumed st1 st2.references refl,
        release_field-done b.on_any_publish st2 st3.references refl,
        release_field-done b.transform_websocket st3 fs refl,
      )

  -- the binding and the counts after a close
  abbrev after_close : Closing m → List ℕ → Closing m
  after_close c fs = close_resources n m api (cleared c fs)

  abbrev after_finalize : Closing m → List ℕ → Closing m
  after_finalize c fs =
      let d = after_close c fs in
      record d {
        natives = record d.natives { structs = d.natives.structs - 1 };
        tls_clean_ups = if c.binding.use_tls_options then d.tls_clean_ups + 1 else d.tls_clean_ups;
      }

  close-done :
      (v : n.Value) (p : n.Pointer) (c : Closing m) (fs : List ℕ)
      → n.get_value_external v ≡ got p
      → c.natives.references ≡ with_functions c.binding fs
      → mqtt_client_connection_close n m api (got (v ∷ [])) c ≡ done (after_close c fs)
  unfolding mqtt_client_connection_close
  close-done v p c fs e h =
      rw (e, mqtt_client_connection_close, release_threadsafe_function-done c fs h)

  count_if : (b : Bool) (k : ℕ) → (if b then k + 1 else k) ≡ k + one_if b
  count_if b k = ground arith

  -- Closing a binding gives back the references to its four functions, the reference to its external
  -- and the connection, each once and as far as the binding has it. A second call of close changes
  -- nothing, and the finalizer afterwards gives back the rest: the TLS options and the struct.
  -- The four functions are held before, and the laws of `ApiLaws` hold.
  pub mqtt_client_connection_close-once :
      (v : n.Value) (p : n.Pointer) (c : Closing m) (fs : List ℕ)
      → n.get_value_external v ≡ got p
      → c.natives.references ≡ with_functions c.binding fs
      → (closed : Closing m) × (final : Closing m) × (mqtt_client_connection_close n m api
            (got (v ∷ []))
            c
          ≡ done closed)
        × (closed.natives.references ≡ fs)
        × (closed.connection_releases ≡ c.connection_releases + one_if c.binding.has_connection)
        × (closed.external_deletes ≡ c.external_deletes + one_if c.binding.has_node_external)
        × (mqtt_client_connection_close n m api (got (v ∷ [])) closed ≡ done closed)
        × (mqtt_client_connection_finalize n m api closed ≡ done final)
        × (final.natives.references ≡ fs)
        × (final.natives.structs ≡ c.natives.structs - 1)
        × (final.connection_releases ≡ closed.connection_releases)
        × (final.external_deletes ≡ closed.external_deletes)
        × (final.tls_clean_ups ≡ c.tls_clean_ups + one_if c.binding.use_tls_options)
  unfolding mqtt_client_connection_close mqtt_client_connection_finalize close_resources
  mqtt_client_connection_close-once v p c fs e h =
      let closed = after_close c fs in
      (
        closed,
        after_finalize c fs,
        close-done v p c fs e h,
        refl,
        count_if c.binding.has_connection c.connection_releases,
        count_if c.binding.has_node_external c.external_deletes,
        close-done v p closed fs e refl,
        rw (release_threadsafe_function-done closed fs refl),
        refl,
        refl,
        refl,
        refl,
        count_if c.binding.use_tls_options c.tls_clean_ups,
      )
