-- ===== src/Mqtt.antt =====
-- source/mqtt_client_connection.c: the requests that JavaScript makes of an MQTT connection, and the
-- native objects that live until a request completes. Here: what the requests share. The MQTT
-- client of aws-c-mqtt is a parameter (`MqttApi`), beside Node's threadsafe functions.
pub mod Publish
pub mod Functions
pub mod Subscribe
pub mod Unsubscribe
pub mod Disconnect
pub mod Close
pub mod Deliver
use aws_crt_nodejs.Base.{
  ℕ, ◌+◌, ◌-◌, ◌≡◌, Bool, true, false, Option, none, some, List, [], ◌∷◌, ◌==◌, if◌then◌else◌,
}
use aws_crt_nodejs.Napi.{
  Reply, got, failed, Napi, Memory, Throw, World, throw, Outcome, done, aborted, ◌>>=◌,
}
use aws_crt_nodejs.Ownership.{SameLive, Holds}
use aws_crt_nodejs.ByteBuf.{ByteBuf, zeroed, is_null_or_undefined}
use aws_crt_nodejs.ByteBuf.Balance.{blocks}
use aws_crt_nodejs.Threadsafe.{
  Natives, FunctionApi, FunctionLaws, release_function, dispatch_function,
}

-- The MQTT client, beside the threadsafe functions. A packet id of 0 is a failure.
pub record MqttApi (n : Napi) (m : Memory) : Type 0 where
  pub functions : FunctionApi n
  -- aws_byte_buf_init_copy_from_cursor
  pub init_copy : ByteBuf → m.Store → Option (ByteBuf × m.Store)
  pub publish : n.Pointer → ByteBuf → ℕ → Bool → ByteBuf → ℕ
  pub subscribe : n.Pointer → ByteBuf → ℕ → ℕ
  pub unsubscribe : n.Pointer → ByteBuf → ℕ
  pub disconnect : n.Pointer → Bool
  -- do these answer napi_ok? napi_create_uint32, napi_create_int32 and napi_create_string_utf8,
  pub create_uint32 : ℕ → Bool
  pub create_int32 : ℕ → Bool
  pub create_string_utf8 : List ℕ → Bool
  -- napi_create_external_arraybuffer over the buffer, and napi_get_boolean
  pub create_external_arraybuffer : ByteBuf → Bool
  pub get_boolean : Bool → Bool

-- A call of a JavaScript function, with what it is passed.
pub record Call (A : Type 0) : Type 0 where
  pub function : ℕ
  pub parameters : A

module _ (n : Napi) (m : Memory) (api : MqttApi n m) where
  -- the copy, or the zeroed struct where the result of a failing copy is not looked at
  unfoldable pub copy_or_zeroed : ByteBuf → m.Store → ByteBuf × m.Store
  copy_or_zeroed buf s = elim (api.init_copy buf s) [ none ↦ (zeroed, s) | some r ↦ r ]

  -- the part of the s_destroy_…_args functions that releases the callback
  unfoldable pub release_callback : Option ℕ → Option n.Pointer → Natives m → Outcome (Natives m)
  unfolding release_function
  release_callback none binding st = done st
  release_callback (some f) none st = aborted
  release_callback (some f) (some binding) st = release_function n m api.functions f st

  -- The call of a callback from its threadsafe function, once its parameters are made (`made`: were
  -- they?), with the call as JavaScript sees it. A call is only queued where there is a callback.
  unfoldable pub call_back :
      {A : Type 0} → Option ℕ → Bool → A → Natives m → Outcome (Option (Call A) × Natives m)
  unfolding dispatch_function
  call_back none made parameters st = aborted
  call_back (some f) made parameters st =
      if made
      then (do
        st' ← dispatch_function n m api.functions f st
        done (some (record { function = f; parameters = parameters }), st'))
      else aborted

  -- Node does as it should, and a copied buffer holds the blocks that were taken.
  pub record ApiLaws : Type 0 where
    pub functions : FunctionLaws n m api.functions
    pub makes_uint32 : (k : ℕ) → api.create_uint32 k ≡ true
    pub makes_int32 : (k : ℕ) → api.create_int32 k ≡ true
    pub makes_arraybuffer : (buf : ByteBuf) → api.create_external_arraybuffer buf ≡ true
    pub gets_boolean : (b : Bool) → api.get_boolean b ≡ true
    pub makes_string : (bytes : List ℕ) → api.create_string_utf8 bytes ≡ true
    pub copies :
        (buf copy : ByteBuf) (s t : m.Store)
        → api.init_copy buf s ≡ some (copy, t)
        → Holds m s t (blocks copy)
