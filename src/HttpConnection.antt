-- ===== src/HttpConnection.antt =====
-- source/http_connection.c: the binding of an HTTP connection, from the call that connects to the
-- callbacks for setup and shutdown. The client of aws-c-http and Node are a parameter
-- (`ConnectionApi`).
pub mod Options
pub mod Made
pub mod Calls
pub mod Lifetime
use aws_crt_nodejs.Base.{
  ℕ, ◌≡◌, ◌%◌, Bool, true, false, ◌&&◌, Option, none, some, List, [], ◌∷◌, ◌++◌, ◌==◌,
  if◌then◌else◌,
}
use aws_crt_nodejs.Napi.{
  Reply, got, failed, Napi, Memory, Throw, error, type_error, last_error, Outcome, done, aborted,
  undefined_behaviour, ◌>>=◌,
}
use aws_crt_nodejs.ByteBuf.{string_new_from_napi, is_null_or_undefined}
use aws_crt_nodejs.Arguments.{read, refused, external_or_null}
use aws_crt_nodejs.HttpConnection.Options.{ConnectionOptions, connection_options}
use aws_crt_nodejs.Threadsafe.{
  Natives, FunctionApi, FunctionLaws, calloc, mem_release, throwing, with_store, optional_function,
  release_if_set, queue_function, dispatch_function,
}

pub record ConnectionApi (n : Napi) : Type 0 where
  pub functions : FunctionApi n
  pub create_external : Reply n.Value
  -- references are numbers, and 0 is NULL
  pub create_reference : n.Value → Reply ℕ
  pub get_reference_value : ℕ → Bool
  pub create_uint32 : ℕ → Bool
  -- aws_http_client_connect: does it return AWS_OP_SUCCESS?
  pub client_connect : ConnectionOptions n → Bool

-- struct http_connection_binding
pub record HttpConnectionBinding (n : Napi) : Type 0 where
  pub connection : Option n.Pointer
  pub node_external : ℕ
  pub on_setup : Option ℕ
  pub on_shutdown : Option ℕ

-- What JavaScript is told, with the error code.
pub data Told : Type 0 where
  setup shutdown : ℕ → Told

-- The binding, what native code holds, the references to JavaScript objects that it has made and not
-- deleted, and what JavaScript has been told.
pub record HttpConnection (n : Napi) (m : Memory) : Type 0 where
  pub binding : HttpConnectionBinding n
  pub natives : Natives m
  pub node_references : List ℕ
  pub told : List Told

module _ (n : Napi) (m : Memory) where
  -- what the call that makes a connection answers, what native code holds then, and the references to
  -- JavaScript objects (napi_ref) that the call has made
  abbrev pub Made : Type 0
  Made = Option (HttpConnectionBinding n × ConnectionOptions n) × Natives m × List ℕ

module _ (n : Napi) (m : Memory) (api : ConnectionApi n) where
  -- the labels connect_failed, create_external_failed and failed_callbacks
  unfoldable pub give_up : HttpConnectionBinding n → List ℕ → Natives m → Outcome (Made n m)
  unfolding release_if_set
  give_up binding node_references st = do
    a ← release_if_set n m api.functions binding.on_setup st
    b ← release_if_set n m api.functions binding.on_shutdown a
    done (none, mem_release b, node_references)

  -- from napi_create_external on
  unfoldable pub connect :
      HttpConnectionBinding n → ConnectionOptions n → Natives m → Outcome (Made n m)
  unfolding give_up
  connect binding options st = elim api.create_external [
    | failed f ↦
        give_up binding []
          (throwing (error "Failed to create napi external for http_connection_binding") st)
    | got node_external ↦ elim (api.create_reference node_external) [
      | failed f ↦ give_up binding [] (throwing (error "Failed to reference node_external") st)
      | got ref ↦
          let referenced : HttpConnectionBinding n = record binding { node_external = ref } in
          if api.client_connect options
          then done (some (referenced, options), st, ref ∷ [])
          else give_up referenced (ref ∷ []) (throwing last_error st)
    ]
  ]

  -- from the host name on; a refused argument goes to argument_error
  unfoldable pub connect_host :
      HttpConnectionBinding n
      → Option n.Pointer
      → (host port socket tls proxy : n.Value) → Natives m
      → Outcome (Made n m)
  unfolding connection_options connect
  connect_host binding bootstrap node_host port socket tls proxy st =
      elim (string_new_from_napi n m node_host st.world.store) [
        | none ↦ undefined_behaviour
        | some (none, t) ↦
            done (none, throwing (type_error "host_name must be a String") (with_store t st), [])
        | some (some host_name, t) ↦
            elim (connection_options n m bootstrap host_name port socket tls proxy) [
              | refused thrown ↦ done (none, throwing thrown (with_store t st), [])
              | read options ↦ connect binding options (with_store t st)
            ]
      ]

  -- from the allocation of the binding on
  unfoldable pub connection_functions :
      Option n.Pointer
      → (on_setup on_shutdown host port socket tls proxy : n.Value) → Natives m
      → Outcome (Made n m)
  unfolding optional_function connect_host
  connection_functions bootstrap on_setup on_shutdown host port socket tls proxy st =
      if is_null_or_undefined n m on_setup
      then done (none, throwing (error "on_connection_setup must be a callback") st, [])
      else elim (api.functions.create_threadsafe_function on_setup) [
        | failed f ↦
            give_up
              (record { connection = none; node_external = 0; on_setup = none; on_shutdown = none })
              [] st
        | got f ↦
            let held : Natives m = record st { references = f ∷ st.references } in
            elim (optional_function n m api.functions on_shutdown held) [
              | none ↦
                  give_up
                    (record {
                      connection = none;
                      node_external = 0;
                      on_setup = some f;
                      on_shutdown = none;
                    })
                    [] held
              | some (g, st') ↦
                  connect_host
                    (record {
                      connection = none;
                      node_external = 0;
                      on_setup = some f;
                      on_shutdown = g;
                    })
                    bootstrap host port socket tls proxy st'
            ]
      ]

  -- aws_napi_http_connection_new: the binding and the options that the client has taken
  unfoldable pub http_connection_new : Reply (List n.Value) → Natives m → Outcome (Made n m)
  unfolding connection_functions external_or_null
  http_connection_new (failed f) st =
      done (none, throwing (error "Failed to retrieve callback information") st, [])
  http_connection_new (got values) st = elim values [
    | bootstrap ∷ on_setup ∷ on_shutdown ∷ host ∷ port ∷ socket ∷ tls ∷ proxy ∷ [] ↦
        connection_functions (external_or_null n m bootstrap) on_setup on_shutdown host port socket
          tls proxy (calloc st)
    | _ ↦ done (none, throwing (error "http_connection_new needs exactly 7 arguments") st, [])
  ]

  -- the call of one of the two functions
  unfoldable pub dispatch_told : ℕ → Told → HttpConnection n m → Outcome (HttpConnection n m)
  unfolding dispatch_function
  dispatch_told f told c = do
    st ← dispatch_function n m api.functions f c.natives
    done (record c { natives = st; told = c.told ++ told ∷ [] })

  -- get the external, make the number, call the function
  unfoldable pub tell : Option ℕ → Told → ℕ → HttpConnection n m → Outcome (HttpConnection n m)
  unfolding dispatch_told
  tell none told error_code c = aborted
  tell (some f) told error_code c =
      if api.get_reference_value c.binding.node_external && api.create_uint32 error_code
      then dispatch_told f told c
      else aborted

  -- with the field of the function: the error code that waits, if a call is queued
  unfoldable pub queue_call :
      Option ℕ → ℕ → HttpConnection n m → Outcome (Option ℕ × HttpConnection n m)
  unfolding queue_function
  queue_call none error_code c = done (none, c)
  queue_call (some f) error_code c = do
    st ← queue_function n m api.functions (some f) (calloc c.natives)
    done (some error_code, record c { natives = st })

  abbrev pub with_connection : Option n.Pointer → HttpConnection n m → HttpConnection n m
  with_connection connection c = record c { binding = record c.binding { connection = connection } }

  -- s_http_on_connection_setup
  unfoldable pub on_connection_setup :
      Option n.Pointer → ℕ → HttpConnection n m → Outcome (Option ℕ × HttpConnection n m)
  unfolding queue_call
  on_connection_setup connection error_code c =
      queue_call c.binding.on_setup error_code (with_connection connection c)

  -- what follows the call: both functions are given up where no shutdown will come
  unfoldable pub end_setup : ℕ → HttpConnection n m → Outcome (HttpConnection n m)
  unfolding release_if_set
  end_setup error_code c = do
    a ← release_if_set n m api.functions c.binding.on_setup c.natives
    b ← if error_code == 0 then done a else release_if_set n m api.functions c.binding.on_shutdown a
    done (record c { natives = mem_release b })

  unfoldable pub on_connection_setup_call :
      (has_env : Bool) → ℕ → HttpConnection n m → Outcome (HttpConnection n m)
  unfolding tell end_setup
  on_connection_setup_call false error_code c = end_setup error_code c
  on_connection_setup_call true error_code c =
      tell c.binding.on_setup (setup error_code) error_code c >>= end_setup error_code

  -- s_http_on_connection_shutdown
  unfoldable pub on_connection_shutdown :
      Option n.Pointer → ℕ → HttpConnection n m → Outcome (Option ℕ × HttpConnection n m)
  unfolding queue_call
  on_connection_shutdown connection error_code c =
      queue_call c.binding.on_shutdown error_code (with_connection connection c)

  unfoldable pub end_shutdown : HttpConnection n m → Outcome (HttpConnection n m)
  unfolding release_if_set
  end_shutdown c = do
    a ← release_if_set n m api.functions c.binding.on_shutdown c.natives
    done (record c { natives = mem_release a })

  unfoldable pub on_connection_shutdown_call :
      (has_env : Bool) → ℕ → HttpConnection n m → Outcome (HttpConnection n m)
  unfolding tell end_shutdown
  on_connection_shutdown_call false error_code c = end_shutdown c
  on_connection_shutdown_call true error_code c =
      tell c.binding.on_shutdown (shutdown error_code) error_code c >>= end_shutdown

  -- Node does as it should.
  pub record ConnectionLaws : Type 0 where
    pub functions : FunctionLaws n m api.functions
    pub gets_reference : (ref : ℕ) → api.get_reference_value ref ≡ true
    pub makes_uint32 : (k : ℕ) → api.create_uint32 k ≡ true
