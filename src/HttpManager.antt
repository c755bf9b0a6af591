-- ===== src/HttpManager.antt =====
-- source/http_connection_manager.c: a connection manager, and the connections that JavaScript acquires
-- from it, with aws_napi_http_connection_from_manager of source/http_connection.c. The manager of
-- aws-c-http is a parameter (`ManagerApi`).
pub mod Options
pub mod Acquire
pub mod Making
pub mod Refusal
pub mod Acquisition
use aws_crt_nodejs.Base.{
  ℕ, ◌+◌, ◌-◌, ◌≡◌, Bool, true, false, ◌&&◌, Option, none, some, List, [], ◌∷◌, ◌++◌, leb,
  if◌then◌else◌,
}
use aws_crt_nodejs.Napi.{
  Status, ok, fail, Reply, got, failed, Napi, Memory, Throw, error, type_error, last_error, Outcome,
  done, aborted, ◌>>=◌,
}
use aws_crt_nodejs.ByteBuf.{
  ByteBuf, zeroed, byte_buf_init_from_napi, byte_buf_clean_up, is_null_or_undefined,
}
use aws_crt_nodejs.Arguments.{read, refused, external_or_null}
use aws_crt_nodejs.HttpManager.Options.{ManagerOptions, manager_options}
use aws_crt_nodejs.Threadsafe.{
  Natives, FunctionApi, FunctionLaws, calloc, mem_release, throwing, with_store, optional_function,
  release_if_set, queue_function, dispatch_function,
}

pub record ManagerApi (n : Napi) : Type 0 where
  pub functions : FunctionApi n
  -- aws_http_connection_manager_new
  pub manager_new : ManagerOptions n → Option n.Pointer
  -- a connection that a caller gives back: does it return AWS_OP_SUCCESS?
  pub release_connection : n.Pointer → n.Pointer → Bool
  -- napi_create_external of this binding
  pub create_external : Option n.Pointer → Reply n.Value
  pub create_reference : n.Value → Reply ℕ
  pub create_int32 : ℕ → Bool
  -- napi_unref_threadsafe_function
  pub unref_threadsafe_function : ℕ → Bool

-- struct http_connection_manager_binding; a reference 0 is NULL
pub record HttpConnectionManagerBinding (n : Napi) : Type 0 where
  pub manager : Option n.Pointer
  pub node_external : ℕ
  pub on_shutdown : Option ℕ

-- What native code holds, how many references to managers, and which references to JavaScript objects.
-- `shutdowns` has a field `on_shutdown` for each released manager: the client reports the shutdown of
-- such a manager once, with s_http_connection_manager_shutdown_complete.
pub record Managing (m : Memory) : Type 0 where
  pub natives : Natives m
  pub managers : ℕ
  pub node_references : List ℕ
  pub shutdowns : List (Option ℕ)

module _ {m : Memory} where
  abbrev pub raising : Throw → Managing m → Managing m
  raising t s = record s { natives = throwing t s.natives }

  -- aws_http_connection_manager_release, of a manager with this function for its shutdown
  unfoldable pub manager_release : Option ℕ → Managing m → Managing m
  manager_release on_shutdown s = record s {
    managers = s.managers - 1;
    shutdowns = s.shutdowns ++ on_shutdown ∷ [];
  }

module _ (n : Napi) (m : Memory) (api : ManagerApi n) where
  -- the binding and the options of a manager that was made
  abbrev pub Made : Type 0
  Made = Option (HttpConnectionManagerBinding n × ManagerOptions n) × Managing m

  -- the label external_failed
  unfoldable pub external_failed : HttpConnectionManagerBinding n → Throw → Managing m → Made
  unfolding manager_release
  external_failed binding thrown s = (none, manager_release binding.on_shutdown (raising thrown s))

  -- the external of the binding and the reference to it
  unfoldable pub make_external :
      HttpConnectionManagerBinding n → ManagerOptions n → Managing m → Made
  unfolding external_failed
  make_external binding options s = elim (api.create_external binding.manager) [
    | failed f ↦ external_failed binding (error "Unable to create node external") s
    | got node_external ↦ elim (api.create_reference node_external) [
      | failed f ↦ external_failed binding (error "Unable to create reference to node external") s
      | got ref ↦ (
        some (record binding { node_external = ref }, options),
        record s { node_references = ref ∷ s.node_references },
      )
    ]
  ]

  unfoldable pub make_manager : Option ℕ → ManagerOptions n → Managing m → Made
  unfolding make_external
  make_manager on_shutdown options s = elim (api.manager_new options) [
    | none ↦ (none, raising last_error s)
    | some manager ↦
        make_external
          (record { manager = some manager; node_external = 0; on_shutdown = on_shutdown }) options
          (record s { managers = s.managers + 1 })
  ]

  -- from the port on
  unfoldable pub make_binding :
      Option n.Pointer
      → List ℕ
      → (port max_conns window_size socket tls proxy on_shutdown : n.Value) → Managing m
      → Made
  unfolding manager_options optional_function make_manager
  make_binding bootstrap host port max_conns window_size socket tls proxy on_shutdown s =
      elim (manager_options n m bootstrap host port max_conns window_size socket tls proxy) [
        | refused thrown ↦ (none, raising thrown s)
        | read options ↦ elim (optional_function n m api.functions on_shutdown s.natives) [
          | none ↦
              (none, raising (type_error "on_shutdown must be a valid callback or undefined") s)
          | some (f, st) ↦ make_manager f options (record s { natives = st })
        ]
      ]

  -- `done:`, at both ends of the function
  unfoldable pub release_host : ByteBuf → Made → Made
  unfolding byte_buf_clean_up
  release_host host_buf (result, s) = (
    result,
    record s {
      natives = with_store (byte_buf_clean_up n m host_buf s.natives.world.store) s.natives;
    },
  )

  -- from the conversion of the host on
  unfoldable pub with_host :
      Option n.Pointer
      → (port max_conns window_size socket tls proxy on_shutdown : n.Value) → Managing m
      → (Status × ByteBuf) × m.Store
      → Made
  unfolding make_binding release_host
  with_host bootstrap port max_conns window_size socket tls proxy on_shutdown s
        ((fail f, host_buf), t) =
      (
        none,
        raising (type_error "host must be a string")
            (record s { natives = with_store t s.natives }),
      )
  with_host bootstrap port max_conns window_size socket tls proxy on_shutdown s
        ((ok, host_buf), t) =
      release_host host_buf (
        make_binding bootstrap host_buf.contents port max_conns window_size socket tls proxy
          on_shutdown (record s { natives = calloc (with_store t s.natives) }))

  unfoldable pub http_connection_manager_new : Reply (List n.Value) → Managing m → Made
  unfolding external_or_null byte_buf_init_from_napi with_host
  http_connection_manager_new (failed f) s = (none, raising (error "Unable to get callback info") s)
  http_connection_manager_new (got values) s = elim values [
    | bootstrap ∷ host ∷ port ∷ max_conns ∷ window_size ∷ socket ∷ tls ∷ proxy ∷ on_shutdown ∷ [] ↦
        with_host (external_or_null n m bootstrap) port max_conns window_size socket tls proxy
          on_shutdown s (byte_buf_init_from_napi n m zeroed host s.natives.world.store)
    | _ ↦ (none, raising (error "http_connection_manager_new takes exactly 8 arguments") s)
  ]
