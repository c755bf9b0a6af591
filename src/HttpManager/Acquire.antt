-- ===== src/HttpManager/Acquire.antt =====
-- source/http_connection_manager.c: connections that JavaScript acquires from a manager and gives back,
-- the end of a manager, and aws_napi_http_connection_from_manager of source/http_connection.c.
use aws_crt_nodejs.Base.{ℕ, Bool, true, false, Option, none, some, List, [], ◌∷◌, if◌then◌else◌}
use aws_crt_nodejs.Napi.{
  Reply, got, failed, Napi, Memory, error, type_error, last_error, Outcome, done, aborted, ◌>>=◌,
}
use aws_crt_nodejs.Threadsafe.{
  Natives, calloc, mem_release, throwing, release_if_set, queue_function, dispatch_function,
}
use aws_crt_nodejs.HttpManager.{
  ManagerApi, HttpConnectionManagerBinding, Managing, raising, manager_release,
}

-- struct connection_acquired_args; the binding is the manager's
pub record ConnectionAcquiredArgs (n : Napi) : Type 0 where
  pub on_acquired : ℕ
  pub connection : Option n.Pointer
  pub error_code : ℕ

-- What JavaScript is told of an acquisition: the external of the connection and the error code.
pub record Acquired (n : Napi) : Type 0 where
  pub external : n.Value
  pub code : ℕ

module _ (n : Napi) (m : Memory) (api : ManagerApi n) where
  -- aws_napi_http_connection_manager_close; `binding_at` is the binding behind a pointer
  unfoldable pub http_connection_manager_close :
      (n.Pointer → HttpConnectionManagerBinding n) → Reply (List n.Value) → Managing m → Managing m
  unfolding manager_release
  http_connection_manager_close binding_at (failed f) s =
      raising (error "Unable to get callback info") s
  http_connection_manager_close binding_at (got values) s = elim values [
    | node_external ∷ [] ↦ elim (n.get_value_external node_external) [
      | failed f ↦ raising (type_error "connection_manager must be a valid HttpConnectionManager") s
      | got p ↦ manager_release (binding_at p).on_shutdown s
    ]
    | _ ↦ raising (error "http_connection_manager_close takes exactly 1 argument") s
  ]

  -- s_http_connection_manager_shutdown_complete, with the field `on_shutdown`
  unfoldable pub shutdown_complete : Option ℕ → Natives m → Outcome (Natives m)
  unfolding queue_function release_if_set
  shutdown_complete none st = release_if_set n m api.functions none st
  shutdown_complete (some f) st = do
    queued ← queue_function n m api.functions (some f) st
    release_if_set n m api.functions (some f) queued

  -- s_http_connection_manager_shutdown_call, with the field `on_shutdown`
  unfoldable pub shutdown_call : (has_env : Bool) → Option ℕ → Natives m → Outcome (Natives m)
  unfolding dispatch_function
  shutdown_call false f st = done st
  shutdown_call true none st = aborted
  shutdown_call true (some f) st = dispatch_function n m api.functions f st

  -- s_http_connection_manager_finalize
  unfoldable pub manager_finalize : Natives m → Natives m
  manager_finalize st = mem_release st

  -- aws_napi_http_connection_from_manager: the external, or `none` where it cannot be made
  unfoldable pub http_connection_from_manager :
      Option n.Pointer → Natives m → Option n.Value × Natives m
  http_connection_from_manager connection st = elim (api.create_external connection) [
    | failed f ↦ (
      none,
      mem_release (throwing (error "Unable to create external for managed connection") (calloc st)),
    )
    | got node_external ↦ (some node_external, calloc st)
  ]

  -- s_http_connection_from_manager_binding_finalize
  unfoldable pub from_manager_finalize : Natives m → Natives m
  from_manager_finalize st = mem_release st

  -- aws_napi_http_connection_manager_acquire: the arguments that the manager now holds
  unfoldable pub http_connection_manager_acquire :
      Reply (List n.Value) → Natives m → Option (ConnectionAcquiredArgs n) × Natives m
  http_connection_manager_acquire (failed f) st =
      (none, throwing (error "Unable to get callback info") st)
  http_connection_manager_acquire (got values) st = elim values [
    | node_external ∷ node_on_acquired ∷ [] ↦ elim (n.get_value_external node_external) [
      | failed f ↦ (none, throwing (type_error "connection_manager should be an external") st)
      | got binding ↦ elim (api.functions.create_threadsafe_function node_on_acquired) [
        | failed f ↦ (
          none,
          mem_release (throwing (type_error "on_acquired should be a valid callback") (calloc st)),
        )
        | got f ↦ (
          some (record { on_acquired = f; connection = none; error_code = 0 }),
          record (calloc st) { references = f ∷ st.references },
        )
      ]
    ]
    | _ ↦ (none, throwing (error "http_connection_manager_acquire takes exactly 2 arguments") st)
  ]

  -- s_http_connection_manager_acquired
  unfoldable pub manager_acquired :
      Option n.Pointer
      → ℕ
      → ConnectionAcquiredArgs n
      → Natives m
      → Outcome (ConnectionAcquiredArgs n × Natives m)
  unfolding queue_function
  manager_acquired connection error_code args st = do
    queued ← queue_function n m api.functions (some args.on_acquired) st
    done (record args { connection = connection; error_code = error_code }, queued)

  -- the call with the external; afterwards the function is unreferenced, which keeps Node from
  -- waiting for it and gives no reference back
  unfoldable pub tell_acquired :
      ConnectionAcquiredArgs n
      → Option n.Value × Natives m
      → Outcome (Option (Acquired n) × Natives m)
  unfolding dispatch_function
  tell_acquired args (none, st) = aborted
  tell_acquired args (some external, st) =
      if api.create_int32 args.error_code
      then (do
        st' ← dispatch_function n m api.functions args.on_acquired st
        (if api.unref_threadsafe_function args.on_acquired
            then done
                (some (record { external = external; code = args.error_code }), mem_release st')
            else aborted))
      else aborted

  -- s_http_connection_manager_on_acquired_call
  unfoldable pub on_acquired_call :
      (has_env : Bool)
      → ConnectionAcquiredArgs n
      → Natives m
      → Outcome (Option (Acquired n) × Natives m)
  unfolding http_connection_from_manager tell_acquired
  on_acquired_call false args st = done (none, mem_release st)
  on_acquired_call true args st =
      tell_acquired args (http_connection_from_manager args.connection st)

  -- aws_napi_http_connection_manager_release
  unfoldable pub http_connection_manager_release : Reply (List n.Value) → Natives m → Natives m
  http_connection_manager_release (failed f) st = throwing (error "Unable to get callback info") st
  http_connection_manager_release (got values) st = elim values [
    | node_external ∷ node_connection ∷ [] ↦ elim (n.get_value_external node_external) [
      | failed f ↦ throwing (type_error "connection_manager should be an external") st
      | got binding ↦ elim (n.get_value_external node_connection) [
        | failed f ↦ throwing (type_error "connection should be an external") st
        | got connection ↦
            if api.release_connection binding connection then st else throwing last_error st
      ]
    ]
    | _ ↦ throwing (error "http_connection_manager_release takes exactly 2 arguments") st
  ]
