-- ===== src/Tests/HttpExamples.antt =====
-- A connection of source/http_connection.c, and a connection manager of
-- source/http_connection_manager.c, on concrete arguments.
use aws_crt_nodejs.Base.{ℕ, ◌+◌, ◌≤◌, ◌≡◌, refl, ◌⊎◌, true, Option, none, some, List, [], ◌∷◌, ◌++◌}
use aws_crt_nodejs.Napi.{ok, got, done}
use aws_crt_nodejs.ByteBuf.{
  ByteBuf, zeroed, owned, byte_buf_init_from_napi, init_from_string, fill_string,
  string_new_from_napi, is_null_or_undefined, byte_buf_clean_up,
}
use aws_crt_nodejs.Ownership.{SameLive}
use aws_crt_nodejs.Arguments.{expect, optional, external_or_null}
use aws_crt_nodejs.Threadsafe.{Natives, optional_function}
use aws_crt_nodejs.Threadsafe.Balance.{with_callback}
use aws_crt_nodejs.HttpConnection.{
  ConnectionApi, ConnectionLaws, HttpConnectionBinding, HttpConnection, setup, connect,
  connect_host, connection_functions, http_connection_new, on_connection_setup,
  on_connection_setup_call,
}
use aws_crt_nodejs.HttpConnection.Options.{ConnectionOptions, connection_options}
use aws_crt_nodejs.HttpConnection.Lifetime.{begun, Ended, on_connection_setup-fails}
use aws_crt_nodejs.HttpManager.{
  ManagerApi, Managing, HttpConnectionManagerBinding, http_connection_manager_new,
}
use aws_crt_nodejs.HttpManager.Options.{ManagerOptions}
use aws_crt_nodejs.HttpManager.Acquire.{
  ConnectionAcquiredArgs, http_connection_manager_acquire, manager_acquired, on_acquired_call,
  from_manager_finalize,
}
use aws_crt_nodejs.HttpManager.Acquisition.{ManagerLaws, http_connection_manager_acquire-keeps}
use aws_crt_nodejs.HttpManager.Refusal.{shut_down, http_connection_manager_new-keeps}
use aws_crt_nodejs.Tests.Samples.{
  Sample, missing, amount, text, instance_of, handle, sample_napi, sample_memory,
}
use aws_crt_nodejs.Tests.Client.{functions, function_laws, nothing}

abbrev connection_api : ConnectionApi sample_napi
connection_api = record {
  functions = functions;
  create_external = got (handle 1);
  create_reference = λ v. got 1;
  get_reference_value = λ ref. true;
  create_uint32 = λ k. true;
  client_connect = λ options. true;
}

connection_laws : ConnectionLaws sample_napi sample_memory connection_api
connection_laws = record {
  functions = function_laws;
  gets_reference = λ ref. refl;
  makes_uint32 = λ k. refl;
}

-- the default bootstrap, functions 1 and 2, host "ab", port 80 and no TLS
abbrev arguments : List Sample
arguments =
    missing
    ∷ instance_of 1
    ∷ instance_of 2
    ∷ text (97 ∷ 98 ∷ [])
    ∷ amount 80
    ∷ handle 4
    ∷ missing
    ∷ missing
    ∷ []

abbrev binding : HttpConnectionBinding sample_napi
binding = record { connection = none; node_external = 1; on_setup = some 1; on_shutdown = some 2 }

abbrev options : ConnectionOptions sample_napi
options = record {
  bootstrap = none;
  host_name = 97 ∷ 98 ∷ [];
  port = 80;
  socket_options = 4;
  tls_options = none;
  proxy_options = none;
}

-- both functions are held, and the binding
abbrev connected : Natives sample_memory
connected = record nothing { references = 2 ∷ 1 ∷ []; structs = 1 }

made :
    http_connection_new sample_napi sample_memory connection_api (got arguments) nothing
    ≡ done (some (binding, options), connected, 1 ∷ [])
unfolding http_connection_new connection_functions external_or_null optional_function connect_host
    connection_options expect optional connect is_null_or_undefined string_new_from_napi
    byte_buf_init_from_napi init_from_string fill_string byte_buf_clean_up
made = refl

on_connection_setup-fails_example :
    (c c' : HttpConnection sample_napi sample_memory) × (on_connection_setup sample_napi
        sample_memory connection_api none 7
        (begun sample_napi sample_memory binding connected (1 ∷ []))
      ≡ done (some 7, c))
    × (on_connection_setup_call sample_napi sample_memory connection_api true 7 c ≡ done c')
    × Ended sample_napi sample_memory nothing c' (setup 7 ∷ [])
on_connection_setup-fails_example =
    on_connection_setup-fails sample_napi sample_memory connection_api connection_laws
      (got arguments) nothing connected binding options (1 ∷ []) 7 made refl

abbrev manager_api : ManagerApi sample_napi
manager_api = record {
  functions = functions;
  manager_new = λ options. some 6;
  release_connection = λ manager connection. true;
  create_external = λ connection. got (handle 8);
  create_reference = λ v. got 1;
  create_int32 = λ k. true;
  unref_threadsafe_function = λ f. true;
}

abbrev manager_laws : ManagerLaws sample_napi sample_memory manager_api
manager_laws = record {
  functions = function_laws;
  external_of = λ connection. handle 8;
  makes_external = λ connection. refl;
  makes_int32 = λ k. refl;
  unreferences = λ f. refl;
}

http_connection_manager_acquire-keeps_example :
    ((st' : Natives sample_memory) × (http_connection_manager_acquire sample_napi sample_memory
          manager_api
          (got (handle 6 ∷ instance_of 2 ∷ []))
          nothing
        ≡ (none, st'))
      × (st'.references ≡ nothing.references)
      × (st'.structs ≡ nothing.structs))
    ⊎ ((args args' : ConnectionAcquiredArgs sample_napi) × (st' queued after : Natives
          sample_memory)
        × (http_connection_manager_acquire sample_napi sample_memory manager_api
              (got (handle 6 ∷ instance_of 2 ∷ []))
              nothing
            ≡ (some args, st'))
        × (manager_acquired sample_napi sample_memory manager_api (some 5) 0 args st'
            ≡ done (args', queued))
        × (on_acquired_call sample_napi sample_memory manager_api true args' queued
            ≡ done
                (some (record { external = manager_laws.external_of (some 5); code = 0 }), after))
        × (after.references ≡ args.on_acquired ∷ nothing.references)
        × ((from_manager_finalize sample_napi sample_memory manager_api after).structs
            ≡ nothing.structs))
http_connection_manager_acquire-keeps_example =
    http_connection_manager_acquire-keeps sample_napi sample_memory manager_api manager_laws
      (got (handle 6 ∷ instance_of 2 ∷ [])) nothing (some 5) 0

abbrev unmanaged : Managing sample_memory
unmanaged = record { natives = nothing; managers = 0; node_references = []; shutdowns = [] }

abbrev host_buf : ByteBuf
host_buf = record { buffer = owned 1; contents = 97 ∷ 98 ∷ []; len = 2; capacity = 3 }

host_converts :
    byte_buf_init_from_napi sample_napi sample_memory zeroed
      (text (97 ∷ 98 ∷ []))
      unmanaged.natives.world.store
    ≡ ((ok, host_buf), 1 ∷ [])
unfolding byte_buf_init_from_napi init_from_string fill_string
host_converts = refl

http_connection_manager_new-keeps_example :
    let r =
      http_connection_manager_new sample_napi sample_memory manager_api
        (got (
          missing
          ∷ text (97 ∷ 98 ∷ [])
          ∷ amount 80
          ∷ amount 4
          ∷ amount 1024
          ∷ missing
          ∷ missing
          ∷ missing
          ∷ instance_of 3
          ∷ []))
        unmanaged in
    SameLive sample_memory unmanaged.natives.world.store r.1.natives.world.store
    × (r.1.natives.structs ≡ unmanaged.natives.structs + 1)
    × (function : Option ℕ) × (r.1.natives.references
        ≡ with_callback function unmanaged.natives.references)
    × (((r.0 ≡ none)
          × (r.1.managers ≡ unmanaged.managers)
          × (r.1.node_references ≡ unmanaged.node_references)
          × ((r.1.shutdowns ≡ unmanaged.shutdowns)
              ⊎ ((r.1.shutdowns ≡ unmanaged.shutdowns ++ function ∷ [])
                  × (after : Natives sample_memory) × (shut_down sample_napi sample_memory
                        manager_api function r.1.natives
                      ≡ done after)
                  × (after.references ≡ unmanaged.natives.references)
                  × (after.structs ≡ r.1.natives.structs))))
        ⊎ ((made_binding : HttpConnectionManagerBinding sample_napi)
            × (made_options : ManagerOptions sample_napi) × (r.0
                ≡ some (made_binding, made_options))
            × (made_binding.on_shutdown ≡ function)
            × (made_options.host ≡ host_buf.contents)
            × (made_options.port ≤ 65535)
            × (r.1.managers ≡ unmanaged.managers + 1)
            × (r.1.node_references ≡ made_binding.node_external ∷ unmanaged.node_references)
            × (r.1.shutdowns ≡ unmanaged.shutdowns)))
http_connection_manager_new-keeps_example =
    http_connection_manager_new-keeps sample_napi sample_memory manager_api function_laws unmanaged
      missing (text (97 ∷ 98 ∷ [])) (amount 80) (amount 4) (amount 1024) missing missing missing
      (instance_of 3) host_buf (1 ∷ []) host_converts
