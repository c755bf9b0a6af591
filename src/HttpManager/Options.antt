-- ===== src/HttpManager/Options.antt =====
-- The options of a connection manager, as aws_napi_http_connection_manager_new reads them.
use aws_crt_nodejs.Base.{ℕ, Option, List, leb, if◌then◌else◌}
use aws_crt_nodejs.Napi.{Napi, Memory, type_error}
use aws_crt_nodejs.Arguments.{Argument, read, refused, ◌>>=◌, expect, optional}

-- struct aws_http_connection_manager_options, as far as the arguments decide it; the options of the
-- proxy are named by their binding, and `none` as bootstrap is the default one
pub record ManagerOptions (n : Napi) : Type 0 where
  pub bootstrap : Option n.Pointer
  pub host : List ℕ
  pub port : ℕ
  pub max_connections : ℕ
  pub initial_window_size : ℕ
  pub socket_options : Option n.Pointer
  pub tls_connection_options : Option n.Pointer
  pub proxy_options : Option n.Pointer

-- the port, which fits a uint16_t
unfoldable pub check_port : ℕ → Argument ℕ
check_port port =
    if leb port 65535
    then read port
    else refused (type_error "port must be a number between 0 and 65535")

module _ (n : Napi) (m : Memory) where
  unfoldable pub read_port : n.Value → Argument ℕ
  unfolding check_port expect
  read_port v =
      expect (type_error "port must be a number between 0 and 65535") (n.get_value_uint32 v)
      >>= check_port

  -- the arguments from the port to the proxy options
  unfoldable pub manager_options :
      Option n.Pointer
      → List ℕ
      → (port max_conns window_size socket tls proxy : n.Value) → Argument (ManagerOptions n)
  unfolding read_port expect optional
  manager_options bootstrap host node_port max_conns node_window socket tls proxy = do
    port ← read_port node_port
    max_connections ←
        expect (type_error "max_connections must be a number") (n.get_value_uint32 max_conns)
    window_size ←
        expect (type_error "initial_window_size must be a number") (n.get_value_uint32 node_window)
    socket_options ←
        optional n m (type_error "socket_options must be undefined or a valid SocketOptions")
          n.get_value_external socket
    tls_opts ←
        optional n m (type_error "tls_opts must be undefined or a valid TlsConnectionOptions")
          n.get_value_external tls
    proxy_options ←
        optional n m (type_error "tls_opts must be undefined or a valid TlsConnectionOptions")
          n.get_value_external proxy
    read (record {
      bootstrap = bootstrap;
      host = host;
      port = port;
      max_connections = max_connections;
      initial_window_size = window_size;
      socket_options = socket_options;
      tls_connection_options = tls_opts;
      proxy_options = proxy_options;
    })
