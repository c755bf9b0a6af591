-- ===== src/HttpConnection/Options.antt =====
-- The options of a connection, as aws_napi_http_connection_new reads them.
use aws_crt_nodejs.Base.{ℕ, ◌%◌, Option, List}
use aws_crt_nodejs.Napi.{Napi, Memory, error, type_error}
use aws_crt_nodejs.Arguments.{Argument, read, ◌>>=◌, expect, optional}

-- struct aws_http_client_connection_options, as far as the arguments decide it; the options of the
-- proxy are named by their binding, and `none` as bootstrap is the default one
pub record ConnectionOptions (n : Napi) : Type 0 where
  pub bootstrap : Option n.Pointer
  pub host_name : List ℕ
  pub port : ℕ
  pub socket_options : n.Pointer
  pub tls_options : Option n.Pointer
  pub proxy_options : Option n.Pointer

module _ (n : Napi) (m : Memory) where
  -- the arguments from the port to the proxy options; the port is cast to a uint16_t
  unfoldable pub connection_options :
      Option n.Pointer → List ℕ → (port socket tls proxy : n.Value) → Argument (ConnectionOptions n)
  unfolding expect optional
  connection_options bootstrap host_name node_port socket tls proxy = do
    port ← expect (type_error "port must be a Number") (n.get_value_uint32 node_port)
    socket_options ←
        expect (error "Unable to extract socket_options from external")
          (n.get_value_external socket)
    tls_opts ←
        optional n m (error "Failed to extract tls_ctx from external") n.get_value_external tls
    proxy_opts ←
        optional n m (error "Failed to extract tls_ctx from external") n.get_value_external proxy
    read (record {
      bootstrap = bootstrap;
      host_name = host_name;
      port = port % 0x1_0000;
      socket_options = socket_options;
      tls_options = tls_opts;
      proxy_options = proxy_opts;
    })
