-- ===== src/HttpManager/Making.antt =====
-- The steps of a call that makes a connection manager: what they leave behind.
use aws_crt_nodejs.Base.{
  ℕ, ◌+◌, ◌≤◌, ◌≡◌, refl, sym, ap, ◌∙◌, ◌⊎◌, inl, inr, Option, none, some, List, [], ◌∷◌, ◌++◌,
  arith, Option-cases, String,
}
use aws_crt_nodejs.Napi.{Reply, got, failed, Reply-cases, Napi, Memory, Throw, type_error}
use aws_crt_nodejs.Threadsafe.Balance.{with_callback, optional_function-cases}
use aws_crt_nodejs.Arguments.{Argument, Argument-cases, optional, read, refused, ◌>>=◌, expect}
use aws_crt_nodejs.HttpManager.{
  ManagerApi, HttpConnectionManagerBinding, Managing, Made, external_failed, make_external,
  manager_release, make_manager, make_binding,
}
use aws_crt_nodejs.HttpManager.Options.{ManagerOptions, manager_options, read_port, check_port}

module _ (n : Napi) (m : Memory) (api : ManagerApi n) where
  -- How a call ends that had `s` when it allocated the binding, for a host with these bytes.
  pub record Ends (s : Managing m) (host : List ℕ) (r : Made n m api) : Type 0 where
    pub same_store : r.1.natives.world.store ≡ s.natives.world.store
    pub same_structs : r.1.natives.structs ≡ s.natives.structs
    pub function : Option ℕ
    pub references_held : r.1.natives.references ≡ with_callback function s.natives.references
    pub result :
        ((r.0 ≡ none)
          × (r.1.managers ≡ s.managers)
          × (r.1.node_references ≡ s.node_references)
          × ((r.1.shutdowns ≡ s.shutdowns) ⊎ (r.1.shutdowns ≡ s.shutdowns ++ function ∷ [])))
        ⊎ ((binding : HttpConnectionManagerBinding n) × (options : ManagerOptions n) × (r.0
              ≡ some (binding, options))
            × (binding.on_shutdown ≡ function)
            × (options.host ≡ host)
            × (options.port ≤ 65535)
            × (r.1.managers ≡ s.managers + 1)
            × (r.1.node_references ≡ binding.node_external ∷ s.node_references)
            × (r.1.shutdowns ≡ s.shutdowns))

  -- a manager is given back where its external cannot be made
  make_manager-Ends :
      (s : Managing m) (f : Option ℕ) (options : ManagerOptions n)
      → options.port ≤ 65535
      → Ends s options.host (
          make_manager n m api f options (record s {
            natives = record s.natives { references = with_callback f s.natives.references };
          }))
  unfolding make_manager make_external external_failed manager_release
  make_manager-Ends s f options small = elim (Option-cases (api.manager_new options)) [
    | inl e ↦
        rw (e, make_manager)
          (record {
            same_store = refl;
            same_structs = refl;
            function = f;
            references_held = refl;
            result = inl (refl, refl, refl, inl refl);
          })
    | inr (p, e) ↦ elim (Reply-cases (api.create_external (some p))) [
      | inr (x, e') ↦
          rw (e, make_manager, e', make_external)
            (record {
              same_store = refl;
              same_structs = refl;
              function = f;
              references_held = refl;
              result = inl (refl, omega arith, refl, inr refl);
            })
      | inl (v, e') ↦ elim (Reply-cases (api.create_reference v)) [
        | inr (x, e'') ↦
            rw (e, make_manager, e', make_external, e'')
              (record {
                same_store = refl;
                same_structs = refl;
                function = f;
                references_held = refl;
                result = inl (refl, omega arith, refl, inr refl);
              })
        | inl (ref, e'') ↦
            rw (e, make_manager, e', make_external, e'')
              (record {
                same_store = refl;
                same_structs = refl;
                function = f;
                references_held = refl;
                result = inr (_, options, refl, refl, refl, small, refl, refl, refl);
              })
      ]
    ]
  ]

-- the options are those of this host, with a port that fits a uint16_t
data OfHost (n : Napi) (host : List ℕ) : Argument (ManagerOptions n) → Type 0 where
  fits :
      (options : ManagerOptions n)
      → options.host ≡ host
      → options.port ≤ 65535
      → OfHost n host (read options)
  none_read : (t : Throw) → OfHost n host (refused t)

OfHost-bind :
    (n : Napi) (host : List ℕ) {A : Type 0} (a : Argument A) (k : A → Argument (ManagerOptions n))
    → ((x : A) → a ≡ read x → OfHost n host (k x))
    → OfHost n host (a >>= k)
OfHost-bind n host (read x) k h = h x refl
OfHost-bind n host (refused t) k h = none_read t

abbrev value_or : {A : Type 0} → A → Argument A → A
value_or a (read x) = x
value_or a (refused t) = a

OfHost-read :
    (n : Napi) (host : List ℕ) (a : Argument (ManagerOptions n)) (options : ManagerOptions n)
    → a ≡ read options
    → OfHost n host a
    → (options.host ≡ host) × (options.port ≤ 65535)
OfHost-read n host a options e (fits o h p) =
    let same : o ≡ options = ap (value_or o) e in
    (sym (ap (λ x. x.host) same) ∙ h, omega (arith, p, ap (λ x. x.port) same))
OfHost-read n host a options e (none_read t) = cc

check_port-small : (k p : ℕ) → check_port k ≡ read p → p ≤ 65535
unfolding check_port
check_port-small k p e = ground arith

module _ (n : Napi) (m : Memory) where
  read_port-small : (v : n.Value) (p : ℕ) → read_port n m v ≡ read p → p ≤ 65535
  unfolding read_port expect
  read_port-small v p e = go (n.get_value_uint32 v) e
    where
      go :
          (r : Reply ℕ)
          → (expect (type_error "port must be a number between 0 and 65535") r >>= check_port)
            ≡ read p
          → p ≤ 65535
      go (got k) e = check_port-small k p e
      go (failed f) e = cc

  manager_options-OfHost :
      (bootstrap : Option n.Pointer) (host : List ℕ)
      (port max_conns window_size socket tls proxy : n.Value)
      → OfHost n host
          (manager_options n m bootstrap host port max_conns window_size socket tls proxy)
  unfolding manager_options
  manager_options-OfHost bootstrap host port max_conns window_size socket tls proxy =
      let bad : String = "tls_opts must be undefined or a valid TlsConnectionOptions" in
      OfHost-bind n host (read_port n m port) _ λ p e.
        OfHost-bind n host
          (expect (type_error "max_connections must be a number") (n.get_value_uint32 max_conns)) _
          λ x1 e1.
            OfHost-bind n host
              (expect (type_error "initial_window_size must be a number")
                (n.get_value_uint32 window_size))
              _
              λ x2 e2.
                OfHost-bind n host
                  (optional n m
                    (type_error "socket_options must be undefined or a valid SocketOptions")
                    n.get_value_external socket)
                  _
                  λ x3 e3.
                    OfHost-bind n host (optional n m (type_error bad) n.get_value_external tls) _
                      λ x4 e4.
                        OfHost-bind n host
                          (optional n m (type_error bad) n.get_value_external proxy)
                          (λ x5. read (record {
                            bootstrap = bootstrap;
                            host = host;
                            port = p;
                            max_connections = x1;
                            initial_window_size = x2;
                            socket_options = x3;
                            tls_connection_options = x4;
                            proxy_options = x5;
                          }))
                          λ x5 e5. fits _ refl (read_port-small port p e)

module _ (n : Napi) (m : Memory) (api : ManagerApi n) where
  pub make_binding-Ends :
      (s : Managing m) (bootstrap : Option n.Pointer) (host : List ℕ)
      (port max_conns window_size socket tls proxy on_shutdown : n.Value)
      → Ends n m api s host (
          make_binding n m api bootstrap host port max_conns window_size socket tls proxy
            on_shutdown s)
  unfolding make_binding
  make_binding-Ends s bootstrap host port max_conns window_size socket tls proxy on_shutdown =
      let good =
        manager_options-OfHost n m bootstrap host port max_conns window_size socket tls proxy in
      elim (Argument-cases
        (manager_options n m bootstrap host port max_conns window_size socket tls proxy)) [
          | inr (t, e) ↦
              rw (e, make_binding)
                (record {
                  same_store = refl;
                  same_structs = refl;
                  function = none;
                  references_held = refl;
                  result = inl (refl, refl, refl, inl refl);
                })
          | inl (options, e) ↦
              let of_host : (options.host ≡ host) × (options.port ≤ 65535) =
                OfHost-read n host _ options e good in
              elim (optional_function-cases n m api.functions on_shutdown s.natives) [
                | inl e' ↦
                    rw (e, e', make_binding)
                      (record {
                        same_store = refl;
                        same_structs = refl;
                        function = none;
                        references_held = refl;
                        result = inl (refl, refl, refl, inl refl);
                      })
                | inr (f, e') ↦
                    rw (e, e', make_binding, ← of_host.0)
                      (make_manager-Ends n m api s f options of_host.1)
              ]
        ]
