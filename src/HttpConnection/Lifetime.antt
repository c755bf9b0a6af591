-- ===== src/HttpConnection/Lifetime.antt =====
-- The functions of an HTTP connection, from the call that makes it to its last callback.
use aws_crt_nodejs.Base.{
  ℕ, ◌⊎◌, ◌+◌, ◌≡◌, refl, sym, subst, true, false, Option, none, some, List, [], ◌∷◌, ◌==◌,
}
use aws_crt_nodejs.Napi.{Reply, Napi, Memory, World, done}
use aws_crt_nodejs.Ownership.{SameLive}
use aws_crt_nodejs.Threadsafe.{Natives}
use aws_crt_nodejs.Threadsafe.Balance.{with_callback}
use aws_crt_nodejs.HttpConnection.{
  ConnectionLaws, ConnectionApi, HttpConnectionBinding, HttpConnection, Told, setup, shutdown,
  http_connection_new, on_connection_setup, on_connection_setup_call, on_connection_shutdown,
  on_connection_shutdown_call,
}
use aws_crt_nodejs.HttpConnection.Options.{ConnectionOptions}
use aws_crt_nodejs.HttpConnection.Made.{Taken, IfTaken, http_connection_new-IfTaken}
use aws_crt_nodejs.HttpConnection.Calls.{conn, queue_call-done, setup_call-fails}

module _ (n : Napi) (m : Memory) where
  -- the connection as it stands when the client has taken it
  abbrev pub begun : HttpConnectionBinding n → Natives m → List ℕ → HttpConnection n m
  begun binding st node_references = record {
    binding = binding;
    natives = st;
    node_references = node_references;
    told = [];
  }

  taken-conn :
      (st st' : Natives m) (binding : HttpConnectionBinding n) (refs : List ℕ)
      → (t : Taken n m st binding st') → refs ≡ binding.node_external ∷ []
      → begun binding st' refs
        ≡ conn n m binding.connection binding.node_external t.setup_function binding.on_shutdown
            st'.world
            (with_callback binding.on_shutdown (t.setup_function ∷ st.references))
            (st.structs + 1)
            []
  taken-conn st st' binding refs t e = λ i. record {
    binding = record {
      connection = binding.connection;
      node_external = binding.node_external;
      on_setup = t.has_setup i;
      on_shutdown = binding.on_shutdown;
    };
    natives = record {
      world = st'.world;
      references = t.references_held i;
      structs = t.struct_held i;
    };
    node_references = e i;
    told = [];
  }

  -- What is left at the end: the struct of the binding and the reference to its external, and no block
  -- or threadsafe function that was not there before.
  pub record Ended (st : Natives m) (c : HttpConnection n m) (told : List Told) : Type 0 where
    pub all_told : c.told ≡ told
    pub same_references : c.natives.references ≡ st.references
    pub binding_left : c.natives.structs ≡ st.structs + 1
    pub same_live : SameLive m st.world.store c.natives.world.store
    pub reference_left : c.node_references ≡ c.binding.node_external ∷ []

module _ (n : Napi) (m : Memory) (api : ConnectionApi n) (laws : ConnectionLaws n m api) where
  taken :
      (info : Reply (List n.Value)) (st st' : Natives m) (binding : HttpConnectionBinding n)
      (options : ConnectionOptions n) (refs : List ℕ)
      → http_connection_new n m api info st ≡ done (some (binding, options), st', refs)
      → Taken n m st binding st' × (refs ≡ binding.node_external ∷ [])
  taken info st st' binding options refs e =
      subst (IfTaken n m st) e (http_connection_new-IfTaken n m api st info)

  -- What the failing setup does to a connection.
  abbrev Fails : Natives m → ℕ → HttpConnection n m → Type 0
  Fails st error_code c0 =
      (c c' : HttpConnection n m) × (on_connection_setup n m api none error_code c0
        ≡ done (some error_code, c))
      × (on_connection_setup_call n m api true error_code c ≡ done c')
      × Ended n m st c' (setup error_code ∷ [])

  Fails-conn :
      (old : Option n.Pointer) (ref f error_code : ℕ) (g : Option ℕ) (w : World m) (st : Natives m)
      → SameLive m st.world.store w.store
      → (error_code == 0) ≡ false
      → Fails st error_code
          (conn n m old ref f g w (with_callback g (f ∷ st.references)) (st.structs + 1) [])
  unfolding on_connection_setup
  Fails-conn old ref f error_code g w st same e = (
    conn n m none ref f g w (f ∷ with_callback g (f ∷ st.references)) (st.structs + 1 + 1) [],
    conn n m none ref f g w st.references (st.structs + 1) (setup error_code ∷ []),
    queue_call-done n m api laws f error_code _,
    setup_call-fails n m api laws none ref f error_code g w st.references (st.structs + 1) [] e,
    record {
      all_told = refl;
      same_references = refl;
      binding_left = refl;
      same_live = same;
      reference_left = refl;
    },
  )

  -- What setup and the later shutdown do to a connection.
  abbrev Closes : Natives m → n.Pointer → ℕ → HttpConnection n m → Type 0
  Closes st p error_code c0 =
      (c c' : HttpConnection n m) × (on_connection_setup n m api (some p) 0 c0 ≡ done (some 0, c))
      × (on_connection_setup_call n m api true 0 c ≡ done c')
      × (((d : HttpConnection n m) × (on_connection_shutdown n m api (some p) error_code c'
              ≡ done (none, d))
            × Ended n m st d (setup 0 ∷ []))
          ⊎ ((d d' : HttpConnection n m) × (on_connection_shutdown n m api (some p) error_code c'
                ≡ done (some error_code, d))
              × (on_connection_shutdown_call n m api true error_code d ≡ done d')
              × Ended n m st d' (setup 0 ∷ shutdown error_code ∷ [])))

  -- A connection that the client has taken and that fails to be set up, with a code other than 0:
  -- JavaScript is told once, by the function for setup, and afterwards both functions have been given
  -- back, and of what native code held since the call only the struct of the binding and the
  -- reference to its external are left. The memory of the host's native string is not counted.
  -- The laws of `ConnectionLaws` hold.
  pub on_connection_setup-fails :
      (info : Reply (List n.Value)) (st st' : Natives m) (binding : HttpConnectionBinding n)
      (options : ConnectionOptions n) (refs : List ℕ) (error_code : ℕ)
      → http_connection_new n m api info st ≡ done (some (binding, options), st', refs)
      → (error_code == 0) ≡ false
      → (c c' : HttpConnection n m) × (on_connection_setup n m api none error_code
            (begun n m binding st' refs)
          ≡ done (some error_code, c))
        × (on_connection_setup_call n m api true error_code c ≡ done c')
        × Ended n m st c' (setup error_code ∷ [])
  on_connection_setup-fails info st st' binding options refs error_code made e =
      let (t, is_ref) = taken info st st' binding options refs made in
      subst (Fails st error_code) (sym (taken-conn n m st st' binding refs t is_ref)) (
        Fails-conn binding.connection binding.node_external t.setup_function error_code
          binding.on_shutdown st'.world st t.same_live e)
