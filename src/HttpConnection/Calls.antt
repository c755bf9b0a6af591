-- ===== src/HttpConnection/Calls.antt =====
-- The callbacks of a connection while Node runs: what is told, and what is given back.
use aws_crt_nodejs.Base.{
  ℕ, ◌+◌, ◌-◌, ◌≡◌, refl, true, false, Option, none, some, List, [], ◌∷◌, ◌++◌, ◌==◌, arith,
}
use aws_crt_nodejs.Napi.{Napi, Memory, World, done}
use aws_crt_nodejs.Threadsafe.{calloc, remove_one, release_if_set}
use aws_crt_nodejs.Threadsafe.Balance.{
  with_callback, remove_one-cons, queue_function-done, dispatch_function-done,
  release_function-done,
}
use aws_crt_nodejs.HttpConnection.{
  ConnectionLaws, ConnectionApi, HttpConnection, Told, setup, shutdown, dispatch_told, tell,
  queue_call, end_setup, on_connection_setup_call, end_shutdown, on_connection_shutdown_call,
}

one_less : (k : ℕ) → k + 1 - 1 ≡ k
one_less k = omega arith

pub remove_one-second : (f g : ℕ) (fs : List ℕ) → remove_one f (g ∷ f ∷ fs) ≡ g ∷ fs
remove_one-second f g fs = ground (arith, remove_one-cons f fs)

module _ (n : Napi) (m : Memory) where
  -- A connection with the reference to its external and its two functions: `setup_` is the one for setup.
  abbrev pub conn :
      (connection : Option n.Pointer) (ref setup_ : ℕ) (shutdown_ : Option ℕ) (w : World m)
      (references : List ℕ) (structs : ℕ) (told : List Told)
      → HttpConnection n m
  conn connection ref setup_ shutdown_ w references structs told = record {
    binding = record {
      connection = connection;
      node_external = ref;
      on_setup = some setup_;
      on_shutdown = shutdown_;
    };
    natives = record { world = w; references = references; structs = structs };
    node_references = ref ∷ [];
    told = told;
  }

module _ (n : Napi) (m : Memory) (api : ConnectionApi n) (laws : ConnectionLaws n m api) where
  pub queue_call-done :
      (f error_code : ℕ) (c : HttpConnection n m)
      → queue_call n m api (some f) error_code c
        ≡ done (
          some error_code,
          record c {
            natives = record (calloc c.natives) { references = f ∷ c.natives.references };
          },
        )
  unfolding queue_call
  queue_call-done f error_code c =
      rw (queue_function-done n m api.functions laws.functions f (calloc c.natives))

  tell-done :
      (f error_code : ℕ) (what : Told) (c : HttpConnection n m) (fs : List ℕ)
      → c.natives.references ≡ f ∷ fs
      → tell n m api (some f) what error_code c
        ≡ done (record c {
          natives = record c.natives { references = fs };
          told = c.told ++ what ∷ [];
        })
  unfolding tell dispatch_told
  tell-done f error_code what c fs e = rw (
    laws.gets_reference c.binding.node_external,
    laws.makes_uint32 error_code,
    dispatch_function-done n m api.functions laws.functions f c.natives fs e,
  )

  end_setup-fails :
      (p : Option n.Pointer) (ref f error_code : ℕ) (g : Option ℕ) (w : World m) (fs : List ℕ)
      (k : ℕ) (told : List Told)
      → (error_code == 0) ≡ false
      → end_setup n m api error_code (conn n m p ref f g w (with_callback g (f ∷ fs)) (k + 1) told)
        ≡ done (conn n m p ref f g w fs k told)
  unfolding end_setup release_if_set
  end_setup-fails p ref f error_code none w fs k told e = rw (
    release_function-done n m api.functions laws.functions f
        (record { world = w; references = f ∷ fs; structs = k + 1 }),
    e,
    remove_one-cons f fs,
    one_less k,
  )
  end_setup-fails p ref f error_code (some g) w fs k told e = rw (
    release_function-done n m api.functions laws.functions f
        (record { world = w; references = g ∷ f ∷ fs; structs = k + 1 }),
    e,
    remove_one-second f g fs,
    release_function-done n m api.functions laws.functions g
        (record { world = w; references = g ∷ fs; structs = k + 1 }),
    remove_one-cons g fs,
    one_less k,
  )

  end_setup-succeeds :
      (p : Option n.Pointer) (ref f : ℕ) (g : Option ℕ) (w : World m) (fs : List ℕ) (k : ℕ)
      (told : List Told)
      → end_setup n m api 0 (conn n m p ref f g w (with_callback g (f ∷ fs)) (k + 1) told)
        ≡ done (conn n m p ref f g w (with_callback g fs) k told)
  unfolding end_setup release_if_set
  end_setup-succeeds p ref f none w fs k told = rw (
    release_function-done n m api.functions laws.functions f
        (record { world = w; references = f ∷ fs; structs = k + 1 }),
    remove_one-cons f fs,
    one_less k,
  )
  end_setup-succeeds p ref f (some g) w fs k told = rw (
    release_function-done n m api.functions laws.functions f
        (record { world = w; references = g ∷ f ∷ fs; structs = k + 1 }),
    remove_one-second f g fs,
    one_less k,
  )

  end_shutdown-done :
      (p : Option n.Pointer) (ref f g : ℕ) (w : World m) (fs : List ℕ) (k : ℕ) (told : List Told)
      → end_shutdown n m api (conn n m p ref f (some g) w (g ∷ fs) (k + 1) told)
        ≡ done (conn n m p ref f (some g) w fs k told)
  unfolding end_shutdown release_if_set
  end_shutdown-done p ref f g w fs k told = rw (
    release_function-done n m api.functions laws.functions g
        (record { world = w; references = g ∷ fs; structs = k + 1 }),
    remove_one-cons g fs,
    one_less k,
  )

  pub setup_call-fails :
      (p : Option n.Pointer) (ref f error_code : ℕ) (g : Option ℕ) (w : World m) (fs : List ℕ)
      (k : ℕ) (told : List Told)
      → (error_code == 0) ≡ false
      → on_connection_setup_call n m api true error_code
          (conn n m p ref f g w (f ∷ with_callback g (f ∷ fs)) (k + 1) told)
        ≡ done (conn n m p ref f g w fs k (told ++ setup error_code ∷ []))
  unfolding on_connection_setup_call
  setup_call-fails p ref f error_code g w fs k told e =
      rw
        (tell-done f error_code (setup error_code)
          (conn n m p ref f g w (f ∷ with_callback g (f ∷ fs)) (k + 1) told)
          (with_callback g (f ∷ fs)) refl)
        (end_setup-fails p ref f error_code g w fs k (told ++ setup error_code ∷ []) e)

  pub setup_call-succeeds :
      (p : Option n.Pointer) (ref f : ℕ) (g : Option ℕ) (w : World m) (fs : List ℕ) (k : ℕ)
      (told : List Told)
      → on_connection_setup_call n m api true 0
          (conn n m p ref f g w (f ∷ with_callback g (f ∷ fs)) (k + 1) told)
        ≡ done (conn n m p ref f g w (with_callback g fs) k (told ++ setup 0 ∷ []))
  unfolding on_connection_setup_call
  setup_call-succeeds p ref f g w fs k told =
      rw
        (tell-done f 0 (setup 0) (conn n m p ref f g w (f ∷ with_callback g (f ∷ fs)) (k + 1) told)
          (with_callback g (f ∷ fs)) refl)
        (end_setup-succeeds p ref f g w fs k (told ++ setup 0 ∷ []))

  pub shutdown_call-done :
      (p : Option n.Pointer) (ref f error_code g : ℕ) (w : World m) (fs : List ℕ) (k : ℕ)
      (told : List Told)
      → on_connection_shutdown_call n m api true error_code
          (conn n m p ref f (some g) w (g ∷ g ∷ fs) (k + 1) told)
        ≡ done (conn n m p ref f (some g) w fs k (told ++ shutdown error_code ∷ []))
  unfolding on_connection_shutdown_call
  shutdown_call-done p ref f error_code g w fs k told =
      rw
        (tell-done g error_code (shutdown error_code)
          (conn n m p ref f (some g) w (g ∷ g ∷ fs) (k + 1) told) (g ∷ fs) refl)
        (end_shutdown-done p ref f g w fs k (told ++ shutdown error_code ∷ []))
