-- ===== src/HttpStream.antt =====
-- source/http_stream.c: an HTTP stream's callbacks. The client calls them on its own thread; they
-- queue calls of the JavaScript functions, which the Node thread runs. Here: the state, the body and
-- the end of a stream.
pub mod Schedule
pub mod Calls
pub mod Order
pub mod End
use aws_crt_nodejs.Base.{
  ℕ, ◌+◌, ◌-◌, ◌%◌, ◌≡◌, Bool, true, false, Option, none, some, List, [], ◌∷◌, ◌++◌, ◌==◌, length,
  if◌then◌else◌,
}
use aws_crt_nodejs.Napi.{
  Napi, Memory, Outcome, done, aborted, ◌>>=◌, OpResult, op_success, op_err, size_mod,
}
use aws_crt_nodejs.Ownership.{Holds}
use aws_crt_nodejs.ByteBuf.{ByteBuf, byte_buf_clean_up}
use aws_crt_nodejs.ByteBuf.Balance.{blocks}
use aws_crt_nodejs.Threadsafe.{
  Natives, FunctionApi, FunctionLaws, calloc, mem_release, with_store, release_if_set,
  queue_function, queue_threadsafe_function, dispatch_function,
}

-- What the stream's callbacks use of Node and of aws-c-common.
pub record StreamApi (n : Napi) (m : Memory) : Type 0 where
  pub functions : FunctionApi n
  -- aws_byte_buf_init_copy_from_cursor
  pub init_copy : List ℕ → m.Store → Option (ByteBuf × m.Store)
  pub create_external_arraybuffer : ByteBuf → Bool
  pub create_int32 : ℕ → Bool
  pub delete_reference : ℕ → Bool

-- struct http_stream_binding, as far as the body and the end of a stream use it
pub record HttpStreamBinding : Type 0 where
  pub node_external : ℕ
  pub on_complete : Option ℕ
  pub on_response : Option ℕ
  pub on_body : Option ℕ
  pub pending_length : ℕ

-- What JavaScript is told.
pub data Told : Type 0 where
  body : List ℕ → Told
  complete : ℕ → Told

-- The binding, what native code holds, the arguments of the calls that are queued for each of the two
-- functions, oldest first, and what JavaScript has been told.
pub record HttpStream (m : Memory) : Type 0 where
  pub binding : HttpStreamBinding
  pub natives : Natives m
  pub body_calls : List ByteBuf
  pub complete_calls : List ℕ
  pub told : List Told

module _ {m : Memory} where
  -- aws_atomic_fetch_add and aws_atomic_fetch_sub on a size_t
  abbrev pub add_pending : ℕ → HttpStream m → HttpStream m
  add_pending k s = record s {
    binding = record s.binding { pending_length = (s.binding.pending_length + k) % size_mod };
  }

  abbrev pub sub_pending : ℕ → HttpStream m → HttpStream m
  sub_pending k s = record s {
    binding = record s.binding {
      pending_length = (s.binding.pending_length + (size_mod - k % size_mod)) % size_mod;
    };
  }

module _ (n : Napi) (m : Memory) (api : StreamApi n m) where
  -- the copy of the chunk; where it fails the buffer is NULL, and the assertion fails
  unfoldable pub copy_chunk : List ℕ → Natives m → Outcome (ByteBuf × Natives m)
  copy_chunk bytes st = elim (api.init_copy bytes st.world.store) [
    | none ↦ aborted
    | some (chunk, t) ↦ done (chunk, with_store t st)
  ]

  unfoldable pub queue_body : ByteBuf → HttpStream m → Outcome (OpResult × HttpStream m)
  unfolding queue_threadsafe_function
  queue_body chunk s = do
    (queued, st) ← queue_threadsafe_function n m api.functions s.binding.on_body s.natives
    done (
        if queued
        then (op_success, record s { natives = st; body_calls = s.body_calls ++ chunk ∷ [] })
        else (op_err, record s { natives = st }))

  -- with the field `on_body`
  unfoldable pub receive_body : Option ℕ → List ℕ → HttpStream m → Outcome (OpResult × HttpStream m)
  unfolding copy_chunk queue_body
  receive_body none bytes s = done (op_success, s)
  receive_body (some f) bytes s = do
    (chunk, st) ← copy_chunk bytes (calloc s.natives)
    queue_body chunk (record (add_pending (length bytes) s) { natives = st })

  unfoldable pub on_response_body : List ℕ → HttpStream m → Outcome (OpResult × HttpStream m)
  unfolding receive_body
  on_response_body bytes s = receive_body s.binding.on_body bytes s

  -- the finalizer of the ArrayBuffer that the chunk became
  unfoldable pub external_arraybuffer_finalizer : ByteBuf → Natives m → Natives m
  unfolding byte_buf_clean_up
  external_arraybuffer_finalizer chunk st =
      mem_release (with_store (byte_buf_clean_up n m chunk st.world.store) st)

  -- the call into JavaScript; the field `on_body` is the function that was queued
  unfoldable pub dispatch_body : Option ℕ → ByteBuf → HttpStream m → Outcome (HttpStream m)
  unfolding dispatch_function
  dispatch_body none chunk s = aborted
  dispatch_body (some f) chunk s = do
    st ← dispatch_function n m api.functions f s.natives
    done (record s { natives = st; told = s.told ++ body chunk.contents ∷ [] })

  -- `has_env`: `env` is not NULL
  unfoldable pub on_body_call : (has_env : Bool) → ByteBuf → HttpStream m → Outcome (HttpStream m)
  unfolding dispatch_body
  on_body_call false chunk s = done (sub_pending chunk.len s)
  on_body_call true chunk s =
      if api.create_external_arraybuffer chunk
      then dispatch_body s.binding.on_body chunk (sub_pending chunk.len s)
      else aborted

  -- aws_napi_queue_threadsafe_function of `on_complete`
  unfoldable pub queue_complete : ℕ → HttpStream m → Outcome (HttpStream m)
  unfolding queue_function
  queue_complete error_code s = do
    st ← queue_function n m api.functions s.binding.on_complete s.natives
    done (record s { natives = st; complete_calls = s.complete_calls ++ error_code ∷ [] })

  unfoldable pub on_complete : ℕ → HttpStream m → Outcome (HttpStream m)
  unfolding queue_complete
  on_complete error_code s = queue_complete error_code (record s { natives = calloc s.natives })

  -- the branch for body calls that are still pending
  unfoldable pub requeue_complete : ℕ → HttpStream m → Outcome (HttpStream m)
  unfolding queue_complete release_if_set
  requeue_complete error_code s = do
    s' ← queue_complete error_code s
    st ← release_if_set n m api.functions s'.binding.on_complete s'.natives
    done (record s' { natives = st })

  -- the release of the three functions, of the external and of the arguments
  unfoldable pub end_stream : HttpStream m → Outcome (HttpStream m)
  unfolding release_if_set
  end_stream s = do
    a ← release_if_set n m api.functions s.binding.on_response s.natives
    b ← release_if_set n m api.functions s.binding.on_body a
    c ← release_if_set n m api.functions s.binding.on_complete b
    (if api.delete_reference s.binding.node_external
        then done (record s { natives = mem_release c })
        else aborted)

  -- with the field `on_complete`
  unfoldable pub complete_stream : Option ℕ → ℕ → HttpStream m → Outcome (HttpStream m)
  unfolding dispatch_function end_stream
  complete_stream none error_code s = aborted
  complete_stream (some f) error_code s = do
    st ← dispatch_function n m api.functions f s.natives
    end_stream (record s { natives = st; told = s.told ++ complete error_code ∷ [] })

  -- Without an environment napi_create_int32 fails.
  unfoldable pub on_complete_call : (has_env : Bool) → ℕ → HttpStream m → Outcome (HttpStream m)
  unfolding requeue_complete complete_stream
  on_complete_call has_env error_code s =
      if s.binding.pending_length == 0
      then elim has_env [
        | false ↦ aborted
        | true ↦
            if api.create_int32 error_code
            then complete_stream s.binding.on_complete error_code s
            else aborted
      ]
      else requeue_complete error_code s

  -- Node does as it should, and a copied chunk has the bytes of the original.
  pub record StreamLaws : Type 0 where
    pub functions : FunctionLaws n m api.functions
    pub copies :
        (bytes : List ℕ) (s : m.Store)
        → (chunk : ByteBuf) × (t : m.Store) × (api.init_copy bytes s ≡ some (chunk, t))
          × (chunk.contents ≡ bytes)
          × (chunk.len ≡ length bytes)
          × Holds m s t (blocks chunk)
    pub makes_arraybuffer : (chunk : ByteBuf) → api.create_external_arraybuffer chunk ≡ true
    pub makes_int32 : (k : ℕ) → api.create_int32 k ≡ true
    pub deletes : (ref : ℕ) → api.delete_reference ref ≡ true
