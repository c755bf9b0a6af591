-- ===== src/Logger.antt =====
-- source/logger.c: log messages from any thread, queued for the Node thread, which prints them with
-- process._rawDebug. Node's threadsafe function and the console are a parameter (`Console`).
pub mod Pool
pub mod Strip
pub mod Order
pub mod Drain
use aws_crt_nodejs.Base.{
  ℕ, ◌+◌, ◌-◌, ◌%◌, Bool, true, false, ◌&&◌, Option, none, some, List, [], ◌∷◌, ◌++◌, String,
  length, ltb, take, get_elem?, zero, suc,
}
use aws_crt_nodejs.Napi.{
  Status, ok, fail, closing, Reply, got, failed, Outcome, done, aborted, ◌>>=◌, size_mod, OpResult,
  op_success, op_err,
}
use aws_crt_nodejs.Logger.Pool.{
  Ring, ring_buffer_mem_acquire, ring_buffer_mem_release, ring_buffer_mem_calloc,
}

pub record Console : Type 1 where
  pub Node : Type 0
  pub Value : Type 0
  pub acquire_threadsafe_function : Node → Status × Node
  pub release_threadsafe_function : Node → Status × Node
  pub abort_threadsafe_function : Node → Status × Node
  pub call_threadsafe_function : Node → Status × Node
  pub get_global : Node → Reply Value
  pub get_named_property : Value → String → Node → Reply Value
  pub create_string_utf8 : List ℕ → Node → Reply Value × Node
  -- receiver, function, argument
  pub call_function : Value → Value → Value → Node → Status × Node

-- struct log_message: its block, that of the string, and the string's bytes
pub record LogMessage : Type 0 where
  pub node : ℕ
  pub message : ℕ
  pub bytes : List ℕ

-- struct aws_napi_logger_ctx
pub record LoggerCtx (api : Console) (r : Ring) : Type 0 where
  pub buffer : r.Store
  pub messages : List LogMessage
  -- `false` is NULL
  pub log_drain : Bool
  pub env : api.Node

-- the byte at `output->len - newlines - 1`, where `before` is the byte in front of the string
unfoldable pub last_byte : ℕ → List ℕ → ℕ → ℕ
last_byte before output newlines = elim (ltb newlines (length output)) [
  | true ↦ elim (get_elem? output (length output - newlines - 1)) [ none ↦ before | some c ↦ c ]
  | false ↦ before
]

-- The loop that counts the white space at the end; the fuel is more than the number of bytes.
unfoldable pub count_newlines : (isspace : ℕ → Bool) → ℕ → List ℕ → ℕ → ℕ → ℕ
unfolding last_byte
count_newlines isspace before output zero newlines = newlines
count_newlines isspace before output (suc fuel) newlines =
    elim (isspace (last_byte before output newlines) && ltb newlines (length output)) [
      | true ↦ count_newlines isspace before output fuel (newlines + 1)
      | false ↦ newlines
    ]

-- the bytes that are copied
unfoldable pub strip : (isspace : ℕ → Bool) → ℕ → List ℕ → List ℕ
unfolding count_newlines
strip isspace before output =
    take (length output - count_newlines isspace before output (suc (length output)) 0) output

module _ (api : Console) (r : Ring) where
  -- aws_string_new_from_array: a header of this size, the bytes and a terminator
  abbrev pub string_header : ℕ
  string_header = 24

  -- sizeof(struct log_message)
  abbrev pub message_size : ℕ
  message_size = 24

  -- the queueing of the message, once the function is pinned
  unfoldable pub queue_message : List ℕ → LoggerCtx api r → Outcome (OpResult × LoggerCtx api r)
  unfolding ring_buffer_mem_acquire ring_buffer_mem_calloc
  queue_message bytes ctx = do
    (message, s) ←
        ring_buffer_mem_acquire r ((string_header + length bytes + 1) % size_mod) ctx.buffer
    (node, t) ← ring_buffer_mem_calloc r 1 message_size s
    let msg : LogMessage = record { node = node; message = message; bytes = bytes }
    let (status, env) = api.call_threadsafe_function ctx.env
    elim status [
      | ok ↦
          done
            (op_success, record ctx { buffer = t; messages = ctx.messages ++ msg ∷ []; env = env })
      | fail f ↦ aborted
    ]

  unfoldable pub log_writer_write :
      (isspace : ℕ → Bool) → ℕ → List ℕ → LoggerCtx api r → Outcome (OpResult × LoggerCtx api r)
  unfolding strip queue_message
  log_writer_write isspace before output ctx = elim ctx.log_drain [
    | false ↦ done (op_success, ctx)
    | true ↦
        let (status, env) = api.acquire_threadsafe_function ctx.env in
        elim status [
          | ok ↦ queue_message (strip isspace before output) (record ctx { env = env })
          | fail closing ↦ done (op_success, record ctx { env = env })
          | fail _ ↦ done (op_err, record ctx { env = env })
        ]
  ]

  -- aws_linked_list_swap_contents with an empty list
  unfoldable pub take_messages : LoggerCtx api r → List LogMessage × LoggerCtx api r
  take_messages ctx = (ctx.messages, record ctx { messages = [] })

  -- aws_string_destroy and aws_mem_release
  unfoldable pub destroy_message : LogMessage → LoggerCtx api r → LoggerCtx api r
  unfolding ring_buffer_mem_release
  destroy_message msg ctx = record ctx {
    buffer = ring_buffer_mem_release r msg.node (ring_buffer_mem_release r msg.message ctx.buffer);
  }

  unfoldable pub destroy_messages : List LogMessage → LoggerCtx api r → LoggerCtx api r
  unfolding destroy_message
  destroy_messages [] ctx = ctx
  destroy_messages (msg ∷ msgs) ctx = destroy_messages msgs (destroy_message msg ctx)

  -- napi_call_function under AWS_NAPI_ENSURE, and the release of the message
  unfoldable pub after_print :
      LogMessage → LoggerCtx api r → Status × api.Node → Outcome (LoggerCtx api r)
  unfolding destroy_message
  after_print msg ctx (ok, env) = done (destroy_message msg (record ctx { env = env }))
  after_print msg ctx (fail f, env) = aborted

  -- napi_create_string_utf8 under AWS_NAPI_ENSURE, and the call with the string
  unfoldable pub call_log_fn :
      (process log_fn : api.Value)
      → LogMessage
      → LoggerCtx api r
      → Reply api.Value × api.Node
      → Outcome (LoggerCtx api r)
  unfolding after_print
  call_log_fn process log_fn msg ctx (got node_message, env) =
      after_print msg ctx (api.call_function process log_fn node_message env)
  call_log_fn process log_fn msg ctx (failed f, env) = aborted

  -- one round of the loop
  unfoldable pub print_message :
      (process log_fn : api.Value) → LogMessage → LoggerCtx api r → Outcome (LoggerCtx api r)
  unfolding call_log_fn
  print_message process log_fn msg ctx =
      call_log_fn process log_fn msg ctx (api.create_string_utf8 msg.bytes ctx.env)

  unfoldable pub print_messages :
      (process log_fn : api.Value) → List LogMessage → LoggerCtx api r → Outcome (LoggerCtx api r)
  unfolding print_message
  print_messages process log_fn [] ctx = done ctx
  print_messages process log_fn (msg ∷ msgs) ctx = do
    ctx' ← print_message process log_fn msg ctx
    print_messages process log_fn msgs ctx'

  -- `done:`
  unfoldable pub unpin : LoggerCtx api r → Outcome (LoggerCtx api r)
  unpin ctx =
      let (status, env) = api.release_threadsafe_function ctx.env in
      elim status [ ok ↦ done (record ctx { env = env }) | fail f ↦ aborted ]

  -- the part behind the test for an empty list; a failing lookup drops the messages
  unfoldable pub print_batch :
      (log_fn : api.Value) → List LogMessage → LoggerCtx api r → Outcome (LoggerCtx api r)
  unfolding print_messages
  print_batch log_fn msgs ctx = elim (api.get_global ctx.env) [
    | failed f ↦ done ctx
    | got node_global ↦ elim (api.get_named_property node_global "process" ctx.env) [
      | failed f ↦ done ctx
      | got process ↦ print_messages process log_fn msgs ctx
    ]
  ]

  -- what is done with the messages that were taken; `has_env`: `env` is not NULL
  unfoldable pub log_taken :
      (has_env : Bool)
      → (log_fn : api.Value) → List LogMessage
      → LoggerCtx api r
      → Outcome (LoggerCtx api r)
  unfolding destroy_messages print_batch unpin
  log_taken false log_fn msgs ctx = done (destroy_messages msgs ctx)
  log_taken true log_fn [] ctx = unpin ctx
  log_taken true log_fn (msg ∷ msgs) ctx = print_batch log_fn (msg ∷ msgs) ctx >>= unpin

  unfoldable pub threadsafe_log_call :
      (has_env : Bool) → (log_fn : api.Value) → LoggerCtx api r → Outcome (LoggerCtx api r)
  unfolding take_messages log_taken
  threadsafe_log_call has_env log_fn ctx =
      let (msgs, taken) = take_messages ctx in log_taken has_env log_fn msgs taken

  unfoldable pub threadsafe_log_finalize : LoggerCtx api r → Outcome (LoggerCtx api r)
  unfolding take_messages
  threadsafe_log_finalize ctx =
      let taken = (take_messages ctx).1 in
      let (status, env) = api.abort_threadsafe_function taken.env in
      elim status [ ok ↦ done (record taken { env = env; log_drain = false }) | fail f ↦ aborted ]
