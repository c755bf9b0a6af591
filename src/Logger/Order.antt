-- ===== src/Logger/Order.antt =====
-- Messages that are written on any thread while the Node thread prints others: they are printed in the
-- order in which they were queued.
use aws_crt_nodejs.Base.{
  ℕ, ◌+◌, ◌*◌, ◌%◌, length, ◌≡◌, refl, ap, subst, ◌∙◌, Bool, true, List, [], ◌∷◌, ◌++◌,
  append_assoc, append-nil, arith,
}
use aws_crt_nodejs.Napi.{ok, got, Outcome, done, ◌>>=◌, op_success, size_mod}
use aws_crt_nodejs.Logger.Pool.{
  Ring, RingLaws, Allocated, ring_buffer_mem_acquire-Allocated, ring_buffer_mem_release-Allocated,
  ring_buffer_mem_calloc,
}
use aws_crt_nodejs.Logger.Strip.{trim_end, strip-trim_end}
use aws_crt_nodejs.Logger.{
  Console, LoggerCtx, LogMessage, log_writer_write, queue_message, take_messages, destroy_message,
  print_message, call_log_fn, after_print, strip, string_header, message_size,
}

-- What the messages say.
abbrev pub texts : List LogMessage → List (List ℕ)
texts [] = []
texts (msg ∷ msgs) = msg.bytes ∷ texts msgs

-- The blocks of the messages, in the order in which they were taken.
abbrev pub allocated : List LogMessage → List ℕ
allocated [] = []
allocated (msg ∷ msgs) = msg.message ∷ msg.node ∷ allocated msgs

texts-append : (xs ys : List LogMessage) → texts (xs ++ ys) ≡ texts xs ++ texts ys
texts-append [] ys = refl
texts-append (x ∷ xs) ys = ap (λ l. x.bytes ∷ l) (texts-append xs ys)

allocated-append : (xs ys : List LogMessage) → allocated (xs ++ ys) ≡ allocated xs ++ allocated ys
allocated-append [] ys = refl
allocated-append (x ∷ xs) ys = ap (λ l. x.message ∷ x.node ∷ l) (allocated-append xs ys)

-- While the environment runs, Node's calls succeed, and a call of the log function prints the text of
-- its argument.
pub record Running (api : Console) (log_fn : api.Value) : Type 0 where
  pub is_up : api.Node → Bool
  pub printed : api.Node → List (List ℕ)
  pub text : api.Value → List ℕ
  pub process : api.Value
  pub acquires :
      (e : api.Node)
      → is_up e ≡ true
      → (e' : api.Node) × (api.acquire_threadsafe_function e ≡ (ok, e'))
        × (is_up e' ≡ true)
        × (printed e' ≡ printed e)
  pub releases :
      (e : api.Node)
      → is_up e ≡ true
      → (e' : api.Node) × (api.release_threadsafe_function e ≡ (ok, e'))
        × (is_up e' ≡ true)
        × (printed e' ≡ printed e)
  pub calls :
      (e : api.Node)
      → is_up e ≡ true
      → (e' : api.Node) × (api.call_threadsafe_function e ≡ (ok, e'))
        × (is_up e' ≡ true)
        × (printed e' ≡ printed e)
  pub finds_process :
      (e : api.Node)
      → is_up e ≡ true
      → (g : api.Value) × (api.get_global e ≡ got g)
        × (api.get_named_property g "process" e ≡ got process)
  pub creates :
      (bytes : List ℕ) (e : api.Node)
      → is_up e ≡ true
      → (v : api.Value) × (e' : api.Node) × (api.create_string_utf8 bytes e ≡ (got v, e'))
        × (text v ≡ bytes)
        × (is_up e' ≡ true)
        × (printed e' ≡ printed e)
  pub prints :
      (v : api.Value) (e : api.Node)
      → is_up e ≡ true
      → (e' : api.Node) × (api.call_function process log_fn v e ≡ (ok, e'))
        × (is_up e' ≡ true)
        × (printed e' ≡ printed e ++ text v ∷ [])

-- The logger while the Node thread is in the middle of a drain: `batch` is its list `msgs`.
pub record Draining (api : Console) (r : Ring) : Type 0 where
  pub batch : List LogMessage
  pub ctx : LoggerCtx api r

-- One step of some thread: a write, the swap at the start of a drain, one round of its loop.
pub data Event : Type 0 where
  write : List ℕ → Event
  swap print : Event

module _ (api : Console) (r : Ring) (log_fn process : api.Value) (isspace : ℕ → Bool)
    (before : ℕ) where
  unfoldable pub step : Event → Draining api r → Outcome (Draining api r)
  unfolding log_writer_write take_messages print_message
  step (write output) d = log_writer_write api r isspace before output d.ctx >>= λ (_, ctx).
      done (record d { ctx = ctx })
  step swap d = elim d.batch [
    | [] ↦ let (msgs, ctx) = take_messages api r d.ctx in done (record { batch = msgs; ctx = ctx })
    | _ ∷ _ ↦ done d
  ]
  step print d = elim d.batch [
    | [] ↦ done d
    | msg ∷ msgs ↦ print_message api r process log_fn msg d.ctx >>= λ ctx.
        done (record { batch = msgs; ctx = ctx })
  ]

  unfoldable pub run : List Event → Draining api r → Outcome (Draining api r)
  unfolding step
  run [] d = done d
  run (e ∷ es) d = do d' ← step e d; run es d'

-- What these events write, stripped.
abbrev pub written : (isspace : ℕ → Bool) → List Event → List (List ℕ)
written isspace [] = []
written isspace (write output ∷ es) = trim_end isspace output ∷ written isspace es
written isspace (swap ∷ es) = written isspace es
written isspace (print ∷ es) = written isspace es

module _ (api : Console) (r : Ring) (log_fn : api.Value) (node : Running api log_fn)
    (laws : RingLaws r) where
  -- Node is up, the drain function is there, and exactly the blocks of the waiting messages are
  -- allocated.
  pub record Ready (d : Draining api r) : Type 0 where
    pub is_up : node.is_up d.ctx.env ≡ true
    pub has_drain : d.ctx.log_drain ≡ true
    pub memory : Allocated r laws (allocated d.batch ++ allocated d.ctx.messages) d.ctx.buffer

  -- What has been printed and then what waits: the log, oldest message first.
  abbrev pub log : Draining api r → List (List ℕ)
  log d = node.printed d.ctx.env ++ texts d.batch ++ texts d.ctx.messages

  -- What a queued message adds.
  record Queued (ps : List ℕ) (bytes : List ℕ) (ctx ctx' : LoggerCtx api r) : Type 0 where
    is_up : node.is_up ctx'.env ≡ true
    has_drain : ctx'.log_drain ≡ ctx.log_drain
    printed : node.printed ctx'.env ≡ node.printed ctx.env
    message : LogMessage
    says : message.bytes ≡ bytes
    queue : ctx'.messages ≡ ctx.messages ++ message ∷ []
    memory : Allocated r laws (ps ++ message.message ∷ message.node ∷ []) ctx'.buffer

  queue_message-Queued :
      (ps bytes : List ℕ) (ctx : LoggerCtx api r)
      → node.is_up ctx.env ≡ true
      → Allocated r laws ps ctx.buffer
      → (ctx' : LoggerCtx api r) × (queue_message api r bytes ctx ≡ done (op_success, ctx'))
        × Queued ps bytes ctx ctx'
  unfolding queue_message ring_buffer_mem_calloc
  queue_message-Queued ps bytes ctx up h =
      let size = (string_header api r + length bytes + 1) % size_mod in
      let (p, s, e, a) = ring_buffer_mem_acquire-Allocated r laws ps ctx.buffer size h in
      let (q, t, e', b) =
        ring_buffer_mem_acquire-Allocated r laws (ps ++ p ∷ []) s
          ((1 * message_size api r) % size_mod) a in
      let (env, e'', up', same) = node.calls ctx.env up in
      let message : LogMessage = record { node = q; message = p; bytes = bytes } in
      (
        record ctx { buffer = t; messages = ctx.messages ++ message ∷ []; env = env },
        rw (e, e', e'', e'', queue_message),
        record {
          is_up = up';
          has_drain = refl;
          printed = same;
          message = message;
          says = refl;
          queue = refl;
          memory = subst (λ l. Allocated r laws l t) (append_assoc ps (p ∷ []) (q ∷ [])) b;
        },
      )

  Queued-log :
      (batch : List LogMessage) (ps bytes : List ℕ) (ctx ctx' : LoggerCtx api r)
      → Queued ps bytes ctx ctx'
      → log (record { batch = batch; ctx = ctx' })
        ≡ log (record { batch = batch; ctx = ctx }) ++ bytes ∷ []
  Queued-log batch ps bytes ctx ctx' q =
      simp (q.printed, q.queue, texts-append, append_assoc, q.says)

  pub destroy_message-Allocated :
      (msg : LogMessage) (ps : List ℕ) (ctx : LoggerCtx api r)
      → Allocated r laws (msg.message ∷ msg.node ∷ ps) ctx.buffer
      → Allocated r laws ps (destroy_message api r msg ctx).buffer
  unfolding destroy_message
  destroy_message-Allocated msg ps ctx h =
      ring_buffer_mem_release-Allocated r laws msg.node ps _
        (ring_buffer_mem_release-Allocated r laws msg.message (msg.node ∷ ps) ctx.buffer h)

  -- What a printed message leaves.
  pub record Printed (ps : List ℕ) (msg : LogMessage) (ctx ctx' : LoggerCtx api r) : Type 0 where
    pub is_up : node.is_up ctx'.env ≡ true
    pub has_drain : ctx'.log_drain ≡ ctx.log_drain
    pub printed : node.printed ctx'.env ≡ node.printed ctx.env ++ msg.bytes ∷ []
    pub queue : ctx'.messages ≡ ctx.messages
    pub memory : Allocated r laws ps ctx'.buffer

  pub print_message-Printed :
      (msg : LogMessage) (ps : List ℕ) (ctx : LoggerCtx api r)
      → node.is_up ctx.env ≡ true
      → Allocated r laws (msg.message ∷ msg.node ∷ ps) ctx.buffer
      → (ctx' : LoggerCtx api r) × (print_message api r node.process log_fn msg ctx ≡ done ctx')
        × Printed ps msg ctx ctx'
  unfolding print_message call_log_fn after_print destroy_message
  print_message-Printed msg ps ctx up h =
      let (v, env, e, says, up', same) = node.creates msg.bytes ctx.env up in
      let (env', e', up'', more) = node.prints v env up' in
      let ctx' : LoggerCtx api r = record ctx { env = env' } in
      (
        destroy_message api r msg ctx',
        rw (e, e'),
        record {
          is_up = up'';
          has_drain = refl;
          printed = rw (more, same, says) refl;
          queue = refl;
          memory = destroy_message-Allocated msg ps ctx' h;
        },
      )

  write-queue :
      (before : ℕ) (isspace : ℕ → Bool) (output : List ℕ) (ctx : LoggerCtx api r) (env : api.Node)
      → ctx.log_drain ≡ true
      → api.acquire_threadsafe_function ctx.env ≡ (ok, env)
      → log_writer_write api r isspace before output ctx
        ≡ queue_message api r (strip isspace before output) (record ctx { env = env })
  unfolding log_writer_write
  write-queue before isspace output ctx env drain e = ground (arith, drain, e)

  write-log :
      (before : ℕ) (isspace : ℕ → Bool) (output : List ℕ) (d : Draining api r)
      → Ready d
      → (d' : Draining api r) × (step api r log_fn node.process isspace before (write output) d
          ≡ done d')
        × Ready d'
        × (log d' ≡ log d ++ trim_end isspace output ∷ [])
  unfolding step
  write-log before isspace output d h =
      let (env, e, up, same) = node.acquires d.ctx.env h.is_up in
      let bytes = strip isspace before output in
      let ctx : LoggerCtx api r = record d.ctx { env = env } in
      let ps = allocated d.batch ++ allocated d.ctx.messages in
      let (ctx', e', q) = queue_message-Queued ps bytes ctx up h.memory in
      let run = write-queue before isspace output d.ctx env h.has_drain e ∙ e' in
      (
        record { batch = d.batch; ctx = ctx' },
        rw run,
        record {
          is_up = q.is_up;
          has_drain = q.has_drain ∙ h.has_drain;
          memory =
              subst (λ l. Allocated r laws l ctx'.buffer)
                (simp (q.queue, allocated-append, append_assoc)) q.memory;
        },
        Queued-log d.batch ps bytes ctx ctx' q
            ∙ simp (same, append_assoc, strip-trim_end isspace before output),
      )

  swap-log :
      (before : ℕ) (isspace : ℕ → Bool) (batch : List LogMessage) (ctx : LoggerCtx api r)
      → let d : Draining api r = record { batch = batch; ctx = ctx } in
        Ready d
        → (d' : Draining api r) × (step api r log_fn node.process isspace before swap d ≡ done d')
          × Ready d'
          × (log d' ≡ log d)
  unfolding step take_messages
  swap-log before isspace (x ∷ xs) ctx h = (record { batch = x ∷ xs; ctx = ctx }, refl, h, refl)
  swap-log before isspace [] ctx h = (
    record { batch = ctx.messages; ctx = record ctx { messages = [] } },
    refl,
    record { is_up = h.is_up; has_drain = h.has_drain; memory = simp append-nil h.memory },
    simp append-nil,
  )

  print-log :
      (before : ℕ) (isspace : ℕ → Bool) (batch : List LogMessage) (ctx : LoggerCtx api r)
      → let d : Draining api r = record { batch = batch; ctx = ctx } in
        Ready d
        → (d' : Draining api r) × (step api r log_fn node.process isspace before print d ≡ done d')
          × Ready d'
          × (log d' ≡ log d)
  unfolding step
  print-log before isspace [] ctx h = (record { batch = []; ctx = ctx }, refl, h, refl)
  print-log before isspace (x ∷ xs) ctx h =
      let ps = allocated xs ++ allocated ctx.messages in
      let (ctx', e, p) = print_message-Printed x ps ctx h.is_up h.memory in
      (
        record { batch = xs; ctx = ctx' },
        rw e,
        record {
          is_up = p.is_up;
          has_drain = p.has_drain ∙ h.has_drain;
          memory = rw p.queue p.memory;
        },
        simp (p.printed, p.queue, append_assoc),
      )

  -- While Node runs, every schedule of writes, swaps and rounds of the drain loop goes through, and
  -- what is printed followed by what waits is the log of before with the stripped messages at its
  -- end: none is lost, repeated or overtaken. The memory in use is that of the waiting messages.
  -- The laws of `Running` and `RingLaws` hold.
  pub run-log :
      (before : ℕ) (isspace : ℕ → Bool) (es : List Event) (d : Draining api r)
      → Ready d
      → (d' : Draining api r) × (run api r log_fn node.process isspace before es d ≡ done d')
        × Ready d'
        × (log d' ≡ log d ++ written isspace es)
  unfolding run
  run-log before isspace [] d h = (d, refl, h, simp append-nil)
  run-log before isspace (write output ∷ es) d h =
      let (d', e, h', l) = write-log before isspace output d h in
      let (d'', e', h'', l') = run-log before isspace es d' h' in
      (d'', rw e e', h'', simp (l', l, append_assoc))
  run-log before isspace (swap ∷ es) d h =
      let (d', e, h', l) = swap-log before isspace d.batch d.ctx h in
      let (d'', e', h'', l') = run-log before isspace es d' h' in (d'', rw e e', h'', simp (l', l))
  run-log before isspace (print ∷ es) d h =
      let (d', e, h', l) = print-log before isspace d.batch d.ctx h in
      let (d'', e', h'', l') = run-log before isspace es d' h' in (d'', rw e e', h'', simp (l', l))
