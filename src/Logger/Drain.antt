-- ===== src/Logger/Drain.antt =====
-- A whole call of s_threadsafe_log_call: with the environment, at shutdown, and where `process` is not
-- found.
use aws_crt_nodejs.Base.{
  ℕ, ◌≡◌, refl, ◌∙◌, true, false, List, [], ◌∷◌, ◌++◌, append_assoc, append-nil,
}
use aws_crt_nodejs.Napi.{done}
use aws_crt_nodejs.Logger.Pool.{Ring, RingLaws, Allocated}
use aws_crt_nodejs.Logger.Order.{
  Running, Ready, texts, allocated, print_message-Printed, destroy_message-Allocated,
}
use aws_crt_nodejs.Logger.{
  Console, LoggerCtx, LogMessage, print_messages, print_batch, unpin, threadsafe_log_call,
  destroy_messages, destroy_message, take_messages, log_taken,
}

module _ (api : Console) (r : Ring) (log_fn : api.Value) (node : Running api log_fn)
    (laws : RingLaws r) where
  -- What is left once these messages have been dealt with.
  pub record Drained (ctx ctx' : LoggerCtx api r) (out : List (List ℕ)) : Type 0 where
    pub is_up : node.is_up ctx'.env ≡ true
    pub printed : node.printed ctx'.env ≡ node.printed ctx.env ++ out
    pub queue : ctx'.messages ≡ []
    pub memory : Allocated r laws [] ctx'.buffer

  print_messages-Drained :
      (msgs : List LogMessage) (ctx : LoggerCtx api r)
      → node.is_up ctx.env ≡ true
      → ctx.messages ≡ []
      → Allocated r laws (allocated msgs) ctx.buffer
      → (ctx' : LoggerCtx api r) × (print_messages api r node.process log_fn msgs ctx ≡ done ctx')
        × Drained ctx ctx' (texts msgs)
  unfolding print_messages
  print_messages-Drained [] ctx up q h =
      (ctx, refl, record { is_up = up; printed = simp append-nil; queue = q; memory = h })
  print_messages-Drained (msg ∷ msgs) ctx up q h =
      let (ctx', e, p) =
        print_message-Printed api r log_fn node laws msg (allocated msgs) ctx up h in
      let (ctx'', e', d) = print_messages-Drained msgs ctx' p.is_up (p.queue ∙ q) p.memory in
      (
        ctx'',
        rw e e',
        record {
          is_up = d.is_up;
          printed = simp (d.printed, p.printed, append_assoc);
          queue = d.queue;
          memory = d.memory;
        },
      )

  destroy_messages-Allocated :
      (msgs : List LogMessage) (ctx : LoggerCtx api r)
      → Allocated r laws (allocated msgs) ctx.buffer
      → Allocated r laws [] (destroy_messages api r msgs ctx).buffer
  unfolding destroy_messages
  destroy_messages-Allocated [] ctx h = h
  destroy_messages-Allocated (msg ∷ msgs) ctx h =
      destroy_messages-Allocated msgs (destroy_message api r msg ctx)
        (destroy_message-Allocated api r log_fn node laws msg (allocated msgs) ctx h)

  destroy_messages-rest :
      (msgs : List LogMessage) (ctx : LoggerCtx api r)
      → let ctx' = destroy_messages api r msgs ctx in
        (ctx'.env ≡ ctx.env) × (ctx'.messages ≡ ctx.messages)
  unfolding destroy_messages destroy_message
  destroy_messages-rest [] ctx = (refl, refl)
  destroy_messages-rest (msg ∷ msgs) ctx =
      destroy_messages-rest msgs (destroy_message api r msg ctx)

  print_batch-Drained :
      (msgs : List LogMessage) (ctx : LoggerCtx api r)
      → node.is_up ctx.env ≡ true
      → ctx.messages ≡ []
      → Allocated r laws (allocated msgs) ctx.buffer
      → (ctx' : LoggerCtx api r) × (print_batch api r log_fn msgs ctx ≡ done ctx')
        × Drained ctx ctx' (texts msgs)
  unfolding print_batch
  print_batch-Drained msgs ctx up q h =
      let (g, e, e') = node.finds_process ctx.env up in
      let (ctx', run, d) = print_messages-Drained msgs ctx up q h in
      (ctx', rw (e, e', print_batch) run, d)

  unpin-Drained :
      (ctx ctx' : LoggerCtx api r) (out : List (List ℕ))
      → Drained ctx ctx' out
      → (ctx'' : LoggerCtx api r) × (unpin api r ctx' ≡ done ctx'') × Drained ctx ctx'' out
  unfolding unpin
  unpin-Drained ctx ctx' out d =
      let (env, e, up, same) = node.releases ctx'.env d.is_up in
      (
        record ctx' { env = env },
        rw (e, unpin) (rw e refl),
        record { is_up = up; printed = same ∙ d.printed; queue = d.queue; memory = d.memory },
      )

  log_taken-Drained :
      (msgs : List LogMessage) (ctx : LoggerCtx api r)
      → node.is_up ctx.env ≡ true
      → ctx.messages ≡ []
      → Allocated r laws (allocated msgs) ctx.buffer
      → (ctx' : LoggerCtx api r) × (log_taken api r true log_fn msgs ctx ≡ done ctx')
        × Drained ctx ctx' (texts msgs)
  unfolding log_taken
  log_taken-Drained [] ctx up q h =
      unpin-Drained ctx ctx []
        (record { is_up = up; printed = simp append-nil; queue = q; memory = h })
  log_taken-Drained (msg ∷ msgs) ctx up q h =
      let (ctx', run, d) = print_batch-Drained (msg ∷ msgs) ctx up q h in
      let (ctx'', run', d') = unpin-Drained ctx ctx' (texts (msg ∷ msgs)) d in
      (ctx'', rw run run', d')

  -- A drain call while Node runs, with nothing else in between, prints every message that waits, in
  -- order, leaves none waiting and gives back their memory.
  -- The laws of `Running` and `RingLaws` hold.
  pub threadsafe_log_call-prints :
      (ctx : LoggerCtx api r)
      → Ready api r log_fn node laws (record { batch = []; ctx = ctx })
      → (ctx' : LoggerCtx api r) × (threadsafe_log_call api r true log_fn ctx ≡ done ctx')
        × (node.printed ctx'.env ≡ node.printed ctx.env ++ texts ctx.messages)
        × (ctx'.messages ≡ [])
        × Allocated r laws [] ctx'.buffer
  unfolding threadsafe_log_call take_messages
  threadsafe_log_call-prints ctx h =
      let taken : LoggerCtx api r = record ctx { messages = [] } in
      let (ctx', run, d) = log_taken-Drained ctx.messages taken h.is_up refl h.memory in
      (ctx', run, d.printed, d.queue, d.memory)

  -- At shutdown, without an environment, a drain call makes no call to Node, leaves no message
  -- waiting and gives back the memory of those that waited.
  -- The laws of `RingLaws` hold.
  pub threadsafe_log_call-frees :
      (ctx : LoggerCtx api r)
      → Allocated r laws (allocated ctx.messages) ctx.buffer
      → (ctx' : LoggerCtx api r) × (threadsafe_log_call api r false log_fn ctx ≡ done ctx')
        × (ctx'.env ≡ ctx.env)
        × (ctx'.messages ≡ [])
        × Allocated r laws [] ctx'.buffer
  unfolding threadsafe_log_call take_messages log_taken
  threadsafe_log_call-frees ctx h =
      let taken : LoggerCtx api r = record ctx { messages = [] } in
      let (same, empty) = destroy_messages-rest ctx.messages taken in
      (
        destroy_messages api r ctx.messages taken,
        refl,
        same,
        empty,
        destroy_messages-Allocated ctx.messages taken h,
      )
