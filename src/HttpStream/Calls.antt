-- ===== src/HttpStream/Calls.antt =====
-- The calls of Node in the callbacks of a stream succeed while Node runs, and leave the rest of the
-- stream as it is.
use aws_crt_nodejs.Base.{ℕ, ◌≡◌, refl, ap, ◌∙◌, Option, none, some, [], ◌∷◌, ◌++◌}
use aws_crt_nodejs.Napi.{Napi, Memory, done, op_success}
use aws_crt_nodejs.ByteBuf.{ByteBuf}
use aws_crt_nodejs.Threadsafe.{
  Natives, mem_release, remove_one, dispatch_function, release_if_set, queue_function,
  queue_threadsafe_function,
}
use aws_crt_nodejs.Threadsafe.Balance.{
  queue_function-done, queue_threadsafe_function-done, release_function-done,
}
use aws_crt_nodejs.HttpStream.{
  StreamApi, StreamLaws, HttpStream, body, complete, queue_body, dispatch_body, queue_complete,
  requeue_complete, complete_stream, end_stream,
}

module _ (n : Napi) (m : Memory) (api : StreamApi n m) (laws : StreamLaws n m api) where
  pub queue_body-done :
      (f : ℕ) (chunk : ByteBuf) (s : HttpStream m)
      → s.binding.on_body ≡ some f
      → queue_body n m api chunk s
        ≡ done (
          op_success,
          record s {
            natives = record s.natives { references = f ∷ s.natives.references };
            body_calls = s.body_calls ++ chunk ∷ [];
          },
        )
  unfolding queue_body
  queue_body-done f chunk s e =
      let q =
        ap (λ (o : Option ℕ). queue_threadsafe_function n m api.functions o s.natives) e
        ∙ queue_threadsafe_function-done n m api.functions laws.functions f s.natives in
      rw q

  pub queue_complete-done :
      (f error_code : ℕ) (s : HttpStream m)
      → s.binding.on_complete ≡ some f
      → queue_complete n m api error_code s
        ≡ done (record s {
          natives = record s.natives { references = f ∷ s.natives.references };
          complete_calls = s.complete_calls ++ error_code ∷ [];
        })
  unfolding queue_complete
  queue_complete-done f error_code s e =
      let q =
        ap (λ (o : Option ℕ). queue_function n m api.functions o s.natives) e
        ∙ queue_function-done n m api.functions laws.functions f s.natives in
      rw q

  pub dispatch_body-done :
      (f : ℕ) (chunk : ByteBuf) (s : HttpStream m)
      → (st : Natives m) × (dispatch_body n m api (some f) chunk s
          ≡ done (record s { natives = st; told = s.told ++ body chunk.contents ∷ [] }))
  unfolding dispatch_body dispatch_function
  dispatch_body-done f chunk s = (
    record s.natives { references = remove_one f s.natives.references },
    rw (
      release_function-done n m api.functions laws.functions f s.natives,
      laws.functions.returns f,
    ),
  )

  pub release_if_set-done :
      (f : Option ℕ) (st : Natives m)
      → (st' : Natives m) × (release_if_set n m api.functions f st ≡ done st')
  unfolding release_if_set
  release_if_set-done none st = (st, refl)
  release_if_set-done (some f) st = (_, release_function-done n m api.functions laws.functions f st)

  pub end_stream-done :
      (s : HttpStream m)
      → (st : Natives m) × (end_stream n m api s ≡ done (record s { natives = st }))
  unfolding end_stream
  end_stream-done s =
      let (a, e) = release_if_set-done s.binding.on_response s.natives in
      let (b, e') = release_if_set-done s.binding.on_body a in
      let (c, e'') = release_if_set-done s.binding.on_complete b in
      (mem_release c, rw (e, e', e'', laws.deletes s.binding.node_external))

  pub complete_stream-done :
      (f error_code : ℕ) (s : HttpStream m)
      → (st : Natives m) × (complete_stream n m api (some f) error_code s
          ≡ done (record s { natives = st; told = s.told ++ complete error_code ∷ [] }))
  unfolding complete_stream dispatch_function
  complete_stream-done f error_code s =
      let st : Natives m = record s.natives { references = remove_one f s.natives.references } in
      let (st', e) =
        end_stream-done (record s { natives = st; told = s.told ++ complete error_code ∷ [] }) in
      (
        st',
        rw
            (
              release_function-done n m api.functions laws.functions f s.natives,
              laws.functions.returns f,
            )
            e,
      )

  pub requeue_complete-done :
      (f error_code : ℕ) (s : HttpStream m)
      → s.binding.on_complete ≡ some f
      → (st : Natives m) × (requeue_complete n m api error_code s
          ≡ done (record s { natives = st; complete_calls = s.complete_calls ++ error_code ∷ [] }))
  unfolding requeue_complete
  requeue_complete-done f error_code s e =
      let (st, e') =
        release_if_set-done s.binding.on_complete
          (record s.natives { references = f ∷ s.natives.references }) in
      (st, rw (queue_complete-done f error_code s e, e'))
