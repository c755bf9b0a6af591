-- ===== src/HttpStream/End.antt =====
-- The end of a stream: behind the body, and reached once the body has been told.
use aws_crt_nodejs.Base.{
  replicate, ap, ℕ, ◌<◌, ◌≡◌, ◌⊎◌, inl, inr, refl, sym, ap, subst, ◌∙◌, Bool, true, false, List, [],
  ◌∷◌, ◌++◌, append_assoc, append-nil, arith, length, length-append,
}
use aws_crt_nodejs.Napi.{Napi, Memory, done, size_mod}
use aws_crt_nodejs.ByteBuf.{ByteBuf}
use aws_crt_nodejs.HttpStream.{StreamApi, StreamLaws, HttpStream}
use aws_crt_nodejs.HttpStream.Schedule.{
  step, run_body_call, run_complete_call, Event, run, received, codes, InProtocol, bytes_told,
  codes_told, waiting, InOrder, receive, finish, run_body, run_complete,
}
use aws_crt_nodejs.HttpStream.Order.{
  body_call-InOrder, complete_call-InOrder, receive-InOrder, finish-InOrder, run_body-InOrder,
  run_complete-InOrder,
}
use aws_crt_nodejs.HttpStream.Schedule.{run-append, length-empty}

module _ (n : Napi) (m : Memory) (api : StreamApi n m) (laws : StreamLaws n m api) where
  -- Is the stream ended by the code already?
  abbrev ended_by : List ℕ → Bool
  ended_by [] = false
  ended_by (c ∷ cs) = true

  not_ended : (ends : List ℕ) → ended_by ends ≡ false → ends ≡ []
  not_ended [] e = refl
  not_ended (c ∷ cs) e = cc

  run-InOrder :
      (es : List Event) (bytes ends : List ℕ) (s : HttpStream m)
      → InProtocol (ended_by ends) es
      → length (bytes ++ received es) < size_mod
      → InOrder bytes ends s
      → (s' : HttpStream m) × (run n m api es s ≡ done s')
        × InOrder (bytes ++ received es) (ends ++ codes es) s'
  unfolding run
  run-InOrder [] bytes ends s p fits h = (s, refl, simp append-nil h)
  run-InOrder (receive b ∷ es) bytes ends s p fits h =
      let open_ = not_ended ends p.0 in
      let p' : InProtocol false es = subst (λ b. InProtocol b es) p.0 p.1 in
      let l = append_assoc bytes b (received es) in
      let (s', e, h') =
        receive-InOrder n m api laws bytes b s (subst (λ x. InOrder bytes x s) open_ h) (
          omega (
            arith,
            fits,
            length-append bytes (b ++ received es),
            length-append b (received es),
            length-append bytes b,
          )) in
      let (s'', e', h'') =
        run-InOrder es (bytes ++ b) [] s' p' (subst (λ x. length x < size_mod) (sym l) fits) h' in
      (s'', rw e e', rw (open_, ← l) h'')
  run-InOrder (finish c ∷ es) bytes ends s p fits h =
      let open_ = not_ended ends p.0 in
      let (s', e, h') =
        finish-InOrder n m api laws bytes c s (subst (λ x. InOrder bytes x s) open_ h) in
      let (s'', e', h'') = run-InOrder es bytes (c ∷ []) s' p.1 fits h' in
      (s'', rw e e', rw open_ h'')
  run-InOrder (run_body ∷ es) bytes ends s p fits h =
      let (s', e, h') = run_body-InOrder n m api laws bytes ends s h in
      let (s'', e', h'') = run-InOrder es bytes ends s' p fits h' in (s'', rw e e', h'')
  run-InOrder (run_complete ∷ es) bytes ends s p fits h =
      let (s', e, h') = run_complete-InOrder n m api laws bytes ends s h in
      let (s'', e', h'') = run-InOrder es bytes ends s' p fits h' in (s'', rw e e', h'')

  -- A stream with a body callback, from its start, while Node runs and the client keeps its protocol.
  -- Whatever the order in which the Node thread runs the queued calls, JavaScript is told the bytes
  -- in the order in which the client delivered them, and those not yet told wait in the queue; it is
  -- told the end once, and only when it has been told all of the bytes.
  -- The laws of `StreamLaws` hold, and fewer than 2^64 bytes are delivered.
  pub run-complete_last :
      (es : List Event) (s : HttpStream m)
      → InProtocol false es
      → length (received es) < size_mod
      → InOrder [] [] s
      → (s' : HttpStream m) × (run n m api es s ≡ done s')
        × (bytes_told s'.told ++ waiting s'.body_calls ≡ received es)
        × (codes_told s'.told ++ s'.complete_calls ≡ codes es)
        × ((codes_told s'.told ≡ []) ⊎ (bytes_told s'.told ≡ received es))
  run-complete_last es s p fits h =
      let (s', e, h') = run-InOrder es [] [] s p fits h in
      (
        s',
        e,
        h'.all_bytes,
        h'.all_codes,
        elim h'.end_last [
          | inl none_told ↦ inl none_told
          | inr none_left ↦ inr (
              sym (append-nil (bytes_told s'.told))
              ∙ sym (ap (λ l. bytes_told s'.told ++ l) none_left)
              ∙ h'.all_bytes)
        ],
      )

  run_bodies :
      (chunks : List ByteBuf) (bytes ends : List ℕ) (s : HttpStream m)
      → s.body_calls ≡ chunks
      → InOrder bytes ends s
      → (s' : HttpStream m) × (run n m api (replicate (length chunks) run_body) s ≡ done s')
        × InOrder bytes ends s'
        × (s'.body_calls ≡ [])
        × (s'.complete_calls ≡ s.complete_calls)
  unfolding run step run_body_call
  run_bodies [] bytes ends s e h = (s, refl, h, e, refl)
  run_bodies (chunk ∷ chunks) bytes ends s e h =
      let (s', run', h', left, same) =
        body_call-InOrder n m api laws bytes ends chunk chunks s e h in
      let (s'', run'', h'', none_left, same') = run_bodies chunks bytes ends s' left h' in
      (s'', rw (ap (λ l. run_body_call n m api l s) e ∙ run') run'', h'', none_left, same' ∙ same)

  told_all :
      (bytes ends : List ℕ) (s : HttpStream m)
      → s.body_calls ≡ []
      → InOrder bytes ends s
      → bytes_told s.told ≡ bytes
  told_all bytes ends s e h =
      sym (append-nil (bytes_told s.told))
      ∙ sym (ap (λ l. bytes_told s.told ++ waiting l) e)
      ∙ h.all_bytes

  run_end :
      (calls bytes ends : List ℕ) (s : HttpStream m)
      → s.complete_calls ≡ calls
      → s.body_calls ≡ []
      → InOrder bytes ends s
      → (s' : HttpStream m) × (run n m api (run_complete ∷ []) s ≡ done s')
        × (codes_told s'.told ≡ ends)
        × (bytes_told s'.told ≡ bytes)
  unfolding run step run_complete_call
  run_end [] bytes ends s e none_left h = (
    s,
    rw (ap (λ l. run_complete_call n m api l s) e),
    sym (append-nil (codes_told s.told)) ∙ sym (ap (λ l. codes_told s.told ++ l) e) ∙ h.all_codes,
    told_all bytes ends s none_left h,
  )
  run_end (error_code ∷ rest) bytes ends s e none_left h =
      let (s', run', h', left, same) =
        complete_call-InOrder n m api laws bytes ends error_code rest s e h in
      let only : rest ≡ [] = length-empty rest (
        omega (
          arith,
          h.once,
          ap length h.all_codes,
          ap length e,
          length-append (codes_told s.told) s.complete_calls,
        )) in
      let none_calls : s'.complete_calls ≡ [] = left (ap waiting none_left) ∙ only in
      (
        s',
        rw (ap (λ l. run_complete_call n m api l s) e ∙ run'),
        sym (append-nil (codes_told s'.told))
            ∙ sym (ap (λ l. codes_told s'.told ++ l) none_calls)
            ∙ h'.all_codes,
        told_all bytes ends s' (same ∙ none_left) h',
      )

  -- When the client has ended a stream, the calls that are queued bring it to its end: once the Node
  -- thread has run the body calls, the next call for the end tells JavaScript the code, and by then
  -- JavaScript has been told all of the bytes.
  -- The laws of `StreamLaws` hold.
  pub run-ends :
      (bytes : List ℕ) (error_code : ℕ) (s : HttpStream m)
      → InOrder bytes (error_code ∷ []) s
      → (s' : HttpStream m) × (run n m api
            (replicate (length s.body_calls) run_body ++ run_complete ∷ [])
            s
          ≡ done s')
        × (codes_told s'.told ≡ error_code ∷ [])
        × (bytes_told s'.told ≡ bytes)
  run-ends bytes error_code s h =
      let ends = error_code ∷ [] in
      let (s', run', h', none_left, _) = run_bodies s.body_calls bytes ends s refl h in
      let (s'', run'', told, bytes_) = run_end s'.complete_calls bytes ends s' refl none_left h' in
      (
        s'',
        run-append n m api (replicate (length s.body_calls) run_body) (run_complete ∷ []) s
            ∙ rw run' run'',
        told,
        bytes_,
      )
