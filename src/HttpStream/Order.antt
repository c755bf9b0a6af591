-- ===== src/HttpStream/Order.antt =====
-- Each event of a stream keeps the bytes in order and the end behind them.
use aws_crt_nodejs.Base.{
  ℕ, ◌<◌, ◌≡◌, inl, inr, refl, sym, ap, subst, ◌∙◌, true, Option, List, [], ◌∷◌, ◌++◌, append_assoc,
  append-nil, arith, length, length-append, List-cases, Bool-cases, ◌==◌,
}
use aws_crt_nodejs.Napi.{Napi, Memory, done, ◌>>=◌, size_mod}
use aws_crt_nodejs.ByteBuf.{ByteBuf}
use aws_crt_nodejs.Threadsafe.{calloc, with_store}
use aws_crt_nodejs.HttpStream.{
  StreamApi, StreamLaws, HttpStream, body, complete, on_response_body, receive_body, copy_chunk,
  on_body_call, dispatch_body, on_complete, on_complete_call, complete_stream, add_pending,
  sub_pending,
}
use aws_crt_nodejs.HttpStream.Schedule.{
  run_body_call, run_complete_call, step, run, bytes_told, codes_told, waiting, Sized, InOrder,
  receive, finish, run_body, run_complete, bytes_told-append, codes_told-append, waiting-append,
  Sized-append, append-empty_right, length-empty, append-empty,
}
use aws_crt_nodejs.HttpStream.Calls.{
  queue_body-done, queue_complete-done, dispatch_body-done, complete_stream-done,
  requeue_complete-done,
}

module _ (n : Napi) (m : Memory) (api : StreamApi n m) (laws : StreamLaws n m api) where
  pub receive-InOrder :
      (bytes b : List ℕ) (s : HttpStream m)
      → InOrder bytes [] s
      → length (bytes ++ b) < size_mod
      → (s' : HttpStream m) × (step n m api (receive b) s ≡ done s') × InOrder (bytes ++ b) [] s'
  unfolding step on_response_body receive_body copy_chunk
  receive-InOrder bytes b s h fits =
      let (f, e) = h.has_body in
      let (chunk, t, e', same, size, _) = laws.copies b (calloc s.natives).world.store in
      let s' : HttpStream m = record (add_pending (length b) s) {
        natives = with_store t (calloc s.natives);
      } in
      let copied : copy_chunk n m api b (calloc s.natives)
          ≡ done (chunk, with_store t (calloc s.natives)) =
        rw (e', copy_chunk) in
      let queued = queue_body-done n m api laws f chunk s' e in
      let grown : waiting (s.body_calls ++ chunk ∷ []) ≡ waiting s.body_calls ++ b =
        simp (waiting-append, append-nil, same) in
      let here = ap (λ (o : Option ℕ). receive_body n m api o b s >>= λ (_, s'). done s') e in
      (
        record s' {
          natives = record s'.natives { references = f ∷ s'.natives.references };
          body_calls = s.body_calls ++ chunk ∷ [];
        },
        here ∙ rw copied (rw queued refl),
        record {
          has_body = h.has_body;
          has_complete = h.has_complete;
          pending = omega (
            arith,
            h.pending,
            ap length grown,
            length-append (waiting s.body_calls) b,
            length-append bytes b,
            ap length h.all_bytes,
            length-append (bytes_told s.told) (waiting s.body_calls),
          );
          sized = Sized-append s.body_calls (chunk ∷ []) h.sized (size ∙ ap length (sym same), tt);
          all_bytes = simp (waiting-append, append-nil, same, ← append_assoc, h.all_bytes);
          all_codes = h.all_codes;
          end_last = inl (append-empty (codes_told s.told) s.complete_calls h.all_codes);
          fits = fits;
          once = h.once;
        },
      )

  pub finish-InOrder :
      (bytes : List ℕ) (error_code : ℕ) (s : HttpStream m)
      → InOrder bytes [] s
      → (s' : HttpStream m) × (step n m api (finish error_code) s ≡ done s')
        × InOrder bytes (error_code ∷ []) s'
  unfolding step on_complete
  finish-InOrder bytes error_code s h =
      let (f, e) = h.has_complete in
      let s' : HttpStream m = record s { natives = calloc s.natives } in
      (
        record s' {
          natives = record s'.natives { references = f ∷ s'.natives.references };
          complete_calls = s.complete_calls ++ error_code ∷ [];
        },
        queue_complete-done n m api laws f error_code s' e,
        record {
          has_body = h.has_body;
          has_complete = h.has_complete;
          pending = h.pending;
          sized = h.sized;
          all_bytes = h.all_bytes;
          all_codes = simp (← append_assoc, h.all_codes);
          end_last = h.end_last;
          fits = h.fits;
          once = omega arith;
        },
      )

  pub body_call-InOrder :
      (bytes ends : List ℕ) (chunk : ByteBuf) (chunks : List ByteBuf) (s : HttpStream m)
      → s.body_calls ≡ chunk ∷ chunks
      → InOrder bytes ends s
      → (s' : HttpStream m) × (on_body_call n m api true chunk (record s { body_calls = chunks })
          ≡ done s')
        × InOrder bytes ends s'
        × (s'.body_calls ≡ chunks)
        × (s'.complete_calls ≡ s.complete_calls)
  unfolding on_body_call
  body_call-InOrder bytes ends chunk chunks s q h =
      let (f, e) = h.has_body in
      let s' : HttpStream m = sub_pending chunk.len (record s { body_calls = chunks }) in
      let (st, told) = dispatch_body-done n m api laws f chunk s' in
      let made = laws.makes_arraybuffer chunk in
      let w : waiting s.body_calls ≡ chunk.contents ++ waiting chunks = ap waiting q in
      let sized : Sized (chunk ∷ chunks) = subst Sized q h.sized in
      (
        record s' { natives = st; told = s.told ++ body chunk.contents ∷ [] },
        rw made (ap (λ (o : Option ℕ). dispatch_body n m api o chunk s') e ∙ told),
        record {
          has_body = h.has_body;
          has_complete = h.has_complete;
          pending = omega (
            arith,
            h.pending,
            sized.0,
            ap length w,
            length-append chunk.contents (waiting chunks),
            ap length h.all_bytes,
            length-append (bytes_told s.told) (waiting s.body_calls),
            h.fits,
          );
          sized = sized.1;
          all_bytes =
              simp (bytes_told-append, append-nil, append_assoc)
                (sym (ap (λ l. bytes_told s.told ++ l) w) ∙ h.all_bytes);
          all_codes = simp (codes_told-append, append-nil, h.all_codes);
          end_last = elim h.end_last [
            | inl none_told ↦ inl (simp (codes_told-append, append-nil, none_told))
            | inr none_left ↦
                inr (append-empty_right chunk.contents (waiting chunks) (sym w ∙ none_left))
          ];
          fits = h.fits;
          once = h.once;
        },
        refl,
        refl,
      )

  pub run_body-InOrder :
      (bytes ends : List ℕ) (s : HttpStream m)
      → InOrder bytes ends s
      → (s' : HttpStream m) × (step n m api run_body s ≡ done s') × InOrder bytes ends s'
  unfolding step run_body_call
  run_body-InOrder bytes ends s h = elim (List-cases s.body_calls) [
    | inl e ↦ (s, ap (λ l. run_body_call n m api l s) e, h)
    | inr (chunk, chunks, e) ↦
        let (s', run, h', _, _) = body_call-InOrder bytes ends chunk chunks s e h in
        (s', ap (λ l. run_body_call n m api l s) e ∙ run, h')
  ]

  pub complete_call-InOrder :
      (bytes ends : List ℕ) (error_code : ℕ) (rest : List ℕ) (s : HttpStream m)
      → s.complete_calls ≡ error_code ∷ rest
      → InOrder bytes ends s
      → (s' : HttpStream m) × (on_complete_call n m api true error_code
            (record s { complete_calls = rest })
          ≡ done s')
        × InOrder bytes ends s'
        × (waiting s.body_calls ≡ [] → s'.complete_calls ≡ rest)
        × (s'.body_calls ≡ s.body_calls)
  unfolding on_complete_call
  complete_call-InOrder bytes ends error_code rest s q h =
      let (f, e) = h.has_complete in
      let s' : HttpStream m = record s { complete_calls = rest } in
      let split : codes_told s.told ++ error_code ∷ rest ≡ ends =
        sym (ap (λ l. codes_told s.told ++ l) q) ∙ h.all_codes in
      elim (Bool-cases (s.binding.pending_length == 0)) [
        | inl zero_left ↦
            let (st, run) = complete_stream-done n m api laws f error_code s' in
            (
              record s' { natives = st; told = s.told ++ complete error_code ∷ [] },
              rw (zero_left, laws.makes_int32 error_code, on_complete_call)
                  (ap (λ (o : Option ℕ). complete_stream n m api o error_code s') e ∙ run),
              record {
                has_body = h.has_body;
                has_complete = h.has_complete;
                pending = h.pending;
                sized = h.sized;
                all_bytes = simp (bytes_told-append, append-nil, h.all_bytes);
                all_codes = simp (codes_told-append, append_assoc, split);
                end_last = inr (length-empty (waiting s.body_calls) (ground (arith, h.pending)));
                fits = h.fits;
                once = h.once;
              },
              λ none_left. refl,
              refl,
            )
        | inr some_left ↦
            let (st, run) = requeue_complete-done n m api laws f error_code s' e in
            let only : rest ≡ [] = length-empty rest (
              omega (
                arith,
                h.once,
                ap length split,
                length-append (codes_told s.told) (error_code ∷ rest),
              )) in
            (
              record s' { natives = st; complete_calls = rest ++ error_code ∷ [] },
              rw (some_left, on_complete_call) run,
              record {
                has_body = h.has_body;
                has_complete = h.has_complete;
                pending = h.pending;
                sized = h.sized;
                all_bytes = h.all_bytes;
                all_codes =
                    ap (λ l. codes_told s.told ++ (l ++ error_code ∷ [])) only
                    ∙ sym (ap (λ l. codes_told s.told ++ (error_code ∷ l)) only)
                    ∙ split;
                end_last = h.end_last;
                fits = h.fits;
                once = h.once;
              },
              λ none_left. absurd (ground (arith, h.pending, some_left, ap length none_left)),
              refl,
            )
      ]

  pub run_complete-InOrder :
      (bytes ends : List ℕ) (s : HttpStream m)
      → InOrder bytes ends s
      → (s' : HttpStream m) × (step n m api run_complete s ≡ done s') × InOrder bytes ends s'
  unfolding step run_complete_call
  run_complete-InOrder bytes ends s h = elim (List-cases s.complete_calls) [
    | inl e ↦ (s, ap (λ l. run_complete_call n m api l s) e, h)
    | inr (error_code, rest, e) ↦
        let (s', run, h', _, _) = complete_call-InOrder bytes ends error_code rest s e h in
        (s', ap (λ l. run_complete_call n m api l s) e ∙ run, h')
  ]
