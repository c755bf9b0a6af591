-- ===== src/HttpStream/Schedule.antt =====
-- The events of a stream in any order, what the client delivers and what JavaScript is told.
use aws_crt_nodejs.Base.{
  ℕ, ◌<◌, ◌≤◌, ◌≡◌, ◌⊎◌, refl, sym, ap, ◌∙◌, Bool, true, false, some, List, [], ◌∷◌, ◌++◌,
  append_assoc, arith, length,
}
use aws_crt_nodejs.Napi.{aborted, undefined_behaviour, Napi, Memory, Outcome, done, ◌>>=◌, size_mod}
use aws_crt_nodejs.ByteBuf.{ByteBuf}
use aws_crt_nodejs.HttpStream.{
  StreamApi, HttpStream, Told, body, complete, on_response_body, on_body_call, on_complete,
  on_complete_call,
}

-- What happens to a stream: the client delivers bytes or ends it, and the Node thread runs the oldest
-- call that is queued for one of the two functions, where there is one.
pub data Event : Type 0 where
  receive : List ℕ → Event
  finish : ℕ → Event
  run_body run_complete : Event

module _ (n : Napi) (m : Memory) (api : StreamApi n m) where
  -- the oldest call for `on_body`, and the oldest for `on_complete`
  unfoldable pub run_body_call : List ByteBuf → HttpStream m → Outcome (HttpStream m)
  unfolding on_body_call
  run_body_call [] s = done s
  run_body_call (chunk ∷ chunks) s =
      on_body_call n m api true chunk (record s { body_calls = chunks })

  unfoldable pub run_complete_call : List ℕ → HttpStream m → Outcome (HttpStream m)
  unfolding on_complete_call
  run_complete_call [] s = done s
  run_complete_call (error_code ∷ codes) s =
      on_complete_call n m api true error_code (record s { complete_calls = codes })

  unfoldable pub step : Event → HttpStream m → Outcome (HttpStream m)
  unfolding on_response_body on_complete run_body_call run_complete_call
  step (receive bytes) s = on_response_body n m api bytes s >>= λ (_, s'). done s'
  step (finish error_code) s = on_complete n m api error_code s
  step run_body s = run_body_call s.body_calls s
  step run_complete s = run_complete_call s.complete_calls s

  unfoldable pub run : List Event → HttpStream m → Outcome (HttpStream m)
  unfolding step
  run [] s = done s
  run (e ∷ es) s = do s' ← step e s; run es s'

bind_cong :
    {A B C : Type 0} (o : Outcome A) (f : A → Outcome C) (g : A → Outcome B) (k : B → Outcome C)
    → ((a : A) → f a ≡ (g a >>= k))
    → (o >>= f) ≡ (o >>= g >>= k)
bind_cong (done a) f g k h = h a
bind_cong aborted f g k h = refl
bind_cong undefined_behaviour f g k h = refl

module _ (n : Napi) (m : Memory) (api : StreamApi n m) where
  -- One schedule after another.
  pub run-append :
      (es fs : List Event) (s : HttpStream m)
      → run n m api (es ++ fs) s ≡ (run n m api es s >>= run n m api fs)
  unfolding run
  run-append [] fs s = refl
  run-append (e ∷ es) fs s =
      bind_cong (step n m api e s) (run n m api (es ++ fs)) (run n m api es) (run n m api fs)
        (run-append es fs)

-- The bytes that the client delivered, and the codes with which it ended the stream.
abbrev pub received : List Event → List ℕ
received [] = []
received (receive bytes ∷ es) = bytes ++ received es
received (finish error_code ∷ es) = received es
received (run_body ∷ es) = received es
received (run_complete ∷ es) = received es

abbrev pub codes : List Event → List ℕ
codes [] = []
codes (receive bytes ∷ es) = codes es
codes (finish error_code ∷ es) = error_code ∷ codes es
codes (run_body ∷ es) = codes es
codes (run_complete ∷ es) = codes es

-- The client ends the stream once, and delivers no bytes after that.
abbrev pub InProtocol : (ended : Bool) → List Event → Type 0
InProtocol ended [] = Unit {0}
InProtocol ended (receive bytes ∷ es) = (ended ≡ false) × InProtocol ended es
InProtocol ended (finish error_code ∷ es) = (ended ≡ false) × InProtocol true es
InProtocol ended (run_body ∷ es) = InProtocol ended es
InProtocol ended (run_complete ∷ es) = InProtocol ended es

-- What JavaScript has been told: the bytes, and the codes at the end.
abbrev pub bytes_told : List Told → List ℕ
bytes_told [] = []
bytes_told (body bytes ∷ ts) = bytes ++ bytes_told ts
bytes_told (complete error_code ∷ ts) = bytes_told ts

abbrev pub codes_told : List Told → List ℕ
codes_told [] = []
codes_told (body bytes ∷ ts) = codes_told ts
codes_told (complete error_code ∷ ts) = error_code ∷ codes_told ts

-- The bytes of the chunks that wait.
abbrev pub waiting : List ByteBuf → List ℕ
waiting [] = []
waiting (chunk ∷ chunks) = chunk.contents ++ waiting chunks

abbrev pub Sized : List ByteBuf → Type 0
Sized [] = Unit {0}
Sized (chunk ∷ chunks) = (chunk.len ≡ length chunk.contents) × Sized chunks

pub bytes_told-append : (xs ys : List Told) → bytes_told (xs ++ ys) ≡ bytes_told xs ++ bytes_told ys
bytes_told-append [] ys = refl
bytes_told-append (body b ∷ xs) ys =
    ap (λ l. b ++ l) (bytes_told-append xs ys)
    ∙ sym (append_assoc b (bytes_told xs) (bytes_told ys))
bytes_told-append (complete c ∷ xs) ys = bytes_told-append xs ys

pub codes_told-append : (xs ys : List Told) → codes_told (xs ++ ys) ≡ codes_told xs ++ codes_told ys
codes_told-append [] ys = refl
codes_told-append (body b ∷ xs) ys = codes_told-append xs ys
codes_told-append (complete c ∷ xs) ys = ap (λ l. c ∷ l) (codes_told-append xs ys)

pub waiting-append : (xs ys : List ByteBuf) → waiting (xs ++ ys) ≡ waiting xs ++ waiting ys
waiting-append [] ys = refl
waiting-append (x ∷ xs) ys =
    ap (λ l. x.contents ++ l) (waiting-append xs ys)
    ∙ sym (append_assoc x.contents (waiting xs) (waiting ys))

pub Sized-append : (xs ys : List ByteBuf) → Sized xs → Sized ys → Sized (xs ++ ys)
Sized-append [] ys h k = k
Sized-append (x ∷ xs) ys h k = (h.0, Sized-append xs ys h.1 k)

pub append-empty_right : {A : Type 0} (xs ys : List A) → xs ++ ys ≡ [] → ys ≡ []
append-empty_right [] ys e = e
append-empty_right (x ∷ xs) ys e = cc

pub length-empty : {A : Type 0} (xs : List A) → length xs ≡ 0 → xs ≡ []
length-empty [] e = refl
length-empty (x ∷ xs) e = absurd (omega (arith, e))

pub append-empty : {A : Type 0} (xs ys : List A) → xs ++ ys ≡ [] → xs ≡ []
append-empty [] ys e = refl
append-empty (x ∷ xs) ys e = cc

-- A stream with a body callback. `bytes` were delivered so far and `ends` are the codes of its end.
pub record InOrder {m : Memory} (bytes ends : List ℕ) (s : HttpStream m) : Type 0 where
  pub has_body : (f : ℕ) × (s.binding.on_body ≡ some f)
  pub has_complete : (f : ℕ) × (s.binding.on_complete ≡ some f)
  pub pending : s.binding.pending_length ≡ length (waiting s.body_calls)
  pub sized : Sized s.body_calls
  pub all_bytes : bytes_told s.told ++ waiting s.body_calls ≡ bytes
  pub all_codes : codes_told s.told ++ s.complete_calls ≡ ends
  pub end_last : (codes_told s.told ≡ []) ⊎ (waiting s.body_calls ≡ [])
  pub fits : length bytes < size_mod
  pub once : length ends ≤ 1
