-- ===== src/Tests/HttpStreamExamples.antt =====
-- The callbacks of source/http_stream.c on a short response.
use aws_crt_nodejs.Base.{
  ℕ, ◌+◌, ◌≡◌, ◌⊎◌, refl, inl, arith, true, some, List, [], ◌∷◌, ◌++◌, length,
}
use aws_crt_nodejs.Napi.{done}
use aws_crt_nodejs.ByteBuf.{ByteBuf, owned}
use aws_crt_nodejs.ByteBuf.Balance.{blocks}
use aws_crt_nodejs.Ownership.{Holds, Holds-init}
use aws_crt_nodejs.HttpStream.{StreamApi, StreamLaws, HttpStream}
use aws_crt_nodejs.HttpStream.Schedule.{
  Event, receive, finish, run_body, run_complete, run, received, codes, bytes_told, codes_told,
  waiting, InOrder,
}
use aws_crt_nodejs.HttpStream.End.{run-complete_last, run-ends}
use aws_crt_nodejs.Tests.Samples.{top, sample_napi, sample_memory}
use aws_crt_nodejs.Tests.Client.{functions, function_laws, nothing}

abbrev chunk_of : List ℕ → List ℕ → ByteBuf
chunk_of bytes s = record {
  buffer = owned (top s + 1);
  contents = bytes;
  len = length bytes;
  capacity = length bytes;
}

abbrev stream_api : StreamApi sample_napi sample_memory
stream_api = record {
  functions = functions;
  init_copy = λ bytes s. some (chunk_of bytes s, (top s + 1) ∷ s);
  create_external_arraybuffer = λ chunk. true;
  create_int32 = λ k. true;
  delete_reference = λ ref. true;
}

copied :
    (bytes s : List ℕ)
    → (chunk : ByteBuf) × (t : List ℕ) × (stream_api.init_copy bytes s ≡ some (chunk, t))
      × (chunk.contents ≡ bytes)
      × (chunk.len ≡ length bytes)
      × Holds sample_memory s t (blocks chunk)
copied bytes s = (
  chunk_of bytes s,
  (top s + 1) ∷ s,
  refl,
  refl,
  refl,
  Holds-init {m = sample_memory} 0 s ((top s + 1) ∷ s) (top s + 1) refl,
)

stream_laws : StreamLaws sample_napi sample_memory stream_api
stream_laws = record {
  functions = function_laws;
  copies = copied;
  makes_arraybuffer = λ chunk. refl;
  makes_int32 = λ k. refl;
  deletes = λ ref. refl;
}

-- a stream with its functions 1, 2 and 3
abbrev new_stream : HttpStream sample_memory
new_stream = record {
  binding = record {
    node_external = 9;
    on_complete = some 1;
    on_response = some 2;
    on_body = some 3;
    pending_length = 0;
  };
  natives = record nothing { references = 1 ∷ 2 ∷ 3 ∷ [] };
  body_calls = [];
  complete_calls = [];
  told = [];
}

new_stream-InOrder : InOrder [] [] new_stream
new_stream-InOrder = record {
  has_body = (3, refl);
  has_complete = (1, refl);
  pending = refl;
  sized = tt;
  all_bytes = refl;
  all_codes = refl;
  end_last = inl refl;
  fits = omega arith;
  once = omega arith;
}

-- The call for the end runs once too early.
abbrev early_end : List Event
early_end =
    receive (1 ∷ 2 ∷ [])
    ∷ receive (3 ∷ [])
    ∷ run_body
    ∷ finish 0
    ∷ run_complete
    ∷ run_body
    ∷ run_complete
    ∷ []

run-complete_last_example :
    (s : HttpStream sample_memory) × (run sample_napi sample_memory stream_api early_end new_stream
      ≡ done s)
    × (bytes_told s.told ++ waiting s.body_calls ≡ received early_end)
    × (codes_told s.told ++ s.complete_calls ≡ codes early_end)
    × ((codes_told s.told ≡ []) ⊎ (bytes_told s.told ≡ received early_end))
run-complete_last_example =
    run-complete_last sample_napi sample_memory stream_api stream_laws early_end new_stream
      (refl, (refl, (refl, tt))) (omega arith) new_stream-InOrder

-- a chunk waits, and so does the end
abbrev ending : HttpStream sample_memory
ending = record new_stream {
  binding = record new_stream.binding { pending_length = 2 };
  body_calls = chunk_of (1 ∷ 2 ∷ []) [] ∷ [];
  complete_calls = 7 ∷ [];
}

ending-InOrder : InOrder (1 ∷ 2 ∷ []) (7 ∷ []) ending
ending-InOrder = record {
  has_body = (3, refl);
  has_complete = (1, refl);
  pending = refl;
  sized = (refl, tt);
  all_bytes = refl;
  all_codes = refl;
  end_last = inl refl;
  fits = omega arith;
  once = omega arith;
}

run-ends_example :
    (s : HttpStream sample_memory) × (run sample_napi sample_memory stream_api
        (run_body ∷ run_complete ∷ [])
        ending
      ≡ done s)
    × (codes_told s.told ≡ 7 ∷ [])
    × (bytes_told s.told ≡ 1 ∷ 2 ∷ [])
run-ends_example =
    run-ends sample_napi sample_memory stream_api stream_laws (1 ∷ 2 ∷ []) 7 ending ending-InOrder
