-- ===== src/Tests/Client.antt =====
-- Instances of the parameters of the MQTT requests: a client that takes every request.
use aws_crt_nodejs.Base.{
  ℕ, ◌+◌, ◌≡◌, refl, ap, subst, true, Option, none, some, List, [], ◌∷◌, is_some,
}
use aws_crt_nodejs.Napi.{Reply, got, failed, invalid_arg}
use aws_crt_nodejs.ByteBuf.{ByteBuf, owned}
use aws_crt_nodejs.ByteBuf.Balance.{blocks}
use aws_crt_nodejs.Ownership.{Holds, Holds-init}
use aws_crt_nodejs.Threadsafe.{Natives, FunctionApi, FunctionLaws}
use aws_crt_nodejs.Mqtt.{MqttApi, ApiLaws}
use aws_crt_nodejs.Tests.Samples.{Sample, instance_of, top, sample_napi, sample_memory, idle}

abbrev pub create : Sample → Reply ℕ
create (instance_of f) = got f
create _ = failed invalid_arg

abbrev pub copy : ByteBuf → List ℕ → Option (ByteBuf × List ℕ)
copy buf s = some (record buf { buffer = owned (top s + 1) }, (top s + 1) ∷ s)

copy-Holds :
    (buf buf' : ByteBuf) (s t : List ℕ)
    → copy buf s ≡ some (buf', t)
    → Holds sample_memory s t (blocks buf')
copy-Holds buf buf' s t e =
    let same : (record buf { buffer = owned (top s + 1) }, (top s + 1) ∷ s) ≡ (buf', t) =
      ap
        (λ (o : Option (ByteBuf × List ℕ)). elim o [
          | none ↦ (record buf { buffer = owned (top s + 1) }, (top s + 1) ∷ s)
          | some r ↦ r
        ])
        e in
    subst (λ (r : ByteBuf × List ℕ). Holds sample_memory s r.1 (blocks r.0)) same
      (Holds-init {m = sample_memory} 0 s ((top s + 1) ∷ s) (top s + 1) refl)

-- threadsafe functions while Node runs
abbrev pub functions : FunctionApi sample_napi
functions = record {
  create_threadsafe_function = create;
  release_threadsafe_function = λ f. true;
  acquire_threadsafe_function = is_some;
  call_threadsafe_function = λ f. true;
  call_function = λ f. true;
}

-- a client that takes every request
abbrev pub api : MqttApi sample_napi sample_memory
api = record {
  functions = functions;
  init_copy = copy;
  publish = λ b topic qos retain payload. 1;
  subscribe = λ b topic qos. 2;
  unsubscribe = λ b topic. 3;
  disconnect = λ b. true;
  create_uint32 = λ k. true;
  create_int32 = λ k. true;
  create_string_utf8 = λ bytes. true;
  create_external_arraybuffer = λ buf. true;
  get_boolean = λ b. true;
}

pub function_laws : FunctionLaws sample_napi sample_memory functions
function_laws = record {
  releases = λ f. refl;
  acquires = λ f. refl;
  queues = λ f. refl;
  returns = λ f. refl;
}

pub laws : ApiLaws sample_napi sample_memory api
laws = record {
  functions = function_laws;
  makes_uint32 = λ k. refl;
  makes_int32 = λ k. refl;
  makes_arraybuffer = λ buf. refl;
  gets_boolean = λ b. refl;
  makes_string = λ bytes. refl;
  copies = copy-Holds;
}

abbrev pub nothing : Natives sample_memory
nothing = record { world = idle; references = []; structs = 0 }
