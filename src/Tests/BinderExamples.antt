-- ===== src/Tests/BinderExamples.antt =====
-- source/class_binder.c and source/module.c on concrete calls.
use aws_crt_nodejs.Base.{
  ℕ, ◌≡◌, ◌≢◌, refl, true, false, none, some, [], ◌∷◌, arith, get_elem?, drop, String,
}
use aws_crt_nodejs.Napi.{ok, got, ValueType, type_error}
use aws_crt_nodejs.Ownership.{Holds, SameLive}
use aws_crt_nodejs.ByteBuf.{
  zeroed, owned, byte_buf_clean_up, init_from_object, byte_buf_init_from_napi, string_new_from_napi,
}
use aws_crt_nodejs.ByteBuf.Balance.{
  blocks, byte_buf_init_from_napi-Holds, string_new_from_napi_undefined,
}
use aws_crt_nodejs.ClassBinder.{
  zeroed_argument, argument_parse, cleanup_arguments, read_native, read_string, argument_cleanup,
  This, Argument, Native,
}
use aws_crt_nodejs.ClassBinder.Calls.{
  CallInfo, Method, MethodInfo, clamp_args, construct_parsed, parse_arguments, method_call,
  construct, type_at, method_next_argument,
}
use aws_crt_nodejs.ClassBinder.Accepts.{
  Accepts, NativeOf, parse_arguments-typed, argument_parse_ok, argument_parse_rejects,
}
use aws_crt_nodejs.ClassBinder.Balance.{args_blocks, method_call-SameLive}
use aws_crt_nodejs.ClassBinder.Construct.{construct-Holds}
use aws_crt_nodejs.ClassBinder.Cursor.{laid_out, method_next_argument_exact}
use aws_crt_nodejs.Tests.Samples.{
  Sample, missing, flag, amount, text, broken, bytes, instance_of, sample_napi, sample_memory, idle,
}

not_accepted : ¬ (Accepts ValueType.string ValueType.number true)
not_accepted h = ground arith

abbrev Arg : Type 0
Arg = Argument Sample ℕ

-- a method that does nothing
abbrev quiet : Method sample_napi sample_memory
quiet info w = (none, w)

-- one required string, and an optional one
abbrev strings : MethodInfo sample_napi sample_memory
strings = record {
  num_arguments = 1;
  arg_types = ValueType.string ∷ ValueType.string ∷ [];
  is_static = false;
  method = some quiet;
}

abbrev two_texts : CallInfo Sample
two_texts = record { args = text (7 ∷ []) ∷ text (8 ∷ 9 ∷ []) ∷ []; this = instance_of 4 }

-- the second string cannot be read, after the first was copied
abbrev one_broken : CallInfo Sample
one_broken = record { args = text (7 ∷ []) ∷ broken ∷ []; this = instance_of 4 }

method_call-SameLive_example :
    SameLive sample_memory []
      (method_call sample_napi sample_memory strings (got one_broken) idle).1.store
method_call-SameLive_example =
    method_call-SameLive sample_napi sample_memory strings (got one_broken) idle (λ info w c. refl)

construct-Holds_example :
    Holds sample_memory []
      (construct sample_napi sample_memory strings (got two_texts) idle).store
      (args_blocks sample_napi sample_memory
        (drop 1 (parse_arguments sample_napi sample_memory strings 0 two_texts.args idle).0.1))
unfolding clamp_args
construct-Holds_example =
    construct-Holds sample_napi sample_memory strings quiet two_texts idle refl (omega arith)
      (λ info w c. refl)

-- Both strings are copied, and the second copy stays in use.
kept_block : (construct sample_napi sample_memory strings (got two_texts) idle).store ≡ 2 ∷ []
unfolding construct clamp_args construct_parsed cleanup_arguments parse_arguments argument_parse
    read_native read_string byte_buf_init_from_napi argument_cleanup byte_buf_clean_up
kept_block = refl

parse_arguments-typed_example :
    Accepts ValueType.string ValueType.string true
    × (some (text (8 ∷ 9 ∷ [])) ≡ get_elem? two_texts.args 1)
unfolding parse_arguments argument_parse read_native read_string byte_buf_init_from_napi type_at
parse_arguments-typed_example =
    parse_arguments-typed sample_napi sample_memory strings 0 two_texts.args idle 1
      (record {
        node = some (text (8 ∷ 9 ∷ []));
        type = ValueType.string;
        native =
            Native.string
              (record { buffer = owned 2; contents = 8 ∷ 9 ∷ []; len = 2; capacity = 3 });
      })
      refl refl

argument_parse_ok_example :
    (actual : ValueType) × (got ValueType.boolean ≡ got actual)
    × Accepts ValueType.boolean actual false
    × (some (flag true) ≡ some (flag true))
    × (ValueType.boolean ≡ actual)
    × NativeOf sample_napi sample_memory (flag true) actual (Native.boolean true)
unfolding argument_parse read_native
argument_parse_ok_example =
    argument_parse_ok sample_napi sample_memory (flag true) ValueType.boolean false idle refl

argument_parse_rejects_example :
    let r =
      argument_parse sample_napi sample_memory zeroed_argument
        (amount 5)
        ValueType.string
        true
        idle in
    (r.0.0 ≢ ok) × (r.1.store ≡ []) × (s : String) × (r.1.thrown ≡ type_error s ∷ [])
argument_parse_rejects_example =
    argument_parse_rejects sample_napi sample_memory (amount 5) ValueType.string ValueType.number
      true idle refl not_accepted

byte_buf_init_from_napi-Holds_example :
    let r = byte_buf_init_from_napi sample_napi sample_memory zeroed broken (6 ∷ []) in
    Holds sample_memory (6 ∷ []) r.1 (blocks r.0.1)
byte_buf_init_from_napi-Holds_example =
    byte_buf_init_from_napi-Holds sample_napi sample_memory broken (6 ∷ [])

string_new_from_napi_undefined_example :
    string_new_from_napi sample_napi sample_memory (bytes (1 ∷ [])) [] ≡ none
unfolding init_from_object
string_new_from_napi_undefined_example =
    string_new_from_napi_undefined sample_napi sample_memory (bytes (1 ∷ [])) [] refl refl

abbrev string_arg : Arg
string_arg = record { node = none; type = ValueType.string; native = Native.unset }

method_next_argument_exact_example :
    method_next_argument ValueType.string (laid_out missing This.null_this (string_arg ∷ [])) none
    ≡ (0, some true)
method_next_argument_exact_example =
    method_next_argument_exact missing This.null_this (string_arg ∷ []) ValueType.string none
      (omega arith) (omega arith) (λ e. cc)
