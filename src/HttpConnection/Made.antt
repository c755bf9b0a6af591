-- ===== src/HttpConnection/Made.antt =====
-- What a connection holds that the client has taken.
use aws_crt_nodejs.Base.{
  ℕ, ◌+◌, ◌≡◌, refl, ◌∙◌, inl, inr, Option, none, some, List, [], ◌∷◌, Bool-cases, Option-cases,
}
use aws_crt_nodejs.Napi.{
  Reply, got, failed, Reply-cases, Napi, Memory, Outcome, done, aborted, undefined_behaviour, ◌>>=◌,
}
use aws_crt_nodejs.Ownership.{SameLive}
use aws_crt_nodejs.ByteBuf.Balance.{string_new_from_napi-SameLive}
use aws_crt_nodejs.ByteBuf.{string_new_from_napi, is_null_or_undefined}
use aws_crt_nodejs.Threadsafe.{Natives, calloc, release_if_set}
use aws_crt_nodejs.Threadsafe.Balance.{with_callback, optional_function-cases}
use aws_crt_nodejs.Arguments.{Argument-cases}
use aws_crt_nodejs.HttpConnection.{
  ConnectionApi, HttpConnectionBinding, Made, give_up, connect, connect_host, connection_functions,
  http_connection_new,
}
use aws_crt_nodejs.HttpConnection.Options.{ConnectionOptions, connection_options}

module _ (n : Napi) (m : Memory) where
  -- What a connection that the client has taken holds in addition to `st`.
  pub record Taken (st : Natives m) (binding : HttpConnectionBinding n) (st' : Natives m)
      : Type 0 where
    pub setup_function : ℕ
    pub has_setup : binding.on_setup ≡ some setup_function
    pub references_held :
        st'.references ≡ with_callback binding.on_shutdown (setup_function ∷ st.references)
    pub struct_held : st'.structs ≡ st.structs + 1
    pub same_live : SameLive m st.world.store st'.world.store

  -- Where the call returns a connection, it holds this, and has made the reference to its external and
  -- no other.
  abbrev pub IfTaken : Natives m → Outcome (Made n m) → Type 0
  IfTaken st (done (some (binding, options), st', node_references)) =
      Taken st binding st' × (node_references ≡ binding.node_external ∷ [])
  IfTaken st (done (none, st', node_references)) = Unit {0}
  IfTaken st aborted = Unit {0}
  IfTaken st undefined_behaviour = Unit {0}

  IfTaken-bind :
      {A : Type 0} (st : Natives m) (o : Outcome A) (k : A → Outcome (Made n m))
      → ((a : A) → IfTaken st (k a))
      → IfTaken st (o >>= k)
  IfTaken-bind st (done a) k h = h a
  IfTaken-bind st aborted k h = tt
  IfTaken-bind st undefined_behaviour k h = tt

module _ (n : Napi) (m : Memory) (api : ConnectionApi n) where
  give_up-IfTaken :
      (st : Natives m) (binding : HttpConnectionBinding n) (refs : List ℕ) (st' : Natives m)
      → IfTaken n m st (give_up n m api binding refs st')
  unfolding give_up
  give_up-IfTaken st binding refs st' =
      IfTaken-bind n m st (release_if_set n m api.functions binding.on_setup st') _
        λ a. IfTaken-bind n m st (release_if_set n m api.functions binding.on_shutdown a) _ λ b. tt

  connect-IfTaken :
      (st : Natives m) (binding : HttpConnectionBinding n) (options : ConnectionOptions n)
      (st' : Natives m)
      → Taken n m st binding st'
      → IfTaken n m st (connect n m api binding options st')
  unfolding connect
  connect-IfTaken st binding options st' h = elim (Reply-cases api.create_external) [
    | inr (f, e) ↦ rw (e, connect) (give_up-IfTaken st binding [] _)
    | inl (v, e) ↦ elim (Reply-cases (api.create_reference v)) [
      | inr (f, e') ↦ rw (e, e', connect) (give_up-IfTaken st binding [] _)
      | inl (ref, e') ↦ elim (Bool-cases (api.client_connect options)) [
        | inr e'' ↦
            rw (e, e', e'', connect)
              (give_up-IfTaken st (record binding { node_external = ref }) (ref ∷ []) _)
        | inl e'' ↦
            rw (e, e', e'', connect)
              (
                record {
                  setup_function = h.setup_function;
                  has_setup = h.has_setup;
                  references_held = h.references_held;
                  struct_held = h.struct_held;
                  same_live = h.same_live;
                },
                refl,
              )
      ]
    ]
  ]

  connect_host-IfTaken :
      (st : Natives m) (binding : HttpConnectionBinding n) (bootstrap : Option n.Pointer)
      (host port socket tls proxy : n.Value) (st' : Natives m)
      → Taken n m st binding st'
      → IfTaken n m st (connect_host n m api binding bootstrap host port socket tls proxy st')
  unfolding connect_host
  connect_host-IfTaken st binding bootstrap host port socket tls proxy st' h =
      elim (Option-cases (string_new_from_napi n m host st'.world.store)) [
        | inl e ↦ rw (e, connect_host) tt
        | inr ((none, t), e) ↦ rw (e, connect_host) tt
        | inr ((some bytes, t), e) ↦
            elim (Argument-cases (connection_options n m bootstrap bytes port socket tls proxy)) [
              | inr (x, e') ↦ rw (e, e', connect_host) tt
              | inl (options, e') ↦
                  rw (e, e', connect_host)
                    (connect-IfTaken st binding options _ (record {
                      setup_function = h.setup_function;
                      has_setup = h.has_setup;
                      references_held = h.references_held;
                      struct_held = h.struct_held;
                      same_live = λ c.
                          string_new_from_napi-SameLive n m host st'.world.store bytes t e c
                          ∙ h.same_live c;
                    }))
            ]
      ]

  connection_functions-IfTaken :
      (st : Natives m) (bootstrap : Option n.Pointer)
      (on_setup on_shutdown host port socket tls proxy : n.Value)
      → IfTaken n m st (
          connection_functions n m api bootstrap on_setup on_shutdown host port socket tls proxy
            (calloc st))
  unfolding connection_functions
  connection_functions-IfTaken st bootstrap on_setup on_shutdown host port socket tls proxy =
      elim (Bool-cases (is_null_or_undefined n m on_setup)) [
        | inl e ↦ rw (e, connection_functions) tt
        | inr e ↦ elim (Reply-cases (api.functions.create_threadsafe_function on_setup)) [
          | inr (x, e') ↦
              rw (e, e', connection_functions)
                (give_up-IfTaken st
                  (record {
                    connection = none;
                    node_external = 0;
                    on_setup = none;
                    on_shutdown = none;
                  })
                  [] (calloc st))
          | inl (f, e') ↦
              let held : Natives m = record (calloc st) { references = f ∷ st.references } in
              elim (optional_function-cases n m api.functions on_shutdown held) [
                | inl e'' ↦
                    rw (e, e', e'', connection_functions)
                      (give_up-IfTaken st
                        (record {
                          connection = none;
                          node_external = 0;
                          on_setup = some f;
                          on_shutdown = none;
                        })
                        [] held)
                | inr (g, e'') ↦
                    rw (e, e', e'', connection_functions)
                      (connect_host-IfTaken st
                        (record {
                          connection = none;
                          node_external = 0;
                          on_setup = some f;
                          on_shutdown = g;
                        })
                        bootstrap host port socket tls proxy _
                        (record {
                          setup_function = f;
                          has_setup = refl;
                          references_held = refl;
                          struct_held = refl;
                          same_live = λ c. refl;
                        }))
              ]
        ]
      ]

  pub http_connection_new-IfTaken :
      (st : Natives m) (info : Reply (List n.Value))
      → IfTaken n m st (http_connection_new n m api info st)
  unfolding http_connection_new
  http_connection_new-IfTaken st info = go info
    where
      go : (info : Reply (List n.Value)) → IfTaken n m st (http_connection_new n m api info st)
      go (failed f) = tt
      go (got (b ∷ s ∷ d ∷ host ∷ port ∷ socket ∷ tls ∷ proxy ∷ [])) =
          connection_functions-IfTaken st _ s d host port socket tls proxy
      go (got _) = tt
