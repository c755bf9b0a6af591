-- ===== src/Threadsafe.antt =====
-- source/module.c: the wrappers around Node's threadsafe functions, and what native code holds while a
-- request is under way. Node's threadsafe functions are a parameter (`FunctionApi`).
pub mod Balance
use aws_crt_nodejs.Base.{
  ℕ, ◌+◌, ◌-◌, ◌≡◌, Bool, true, false, Option, none, some, List, [], ◌∷◌, ◌==◌, if◌then◌else◌,
}
use aws_crt_nodejs.Napi.{
  Reply, got, failed, Napi, Memory, Throw, World, throw, Outcome, done, aborted, ◌>>=◌,
}
use aws_crt_nodejs.Ownership.{SameLive}
use aws_crt_nodejs.ByteBuf.{is_null_or_undefined}

-- What native code holds: allocator blocks and exceptions (`world`), references to threadsafe
-- functions, with multiplicity, and the number of request structs that are allocated.
pub record Natives (m : Memory) : Type 0 where
  pub world : World m
  pub references : List ℕ
  pub structs : ℕ

-- A threadsafe function is named by a number.
pub record FunctionApi (n : Napi) : Type 0 where
  pub create_threadsafe_function : n.Value → Reply ℕ
  pub release_threadsafe_function : ℕ → Bool
  -- `none` is NULL
  pub acquire_threadsafe_function : Option ℕ → Bool
  pub call_threadsafe_function : ℕ → Bool
  -- does the JavaScript function return without an exception?
  pub call_function : ℕ → Bool

-- one reference less
abbrev pub remove_one : ℕ → List ℕ → List ℕ
remove_one f [] = []
remove_one f (g ∷ gs) = if g == f then gs else g ∷ remove_one f gs

module _ {m : Memory} where
  -- aws_mem_calloc of a struct, under AWS_FATAL_ASSERT
  abbrev pub calloc : Natives m → Natives m
  calloc st = record st { structs = st.structs + 1 }

  -- aws_mem_release of a struct
  abbrev pub mem_release : Natives m → Natives m
  mem_release st = record st { structs = st.structs - 1 }

  abbrev pub throwing : Throw → Natives m → Natives m
  throwing t st = record st { world = throw t st.world }

  abbrev pub with_store : m.Store → Natives m → Natives m
  with_store s st = record st { world = record st.world { store = s } }

  -- Nothing that native code holds has changed.
  pub record Same (a b : Natives m) : Type 0 where
    pub same_live : SameLive m a.world.store b.world.store
    pub same_references : b.references ≡ a.references
    pub same_structs : b.structs ≡ a.structs

module _ (n : Napi) (m : Memory) (api : FunctionApi n) where
  -- The block `if (!aws_napi_is_null_or_undefined(…)) { aws_napi_create_threadsafe_function(…) }`
  -- of the requests and bindings: the field afterwards, or `none` where the creation fails.
  unfoldable pub optional_function : n.Value → Natives m → Option (Option ℕ × Natives m)
  unfolding is_null_or_undefined
  optional_function v st = elim (is_null_or_undefined n m v) [
    | true ↦ some (none, st)
    | false ↦ elim (api.create_threadsafe_function v) [
      | failed f ↦ none
      | got f ↦ some (some f, record st { references = f ∷ st.references })
    ]
  ]

  -- aws_napi_release_threadsafe_function under AWS_NAPI_ENSURE
  unfoldable pub release_function : ℕ → Natives m → Outcome (Natives m)
  release_function f st =
      if api.release_threadsafe_function f
      then done (record st { references = remove_one f st.references })
      else aborted

  -- aws_napi_release_threadsafe_function of a function that may be NULL
  unfoldable pub release_if_set : Option ℕ → Natives m → Outcome (Natives m)
  unfolding release_function
  release_if_set none st = done st
  release_if_set (some f) st = release_function f st

  -- aws_napi_queue_threadsafe_function: was the call queued? The reference is kept in any case.
  unfoldable pub queue_threadsafe_function : Option ℕ → Natives m → Outcome (Bool × Natives m)
  queue_threadsafe_function function st =
      if api.acquire_threadsafe_function function
      then elim function [
        | none ↦ aborted
        | some f ↦
            done (api.call_threadsafe_function f, record st { references = f ∷ st.references })
      ]
      else aborted

  -- aws_napi_queue_threadsafe_function under AWS_NAPI_ENSURE
  unfoldable pub queue_function : Option ℕ → Natives m → Outcome (Natives m)
  unfolding queue_threadsafe_function
  queue_function function st = do
    (queued, st') ← queue_threadsafe_function function st
    if queued then done st' else aborted

  -- aws_napi_dispatch_threadsafe_function under AWS_NAPI_ENSURE: an exception of the JavaScript
  -- function is an error status, also where the release succeeds
  unfoldable pub dispatch_function : ℕ → Natives m → Outcome (Natives m)
  unfolding release_function
  dispatch_function f st = do
    st' ← release_function f st
    if api.call_function f then done st' else aborted

  -- Node does as it should: references can be taken and given back, calls can be queued, and the
  -- callbacks raise no exception.
  pub record FunctionLaws : Type 0 where
    pub releases : (f : ℕ) → api.release_threadsafe_function f ≡ true
    pub acquires : (f : ℕ) → api.acquire_threadsafe_function (some f) ≡ true
    pub queues : (f : ℕ) → api.call_threadsafe_function f ≡ true
    pub returns : (f : ℕ) → api.call_function f ≡ true
