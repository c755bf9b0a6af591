-- ===== src/Tests/LoggerExamples.antt =====
-- The logger of source/logger.c on a console that records what is printed.
use aws_crt_nodejs.Base.{
  ℕ, ◌+◌, ◌≡◌, ◌<◌, ◌≤◌, refl, ap, subst, arith, Bool, true, false, Option, none, some, List, [],
  ◌∷◌, ◌++◌, ◌==◌, if◌then◌else◌, has, inl, inr, Bool-cases,
}
use aws_crt_nodejs.Napi.{ok, got, failed, generic_failure, done}
use aws_crt_nodejs.Logger.Pool.{Ring, RingLaws, Block, addresses, Allocated}
use aws_crt_nodejs.Logger.{Console, LoggerCtx, strip, threadsafe_log_call}
use aws_crt_nodejs.Logger.Strip.{strip-trim_end, trim_end}
use aws_crt_nodejs.Logger.Order.{
  Running, Draining, Ready, Event, write, swap, print, run, run-log, log, written,
}
use aws_crt_nodejs.Logger.Drain.{threadsafe_log_call-prints, threadsafe_log_call-frees}

-- The blocks in use and the words in memory; the ring has room for one block.
record Store : Type 0 where
  held : List Block
  words : ℕ → ℕ

-- an address above all that are in use
abbrev above : List Block → ℕ
above [] = 1
above (b ∷ bs) = b.address + above bs

above_pos : (bs : List Block) → 1 ≤ above bs
above_pos [] = omega arith
above_pos (b ∷ bs) = omega (arith, above_pos bs)

above-has : (bs : List Block) (c : ℕ) → has c (addresses bs) ≡ true → c < above bs
above-has [] c h = cc
above-has (b ∷ bs) c h = elim (Bool-cases (has c (addresses bs))) [
  | inl e ↦ omega (arith, above-has bs c e)
  | inr e ↦ ground (arith, above_pos bs)
]

apart : (bs : List Block) (c : ℕ) → has c (addresses bs) ≡ true → (above bs == c) ≡ false
apart bs c h = ground (arith, above-has bs c h)

abbrev oldest : List Block → Bool
oldest [] = false
oldest (b ∷ bs) = b.in_ring

abbrev tail : List Block → List Block
tail [] = []
tail (b ∷ bs) = bs

abbrev take_block : Bool → ℕ → Store → Option (ℕ × Store)
take_block in_ring n s = some (
  above s.held,
  record s {
    held = s.held ++ record { address = above s.held; capacity = n; in_ring = in_ring } ∷ [];
  },
)

-- the ring is full when a block is in use
abbrev take_ring_at : List Block → ℕ → Store → Option (ℕ × Store)
take_ring_at [] n s = take_block true n s
take_ring_at (b ∷ bs) n s = none

abbrev take_ring : ℕ → Store → Option (ℕ × Store)
take_ring n s = take_ring_at s.held n s

abbrev ring : Ring
ring = record {
  Store = Store;
  ring_acquire = take_ring;
  ring_release = λ a n s. record s { held = tail s.held };
  belongs_to_pool = λ a n s. oldest s.held;
  heap_acquire = take_block false;
  heap_release = λ a s. record s { held = tail s.held };
  load = λ a s. s.words a;
  write = λ a v s. record s { words = λ c. if a == c then v else s.words c };
}

abbrev value : ℕ × Store → Option (ℕ × Store) → ℕ × Store
value r none = r
value r (some q) = q

abbrev with_block : Bool → ℕ → Store → ℕ × Store
with_block f n s = (
  above s.held,
  record s { held = s.held ++ record { address = above s.held; capacity = n; in_ring = f } ∷ [] },
)

taken :
    (f : Bool) (n : ℕ) (s t : Store) (a : ℕ)
    → take_block f n s ≡ some (a, t)
    → with_block f n s ≡ (a, t)
taken f n s t a e = ap (value (a, t)) e

taken_ring_at :
    (bs : List Block) (n : ℕ) (s t : Store) (a : ℕ)
    → take_ring_at bs n s ≡ some (a, t)
    → take_block true n s ≡ some (a, t)
taken_ring_at [] n s t a e = e
taken_ring_at (b ∷ bs) n s t a e = cc

-- A property of a new block and the store with it.
of_taken :
    (P : ℕ → Store → Type 0) (f : Bool) (n : ℕ) (s t : Store) (a : ℕ)
    → take_block f n s ≡ some (a, t)
    → P (with_block f n s).0 (with_block f n s).1
    → P a t
of_taken P f n s t a e h = subst (λ (r : ℕ × Store). P r.0 r.1) (taken f n s t a e) h

take_block-held :
    (f : Bool) (n : ℕ) (s t : Store) (a : ℕ)
    → take_block f n s ≡ some (a, t)
    → t.held ≡ s.held ++ record { address = a; capacity = n; in_ring = f } ∷ []
take_block-held f n s t a e =
    of_taken (λ a t. t.held ≡ s.held ++ record { address = a; capacity = n; in_ring = f } ∷ []) f n
      s t a e refl

take_block-load :
    (f : Bool) (n : ℕ) (s t : Store) (a c : ℕ)
    → take_block f n s ≡ some (a, t)
    → has c (addresses s.held) ≡ true
    → ((a == c) ≡ false) × (t.words c ≡ s.words c)
take_block-load f n s t a c e h =
    of_taken (λ a t. ((a == c) ≡ false) × (t.words c ≡ s.words c)) f n s t a e
      (apart s.held c h, refl)

abbrev ring_laws : RingLaws ring
ring_laws = record {
  held = λ s. s.held;
  ring_acquire_held = λ n s t a e. take_block-held true n s t a (taken_ring_at s.held n s t a e);
  heap_acquire_held = λ n s t a e. take_block-held false n s t a e;
  heap_acquire_returns = λ n s. (_, _, refl);
  ring_acquire_load =
      λ n s t a c e. take_block-load true n s t a c (taken_ring_at s.held n s t a e);
  heap_acquire_load = λ n s t a c e. take_block-load false n s t a c e;
  write_held = λ a v s. refl;
  write_load = λ a v c s. refl;
  belongs_oldest = λ b bs s e. ap oldest e;
  ring_release_held = λ b bs s e i. ap tail e;
  heap_release_held = λ b bs s e i. ap tail e;
  ring_release_load = λ b bs s c e h. refl;
  heap_release_load = λ b bs s c e h. refl;
}

-- the environment: is it up, and what was printed
record Printer : Type 0 where
  up : Bool
  out : List (List ℕ)

abbrev console : Console
console = record {
  Node = Printer;
  Value = List ℕ;
  acquire_threadsafe_function = λ e. (ok, e);
  release_threadsafe_function = λ e. (ok, e);
  abort_threadsafe_function = λ e. (ok, e);
  call_threadsafe_function = λ e. (ok, e);
  get_global = λ e. elim e.up [ true ↦ got [] | false ↦ failed generic_failure ];
  get_named_property = λ v name e. got [];
  create_string_utf8 = λ bytes e. (got bytes, e);
  call_function = λ this fn arg e. (ok, record e { out = e.out ++ arg ∷ [] });
}

found :
    (e : Printer)
    → e.up ≡ true
    → (g : List ℕ) × (console.get_global e ≡ got g)
      × (console.get_named_property g "process" e ≡ got [])
found e up = ([], ground arith, refl)

abbrev running : Running console []
running = record {
  is_up = λ e. e.up;
  printed = λ e. e.out;
  text = λ v. v;
  process = [];
  acquires = λ e up. (e, refl, up, refl);
  releases = λ e up. (e, refl, up, refl);
  calls = λ e up. (e, refl, up, refl);
  finds_process = found;
  creates = λ bytes e up. (bytes, e, refl, refl, up, refl);
  prints = λ v e up. (record e { out = e.out ++ v ∷ [] }, refl, up, refl);
}

abbrev no_memory : Store
no_memory = record { held = []; words = λ c. 0 }

abbrev fresh : LoggerCtx console ring
fresh = record {
  buffer = no_memory;
  messages = [];
  log_drain = true;
  env = record { up = true; out = [] };
}

abbrev is_newline : ℕ → Bool
is_newline c = c == 10

abbrev idle_drain : Draining console ring
idle_drain = record { batch = []; ctx = fresh }

fresh-Ready : Ready console ring [] running ring_laws idle_drain
fresh-Ready = record {
  is_up = refl;
  has_drain = refl;
  memory = record { in_order = refl; labelled = tt };
}

strip-trim_end_example :
    strip is_newline 0 (104 ∷ 10 ∷ 105 ∷ 10 ∷ 10 ∷ [])
    ≡ trim_end is_newline (104 ∷ 10 ∷ 105 ∷ 10 ∷ 10 ∷ [])
strip-trim_end_example = strip-trim_end is_newline 0 (104 ∷ 10 ∷ 105 ∷ 10 ∷ 10 ∷ [])

abbrev schedule : List Event
schedule = write (1 ∷ 10 ∷ []) ∷ write (2 ∷ []) ∷ swap ∷ print ∷ write (3 ∷ []) ∷ print ∷ swap ∷ []

run-log_example :
    (d : Draining console ring) × (run console ring [] [] is_newline 0 schedule idle_drain ≡ done d)
    × Ready console ring [] running ring_laws d
    × (log console ring [] running ring_laws d
        ≡ log console ring [] running ring_laws idle_drain ++ written is_newline schedule)
run-log_example =
    run-log console ring [] running ring_laws 0 is_newline schedule idle_drain fresh-Ready

-- two blocks: the string of a message and its struct
abbrev two_blocks : Store
two_blocks = record {
  held =
      record { address = 1; capacity = 27; in_ring = true }
      ∷ record { address = 2; capacity = 32; in_ring = false }
      ∷ [];
  words = λ c. if c == 1 then 27 else 32;
}

abbrev one_message : LoggerCtx console ring
one_message = record {
  buffer = two_blocks;
  messages = record { node = 10; message = 9; bytes = 7 ∷ 8 ∷ [] } ∷ [];
  log_drain = true;
  env = record { up = true; out = [] };
}

one_message-Allocated : Allocated ring ring_laws (9 ∷ 10 ∷ []) two_blocks
one_message-Allocated = record { in_order = refl; labelled = (refl, (refl, tt)) }

threadsafe_log_call-prints_example :
    (ctx : LoggerCtx console ring) × (threadsafe_log_call console ring true [] one_message
      ≡ done ctx)
    × (ctx.env.out ≡ (7 ∷ 8 ∷ []) ∷ [])
    × (ctx.messages ≡ [])
    × Allocated ring ring_laws [] ctx.buffer
threadsafe_log_call-prints_example =
    threadsafe_log_call-prints console ring [] running ring_laws one_message
      (record { is_up = refl; has_drain = refl; memory = one_message-Allocated })

threadsafe_log_call-frees_example :
    (ctx : LoggerCtx console ring) × (threadsafe_log_call console ring false [] one_message
      ≡ done ctx)
    × (ctx.env ≡ one_message.env)
    × (ctx.messages ≡ [])
    × Allocated ring ring_laws [] ctx.buffer
threadsafe_log_call-frees_example =
    threadsafe_log_call-frees console ring [] running ring_laws one_message one_message-Allocated
