-- ===== src/Logger/Pool.antt =====
-- source/logger.c: the allocator for queued messages, which takes memory from a ring buffer and falls
-- back to the heap. The ring buffer and the heap are a parameter (`Ring`).
use aws_crt_nodejs.Base.{
  ℕ, ◌+◌, ◌-◌, ◌*◌, ◌%◌, ◌≡◌, refl, sym, ap, subst, ◌∙◌, inl, inr, arith, Bool, true, false, Option,
  none, some, List, [], ◌∷◌, ◌++◌, ◌==◌, has, if◌then◌else◌, Option-cases, Bool-cases, List-cases,
}
use aws_crt_nodejs.Napi.{Outcome, done, aborted, size_mod}

-- aws_ring_buffer of aws-c-common, the allocator behind it, and the size_t words in memory.
-- Addresses are numbers, and a block is named by its first one.
pub record Ring : Type 1 where
  pub Store : Type 0
  -- aws_ring_buffer_acquire: the block, or `none` where the ring has no room
  pub ring_acquire : ℕ → Store → Option (ℕ × Store)
  -- aws_ring_buffer_release and aws_ring_buffer_buf_belongs_to_pool: address and capacity
  pub ring_release : ℕ → ℕ → Store → Store
  pub belongs_to_pool : ℕ → ℕ → Store → Bool
  -- aws_byte_buf_init and aws_mem_release with the ring buffer's own allocator
  pub heap_acquire : ℕ → Store → Option (ℕ × Store)
  pub heap_release : ℕ → Store → Store
  pub load : ℕ → Store → ℕ
  pub write : ℕ → ℕ → Store → Store

-- sizeof(size_t)
abbrev pub word : ℕ
word = 8

module _ (r : Ring) where
  -- the size in front of the block
  unfoldable pub label : ℕ → ℕ × r.Store → Outcome (ℕ × r.Store)
  label capacity (a, s) = done (a + word, r.write a capacity s)

  unfoldable pub ring_buffer_mem_acquire : ℕ → r.Store → Outcome (ℕ × r.Store)
  unfolding label
  ring_buffer_mem_acquire size s =
      let capacity = (size + word) % size_mod in
      elim (r.ring_acquire capacity s) [
        | some got ↦ label capacity got
        | none ↦ elim (r.heap_acquire capacity s) [ some got ↦ label capacity got | none ↦ aborted ]
      ]

  unfoldable pub ring_buffer_mem_release : ℕ → r.Store → r.Store
  ring_buffer_mem_release ptr s =
      let addr = ptr - word in
      let size = r.load addr s in
      if r.belongs_to_pool addr size s then r.ring_release addr size s else r.heap_release addr s

  -- The bytes of a block are not modelled, so nothing is left of the memset.
  unfoldable pub ring_buffer_mem_calloc : ℕ → ℕ → r.Store → Outcome (ℕ × r.Store)
  ring_buffer_mem_calloc num size s = ring_buffer_mem_acquire ((num * size) % size_mod) s

-- A block that is in use.
pub record Block : Type 0 where
  pub address : ℕ
  pub capacity : ℕ
  pub in_ring : Bool

abbrev pub addresses : List Block → List ℕ
addresses [] = []
addresses (b ∷ bs) = b.address ∷ addresses bs

-- What the code hands out for these blocks.
abbrev pub pointers : List Block → List ℕ
pointers [] = []
pointers (b ∷ bs) = (b.address + word) ∷ pointers bs

-- What aws-c-common documents. The blocks in use, oldest first: a new block is disjoint from them.
-- A ring is released in the order in which it was acquired, so releases are described for the
-- oldest block only.
pub record RingLaws (r : Ring) : Type 0 where
  pub held : r.Store → List Block
  pub ring_acquire_held :
      (n : ℕ) (s t : r.Store) (a : ℕ)
      → r.ring_acquire n s ≡ some (a, t)
      → held t ≡ held s ++ record { address = a; capacity = n; in_ring = true } ∷ []
  pub heap_acquire_held :
      (n : ℕ) (s t : r.Store) (a : ℕ)
      → r.heap_acquire n s ≡ some (a, t)
      → held t ≡ held s ++ record { address = a; capacity = n; in_ring = false } ∷ []
  -- aws_mem_acquire does not return without memory
  pub heap_acquire_returns :
      (n : ℕ) (s : r.Store) → (a : ℕ) × (t : r.Store) × (r.heap_acquire n s ≡ some (a, t))
  pub ring_acquire_load :
      (n : ℕ) (s t : r.Store) (a c : ℕ)
      → r.ring_acquire n s ≡ some (a, t)
      → has c (addresses (held s)) ≡ true
      → ((a == c) ≡ false) × (r.load c t ≡ r.load c s)
  pub heap_acquire_load :
      (n : ℕ) (s t : r.Store) (a c : ℕ)
      → r.heap_acquire n s ≡ some (a, t)
      → has c (addresses (held s)) ≡ true
      → ((a == c) ≡ false) × (r.load c t ≡ r.load c s)
  pub write_held : (a v : ℕ) (s : r.Store) → held (r.write a v s) ≡ held s
  pub write_load :
      (a v c : ℕ) (s : r.Store) → r.load c (r.write a v s) ≡ (if a == c then v else r.load c s)
  pub belongs_oldest :
      (b : Block) (bs : List Block) (s : r.Store)
      → held s ≡ b ∷ bs
      → r.belongs_to_pool b.address b.capacity s ≡ b.in_ring
  pub ring_release_held :
      (b : Block) (bs : List Block) (s : r.Store)
      → held s ≡ b ∷ bs
      → b.in_ring ≡ true
      → held (r.ring_release b.address b.capacity s) ≡ bs
  pub heap_release_held :
      (b : Block) (bs : List Block) (s : r.Store)
      → held s ≡ b ∷ bs
      → b.in_ring ≡ false
      → held (r.heap_release b.address s) ≡ bs
  pub ring_release_load :
      (b : Block) (bs : List Block) (s : r.Store) (c : ℕ)
      → held s ≡ b ∷ bs
      → has c (addresses bs) ≡ true
      → r.load c (r.ring_release b.address b.capacity s) ≡ r.load c s
  pub heap_release_load :
      (b : Block) (bs : List Block) (s : r.Store) (c : ℕ)
      → held s ≡ b ∷ bs
      → has c (addresses bs) ≡ true
      → r.load c (r.heap_release b.address s) ≡ r.load c s

module _ (r : Ring) (laws : RingLaws r) where
  -- In front of each of these blocks stands its size.
  abbrev pub Labelled : List Block → r.Store → Type 0
  Labelled [] s = Unit {0}
  Labelled (b ∷ bs) s = (r.load b.address s ≡ b.capacity) × Labelled bs s

  -- The blocks in use are those behind `ptrs`, in order, and each is labelled.
  pub record Allocated (ptrs : List ℕ) (s : r.Store) : Type 0 where
    pub in_order : pointers (laws.held s) ≡ ptrs
    pub labelled : Labelled (laws.held s) s

  nonempty : {A : Type 0} {x : A} {xs : List A} → ¬ ([] ≡ x ∷ xs)
  nonempty e = cc

  -- The words in front of these blocks have not changed.
  Labelled-same :
      (bs : List Block) (s t : r.Store)
      → ((c : ℕ) → has c (addresses bs) ≡ true → r.load c t ≡ r.load c s)
      → Labelled bs s
      → Labelled bs t
  Labelled-same [] s t h l = tt
  Labelled-same (b ∷ bs) s t h l =
      (h b.address (ground arith) ∙ l.0, Labelled-same bs s t (λ c e. h c (ground arith)) l.1)

  Labelled-append :
      (bs : List Block) (b : Block) (s : r.Store)
      → Labelled bs s
      → r.load b.address s ≡ b.capacity
      → Labelled (bs ++ b ∷ []) s
  Labelled-append [] b s l e = (e, tt)
  Labelled-append (d ∷ bs) b s l e = (l.0, Labelled-append bs b s l.1 e)

  pointers-append :
      (bs : List Block) (b : Block)
      → pointers (bs ++ b ∷ []) ≡ pointers bs ++ (b.address + word) ∷ []
  pointers-append [] b = refl
  pointers-append (d ∷ bs) b = ap (λ l. (d.address + word) ∷ l) (pointers-append bs b)

  label-Allocated :
      (ptrs : List ℕ) (s t : r.Store) (a n : ℕ) (b : Bool)
      → Allocated ptrs s
      → laws.held t ≡ laws.held s ++ record { address = a; capacity = n; in_ring = b } ∷ []
      → ((c : ℕ)
          → has c (addresses (laws.held s)) ≡ true
          → ((a == c) ≡ false) × (r.load c t ≡ r.load c s))
      → Allocated (ptrs ++ (a + word) ∷ []) (r.write a n t)
  label-Allocated ptrs s t a n b h e apart =
      let new : Block = record { address = a; capacity = n; in_ring = b } in
      let e' = laws.write_held a n t ∙ e in
      record {
        in_order =
            rw e' (pointers-append (laws.held s) new ∙ ap (λ l. l ++ (a + word) ∷ []) h.in_order);
        labelled = rw e' (
            Labelled-append (laws.held s) new (r.write a n t)
              (Labelled-same (laws.held s) s (r.write a n t)
                (λ c i. ground (arith, apart c i, laws.write_load a n c t)) h.labelled)
              (ground (arith, laws.write_load a n a t)));
      }

  -- The allocator always finds memory, in the ring or on the heap, and labels it.
  pub ring_buffer_mem_acquire-Allocated :
      (ptrs : List ℕ) (s : r.Store) (size : ℕ)
      → Allocated ptrs s
      → (p : ℕ) × (t : r.Store) × (ring_buffer_mem_acquire r size s ≡ done (p, t))
        × Allocated (ptrs ++ p ∷ []) t
  unfolding ring_buffer_mem_acquire label
  ring_buffer_mem_acquire-Allocated ptrs s size h =
      let n = (size + word) % size_mod in
      elim (Option-cases (r.ring_acquire n s)) [
        | inr ((a, t), e) ↦ (
          a + word,
          r.write a n t,
          rw (e, ring_buffer_mem_acquire) refl,
          label-Allocated ptrs s t a n true h (laws.ring_acquire_held n s t a e)
              (λ c i. laws.ring_acquire_load n s t a c e i),
        )
        | inl e ↦
            let (a, t, e') = laws.heap_acquire_returns n s in
            (
              a + word,
              r.write a n t,
              rw (e, e', ring_buffer_mem_acquire) refl,
              label-Allocated ptrs s t a n false h (laws.heap_acquire_held n s t a e')
                  (λ c i. laws.heap_acquire_load n s t a c e' i),
            )
      ]

  release-oldest :
      (b : Block) (bs : List Block) (p : ℕ) (s : r.Store)
      → laws.held s ≡ b ∷ bs
      → b.address + word ≡ p
      → Labelled (b ∷ bs) s
      → Allocated (pointers bs) (ring_buffer_mem_release r p s)
  unfolding ring_buffer_mem_release
  release-oldest b bs p s e at l =
      let addr : p - word ≡ b.address = omega (arith, at) in
      let size = l.0 in
      let belongs = laws.belongs_oldest b bs s e in
      elim (Bool-cases b.in_ring) [
        | inl i ↦
            let left = laws.ring_release_held b bs s e i in
            rw (addr, size, belongs, i, ring_buffer_mem_release)
              (record {
                in_order = rw left refl;
                labelled = rw left (
                    Labelled-same bs s (r.ring_release b.address b.capacity s)
                      (λ c h. laws.ring_release_load b bs s c e h) l.1);
              })
        | inr i ↦
            let left = laws.heap_release_held b bs s e i in
            rw (addr, size, belongs, i, ring_buffer_mem_release)
              (record {
                in_order = rw left refl;
                labelled = rw left (
                    Labelled-same bs s (r.heap_release b.address s)
                      (λ c h. laws.heap_release_load b bs s c e h) l.1);
              })
      ]

  -- The oldest block goes back to where it came from, whether that is the ring or the heap.
  pub ring_buffer_mem_release-Allocated :
      (p : ℕ) (ptrs : List ℕ) (s : r.Store)
      → Allocated (p ∷ ptrs) s
      → Allocated ptrs (ring_buffer_mem_release r p s)
  ring_buffer_mem_release-Allocated p ptrs s h = elim (List-cases (laws.held s)) [
    | inl e ↦ absurd (nonempty (sym (ap pointers e) ∙ h.in_order))
    | inr (b, bs, e) ↦
        let eq : (b.address + word) ∷ pointers bs ≡ p ∷ ptrs = sym (ap pointers e) ∙ h.in_order in
        let l : Labelled (b ∷ bs) s = subst (λ x. Labelled x s) e h.labelled in
        let rest : pointers bs ≡ ptrs = cc in
        subst (λ x. Allocated x (ring_buffer_mem_release r p s)) rest
          (release-oldest b bs p s e (cc) l)
  ]
