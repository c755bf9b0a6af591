-- ===== src/Ownership.antt =====
-- Which blocks a piece of code holds: the specification that the components' balance theorems use.
-- The state is that of the allocator in Napi.antt.
use aws_crt_nodejs.Base.{
  ℕ, ◌≡◌, refl, true, false, ◌||◌, some, List, [], ◌∷◌, ◌++◌, arith, has, has-append, Distinct,
  Bool-cases,
}
use aws_crt_nodejs.Napi.{Memory}

module _ (m : Memory) where
  -- Between `s` and `t` the blocks `bs`, and no others, were taken and are still held.
  pub record Holds (s t : m.Store) (bs : List ℕ) : Type 0 where
    pub live_iff : (c : ℕ) → m.live t c ≡ (has c bs || m.live s c)
    pub apart : (c : ℕ) → has c bs ≡ true → m.live s c ≡ false
    pub distinct : Distinct bs

  -- Nothing was leaked and nothing of the caller's was released.
  abbrev pub SameLive : m.Store → m.Store → Type 0
  SameLive s t = (c : ℕ) → m.live t c ≡ m.live s c

Distinct-append :
    (bs cs : List ℕ)
    → Distinct bs
    → Distinct cs
    → ((c : ℕ) → has c bs ≡ true → has c cs ≡ false)
    → Distinct (bs ++ cs)
Distinct-append [] cs d e h = e
Distinct-append (b ∷ bs) cs d e h = (
  ground (arith, has-append b bs cs, h b),
  Distinct-append bs cs d.1 e (λ c i. ground (arith, h c)),
)

-- The parts of a list without repetitions.
Distinct-parts :
    (bs cs : List ℕ)
    → Distinct (bs ++ cs)
    → Distinct bs × Distinct cs × ((c : ℕ) → has c cs ≡ true → has c bs ≡ false)
Distinct-parts [] cs d = (tt, d, λ c h. refl)
Distinct-parts (b ∷ bs) cs d =
    let (left, right, apart) = Distinct-parts bs cs d.1 in
    let e = has-append b bs cs in
    ((ground (arith, e), left), right, λ c h. grind (arith, e, apart c h))

module _ {m : Memory} where
  pub Holds-nil : (s : m.Store) → Holds m s s []
  Holds-nil s = record { live_iff = λ c. refl; apart = λ c h. cc; distinct = tt }

  pub SameLive-of_Holds : {s t : m.Store} → Holds m s t [] → SameLive m s t
  SameLive-of_Holds h = h.live_iff

  pub Holds-of_SameLive : {s t : m.Store} → SameLive m s t → Holds m s t []
  Holds-of_SameLive h = record { live_iff = h; apart = λ c e. cc; distinct = tt }

  pub Holds-init :
      (n : ℕ) (s t : m.Store) (b : ℕ) → m.buf_init n s ≡ some (b, t) → Holds m s t (b ∷ [])
  Holds-init n s t b e = record {
    live_iff = λ c. ground (arith, m.buf_init_live n s t b c e);
    apart = λ c h. ground (arith, m.buf_init_fresh n s t b e);
    distinct = (refl, tt);
  }

  pub Holds-append :
      {s t u : m.Store} {bs cs : List ℕ} → Holds m s t bs → Holds m t u cs → Holds m s u (bs ++ cs)
  Holds-append {bs} {cs} h k = record {
    live_iff = λ c. ground (arith, h.live_iff c, k.live_iff c, has-append c bs cs);
    apart = λ c e. ground (arith, h.live_iff c, k.apart c, h.apart c, has-append c bs cs);
    distinct =
        Distinct-append bs cs h.distinct k.distinct
          λ c e. ground (arith, h.live_iff c, k.apart c, Bool-cases (has c cs));
  }

  -- The same, the later blocks first.
  pub Holds-prepend :
      {s t u : m.Store} {bs cs : List ℕ} → Holds m s t bs → Holds m t u cs → Holds m s u (cs ++ bs)
  Holds-prepend {bs} {cs} h k = record {
    live_iff = λ c. ground (arith, h.live_iff c, k.live_iff c, has-append c cs bs);
    apart = λ c e. ground (arith, h.live_iff c, k.apart c, h.apart c, has-append c cs bs);
    distinct =
        Distinct-append cs bs k.distinct h.distinct
          λ c e. ground (arith, h.live_iff c, k.apart c, Bool-cases (has c bs));
  }

  pub Holds-swap :
      {s t : m.Store} (bs cs : List ℕ) → Holds m s t (bs ++ cs) → Holds m s t (cs ++ bs)
  Holds-swap bs cs h =
      let (left, right, apart) = Distinct-parts bs cs h.distinct in
      record {
        live_iff = λ c. ground (arith, h.live_iff c, has-append c cs bs, has-append c bs cs);
        apart = λ c e. ground (arith, h.apart c, has-append c cs bs, has-append c bs cs);
        distinct = Distinct-append cs bs right left apart;
      }

  -- Releasing the oldest block that is held leaves the others.
  pub Holds-clean_up :
      {s t : m.Store} (b : ℕ) {bs : List ℕ} → Holds m s t (b ∷ bs) → Holds m s (m.clean_up b t) bs
  Holds-clean_up {s} {t} b {bs} h = record {
    live_iff = λ c.
        ground (arith, h.live_iff b, h.live_iff c, m.clean_up_live t b c, h.apart c, h.distinct);
    apart = λ c e. ground (arith, h.apart c);
    distinct = h.distinct.1;
  }
