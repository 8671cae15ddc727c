-- ===== src/HttpAccess/Pool/Ownership.antt =====
-- Who has a connection of the pool of examples/http_access/ledger.py.
use gpu_batch_crypto.Prelude.{
  ℕ, zero, suc, ◌+◌, ◌-◌, ◌<◌, ◌≡◌, ◌≢◌, ◌⊎◌, refl, inl, inr, Bool, true, false, none, some, List,
  [], ◌∷◌, ◌++◌, ok, ltb, ◌==◌, if◌then◌else◌, length, arith, Bool-cases, Option-cases,
}
use gpu_batch_crypto.HttpAccess.Pool.{
  Pool, granted, lease, lease_idle, lease_new, give_back, open_failed, release, close, opened,
  start,
}
use gpu_batch_crypto.HttpAccess.Pool.Borrowers.{
  System, Step, borrow, begin_open, end_open, fail_open, return, close_pool, take_out, initial,
  Reach, here, next,
}

-- How often a connection is in a list.
unfoldable pub count : ℕ → List ℕ → ℕ
count c [] = 0
count c (d ∷ ds) = (if d == c then 1 else 0) + count c ds

count-append : (c : ℕ) (xs ys : List ℕ) → count c (xs ++ ys) ≡ count c xs + count c ys
unfolding count
count-append c [] ys = omega arith
count-append c (x ∷ xs) ys = omega (arith, count-append c xs ys)

count-opened : (c n : ℕ) → count c (opened n) ≡ (if ltb c n then 1 else 0)
unfolding count opened
count-opened c zero = ground arith
count-opened c (suc n) = ground (arith, count-opened c n)

length-opened : (n : ℕ) → length (opened n) ≡ n
unfolding opened
length-opened zero = refl
length-opened (suc n) = omega (arith, length-opened n)

module _ (c : ℕ) where
  length-take_out :
      (xs : List ℕ) {rest : List ℕ} → take_out c xs ≡ some rest → length xs ≡ suc (length rest)
  unfolding take_out
  length-take_out [] h = cc
  length-take_out (x ∷ xs) {rest} h = elim (Option-cases (take_out c xs)) [
    | inl e ↦ ground (arith, e)
    | inr (ys, e) ↦ ground (arith, e, length-take_out xs e)
  ]

  count-take_out :
      (d : ℕ) (xs : List ℕ) {rest : List ℕ}
      → take_out c xs ≡ some rest
      → count d xs ≡ (if c == d then 1 else 0) + count d rest
  unfolding take_out count
  count-take_out d [] h = cc
  count-take_out d (x ∷ xs) {rest} h = elim (Option-cases (take_out c xs)) [
    | inl e ↦ ground (arith, e)
    | inr (ys, e) ↦ ground (arith, e, count-take_out d xs e)
  ]

pub record IsOwned (s : System) : Type 0 where
  pub once :
      (c : ℕ)
      → count c s.pool.available + count c s.leased + count c s.shut
        ≡ (if ltb c s.fresh then 1 else 0)
  pub counted : s.pool.active ≡ length s.leased + s.opening
  pub full :
      s.pool.pool_size ≢ 0
      → s.pool.closed ≡ false
      → length s.pool.available + s.pool.active ≡ s.pool.pool_size
  pub drained : s.pool.closed ≡ true → s.pool.available ≡ []
  pub idle : s.pool.pool_size ≢ 0 → s.opening ≡ 0

initial-IsOwned : (n : ℕ) → IsOwned (initial n)
unfolding start count
initial-IsOwned n = record {
  once = λ c. omega (arith, count-opened c n);
  counted = omega arith;
  full = λ _ _. omega (arith, length-opened n);
  drained = λ h. absurd (cc);
  idle = λ _. refl;
}

module _ (late : Bool) (p : Pool) {p' : Pool} where
  lease-idle :
      {c : ℕ}
      → lease late p ≡ granted (some c) p'
      → (cs : List ℕ) × (p.available ≡ c ∷ cs)
        × (p.pool_size ≢ 0)
        × (p.closed ≡ false)
        × (p' ≡ record p { available = cs; active = p.active + 1 })
  unfolding lease lease_idle lease_new
  lease-idle {c} h = go p.available p.closed refl refl h
    where
      go :
          (idle : List ℕ) (shut : Bool)
          → p.available ≡ idle
          → p.closed ≡ shut
          → (if p.pool_size == 0 then lease_new p shut else lease_idle late p idle shut)
            ≡ granted (some c) p'
          → (cs : List ℕ) × (p.available ≡ c ∷ cs)
            × (p.pool_size ≢ 0)
            × (p.closed ≡ false)
            × (p' ≡ record p { available = cs; active = p.active + 1 })
      go (d ∷ ds) false a b h = (ds, ground arith, ground arith, ground arith, ground arith)
      go [] false a b h = absurd (ground arith)
      go idle true a b h = absurd (ground arith)

  lease-new :
      lease late p ≡ granted none p'
      → (p.pool_size ≡ 0) × (p.closed ≡ false) × (p' ≡ record p { active = p.active + 1 })
  unfolding lease lease_new lease_idle
  lease-new h = go p.available p.closed refl refl h
    where
      go :
          (idle : List ℕ) (shut : Bool)
          → p.available ≡ idle
          → p.closed ≡ shut
          → (if p.pool_size == 0 then lease_new p shut else lease_idle late p idle shut)
            ≡ granted none p'
          → (p.pool_size ≡ 0) × (p.closed ≡ false) × (p' ≡ record p { active = p.active + 1 })
      go (d ∷ ds) false a b h = (ground arith, ground arith, ground arith)
      go [] false a b h = (ground arith, ground arith, ground arith)
      go idle true a b h = absurd (ground arith)

close-inv :
    (p : Pool) {p' : Pool} {cs : List ℕ}
    → close p ≡ ok (p', cs)
    → (p.active ≡ 0) × (p' ≡ record p { closed = true; available = [] }) × (cs ≡ p.available)
unfolding close
close-inv p h = (ground arith, ground arith, ground arith)

module _ {s : System} (own : IsOwned s) where
  open own use {once, counted, full, drained, idle}

  borrowed :
      (late : Bool) (c : ℕ) (p : Pool)
      → lease late s.pool ≡ granted (some c) p
      → IsOwned (record s { pool = p; leased = c ∷ s.leased })
  unfolding count
  borrowed late c p e =
      let (cs, front, pooled, is_open, after) = lease-idle late s.pool e in
      rw after (record {
        once = λ d. ground (arith, once d, front);
        counted = omega (arith, counted);
        full = λ a b. ground (arith, full a b, front);
        drained = λ h. absurd (cc);
        idle = idle;
      })

  begun :
      (late : Bool) (p : Pool)
      → lease late s.pool ≡ granted none p
      → IsOwned (record s { pool = p; opening = s.opening + 1 })
  begun late p e =
      let (none_pooled, is_open, after) = lease-new late s.pool e in
      rw after (record {
        once = once;
        counted = omega (arith, counted);
        full = λ a b. absurd (a none_pooled);
        drained = drained;
        idle = λ a. absurd (a none_pooled);
      })

  ended :
      (n : ℕ)
      → s.opening ≡ suc n
      → IsOwned (record s { opening = n; leased = s.fresh ∷ s.leased; fresh = s.fresh + 1 })
  unfolding count
  ended n e = record {
    once = λ d. ground (arith, once d);
    counted = omega (arith, counted, e);
    full = full;
    drained = drained;
    idle = λ a. absurd (omega (arith, idle a, e));
  }

  failed :
      (n : ℕ) → s.opening ≡ suc n → IsOwned (record s { opening = n; pool = open_failed s.pool })
  unfolding open_failed
  failed n e = record {
    once = once;
    counted = omega (arith, counted, e);
    full = λ a. absurd (omega (arith, idle a, e));
    drained = drained;
    idle = λ a. absurd (omega (arith, idle a, e));
  }

  -- The borrower's connection is closed, in a ledger without a pool or a closed one.
  module _ (c : ℕ) (rest : List ℕ) (e : take_out c s.leased ≡ some rest) where
    dropped :
        ((s.pool.pool_size ≡ 0) ⊎ (s.pool.closed ≡ true))
        → IsOwned (record s {
          leased = rest;
          pool = record s.pool { active = s.pool.active - 1 };
          shut = c ∷ s.shut;
        })
    unfolding count
    dropped alone = record {
      once = λ d. ground (arith, once d, count-take_out c d s.leased e);
      counted = omega (arith, counted, length-take_out c s.leased e);
      full = λ a b. absurd (ground (arith, alone));
      drained = drained;
      idle = idle;
    }

    kept :
        s.pool.pool_size ≢ 0
        → s.pool.closed ≡ false
        → IsOwned (record s {
          leased = rest;
          pool = record s.pool { active = s.pool.active - 1; available = c ∷ s.pool.available };
        })
    unfolding count
    kept pooled is_open = record {
      once = λ d. ground (arith, once d, count-take_out c d s.leased e);
      counted = omega (arith, counted, length-take_out c s.leased e);
      full = λ a b. omega (arith, full a b, counted, length-take_out c s.leased e);
      drained = λ h. absurd (cc);
      idle = idle;
    }

    quarantined : IsOwned (record s {
      leased = rest;
      pool = record s.pool { active = s.pool.active - 1; closed = true; available = [] };
      shut = c ∷ (s.pool.available ++ s.shut);
    })
    unfolding count
    quarantined = record {
      once = λ d.
          omega
            (arith, once d, count-take_out c d s.leased e, count-append d s.pool.available s.shut);
      counted = omega (arith, counted, length-take_out c s.leased e);
      full = λ a b. absurd (cc);
      drained = λ _. refl;
      idle = idle;
    }

    returned :
        (reusable : Bool)
        → IsOwned (record s {
          leased = rest;
          pool = (release reusable c s.pool).0;
          shut = (release reusable c s.pool).1 ++ s.shut;
        })
    unfolding release give_back
    returned true = elim (Bool-cases (s.pool.pool_size == 0)) [
      | inl t ↦ rw t (dropped (inl (ground (arith, t))))
      | inr t ↦ rw t (go s.pool.closed refl (ground (arith, t)))
    ]
      where
        go :
            (b : Bool)
            → s.pool.closed ≡ b
            → s.pool.pool_size ≢ 0
            → IsOwned (record s {
              leased = rest;
              pool = (give_back c s.pool b).0;
              shut = (give_back c s.pool b).1 ++ s.shut;
            })
        go true shut pooled = dropped (inr shut)
        go false is_open pooled = kept pooled is_open
    returned false = quarantined

  closed_all :
      (p : Pool) (cs : List ℕ)
      → close s.pool ≡ ok (p, cs)
      → IsOwned (record s { pool = p; shut = cs ++ s.shut })
  unfolding count
  closed_all p cs e =
      let (_, after, all) = close-inv s.pool e in
      rw (after, all)
        (record {
          once = λ d. omega (arith, once d, count-append d s.pool.available s.shut);
          counted = counted;
          full = λ a b. absurd (cc);
          drained = λ _. refl;
          idle = idle;
        })

Step-IsOwned : {s s' : System} → Step s s' → IsOwned s → IsOwned s'
Step-IsOwned (borrow late c p e same) own = rw same (borrowed own late c p e)
Step-IsOwned (begin_open late p e same) own = rw same (begun own late p e)
Step-IsOwned (end_open n e same) own = rw same (ended own n e)
Step-IsOwned (fail_open n e same) own = rw same (failed own n e)
Step-IsOwned (return reusable c rest e same) own = rw same (returned own c rest e reusable)
Step-IsOwned (close_pool p cs e same) own = rw same (closed_all own p cs e)

-- Whatever borrowers do, each connection that was opened is idle, with one borrower or closed, and
-- only once; the number of active borrowers is what `_active` says; an open pool has a connection,
-- idle or lent, for each of its places; a closed pool has none that is idle.
pub Reach-IsOwned : (n : ℕ) {s : System} → Reach n s → IsOwned s
Reach-IsOwned n here = initial-IsOwned n
Reach-IsOwned n (next r step) = Step-IsOwned step (Reach-IsOwned n r)

-- When `close` returns, every connection that was opened is closed.
pub close-all :
    (n : ℕ) {s : System} {p : Pool} {cs : List ℕ}
    → Reach n s
    → close s.pool ≡ ok (p, cs)
    → (c : ℕ) → c < s.fresh
    → count c (cs ++ s.shut) ≡ 1
unfolding count
close-all n {s} {p} {cs} r e c h =
    let own = Reach-IsOwned n r in
    let (nobody, _, all) = close-inv s.pool e in
    let none_lent : s.leased ≡ [] = no_elements s.leased (omega (arith, own.counted, nobody)) in
    rw all (ground (arith, own.once c, h, none_lent, count-append c s.pool.available s.shut))
  where
    no_elements : (xs : List ℕ) → length xs ≡ 0 → xs ≡ []
    no_elements [] h = refl
    no_elements (x ∷ xs) h = absurd (omega (arith, h))

-- While a place of an open pool is free, a borrower gets an idle connection without waiting,
-- deadline or not.
pub lease-granted :
    (n : ℕ) {s : System} (late : Bool)
    → Reach n s
    → s.pool.closed ≡ false
    → s.pool.active < s.pool.pool_size
    → (c : ℕ) × (p : Pool) × (lease late s.pool ≡ granted (some c) p) × (count c s.leased ≡ 0)
unfolding lease lease_idle lease_new count
lease-granted n {s} late r is_open free = go s.pool.available refl
  where
    own : IsOwned s
    own = Reach-IsOwned n r

    go :
        (idle : List ℕ)
        → s.pool.available ≡ idle
        → (c : ℕ) × (p : Pool) × (lease late s.pool ≡ granted (some c) p) × (count c s.leased ≡ 0)
    go [] e = absurd (ground (arith, own.full, is_open, free, e))
    go (d ∷ ds) e = (
      d,
      record s.pool { available = ds; active = s.pool.active + 1 },
      ground (arith, is_open, free, e),
      ground (arith, own.once d, e),
    )
