-- ===== src/Adapters/Pool/Bounds.antt =====
-- How many connections the pool of pool.go has, in its channel and with its callers.
use loxtu_go.Base.{
  ℕ, zero, suc, ◌+◌, ◌≤◌, ◌<◌, ◌≡◌, ◌≢◌, ◌⊎◌, inl, inr, refl, sym, ap, ◌∙◌, true, false, List, [],
  ◌∷◌, ◌++◌, arith, length, length-append, Bool-cases, is_empty,
}
use loxtu_go.Base.Result.{Result, ok, err, panics}
use loxtu_go.Adapters.Pool.{
  Config, Pool, Dial, got, Sent, kept, send_waits, send_panics, new_conn, put, receive, borrow,
  filled, fill, new_pool, pool_size, empty_pool, sent_first,
}
use loxtu_go.Adapters.Pool.Steps.{
  System, Step, borrowed, checked, discarded, redialed, dropped, sent, close_begins, drained,
  channel_closes, Steps, here, later, total, Reach, made,
}

module _ {Conn : Type 0} where
  length-split : (xs ys : List Conn) (c : Conn) → length (xs ++ c ∷ ys) ≡ suc (length (xs ++ ys))
  length-split xs ys c = omega (arith, length-append xs (c ∷ ys), length-append xs ys)

  pub length-of_split :
      (zs xs ys : List Conn) (c : Conn) → zs ≡ xs ++ c ∷ ys → length zs ≡ suc (length (xs ++ ys))
  length-of_split zs xs ys c e = rw e (length-split xs ys c)

  -- Nothing is in a closed channel, and only `Close` closes it.
  abbrev IsShut : Pool Conn → Type 0
  IsShut p = (p.channel_closed ≡ false) ⊎ ((p.closed ≡ true) × (p.conns ≡ []))

  pub put-kept :
      (c : Conn) (p q : Pool Conn)
      → put c p ≡ kept q
      → (q ≡ record p { conns = p.conns ++ c ∷ [] })
        × (p.channel_closed ≡ false)
        × (length p.conns < p.max_conns)
  unfolding put
  put-kept c p q e = grind arith

  receive-got :
      (p q : Pool Conn) (c : Conn) (cs : List Conn)
      → receive p cs ≡ (q, got c)
      → (cs ≡ c ∷ q.conns) × (q ≡ record p { conns = q.conns })
  unfolding receive
  receive-got p q c [] r = elim (Bool-cases p.channel_closed) [
    | inl t ↦ absurd (cc (rw t at r))
    | inr f ↦ absurd (cc (rw f at r))
  ]
  receive-got p q c (d ∷ ds) r =
      let e : record p { conns = ds } ≡ q = ap (λ x. x.0) r in
      let f : ds ≡ q.conns = ap (λ x. x.conns) e in (cc, sym (rw f at e))

  pub borrow-got :
      (p q : Pool Conn) (c : Conn)
      → borrow false p ≡ (q, got c)
      → (p.conns ≡ c ∷ q.conns) × (q ≡ record p { conns = q.conns })
  unfolding borrow
  borrow-got p q c e = receive-got p q c p.conns e

  record Inv (s : System Conn) : Type 0 where
    fits : total s ≤ s.pool.max_conns
    shut : IsShut s.pool

  Step-Inv : {s t : System Conn} → Step s t → Inv s → Inv t
  unfolding total
  Step-Inv {s} (borrowed {p} {c} e) inv =
      let (f, g) = borrow-got s.pool p c e in
      record {
        fits = omega (arith, inv.fits, ap length f, ap (λ q. q.max_conns) g);
        shut = elim inv.shut [
          | inl unshut ↦ inl (ap (λ q. q.channel_closed) g ∙ unshut)
          | inr (_, none_left) ↦ absurd (cc (f, none_left))
        ];
      }
  Step-Inv (checked c xs ys e open_yet) inv = record {
    fits = omega (arith, inv.fits, length-of_split _ xs ys c e);
    shut = inv.shut;
  }
  Step-Inv (discarded c xs ys e _) inv = record {
    fits = omega (arith, inv.fits, length-of_split _ xs ys c e);
    shut = inv.shut;
  }
  Step-Inv (redialed c xs ys dial e f) inv = record {
    fits = omega (arith, inv.fits, length-of_split _ xs ys c e);
    shut = inv.shut;
  }
  Step-Inv (dropped c xs ys dial e f) inv = record {
    fits = omega (arith, inv.fits, length-of_split _ xs ys c e);
    shut = inv.shut;
  }
  Step-Inv {s} (sent c xs ys {p} e k) inv =
      let (f, g, h) = put-kept c s.pool p k in
      record {
        fits = omega (
          arith,
          inv.fits,
          length-of_split _ xs ys c e,
          ap (λ q. length q.conns) f,
          length-append s.pool.conns (c ∷ []),
          ap (λ q. q.max_conns) f,
        );
        shut = inl (ap (λ q. q.channel_closed) f ∙ g);
      }
  Step-Inv (close_begins open_yet) inv = record { fits = inv.fits; shut = ground (arith, inv.shut) }
  Step-Inv (drained c_t sh e) inv = record {
    fits = omega (arith, inv.fits, ap length e);
    shut = inl sh;
  }
  Step-Inv (channel_closes c_t sh e) inv = record { fits = inv.fits; shut = inr (c_t, e) }

  Steps-Inv : {s t : System Conn} → Steps s t → Inv s → Inv t
  Steps-Inv here inv = inv
  Steps-Inv (later steps step) inv = Step-Inv step (Steps-Inv steps inv)

  sent_first-kept : (r : Sent Conn) (q : Pool Conn) → sent_first r ≡ ok q → r ≡ kept q
  unfolding sent_first
  sent_first-kept (kept p) q e = cc
  sent_first-kept send_panics q e = absurd cc
  sent_first-kept send_waits q e = absurd cc

  -- A pool under construction holds `n` connections, and has room for as many as are left.
  record IsFilling (n most : ℕ) (p : Pool Conn) : Type 0 where
    count : length p.conns ≡ n
    room : p.max_conns ≡ most
    usable : p.closed ≡ false
    unshut : p.channel_closed ≡ false

  filled-IsFilling :
      (r : Result Conn) (p q : Pool Conn) (n most : ℕ)
      → filled r p ≡ ok q
      → IsFilling n most p
      → IsFilling (n + 1) most q
  unfolding filled
  filled-IsFilling (ok c) p q n most e fine =
      let (f, g, h) = put-kept c p q (sent_first-kept (put c p) q e) in
      record {
        count =
            omega (arith, ap (λ x. length x.conns) f, length-append p.conns (c ∷ []), fine.count);
        room = ap (λ x. x.max_conns) f ∙ fine.room;
        usable = ap (λ x. x.closed) f ∙ fine.usable;
        unshut = ap (λ x. x.channel_closed) f ∙ fine.unshut;
      }
  filled-IsFilling (err t) p q n most e fine = absurd cc
  filled-IsFilling panics p q n most e fine = absurd cc

  recount : (n m most : ℕ) (p : Pool Conn) → n ≡ m → IsFilling n most p → IsFilling m most p
  recount n m most p e fine = rw e at fine

  fill-IsFilling :
      (dial : ℕ → Dial Conn) (i left : ℕ) (r : Result (Pool Conn)) (q : Pool Conn) (n most : ℕ)
      → fill dial i left r ≡ ok q
      → ((p : Pool Conn) → r ≡ ok p → IsFilling n most p)
      → IsFilling (n + left) most q
  unfolding fill
  fill-IsFilling dial i zero r q n most e fine = recount _ _ most q (omega arith) (fine q e)
  fill-IsFilling dial i (suc left) (ok p) q n most e fine =
      let done =
        fill-IsFilling dial (i + 1) left (filled (new_conn (dial i)) p) q (n + 1) most e
          (λ x f. filled-IsFilling (new_conn (dial i)) p x n most f (fine p refl)) in
      recount _ _ most q (omega arith) done
  fill-IsFilling dial i (suc left) (err t) q n most e fine = absurd cc
  fill-IsFilling dial i (suc left) panics q n most e fine = absurd cc

  IsFilling-start :
      (cfg : Config) (q : Pool Conn)
      → ok (empty_pool cfg (pool_size cfg)) ≡ ok q
      → IsFilling 0 (pool_size cfg) q
  IsFilling-start cfg q e =
      let same : empty_pool cfg (pool_size cfg) ≡ q = cc in
      rw (← same) (record { count = refl; room = refl; usable = refl; unshut = refl })

  new_pool-IsFilling :
      (dial : ℕ → Dial Conn) (cfg : Config) (p : Pool Conn)
      → new_pool dial cfg ≡ ok p
      → IsFilling (pool_size cfg) (pool_size cfg) p
  unfolding new_pool
  new_pool-IsFilling dial cfg p e = elim (Bool-cases (is_empty cfg.endpoint)) [
    | inl t ↦ absurd (cc (rw t at e))
    | inr f ↦ recount _ _ (pool_size cfg) p (omega arith) (
        fill-IsFilling dial 0 (pool_size cfg) _ p 0 (pool_size cfg) (rw f at e)
          (λ q g. IsFilling-start cfg q g))
  ]

  -- A pool that `NewPool` returns is open and full: it has as many connections as it may have.
  pub new_pool_full :
      (dial : ℕ → Dial Conn) (cfg : Config) (p : Pool Conn)
      → new_pool dial cfg ≡ ok p
      → (length p.conns ≡ pool_size cfg)
        × (p.max_conns ≡ pool_size cfg)
        × (p.closed ≡ false)
        × (p.channel_closed ≡ false)
  new_pool_full dial cfg p e =
      let fine = new_pool-IsFilling dial cfg p e in
      (fine.count, fine.room, fine.usable, fine.unshut)

  Reach-Inv : {s : System Conn} → Reach s → Inv s
  Reach-Inv (made dial cfg {p} e steps) =
      let (count, room, usable, unshut) = new_pool_full dial cfg p e in
      Steps-Inv steps
        (record { fits = unfold total in omega (arith, count, room); shut = inl unshut })

  -- However the callers of the pool run, the connections in its channel, in use and on their way
  -- back are never more than the channel has room for.
  pub pool_bounded : {s : System Conn} → Reach s → total s ≤ s.pool.max_conns
  pool_bounded reached = (Reach-Inv reached).fits

  -- A caller that sends a connection back never waits, since the channel has room for it.
  pub return_never_waits :
      (s : System Conn) (c : Conn) (xs ys : List Conn)
      → Reach s
      → s.returning ≡ xs ++ c ∷ ys
      → put c s.pool ≢ send_waits
  unfolding total put
  return_never_waits s c xs ys reached e waits_here =
      let fits = pool_bounded reached in
      let back = length-of_split s.returning xs ys c e in absurd (grind arith)

  -- As long as `Close` has not been called, no send panics.
  pub return_never_panics :
      (s : System Conn) (c : Conn) → Reach s → s.pool.closed ≡ false → put c s.pool ≢ send_panics
  unfolding put
  return_never_panics s c reached usable panicked = elim (Reach-Inv reached).shut [
    | inl unshut ↦ absurd (grind arith)
    | inr (shut, _) ↦ absurd (cc (usable, shut))
  ]
