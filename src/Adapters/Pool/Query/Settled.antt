-- ===== src/Adapters/Pool/Query/Settled.antt =====
-- What a call on the pool of pool.go leaves behind, for the parts that `Query` and `CreateRecord` share.
use loxtu_go.Base.{
  ℕ, suc, ◌+◌, ◌≡◌, refl, ap, Bool, true, false, List, [], ◌∷◌, ◌++◌, arith, length, length-append,
  not, Bool-cases, inl, inr, ◌⊎◌, if◌then◌else◌,
}
use loxtu_go.Base.Result.{Result, ok, err, panics}
use loxtu_go.Adapters.Pool.{Pool, put_new, receive, borrow, conn_error, new_conn}
use loxtu_go.Adapters.Pool.Query.{
  Answer, answered, failed, retried, Call, Outcome, success, failure, nil_connection, panicked,
  hangs, settle, give_back, retry_on, retry, after_reconnect,
}
use loxtu_go.Adapters.Pool.Query.Open.{IsOpen, put-open, put-IsOpen, return-open}

abbrev pub cost : Bool → ℕ
cost lost = if lost then 1 else 0

abbrev pub made : {Conn : Type 0} → Result Conn → Bool
made (ok c) = true
made (err e) = false
made panics = false

-- The call comes to an end that the code means.
abbrev pub is_end : {R : Type 0} → Outcome R → Bool
is_end (success r) = true
is_end (failure e) = true
is_end nil_connection = false
is_end panicked = false
is_end hangs = false

retried-end : {R : Type 0} (a : Answer R) → is_end (retried a) ≡ true
unfolding retried
retried-end (answered r) = refl
retried-end (failed e) = refl

module _ {Conn R : Type 0} where
  -- The call finds its connection dead, and the reconnection fails.
  abbrev pub dies : Call Conn R → Answer R → Bool
  dies call (answered r) = false
  dies call (failed e) = if conn_error e then not (made (new_conn call.dial)) else false

  abbrev pub dies_on : Call Conn R → List Conn → Bool
  dies_on call [] = false
  dies_on call (c ∷ cs) = if call.use_db c then dies call (call.run c) else false

  -- Whether the call costs the pool a connection.
  abbrev pub loses : Call Conn R → Pool Conn → Bool
  loses call p = if call.done_first then false else dies_on call p.conns

  -- What a call leaves of `n` connections that were there or in its hands, if it may lose one.
  pub record IsSettled (n : ℕ) (lost : Bool) (r : Pool Conn × Outcome R) : Type 0 where
    pub count : length r.0.conns + cost lost ≡ n
    pub ends : (is_end r.1 ≡ true) ⊎ ((r.1 ≡ hangs) × (r.0.conns ≡ []))

  IsSettled-at :
      (n m : ℕ) (lost : Bool) (r : Pool Conn × Outcome R)
      → n ≡ m
      → IsSettled n lost r
      → IsSettled m lost r
  IsSettled-at n m lost r e settled = rw e at settled

  lose : (n : ℕ) (r : Pool Conn × Outcome R) → IsSettled n false r → IsSettled (suc n) true r
  lose n r settled = record { count = omega (arith, settled.count); ends = settled.ends }

  pub give_back-IsSettled :
      (c : Conn) (p : Pool Conn) (n k : ℕ) (end : Outcome R)
      → IsOpen n (suc k) p
      → is_end end ≡ true
      → IsSettled (suc n) false (give_back c p end)
  unfolding give_back settle
  give_back-IsSettled c p n k end o e =
      rw (return-open c p n k o)
        (record { count = omega (arith, length-append p.conns (c ∷ []), o.count); ends = inl e })

  retry_on-IsSettled :
      (call : Call Conn R) (c : Conn) (p : Pool Conn) (n k : ℕ)
      → IsOpen n (suc k) p
      → IsSettled (suc n) false (retry_on call c p)
  unfolding retry_on
  retry_on-IsSettled call c p n k o = elim (Bool-cases (call.use_db c)) [
    | inl t ↦ rw t (give_back-IsSettled c p n k (retried (call.run c)) o (retried-end (call.run c)))
    | inr f ↦ rw f (give_back-IsSettled c p n k _ o refl)
  ]

  retry-IsSettled :
      (call : Call Conn R) (done : Bool) (p : Pool Conn) (n k : ℕ)
      → IsOpen n k p
      → IsSettled n false (retry call (borrow done p))
  unfolding retry borrow receive
  retry-IsSettled call true p n k o = record { count = omega (arith, o.count); ends = inl refl }
  retry-IsSettled call false p n k o = go p.conns refl
    where
      go : (cs : List Conn) → p.conns ≡ cs → IsSettled n false (retry call (receive p cs))
      go [] e = rw o.unshut (record { count = omega (arith, o.count); ends = inr (refl, e) })
      go (c ∷ cs) e =
          let many : suc (length cs) ≡ n = omega (arith, ap length e, o.count) in
          IsSettled-at (suc (length cs)) n false _ many (
            retry_on-IsSettled call c (record p { conns = cs }) (length cs) k
              (record {
                count = refl;
                room = omega (arith, o.room, many);
                usable = o.usable;
                unshut = o.unshut;
              }))

  pub answer_reconnected :
      (call : Call Conn R) (r : Result Conn) (p : Pool Conn) (n k : ℕ)
      → IsOpen n (suc k) p
      → IsSettled (suc n) (not (made r)) (after_reconnect call p (put_new r p))
  unfolding after_reconnect put_new
  answer_reconnected call (ok c) p n k o = rw (put-open c p n k o) (
      retry-IsSettled call call.done_second (record p { conns = p.conns ++ c ∷ [] }) (suc n) k
        (put-IsOpen c p n k o))
  answer_reconnected call (err e) p n k o =
      lose n _ (retry-IsSettled call call.done_second p n (suc k) o)
  answer_reconnected call panics p n k o =
      lose n _ (retry-IsSettled call call.done_second p n (suc k) o)

  pub create_reconnected :
      (r : Result Conn) (p : Pool Conn) (n k : ℕ) (end : Outcome R)
      → IsOpen n (suc k) p
      → is_end end ≡ true
      → IsSettled (suc n) (not (made r)) (settle p end (put_new r p))
  unfolding settle put_new
  create_reconnected (ok c) p n k end o e =
      rw (put-open c p n k o)
        (record { count = omega (arith, (put-IsOpen c p n k o).count); ends = inl e })
  create_reconnected (err t) p n k end o e = record { count = omega (arith, o.count); ends = inl e }
  create_reconnected panics p n k end o e = record { count = omega (arith, o.count); ends = inl e }
