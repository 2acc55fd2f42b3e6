-- ===== src/Adapters/Pool/Query/Conserve.antt =====
-- `Query` and `CreateRecord` of pool.go give back what they borrow.
use loxtu_go.Base.{
  ℕ, suc, ◌+◌, ◌≤◌, ◌≡◌, refl, ap, Bool, true, false, List, [], ◌∷◌, arith, length, Bool-cases, inl,
  inr, ◌⊎◌, if◌then◌else◌,
}
use loxtu_go.Adapters.Pool.{Pool, receive, borrow, reconnect, conn_error, new_conn}
use loxtu_go.Adapters.Pool.Query.{
  Answer, answered, failed, Call, success, hangs, query_answer, query_on, query_borrowed, query,
  create_answer, create_on, create_borrowed, create_record,
}
use loxtu_go.Adapters.Pool.Query.Open.{IsOpen, rest-IsOpen}
use loxtu_go.Adapters.Pool.Query.Settled.{
  cost, is_end, dies, dies_on, loses, IsSettled, give_back-IsSettled, answer_reconnected,
  create_reconnected,
}

module _ {Conn R : Type 0} where
  query_answer-IsSettled :
      (call : Call Conn R) (c : Conn) (p : Pool Conn) (n k : ℕ) (a : Answer R)
      → IsOpen n (suc k) p
      → IsSettled (suc n) (dies call a) (query_answer call c p a)
  unfolding query_answer reconnect
  query_answer-IsSettled call c p n k (answered r) o =
      give_back-IsSettled c p n k (success r) o refl
  query_answer-IsSettled call c p n k (failed e) o = elim (Bool-cases (conn_error e)) [
    | inl t ↦ rw t (answer_reconnected call (new_conn call.dial) p n k o)
    | inr f ↦ rw f (give_back-IsSettled c p n k _ o refl)
  ]

  create_answer-IsSettled :
      (call : Call Conn R) (c : Conn) (p : Pool Conn) (n k : ℕ) (a : Answer R)
      → IsOpen n (suc k) p
      → IsSettled (suc n) (dies call a) (create_answer call c p a)
  unfolding create_answer reconnect
  create_answer-IsSettled call c p n k (answered r) o =
      give_back-IsSettled c p n k (success r) o refl
  create_answer-IsSettled call c p n k (failed e) o = elim (Bool-cases (conn_error e)) [
    | inl t ↦ rw t (create_reconnected (new_conn call.dial) p n k _ o refl)
    | inr f ↦ rw f (give_back-IsSettled c p n k _ o refl)
  ]

  query_on-IsSettled :
      (call : Call Conn R) (c : Conn) (p : Pool Conn) (n k : ℕ)
      → IsOpen n (suc k) p
      → IsSettled (suc n) (dies_on call (c ∷ p.conns)) (query_on call c p)
  unfolding query_on
  query_on-IsSettled call c p n k o = elim (Bool-cases (call.use_db c)) [
    | inl t ↦ rw t (query_answer-IsSettled call c p n k (call.run c) o)
    | inr f ↦ rw f (give_back-IsSettled c p n k _ o refl)
  ]

  create_on-IsSettled :
      (call : Call Conn R) (c : Conn) (p : Pool Conn) (n k : ℕ)
      → IsOpen n (suc k) p
      → IsSettled (suc n) (dies_on call (c ∷ p.conns)) (create_on call c p)
  unfolding create_on
  create_on-IsSettled call c p n k o = elim (Bool-cases (call.use_db c)) [
    | inl t ↦ rw t (create_answer-IsSettled call c p n k (call.run c) o)
    | inr f ↦ rw f (give_back-IsSettled c p n k _ o refl)
  ]

  query-IsSettled :
      (call : Call Conn R) (done : Bool) (p : Pool Conn)
      → length p.conns ≤ p.max_conns
      → p.closed ≡ false
      → p.channel_closed ≡ false
      → IsSettled
          (length p.conns)
          (if done then false else dies_on call p.conns)
          (query_borrowed call (borrow done p))
  unfolding query_borrowed borrow receive
  query-IsSettled call true p fits usable unshut = record { count = omega arith; ends = inl refl }
  query-IsSettled call false p fits usable unshut = go p.conns refl
    where
      go :
          (cs : List Conn)
          → p.conns ≡ cs
          → IsSettled (length cs) (dies_on call cs) (query_borrowed call (receive p cs))
      go [] e = rw unshut (record { count = omega (arith, ap length e); ends = inr (refl, e) })
      go (c ∷ cs) e =
          query_on-IsSettled call c (record p { conns = cs }) (length cs) 0
            (rest-IsOpen p c cs e fits usable unshut)

  create-IsSettled :
      (call : Call Conn R) (done : Bool) (p : Pool Conn)
      → length p.conns ≤ p.max_conns
      → p.closed ≡ false
      → p.channel_closed ≡ false
      → IsSettled
          (length p.conns)
          (if done then false else dies_on call p.conns)
          (create_borrowed call (borrow done p))
  unfolding create_borrowed borrow receive
  create-IsSettled call true p fits usable unshut = record { count = omega arith; ends = inl refl }
  create-IsSettled call false p fits usable unshut = go p.conns refl
    where
      go :
          (cs : List Conn)
          → p.conns ≡ cs
          → IsSettled (length cs) (dies_on call cs) (create_borrowed call (receive p cs))
      go [] e = rw unshut (record { count = omega (arith, ap length e); ends = inr (refl, e) })
      go (c ∷ cs) e =
          create_on-IsSettled call c (record p { conns = cs }) (length cs) 0
            (rest-IsOpen p c cs e fits usable unshut)

  -- On an open pool, `Query` and `CreateRecord` leave as many connections as they find, less one
  -- exactly if the call finds its connection dead and the reconnection fails. They end with a
  -- result or an error, or wait for a connection in an empty channel: no send waits or panics, and
  -- no nil connection is used.
  pub call_conserves :
      (call : Call Conn R) (p : Pool Conn)
      → length p.conns ≤ p.max_conns
      → p.closed ≡ false
      → p.channel_closed ≡ false
      → (length (query call p).0.conns + cost (loses call p) ≡ length p.conns)
        × ((is_end (query call p).1 ≡ true)
            ⊎ (((query call p).1 ≡ hangs) × ((query call p).0.conns ≡ [])))
        × (length (create_record call p).0.conns + cost (loses call p) ≡ length p.conns)
        × ((is_end (create_record call p).1 ≡ true)
            ⊎ (((create_record call p).1 ≡ hangs) × ((create_record call p).0.conns ≡ [])))
  unfolding query create_record
  call_conserves call p fits usable unshut =
      let q = query-IsSettled call call.done_first p fits usable unshut in
      let c = create-IsSettled call call.done_first p fits usable unshut in
      (q.count, q.ends, c.count, c.ends)
