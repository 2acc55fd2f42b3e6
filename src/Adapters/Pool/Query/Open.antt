-- ===== src/Adapters/Pool/Query/Open.antt =====
-- Receiving from and sending to an open pool of pool.go.
use loxtu_go.Base.{
  ℕ, suc, ◌+◌, ◌≤◌, ◌≡◌, refl, ap, ◌∙◌, false, List, [], ◌∷◌, ◌++◌, arith, length, length-append,
  lt→ltb, if◌then◌else◌,
}
use loxtu_go.Adapters.Pool.{Pool, kept, put, return_conn}

-- An open pool, with `n` connections in its channel and room for `k` more.
pub record IsOpen {Conn : Type 0} (n k : ℕ) (p : Pool Conn) : Type 0 where
  pub count : length p.conns ≡ n
  pub room : n + k ≤ p.max_conns
  pub usable : p.closed ≡ false
  pub unshut : p.channel_closed ≡ false

pub put-open :
    {Conn : Type 0} (c : Conn) (p : Pool Conn) (n k : ℕ)
    → IsOpen n (suc k) p
    → put c p ≡ kept (record p { conns = p.conns ++ c ∷ [] })
unfolding put
put-open c p n k o =
    rw (o.unshut, lt→ltb (length p.conns) p.max_conns (omega (arith, o.count, o.room)))

pub put-IsOpen :
    {Conn : Type 0} (c : Conn) (p : Pool Conn) (n k : ℕ)
    → IsOpen n (suc k) p
    → IsOpen (suc n) k (record p { conns = p.conns ++ c ∷ [] })
put-IsOpen c p n k o = record {
  count = omega (arith, length-append p.conns (c ∷ []), o.count);
  room = omega (arith, o.room);
  usable = o.usable;
  unshut = o.unshut;
}

-- The connections that stay in the channel when one is received.
pub rest-IsOpen :
    {Conn : Type 0} (p : Pool Conn) (c : Conn) (cs : List Conn)
    → p.conns ≡ c ∷ cs
    → length p.conns ≤ p.max_conns
    → p.closed ≡ false
    → p.channel_closed ≡ false
    → IsOpen (length cs) 1 (record p { conns = cs })
rest-IsOpen p c cs e fits usable unshut = record {
  count = refl;
  room = omega (arith, ap length e, fits);
  usable = usable;
  unshut = unshut;
}

pub return-open :
    {Conn : Type 0} (c : Conn) (p : Pool Conn) (n k : ℕ)
    → IsOpen n (suc k) p
    → return_conn c p ≡ kept (record p { conns = p.conns ++ c ∷ [] })
unfolding return_conn
return-open c p n k o = ap (λ b. if b then kept p else put c p) o.usable ∙ put-open c p n k o
