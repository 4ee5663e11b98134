-- ===== src/Stocks.antt =====
-- `StockFactory` of StockFactory/main.cpp, its calls and the callback of its stocks as the steps that hold
-- its mutex. A stock is its address. Dropping a reference and running the callback of the last one are two
-- steps, since other threads may come between them.
mod Tests
use tools_demo.Base.{
  ℕ, zero, suc, ◌+◌, ◌-◌, ◌<◌, ◌≡◌, ◌≢◌, ◌⊎◌, subst, refl, sym, ap, ◌∙◌, Option, none, some, List,
  [], ◌∷◌, arith, ℕ_discrete, Option-cases, Nat-cases, inl, inr, ite,
}
use tools_demo.Base.Dict.{
  find, assign, erase, find-assign, find-erase_self, IsDistinct, assign-IsDistinct,
}

pub record Factory (K : Type 0) : Type 0 where
  -- the weak pointers by key
  pub stocks : List (K × ℕ)
  -- the references to each stock
  pub refs : List (ℕ × ℕ)
  -- the address that the next stock gets
  pub fresh : ℕ

module _ {K : Type 0} (dec : Discrete K) where
  abbrev pub count : ℕ → Factory K → ℕ
  count a s = elim (find ℕ_discrete a s.refs) [ none ↦ 0 | some n ↦ n ]

  -- `new Stock(key)`, and its weak pointer under the key
  unfoldable pub make : K → Factory K → ℕ × Factory K
  make k s = (
    s.fresh,
    record s {
      stocks = assign dec k s.fresh s.stocks;
      refs = assign ℕ_discrete s.fresh 1 s.refs;
      fresh = s.fresh + 1;
    },
  )

  -- `wkStock.lock()` of a stock with no references fails.
  unfoldable pub lock_or_make : K → ℕ → Factory K → ℕ × Factory K
  lock_or_make k a s = elim (count a s) [
    | zero ↦ make k s
    | suc n ↦ (a, record s { refs = assign ℕ_discrete a (suc n + 1) s.refs })
  ]

  unfoldable pub get : K → Factory K → ℕ × Factory K
  get k s = elim (find dec k s.stocks) [ none ↦ make k s | some a ↦ lock_or_make k a s ]

  -- A `shared_ptr` to the stock is destroyed.
  unfoldable pub drop_ref : ℕ → Factory K → Factory K
  drop_ref a s = record s { refs = assign ℕ_discrete a (count a s - 1) s.refs }

  -- `removeStock` of a stock with the key, from `weakDeleteCallback`
  unfoldable pub remove_stock : K → Factory K → Factory K
  remove_stock k s = record s { stocks = erase dec k s.stocks }

  get_live :
      (k : K) (a n : ℕ) (s : Factory K)
      → find dec k s.stocks ≡ some a
      → find ℕ_discrete a s.refs ≡ some (suc n)
      → get k s ≡ (a, record s { refs = assign ℕ_discrete a (suc n + 1) s.refs })
  unfolding get lock_or_make
  get_live k a n s e c = ground (arith, e, c)

  get_gone :
      (k : K) (a : ℕ) (s : Factory K)
      → find dec k s.stocks ≡ some a
      → count a s ≡ 0
      → get k s ≡ make k s
  unfolding get lock_or_make
  get_gone k a s e c = ground (arith, e, c)

  get_absent : (k : K) (s : Factory K) → find dec k s.stocks ≡ none → get k s ≡ make k s
  unfolding get
  get_absent k s e = ground (arith, e)

  assigned :
      {V : Type 0} (k : K) (v : V) (m : List (K × V)) → find dec k (assign dec k v m) ≡ some v
  assigned k v m = let e = find-assign dec k k v m in ground (arith, e)

  referred : (a n : ℕ) (m : List (ℕ × ℕ)) → find ℕ_discrete a (assign ℕ_discrete a n m) ≡ some n
  referred a n m = let e = find-assign ℕ_discrete a a n m in ground (arith, e)

  counted : (a n : ℕ) (s : Factory K) → count a s ≡ suc n → find ℕ_discrete a s.refs ≡ some (suc n)
  counted a n s c = elim (Option-cases (find ℕ_discrete a s.refs)) [
    | inl e ↦ absurd (ground (arith, e, c))
    | inr (m, e) ↦ ground (arith, e, c)
  ]

  again :
      (k : K) (s : Factory K) (r : ℕ × Factory K)
      → get k s ≡ r
      → (get k r.1).0 ≡ r.0
      → (get k (get k s).1).0 ≡ (get k s).0
  again k s r e h = subst (λ x. (get k x.1).0 ≡ x.0) (sym e) h

  make-get : (k : K) (s : Factory K) → (get k (make k s).1).0 ≡ (make k s).0
  unfolding make
  make-get k s =
      ap (λ r. r.0)
        (get_live k s.fresh 0 (make k s).1 (assigned k s.fresh s.stocks)
          (referred s.fresh 1 s.refs))

  -- A second `get` of a key, right after the first, returns the same stock.
  pub get-get : (k : K) (s : Factory K) → (get k (get k s).1).0 ≡ (get k s).0
  get-get k s = elim (Option-cases (find dec k s.stocks)) [
    | inl e ↦ again k s (make k s) (get_absent k s e) (make-get k s)
    | inr (a, e) ↦ elim (Nat-cases (count a s)) [
      | inl z ↦ again k s (make k s) (get_gone k a s e z) (make-get k s)
      | inr (n, c) ↦
          let found : find ℕ_discrete a s.refs ≡ some (suc n) = counted a n s c in
          let t = record s { refs = assign ℕ_discrete a (suc n + 1) s.refs } in
          let up : find ℕ_discrete a t.refs ≡ some (suc (suc n)) =
            referred a (suc n + 1) s.refs ∙ ap some (omega arith) in
          again k s (a, t) (get_live k a n s e found) (ap (λ r. r.0) (get_live k a (suc n) t e up))
    ]
  ]

  -- The two calls returned different stocks, and both are in use.
  abbrev pub TwoStocks : ℕ × Factory K → ℕ × Factory K → Type 0
  TwoStocks second third =
      (second.0 ≢ third.0) × (count second.0 third.1 ≡ 1) × (count third.0 third.1 ≡ 1)

  make-make :
      (k : K) (u t : Factory K)
      → t.fresh ≡ u.fresh + 1
      → find ℕ_discrete u.fresh t.refs ≡ some 1
      → TwoStocks (make k u) (make k t)
  unfolding make
  make-make k u t f e =
      let seen = find-assign ℕ_discrete u.fresh t.fresh 1 t.refs in
      let here = referred t.fresh 1 t.refs in
      ((λ z. omega arith), ground (arith, seen, e), ground (arith, here))

  -- Where a stock has one reference left, and the last one goes while another thread gets the key before
  -- the callback has removed the stock, the callback removes the new stock's entry. The next `get` makes a
  -- third stock, while the second is in use: two stocks for one key.
  pub remove_races :
      (k : K) (a : ℕ) (s : Factory K)
      → find dec k s.stocks ≡ some a
      → find ℕ_discrete a s.refs ≡ some 1
      → IsDistinct dec s.stocks
      → TwoStocks (get k (drop_ref a s)) (get k (remove_stock k (get k (drop_ref a s)).1))
  unfolding drop_ref remove_stock make
  remove_races k a s e c d =
      let dropped = drop_ref a s in
      let gone : count a dropped ≡ 0 =
        ap (λ o. elim o as (λ _. ℕ) [ none ↦ 0 | some n ↦ n ]) (referred a (count a s - 1) s.refs)
        ∙ omega (arith, ap (λ o. elim o as (λ _. ℕ) [ none ↦ 0 | some n ↦ n ]) c) in
      let made = get_gone k a dropped e gone in
      let u = (make k dropped).1 in
      let absent = find-erase_self dec k u.stocks (assign-IsDistinct dec k s.fresh s.stocks d) in
      let t = remove_stock k u in
      let made' : get k t ≡ make k t = get_absent k t absent in
      subst (λ r. TwoStocks r (get k (remove_stock k r.1))) (sym made)
        (subst (TwoStocks (make k dropped)) (sym made')
          (make-make k dropped t refl (referred s.fresh 1 dropped.refs)))
