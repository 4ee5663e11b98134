-- ===== src/Stocks/Tests.antt =====
-- The theorems on `StockFactory` at a factory with one stock.
use tools_demo.Base.{ℕ, ◌≡◌, refl, [], ◌∷◌, ℕ_discrete, arith}
use tools_demo.Stocks.{Factory, get, drop_ref, remove_stock, TwoStocks, remove_races}

abbrev one_stock : Factory ℕ
one_stock = record { stocks = (7, 0) ∷ []; refs = (0, 1) ∷ []; fresh = 1 }

remove_races_example : TwoStocks ℕ_discrete (get ℕ_discrete 7 (drop_ref ℕ_discrete 0 one_stock)) (
    get ℕ_discrete 7
      (remove_stock ℕ_discrete 7 (get ℕ_discrete 7 (drop_ref ℕ_discrete 0 one_stock)).1))
unfolding tools_demo.Base.Dict.find ℕ_discrete
remove_races_example = remove_races ℕ_discrete 7 0 one_stock refl refl (refl, tt)
