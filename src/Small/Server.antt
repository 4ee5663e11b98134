-- ===== src/Small/Server.antt =====
-- `NewServer` and its options of StockFactory/Structmain.cpp.
use tools_demo.Base.{ℕ, ◌≡◌, refl, Option, none, List, [], ◌∷◌}

pub record Server : Type 0 where
  pub addr : List ℕ
  pub port : ℕ
  pub protocol : List ℕ
  pub timeout : ℕ
  pub max_conns : ℕ
  pub tls : Option ℕ

-- `Protocol`, `Timeout`, `MaxConns` and `TLS`
pub data Setting : Type 0 where
  set_protocol : List ℕ → Setting
  set_timeout : ℕ → Setting
  set_max_conns : ℕ → Setting
  set_tls : Option ℕ → Setting

unfoldable pub apply : Setting → Server → Server
apply (set_protocol p) s = record s { protocol = p }
apply (set_timeout t) s = record s { timeout = t }
apply (set_max_conns n) s = record s { max_conns = n }
apply (set_tls c) s = record s { tls = c }

unfoldable pub apply_all : List Setting → Server → Server
apply_all [] s = s
apply_all (o ∷ os) s = apply_all os (apply o s)

-- "tcp", 30 seconds, 1000 connections and no TLS
unfoldable pub new_server : List ℕ → ℕ → List Setting → Server
new_server addr port options = apply_all options (record {
  addr = addr;
  port = port;
  protocol = 116 ∷ 99 ∷ 112 ∷ [];
  timeout = 30;
  max_conns = 1000;
  tls = none;
})

-- The last timeout of the options, or the one before them
abbrev pub last_timeout : List Setting → ℕ → ℕ
last_timeout [] d = d
last_timeout (set_timeout t ∷ os) d = last_timeout os t
last_timeout (set_protocol p ∷ os) d = last_timeout os d
last_timeout (set_max_conns n ∷ os) d = last_timeout os d
last_timeout (set_tls c ∷ os) d = last_timeout os d

apply_all-timeout :
    (os : List Setting) (s : Server)
    → ((apply_all os s).timeout ≡ last_timeout os s.timeout)
      × ((apply_all os s).addr ≡ s.addr)
      × ((apply_all os s).port ≡ s.port)
unfolding apply_all apply
apply_all-timeout [] s = (refl, refl, refl)
apply_all-timeout (set_timeout t ∷ os) s = apply_all-timeout os (record s { timeout = t })
apply_all-timeout (set_protocol p ∷ os) s = apply_all-timeout os (record s { protocol = p })
apply_all-timeout (set_max_conns n ∷ os) s = apply_all-timeout os (record s { max_conns = n })
apply_all-timeout (set_tls c ∷ os) s = apply_all-timeout os (record s { tls = c })

-- A new server has the last timeout of its options, 30 seconds without one, and the address and the port
-- that were given.
pub new_server-timeout :
    (addr : List ℕ) (port : ℕ) (os : List Setting)
    → ((new_server addr port os).timeout ≡ last_timeout os 30)
      × ((new_server addr port os).addr ≡ addr)
      × ((new_server addr port os).port ≡ port)
unfolding new_server
new_server-timeout addr port os = apply_all-timeout os _
