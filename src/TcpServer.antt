-- ===== src/TcpServer.antt =====
-- potato/net/TcpServer.h and TcpServer.cpp: the server's pool of connections, under its lock. A
-- connection is its `index_`.
pub mod Pool
pub mod Lending
pub mod Sections
pub mod Service
pub mod Turnover
pub mod Peers
pub mod Front
pub mod Opening
pub mod Whole
pub mod Deleting
mod Tests
use mathlib.Core.List.{Mem, insert, erase}
use libpotato.Base.{
  ℕ, zero, suc, ◌≢◌, Option, none, some, List, [], ◌∷◌, ◌++◌, Result, ok, err, out_of_range, ◌>>=◌,
  length, get_elem?, ℕ_discrete,
}

-- `connectionPool_` and `availIndex_`, without its duplicates.
pub record TcpServer : Type 0 where
  pub connection_pool : List ℕ
  pub avail_index : List ℕ

-- The loop that adds `n` connections: in the constructor and in `borrowConnection`.
unfoldable pub add_connections : ℕ → TcpServer → TcpServer
add_connections zero s = s
add_connections (suc n) s = add_connections n (record {
  connection_pool = s.connection_pool ++ (length s.connection_pool ∷ []);
  avail_index = insert ℕ_discrete (length s.connection_pool) s.avail_index;
})

unfoldable pub new_server : TcpServer
new_server = add_connections 200 (record { connection_pool = []; avail_index = [] })

-- An element of the vector. An index out of its range is undefined behaviour.
abbrev pub connection_at : List ℕ → ℕ → Result ℕ
connection_at pool i = elim (get_elem? pool i) [ none ↦ err out_of_range | some c ↦ ok c ]

-- `std::unordered_set` does not say which of its elements `begin()` is.
pub record Begin : Type 0 where
  pub first : List ℕ → ℕ
  pub first-Mem : (s : List ℕ) → s ≢ [] → Mem (first s) s

unfoldable pub refilled : TcpServer → TcpServer
refilled s = elim s.avail_index [ [] ↦ add_connections 200 s | i ∷ is ↦ s ]

module _ (begin : Begin) where
  unfoldable pub borrow_connection : TcpServer → Result (ℕ × TcpServer)
  borrow_connection s = do
    let s1 = refilled s
    let index = begin.first s1.avail_index
    c ← connection_at s1.connection_pool index
    ok (c, record s1 { avail_index = erase ℕ_discrete s1.avail_index index })

unfoldable pub return_connection : ℕ → TcpServer → TcpServer
return_connection c s = record s { avail_index = insert ℕ_discrete c s.avail_index }
