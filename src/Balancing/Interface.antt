-- ===== src/Balancing/Interface.antt =====
-- `Balancer` and `FromIterator` of orion-lib/src/clusters/balancers/mod.rs: what the healthy balancer
-- asks of the one below it. The state `B` holds a list of endpoints, and serves one of them.
use mathlib.Core.List.{Memᴰ}
use orion.Base.{ℕ, ◌≡◌, List, Option, some}

pub record Balancer (E : Type 0) : Type 1 where
  pub B : Type 0
  pub from_iter : List E → B
  pub next_item : Option ℕ → B → B × Option E
  pub Has : B → List E → Type 0
  pub from_iter-Has : (xs : List E) → Has (from_iter xs) xs
  pub next_item-Has :
      (hash : Option ℕ) (b : B) (xs : List E) → Has b xs → Has (next_item hash b).0 xs
  pub serves :
      (hash : Option ℕ) (b : B) (xs : List E) (e : E)
      → Has b xs
      → (next_item hash b).1 ≡ some e
      → Memᴰ e xs
