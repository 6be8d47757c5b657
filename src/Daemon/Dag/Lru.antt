-- ===== src/Daemon/Dag/Lru.antt =====
-- The caches of xelis_daemon/src/core/blockchain.rs are those of the library `lru`: their operations are a parameter.
use blockchain_xelis.Prelude.{◌≡◌, ◌⊎◌, Option, some}

-- `get` marks the key as used, and `put` may drop another one.
pub record LruCache (C K V : Type 0) : Type 0 where
  pub get : K → C → Option V × C
  pub put : K → V → C → C

-- What the code relies on: a cache answers with what was put under the key.
pub record LruLaws {C K V : Type 0} (lru : LruCache C K V) : Type 0 where
  pub held : C → K → Option V
  pub get_found : (k : K) (c : C) → (lru.get k c).0 ≡ held c k
  pub get_kept :
      (k : K) (c : C) (k' : K) (v : V) → held (lru.get k c).1 k' ≡ some v → held c k' ≡ some v
  pub put_kept :
      (k : K) (v : V) (c : C) (k' : K) (w : V)
      → held (lru.put k v c) k' ≡ some w
      → ((k' ≡ k) × (w ≡ v)) ⊎ (held c k' ≡ some w)
