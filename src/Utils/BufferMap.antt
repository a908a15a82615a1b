-- ===== src/Utils/BufferMap.antt =====
-- The package buffer-map, whose maps from buffers to values the node keeps its caches in: the
-- methods that the sources call are a parameter. A buffer is the number that its bytes spell.
pub mod Pairs
use bcoin.Prelude.{ℕ, ◌≡◌, ◌≢◌, Option, none, some}

-- The methods of a BufferMap that lib/blockchain and lib/coins call.
pub record BufferMap {ℓ} (V : Type ℓ) : Type (ℓ + 1) where
  pub Map : Type ℓ
  pub empty : Map
  pub get : ℕ → Map → Option V
  pub put : ℕ → V → Map → Map
  pub delete : ℕ → Map → Map

-- What the package documents of them: those of a map from buffers to values.
pub record IsMap {ℓ} {V : Type ℓ} (map : BufferMap V) : Type ℓ where
  pub get-empty : (k : ℕ) → map.get k map.empty ≡ none
  pub get-put_same : (k : ℕ) (v : V) (m : map.Map) → map.get k (map.put k v m) ≡ some v
  pub get-put_other :
      (k j : ℕ) (v : V) (m : map.Map) → j ≢ k → map.get j (map.put k v m) ≡ map.get j m
  pub get-delete_same : (k : ℕ) (m : map.Map) → map.get k (map.delete k m) ≡ none
  pub get-delete_other : (k j : ℕ) (m : map.Map) → j ≢ k → map.get j (map.delete k m) ≡ map.get j m
