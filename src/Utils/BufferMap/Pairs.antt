-- ===== src/Utils/BufferMap/Pairs.antt =====
-- A map from buffers as a list of pairs, for runs of the caches of lib/blockchain and lib/coins.
use bcoin.Prelude.{ℕ, ◌≡◌, ◌≢◌, refl, Option, none, some, List, [], ◌∷◌, arith, ◌==◌, if◌then◌else◌}
use bcoin.Utils.BufferMap.{BufferMap, IsMap}

abbrev pub find {ℓ} : {V : Type ℓ} → ℕ → List (ℕ × V) → Option V
find k [] = none
find k ((j, v) ∷ m) = if j == k then some v else find k m

abbrev pub without {ℓ} : {V : Type ℓ} → ℕ → List (ℕ × V) → List (ℕ × V)
without k [] = []
without k ((j, v) ∷ m) = if j == k then without k m else (j, v) ∷ without k m

abbrev pub pairs_of : (V : Type 0) → BufferMap V
pairs_of V = record {
  Map = List (ℕ × V);
  empty = [];
  get = find;
  put = λ k v m. (k, v) ∷ m;
  delete = without;
}

find-without_same : (V : Type 0) (k : ℕ) (m : List (ℕ × V)) → find k (without k m) ≡ none
find-without_same V k [] = refl
find-without_same V k ((j, v) ∷ m) = ground (arith, find-without_same V k m)

find-without_other :
    (V : Type 0) (k j : ℕ) (m : List (ℕ × V)) → j ≢ k → find j (without k m) ≡ find j m
find-without_other V k j [] ne = refl
find-without_other V k j ((i, v) ∷ m) ne = ground (arith, find-without_other V k j m ne)

pub pairs_of-IsMap : (V : Type 0) → IsMap (pairs_of V)
pairs_of-IsMap V = record {
  get-empty = λ k. refl;
  get-put_same = λ k v m. ground arith;
  get-put_other = λ k j v m ne. ground arith;
  get-delete_same = find-without_same V;
  get-delete_other = find-without_other V;
}
