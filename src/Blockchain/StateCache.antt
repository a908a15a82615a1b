-- ===== src/Blockchain/StateCache.antt =====
-- `thresholdStates` of lib/blockchain/common.js, and the class StateCache of lib/blockchain/chaindb.js.
-- A hash is the number that its bytes spell.
use bcoin.Prelude.{
  ℕ, zero, suc, ◌≡◌, refl, ap, Bool, false, Option, none, some, List, [], ◌∷◌, ◌==◌, if◌then◌else◌,
  get_elem?, set,
}
use bcoin.Utils.BufferMap.{BufferMap}

pub data ThresholdState : Type 0 where
  defined started locked_in active failed : ThresholdState

abbrev pub number : ThresholdState → ℕ
number defined = 0
number started = 1
number locked_in = 2
number active = 3
number failed = 4

pub record CacheUpdate : Type 0 where
  pub bit : ℕ
  pub hash : ℕ
  pub state : ThresholdState

module _ (map : BufferMap ThresholdState) where
  open map use {Map, get, put, delete}

  -- One map for each bit that has a deployment; null for the others.
  pub record StateCache : Type 0 where
    pub bits : List (Option Map)
    pub updates : List CacheUpdate

  -- `this.bits[bit]`, which is asserted to be a map.
  abbrev pub slot : ℕ → StateCache → Option Map
  slot bit cache = elim (get_elem? cache.bits bit) [ none ↦ none | some o ↦ o ]

  abbrev pub write : ℕ → Map → StateCache → StateCache
  write bit m cache = record cache { bits = set cache.bits bit (some m) }

  abbrev pub same_state : Option ThresholdState → ThresholdState → Bool
  same_state none state = false
  same_state (some old) state = number old == number state

  -- The methods; `none` is a failed assertion. `lookup` is `get`, with `none` for its -1.
  unfoldable pub lookup : ℕ → ℕ → StateCache → Option (Option ThresholdState)
  lookup bit hash cache = elim (slot bit cache) [ none ↦ none | some m ↦ some (get hash m) ]

  unfoldable pub store : ℕ → ℕ → ThresholdState → StateCache → Option StateCache
  store bit hash state cache = elim (slot bit cache) [
    | none ↦ none
    | some m ↦
        if same_state (get hash m) state
        then some cache
        else let update : CacheUpdate = record { bit = bit; hash = hash; state = state } in
          some (record (write bit (put hash state m) cache) { updates = update ∷ cache.updates })
  ]

  unfoldable pub commit : StateCache → StateCache
  commit cache = record cache { updates = [] }

  pub delete_all : List CacheUpdate → StateCache → Option StateCache
  delete_all [] cache = some cache
  delete_all (u ∷ us) cache = elim (slot u.bit cache) [
    | none ↦ none
    | some m ↦ delete_all us (write u.bit (delete u.hash m) cache)
  ]

  unfoldable pub drop_updates : StateCache → Option StateCache
  unfolding delete_all
  drop_updates cache = elim (delete_all cache.updates cache) [
    | none ↦ none
    | some cache' ↦ some (record cache' { updates = [] })
  ]

  unfoldable pub insert : ℕ → ℕ → ThresholdState → StateCache → Option StateCache
  insert bit hash state cache = elim (slot bit cache) [
    | none ↦ none
    | some m ↦ some (write bit (put hash state m) cache)
  ]

  -- What is written at a place that has a map is read there.
  pub slot-write :
      (bit : ℕ) (old new : Map) (bits : List (Option Map)) (updates updates' : List CacheUpdate)
      → slot bit (record { bits = bits; updates = updates }) ≡ some old
      → slot bit (record { bits = set bits bit (some new); updates = updates' }) ≡ some new
  slot-write bit old new [] updates updates' h = cc
  slot-write zero old new (o ∷ bits) updates updates' h = refl
  slot-write (suc bit) old new (o ∷ bits) updates updates' h =
      slot-write bit old new bits updates updates' h

  pub lookup-slot :
      (bit hash : ℕ) (cache : StateCache) (m : Map)
      → slot bit cache ≡ some m
      → lookup bit hash cache ≡ some (get hash m)
  unfolding lookup
  lookup-slot bit hash cache m h =
      ap
        (λ (o : Option Map). elim o as (λ x. Option (Option ThresholdState)) [
          | none ↦ none
          | some m' ↦ some (get hash m')
        ])
        h

  abbrev pub stored : ℕ → ℕ → ThresholdState → StateCache → Map → StateCache
  stored bit hash state cache m = record (write bit (put hash state m) cache) {
    updates = record { bit = bit; hash = hash; state = state } ∷ cache.updates;
  }

  pub store-slot :
      (bit hash : ℕ) (state : ThresholdState) (cache : StateCache) (m : Map)
      → slot bit cache ≡ some m
      → store bit hash state cache ≡ (
          if same_state (get hash m) state
          then some cache
          else some (stored bit hash state cache m))
  unfolding store
  store-slot bit hash state cache m h = rw (h, store) refl
