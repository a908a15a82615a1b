-- ===== src/Blockchain/Locks/Tests.antt =====
-- A chain of five entries, and a transaction that spends a coin two blocks after it.
use bcoin.Prelude.{ℕ, ◌*◌, ◌≡◌, refl, pos, ◌+ℤ◌, ◌-ℤ◌, true, false, none, some, List, [], ◌∷◌}
use bcoin.Utils.BufferMap.Pairs.{pairs_of}
use bcoin.Coins.{Coins}
use bcoin.Coins.View.{View, get_entry}
use bcoin.Blockchain.VersionBits.{Entry, median_time}
use bcoin.Primitives.Tx.{Input, Tx, verify_sequence}
use bcoin.Blockchain.Locks.{verify_locks, get_locks, locks_loop, get_ancestor}
use bcoin.Blockchain.Locks.Sequence.{Passed, verify_locks-verify_sequence}

abbrev entry : ℕ → Entry
entry t = record { hash = t; version = 0; time = t * 600; bits = 0 }

abbrev chain : List Entry
chain = entry 5 ∷ entry 4 ∷ entry 3 ∷ entry 2 ∷ entry 1 ∷ []

abbrev input : Input
input = record { prevout = record { hash = 7; index = 0 }; script = []; sequence = 2 }

abbrev tx : Tx
tx = record {
  version = 2;
  inputs = input ∷ [];
  outputs = [];
  locktime = 0;
  type = 0;
  extra_payload = none;
  size = 100;
}

abbrev view : View (pairs_of Coins)
view = record {
  map = (7, (0, 0) ∷ []) ∷ [];
  undo = [];
  heap =
      record {
        version = 1;
        height = pos 3;
        coinbase = false;
        output = record { value = pos 50; script = [] };
        spent = false;
      }
      ∷ [];
}

accepted : verify_sequence 0 1 tx ≡ some true
unfolding verify_sequence
accepted = refl

locked : verify_locks (pairs_of Coins) (pos 4) chain tx view 1 ≡ some true
unfolding verify_locks get_locks locks_loop get_ancestor median_time get_entry ◌+ℤ◌ ◌-ℤ◌
locked = refl

verify_locks-verify_sequence_example : Passed (pairs_of Coins) (pos 4) chain view 1 input
verify_locks-verify_sequence_example =
    verify_locks-verify_sequence (pairs_of Coins) (pos 4) chain view 0 1 1 tx input refl accepted
      refl refl refl locked
