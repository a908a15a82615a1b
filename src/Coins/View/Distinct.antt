-- ===== src/Coins/View/Distinct.antt =====
-- Lists of outpoints in which none stands twice, and their parts.
use bcoin.Prelude.{
  ℕ, zero, suc, ◌≡◌, ◌≢◌, refl, sym, Bool, true, false, ◌&&◌, List, [], ◌∷◌, take, drop, All,
}
use bcoin.Coins.View.{Outpoint}

-- No outpoint stands twice in the list.
abbrev pub NotIn : Outpoint → List Outpoint → Type 0
NotIn q ps = All (λ p. q ≢ p) ps

abbrev pub AreDistinct : List Outpoint → Type 0
AreDistinct [] = Unit
AreDistinct (p ∷ ps) = NotIn p ps × AreDistinct ps

pub and_assoc : (a b c : Bool) {d : Bool} → d ≡ (b && c) → (a && d) ≡ ((a && b) && c)
and_assoc true b c e = e
and_assoc false b c e = refl

-- The two parts of a list of distinct outpoints.
pub NotIn-take : (k : ℕ) (q : Outpoint) (ps : List Outpoint) → NotIn q ps → NotIn q (take k ps)
NotIn-take zero q ps n = tt
NotIn-take (suc k) q [] n = tt
NotIn-take (suc k) q (p ∷ ps) (ne, n) = (ne, NotIn-take k q ps n)

pub NotIn-drop : (k : ℕ) (q : Outpoint) (ps : List Outpoint) → NotIn q ps → NotIn q (drop k ps)
NotIn-drop zero q ps n = n
NotIn-drop (suc k) q [] n = tt
NotIn-drop (suc k) q (p ∷ ps) (ne, n) = NotIn-drop k q ps n

pub AreDistinct-take : (k : ℕ) (ps : List Outpoint) → AreDistinct ps → AreDistinct (take k ps)
AreDistinct-take zero ps d = tt
AreDistinct-take (suc k) [] d = tt
AreDistinct-take (suc k) (p ∷ ps) (n, d) = (NotIn-take k p ps n, AreDistinct-take k ps d)

pub AreDistinct-drop : (k : ℕ) (ps : List Outpoint) → AreDistinct ps → AreDistinct (drop k ps)
AreDistinct-drop zero ps d = d
AreDistinct-drop (suc k) [] d = tt
AreDistinct-drop (suc k) (p ∷ ps) (n, d) = AreDistinct-drop k ps d

pub first_apart :
    (k : ℕ) (ps : List Outpoint) → AreDistinct ps → All (λ p. NotIn p (drop k ps)) (take k ps)
first_apart zero ps d = tt
first_apart (suc k) [] d = tt
first_apart (suc k) (p ∷ ps) (n, d) = (NotIn-drop k p ps n, first_apart k ps d)

add_apart :
    (p : Outpoint) (ls rs : List Outpoint)
    → NotIn p rs
    → All (λ q. NotIn q ls) rs
    → All (λ q. NotIn q (p ∷ ls)) rs
add_apart p ls [] n a = tt
add_apart p ls (q ∷ rs) (ne, n) (x, a) = ((λ e. ne (sym e), x), add_apart p ls rs n a)

each_apart : (rs : List Outpoint) → All (λ q. NotIn q []) rs
each_apart [] = tt
each_apart (q ∷ rs) = (tt, each_apart rs)

pub last_apart :
    (k : ℕ) (ps : List Outpoint) → AreDistinct ps → All (λ q. NotIn q (take k ps)) (drop k ps)
last_apart zero ps d = each_apart ps
last_apart (suc k) [] d = tt
last_apart (suc k) (p ∷ ps) (n, d) =
    add_apart p (take k ps) (drop k ps) (NotIn-drop k p ps n) (last_apart k ps d)

pub All-join :
    (P : Outpoint → Type 0) (k : ℕ) (ps : List Outpoint)
    → All P (take k ps)
    → All P (drop k ps)
    → All P ps
All-join P zero ps a b = b
All-join P (suc k) [] a b = tt
All-join P (suc k) (p ∷ ps) (x, a) b = (x, All-join P k ps a b)

pub All-both :
    (P Q : Outpoint → Type 0) (R : Outpoint → Type 0) (ps : List Outpoint)
    → ((p : Outpoint) → P p → Q p → R p)
    → All P ps
    → All Q ps
    → All R ps
All-both P Q R [] f a b = tt
All-both P Q R (p ∷ ps) f (x, a) (y, b) = (f p x y, All-both P Q R ps f a b)

pub All-Unit : (ps : List Outpoint) → All (λ q. Unit {0}) ps
All-Unit [] = tt
All-Unit (p ∷ ps) = (tt, All-Unit ps)
