-- ===== src/Delivery/Contracts/Orders.antt =====
-- Contiguous orders: the parts of a created bundle are numbered 0, 1, 2, ... in list order.
use astrbot_plugin_groupmate.Prelude.{
  ℕ, zero, suc, ◌+◌, ◌≤◌, ◌<◌, ◌≢◌, ℤ, pos, negsuc, int_eq, leb_ℤ, ◌≡◌, refl, Bool, true, false,
  ◌&&◌, ap₂, dec_lt, List, [], ◌∷◌, map, length, length-map, any, all, All, arith,
  sort_by-IsOrdered, IsOrdered,
}
use astrbot_plugin_groupmate.Result.{ok}
use astrbot_plugin_groupmate.Delivery.Contracts.{
  DeliveryPart, DeliveryBundle, by_order, create_bundle, range_from,
}
use astrbot_plugin_groupmate.Delivery.Contracts.Bundles.{
  by_order-total, create_bundle-normal, create_bundle-IsCreated,
}

-- Ascending, and nothing below a start.
abbrev Ascends : ℕ → List ℤ → Type 0
Ascends s [] = Unit {0}
Ascends s (negsuc k ∷ xs) = ⊥
Ascends s (pos n ∷ xs) = (s ≤ n) × Ascends n xs

abbrev has : ℤ → List ℤ → Bool
has z xs = any (int_eq z) xs

Ascends-down : (s t : ℕ) (xs : List ℤ) → s ≤ t → Ascends t xs → Ascends s xs
Ascends-down s t [] h a = tt
Ascends-down s t (negsuc k ∷ xs) h a = a
Ascends-down s t (pos n ∷ xs) h a = (omega arith, a.1)

below_not_there : (s n : ℕ) (xs : List ℤ) → n < s → Ascends s xs → has (pos n) xs ≡ false
unfolding any
below_not_there s n [] h a = refl
below_not_there s n (negsuc k ∷ xs) h a = absurd a
below_not_there s n (pos m ∷ xs) h a = ground (arith, below_not_there m n xs)

has-tail : (k m : ℕ) (xs : List ℤ) → k ≢ m → has (pos k) (pos m ∷ xs) ≡ true → has (pos k) xs ≡ true
unfolding any
has-tail k m xs d h = ground arith

-- Every number from `s` up to `s + n` is there.
abbrev HasAll : ℕ → ℕ → List ℤ → Type 0
HasAll s n xs = (k : ℕ) → s ≤ k → k < s + n → has (pos k) xs ≡ true

HasAll-tail : (s n m : ℕ) (xs : List ℤ) → m < s → HasAll s n (pos m ∷ xs) → HasAll s n xs
HasAll-tail s n m xs lt h k lo hi = has-tail k m xs (omega arith) (h k lo hi)

HasAll-next :
    (s n m : ℕ) (xs : List ℤ) → m < s + 1 → HasAll s (suc n) (pos m ∷ xs) → HasAll (s + 1) n xs
HasAll-next s n m xs lt h k lo hi = has-tail k m xs (omega arith) (h k (omega arith) (omega arith))

head-le : (s n m : ℕ) (xs : List ℤ) → Ascends m xs → HasAll s (suc n) (pos m ∷ xs) → m < s + 1
unfolding any
head-le s n m xs a h =
    ground (arith, h s (omega arith) (omega arith), below_not_there s m xs, below_not_there m s xs)

-- An ascending list with every number from `s` on has room for them.
room : (s n : ℕ) (xs : List ℤ) → HasAll s n xs → (t : ℕ) → Ascends t xs → n ≤ length xs
room s zero xs h t a = omega arith
room s (suc n) [] h t a = absurd (unfold any in cc (h s (omega arith) (omega arith)))
room s (suc n) (negsuc k ∷ xs) h t a = absurd a
room s (suc n) (pos m ∷ xs) h t a =
    omega (arith, room (s + 1) n xs (HasAll-next s n m xs (head-le s n m xs a.1 h) h) m a.1)

Ascends-next :
    (s n : ℕ) (xs : List ℤ)
    → length xs ≡ n
    → HasAll (s + 1) n xs
    → Ascends s xs
    → Ascends (s + 1) xs
Ascends-next s n [] e h a = tt
Ascends-next s n (negsuc k ∷ xs) e h a = a
Ascends-next s n (pos m ∷ xs) e h a = elim (dec_lt s m) [
  | yes above ↦ (omega arith, a.1)
  | no same ↦
      absurd (omega (arith, room (s + 1) n xs (HasAll-tail (s + 1) n m xs (omega arith) h) m a.1))
]

-- As long as its numbers, the list is the range itself.
exact : (s n : ℕ) (xs : List ℤ) → length xs ≡ n → HasAll s n xs → Ascends s xs → xs ≡ range_from s n
unfolding range_from
exact s zero [] e h a = refl
exact s zero (x ∷ xs) e h a = absurd (omega arith)
exact s (suc n) [] e h a = absurd (omega arith)
exact s (suc n) (negsuc k ∷ xs) e h a = absurd a
exact s (suc n) (pos m ∷ xs) e h a =
    let lt = head-le s n m xs a.1 h in
    let same : m ≡ s = omega arith in
    let rest = HasAll-next s n m xs lt h in
    let up = Ascends-next s n xs (omega arith) rest (Ascends-down s m xs (omega arith) a.1) in
    ap₂ (λ k ys. pos k ∷ ys) same (exact (s + 1) n xs (omega arith) rest up)

all-range :
    (p : ℤ → Bool) (s n : ℕ)
    → all p (range_from s n) ≡ true
    → (k : ℕ) → s ≤ k
    → k < s + n
    → p (pos k) ≡ true
unfolding all range_from
all-range p s zero h k lo hi = absurd (omega arith)
all-range p s (suc n) h k lo hi = elim (dec_lt s k) [
  | yes above ↦ all-range p (s + 1) n (ground arith) k (omega arith) (omega arith)
  | no same ↦ let e : k ≡ s = omega arith in rw e (ground arith)
]

negsuc-not-in-range : (i s n : ℕ) → has (negsuc i) (range_from s n) ≡ false
unfolding any range_from
negsuc-not-in-range i s zero = refl
negsuc-not-in-range i s (suc n) = ground (arith, negsuc-not-in-range i (s + 1) n)

abbrev orders : List DeliveryPart → List ℤ
orders ps = map (λ p. p.order) ps

-- Each order is a number, being in the range.
abbrev AreNumbers : List ℤ → Type 0
AreNumbers zs = All (λ z. (n : ℕ) × (z ≡ pos n)) zs

number_of_range : (n : ℕ) (z : ℤ) → has z (range_from 0 n) ≡ true → (k : ℕ) × (z ≡ pos k)
number_of_range n (pos k) h = (k, refl)
number_of_range n (negsuc k) h = absurd (cc (negsuc-not-in-range k 0 n))

AreNumbers-all : (n : ℕ) (zs : List ℤ) → all (λ z. has z (range_from 0 n)) zs ≡ true → AreNumbers zs
unfolding all
AreNumbers-all n [] h = tt
AreNumbers-all n (z ∷ zs) h =
    (number_of_range n z (ground arith), AreNumbers-all n zs (ground arith))

Ascends-cons :
    (s : ℕ) (z : ℤ) (zs : List ℤ)
    → (n : ℕ) × (z ≡ pos n)
    → leb_ℤ (pos s) z ≡ true
    → ((n : ℕ) → z ≡ pos n → Ascends n zs)
    → Ascends s (z ∷ zs)
Ascends-cons s (pos n) zs e b rest = (ground arith, rest n refl)
Ascends-cons s (negsuc n) zs e b rest = cc e.1

Ascends-orders :
    (s : ℕ) (p : DeliveryPart) (ps : List DeliveryPart)
    → IsOrdered by_order (p ∷ ps)
    → AreNumbers (orders (p ∷ ps))
    → leb_ℤ (pos s) p.order ≡ true
    → Ascends s (orders (p ∷ ps))
Ascends-orders s p [] o a b = Ascends-cons s p.order [] a.0 b (λ n e. tt)
Ascends-orders s p (q ∷ ps) o a b =
    Ascends-cons s p.order (orders (q ∷ ps)) a.0 b
      λ n e. Ascends-orders n q ps o.1 a.1 (rw e at o.0)

zero-le : (z : ℤ) → (n : ℕ) × (z ≡ pos n) → leb_ℤ (pos 0) z ≡ true
zero-le (pos n) e = ground arith
zero-le (negsuc n) e = cc e.1

Ascends-sorted :
    (ps : List DeliveryPart)
    → IsOrdered by_order ps
    → AreNumbers (orders ps)
    → Ascends 0 (orders ps)
Ascends-sorted [] o a = tt
Ascends-sorted (p ∷ ps) o a = Ascends-orders 0 p ps o a (zero-le p.order a.0)

&&-both : (a b : Bool) → (a && b) ≡ true → (a ≡ true) × (b ≡ true)
&&-both a b h = ground arith

-- The parts of a bundle that `create` returns are numbered 0, 1, 2, ... in list order.
pub create_bundle-orders :
    (b c : DeliveryBundle)
    → create_bundle b ≡ ok c
    → map (λ p. p.order) c.parts ≡ range_from 0 (length c.parts)
create_bundle-orders b c h =
    let made = create_bundle-IsCreated c c (create_bundle-normal b c h) in
    let n = length c.parts in
    let both = &&-both (all (λ x. has x (range_from 0 n)) (orders c.parts)) _ made.orders in
    let ordered : IsOrdered by_order c.parts =
      rw made.parts (sort_by-IsOrdered by_order by_order-total c.parts) in
    exact 0 n (orders c.parts) (length-map _ c.parts)
      (λ k lo hi. all-range (λ y. has y (orders c.parts)) 0 n both.1 k lo hi)
      (Ascends-sorted c.parts ordered (AreNumbers-all n (orders c.parts) both.0))
