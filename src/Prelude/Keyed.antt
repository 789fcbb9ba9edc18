-- ===== src/Prelude/Keyed.antt =====
-- Tables with a text as PRIMARY KEY: the row with a key, updates that keep the keys, a row behind.
use Prim.Native.Nat.{suc}
use Prim.Native.String.{String}
use mathlib.Core.Path.{◌≡◌, refl, ap, ◌∙◌}
use mathlib.Core.Bool.{true, false, ◌||◌}
use mathlib.Core.List.{List, [], ◌∷◌, ◌++◌, map}
use mathlib.Core.Logic.{inl, inr}
use mathlib.Core.Option.{Option, none, some}
use native.Mathlib.Omega.{arith}
use astrbot_plugin_groupmate.Prelude.Tests.{Bool-cases, ◌==◌, text_eq, text_eq_comm, if◌then◌else◌}
use astrbot_plugin_groupmate.Prelude.Lists.{All, any, find, keep, length}

abbrev pub map_found : {A B : Type 0} → (A → B) → Option A → Option B
map_found f none = none
map_found f (some a) = some (f a)

abbrev pub or_else : {A : Type 0} → Option A → Option A → Option A
or_else none b = b
or_else (some a) b = some a

pub or_else-none : {A : Type 0} (a : Option A) → or_else a none ≡ a
or_else-none none = refl
or_else-none (some a) = refl

module _ {A : Type 0} (key : A → String) where
  -- No two rows have one key.
  abbrev pub IsKeyed : List A → Type 0
  IsKeyed [] = Unit
  IsKeyed (x ∷ xs) = (any (λ y. key y == key x) xs ≡ false) × IsKeyed xs

  not_there :
      (id : String) (xs : List A) (P : A → Type 0)
      → any (λ r. key r == id) xs ≡ false
      → All (λ r. (key r == id) ≡ true → P r) xs
  unfolding any
  not_there id [] P h = tt
  not_there id (x ∷ xs) P h = (λ hit. absurd (ground arith), not_there id xs P (ground arith))

  pub only_row :
      (id : String) (xs : List A) {t : A}
      → IsKeyed xs
      → find (λ r. key r == id) xs ≡ some t
      → All (λ r. (key r == id) ≡ true → r ≡ t) xs
  unfolding find
  only_row id [] k e = tt
  only_row id (x ∷ xs) {t} k e = elim (Bool-cases (key x == id)) [
    | inl hit ↦
        let same : x ≡ t = ground arith in
        let there : key x ≡ id = (text_eq (key x) id).0 hit in
        (λ _. same, not_there id xs (λ r. r ≡ t) (rw (← there) k.0))
    | inr miss ↦ (λ hit. absurd (cc), only_row id xs k.1 (rw miss at e))
  ]

  module _ (f : A → A) (keeps : (x : A) → key (f x) ≡ key x) where
    any-map_keyed :
        (id : String) (xs : List A) → any (λ r. key r == id) (map f xs) ≡ any (λ r. key r == id) xs
    unfolding any
    any-map_keyed id [] = refl
    any-map_keyed id (x ∷ xs) = rw (keeps x) (ap (λ b. (key x == id) || b) (any-map_keyed id xs))

    pub map-IsKeyed : (xs : List A) → IsKeyed xs → IsKeyed (map f xs)
    map-IsKeyed [] k = tt
    map-IsKeyed (x ∷ xs) k = (rw (keeps x) (any-map_keyed (key x) xs ∙ k.0), map-IsKeyed xs k.1)

    pub find-map_keyed :
        (id : String) (xs : List A)
        → find (λ r. key r == id) (map f xs) ≡ map_found f (find (λ r. key r == id) xs)
    unfolding find
    find-map_keyed id [] = refl
    find-map_keyed id (x ∷ xs) = elim (Bool-cases (key x == id)) [
      | inl hit ↦ rw (keeps x) (rw hit refl)
      | inr miss ↦ rw (keeps x) (rw miss (find-map_keyed id xs))
    ]

  pub snoc-IsKeyed :
      (xs : List A) (y : A)
      → any (λ r. key r == key y) xs ≡ false
      → IsKeyed xs
      → IsKeyed (xs ++ y ∷ [])
  unfolding any
  snoc-IsKeyed [] y h k = (refl, tt)
  snoc-IsKeyed (x ∷ xs) y h k = (
    behind xs (ground (arith, text_eq_comm (key x) (key y))) k.0,
    snoc-IsKeyed xs y (ground arith) k.1,
  )
    where
      behind :
          (zs : List A)
          → (key y == key x) ≡ false
          → any (λ r. key r == key x) zs ≡ false
          → any (λ r. key r == key x) (zs ++ y ∷ []) ≡ false
      behind [] d e = rw d refl
      behind (z ∷ zs) d e = ground (arith, behind zs d)

  pub find-snoc :
      (id : String) (xs : List A) (y : A)
      → find (λ r. key r == id) (xs ++ y ∷ [])
        ≡ or_else (find (λ r. key r == id) xs) (if key y == id then some y else none)
  unfolding find
  find-snoc id [] y = refl
  find-snoc id (x ∷ xs) y = elim (Bool-cases (key x == id)) [
    | inl hit ↦ rw hit refl
    | inr miss ↦ rw miss (find-snoc id xs y)
  ]

  pub any_of_find :
      (id : String) (xs : List A)
      → find (λ r. key r == id) xs ≡ none
      → any (λ r. key r == id) xs ≡ false
  unfolding find any
  any_of_find id [] h = refl
  any_of_find id (x ∷ xs) h = ground (arith, any_of_find id xs)

  pub find_of_any :
      (id : String) (xs : List A)
      → any (λ r. key r == id) xs ≡ false
      → find (λ r. key r == id) xs ≡ none
  unfolding find any
  find_of_any id [] h = refl
  find_of_any id (x ∷ xs) h = ground (arith, find_of_any id xs)

  pub found_key :
      (id : String) (xs : List A) {t : A}
      → find (λ r. key r == id) xs ≡ some t
      → (key t == id) ≡ true
  unfolding find
  found_key id [] h = absurd (cc)
  found_key id (x ∷ xs) {t} h = elim (Bool-cases (key x == id)) [
    | inl hit ↦ let same : x ≡ t = ground arith in rw (← same) hit
    | inr miss ↦ found_key id xs (rw miss at h)
  ]

  pub count-snoc :
      (id : String) (xs : List A) (y : A)
      → length (keep (λ r. key r == id) (xs ++ y ∷ [])) ≡ (
          if key y == id
          then suc (length (keep (λ r. key r == id) xs))
          else length (keep (λ r. key r == id) xs))
  unfolding keep
  count-snoc id [] y = ground arith
  count-snoc id (x ∷ xs) y = ground (arith, count-snoc id xs y)
