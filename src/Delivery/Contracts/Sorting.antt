-- ===== src/Delivery/Contracts/Sorting.antt =====
-- The checks of `DeliveryBundle.create` do not depend on the order of the parts.
use mathlib.Core.Path.{fun_ext, ap₂}
use astrbot_plugin_groupmate.Prelude.{
  ℤ, int_eq, String, ◌==◌, text_eq_comm, ◌≡◌, refl, sym, ap, ◌∙◌, Bool, not, ◌&&◌, ◌||◌, List, [],
  ◌∷◌, map, any, any-map, all-map, insert_by, sort_by, any-insert_by, any-sort_by, all-sort_by,
  arith,
}
use astrbot_plugin_groupmate.Delivery.Contracts.{distinct, same_set}

any-map-sort_by :
    {A B : Type 0} (le : A → A → Bool) (f : A → B) (p : B → Bool) (xs : List A)
    → any p (map f (sort_by le xs)) ≡ any p (map f xs)
any-map-sort_by le f p xs =
    any-map f p (sort_by le xs) ∙ any-sort_by le (λ x. p (f x)) xs ∙ sym (any-map f p xs)

module _ {A : Type 0} (le : A → A → Bool) (f : A → String) where
  has-insert_by :
      (t : String) (x : A) (ys : List A)
      → any (λ z. z == t) (map f (insert_by le x ys)) ≡ (f x == t || any (λ z. z == t) (map f ys))
  has-insert_by t x ys =
      any-map f _ (insert_by le x ys)
      ∙ any-insert_by le (λ z. f z == t) x ys
      ∙ ap (λ b. f x == t || b) (sym (any-map f (λ z. z == t) ys))

  distinct-insert_by :
      (x : A) (ys : List A) → distinct (map f (insert_by le x ys)) ≡ distinct (f x ∷ map f ys)
  unfolding distinct insert_by
  distinct-insert_by x [] = refl
  distinct-insert_by x (y ∷ ys) =
      ground (arith, distinct-insert_by x ys, has-insert_by (f y) x ys, text_eq_comm (f x) (f y))

  distinct-cons :
      (t : String) (ys zs : List String)
      → any (λ z. z == t) ys ≡ any (λ z. z == t) zs
      → distinct ys ≡ distinct zs
      → distinct (t ∷ ys) ≡ distinct (t ∷ zs)
  unfolding distinct
  distinct-cons t ys zs h k = ap₂ (λ a b. not a && b) h k

  pub distinct-sort_by : (xs : List A) → distinct (map f (sort_by le xs)) ≡ distinct (map f xs)
  unfolding sort_by
  distinct-sort_by [] = refl
  distinct-sort_by (x ∷ xs) =
      distinct-insert_by x (sort_by le xs)
      ∙ distinct-cons (f x) _ _ (any-map-sort_by le f (λ z. z == f x) xs) (distinct-sort_by xs)

module _ {A : Type 0} (le : A → A → Bool) (f : A → ℤ) where
  pub same_set-sort_by :
      (xs : List A) (ys : List ℤ) → same_set (map f (sort_by le xs)) ys ≡ same_set (map f xs) ys
  same_set-sort_by xs ys = rw (
    all-map f _ (sort_by le xs),
    all-map f _ xs,
    all-sort_by le _ xs,
    fun_ext (λ z. any-map-sort_by le f (int_eq z) xs),
  )
