-- ===== src/Delivery/Outbox/Safe.antt =====
-- Actions that keep the tables valid and only let them evolve, whether they return or raise: one
-- rule for each way to build an action.
use astrbot_plugin_groupmate.Prelude.{
  ite, Bool, true, false, ◌≡◌, refl, All, List, [], ◌∷◌, if◌then◌else◌, inl, inr,
}
use astrbot_plugin_groupmate.Result.{Exception, Result, ok, raise, Result-cases}
use astrbot_plugin_groupmate.Exec.{Exec, pure, throw, lift, gets, transaction, for_each, ◌>>=◌}
use astrbot_plugin_groupmate.Delivery.Database.{Database}
use astrbot_plugin_groupmate.Delivery.Database.Valid.{IsValid}
use astrbot_plugin_groupmate.Delivery.Database.Evolution.{Evolves, Evolves-refl, Evolves-trans}
use astrbot_plugin_groupmate.Delivery.Outbox.{unique_as_conflict}

pub record Safe {A : Type 0} (m : Exec Database A) : Type 0 where
  pub at : (db : Database) → IsValid db → Evolves db (m db).1

module _ {A : Type 0} where
  pub Safe-lift : (r : Result A) → Safe (lift r)
  Safe-lift r = record { at = λ db v. Evolves-refl db v }

  pub Safe-pure : (a : A) → Safe (pure a)
  Safe-pure a = record { at = λ db v. Evolves-refl db v }

  pub Safe-throw : (e : Exception) → Safe (throw {A = A} e)
  Safe-throw e = record { at = λ db v. Evolves-refl db v }

  pub Safe-gets : (f : Database → A) → Safe (gets f)
  Safe-gets f = record { at = λ db v. Evolves-refl db v }

  pub Safe-if : (b : Bool) (m n : Exec Database A) → Safe m → Safe n → Safe (if b then m else n)
  Safe-if true m n sm sn = sm
  Safe-if false m n sm sn = sn

  pub Safe-ite {ℓ} :
      {P : Type ℓ} (d : Dec P) (m n : Exec Database A) → Safe m → Safe n → Safe (ite d m n)
  Safe-ite (yes p) m n sm sn = sm
  Safe-ite (no p) m n sm sn = sn

  pub Safe-transaction : (m : Exec Database A) → Safe m → Safe (transaction m)
  Safe-transaction m sm = record {
    at = λ db v. elim (Result-cases (m db).0) [
      | inl (a, e) ↦ rw e (sm.at db v)
      | inr (x, e) ↦ rw e (Evolves-refl db v)
    ];
  }

  pub Safe-unique_as_conflict : (m : Exec Database A) → Safe m → Safe (unique_as_conflict m)
  Safe-unique_as_conflict m sm = record { at = λ db v. sm.at db v }

module _ {A B : Type 0} where
  pub Safe-bind :
      (m : Exec Database A) (f : A → Exec Database B)
      → Safe m
      → ((a : A) → Safe (f a))
      → Safe (m >>= f)
  Safe-bind m f sm sf = record {
    at = λ db v. elim (Result-cases (m db).0) [
      | inl (a, e) ↦
          rw e (Evolves-trans db (m db).1 _ (sm.at db v) ((sf a).at (m db).1 (sm.at db v).valid))
      | inr (x, e) ↦ rw e (sm.at db v)
    ];
  }

pub Safe-for_each :
    {A : Type 0} (body : A → Exec Database (Unit {0})) (xs : List A)
    → ((x : A) → Safe (body x))
    → Safe (for_each body xs)
unfolding for_each
Safe-for_each body [] h = Safe-pure tt
Safe-for_each body (x ∷ xs) h =
    Safe-bind (body x) (λ _. for_each body xs) (h x) (λ _. Safe-for_each body xs h)

-- A step that may raise, whose value the rest may rely on.
pub Safe-lift_bind :
    {A B : Type 0} (r : Result A) (f : A → Exec Database B)
    → ((a : A) → r ≡ ok a → Safe (f a))
    → Safe (lift r >>= f)
Safe-lift_bind (ok a) f h = h a refl
Safe-lift_bind (raise e) f h = record { at = λ db v. Evolves-refl db v }

pub Safe-for_each_of :
    {A : Type 0} (P : A → Type 0) (body : A → Exec Database (Unit {0})) (xs : List A)
    → All P xs
    → ((x : A) → P x → Safe (body x))
    → Safe (for_each body xs)
unfolding for_each
Safe-for_each_of P body [] a h = Safe-pure tt
Safe-for_each_of P body (x ∷ xs) a h =
    Safe-bind (body x) (λ _. for_each body xs) (h x a.0) (λ _. Safe-for_each_of P body xs a.1 h)
