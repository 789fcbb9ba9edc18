-- ===== src/Exec.antt =====
-- Methods that change a store and may raise: what was written before a raise stays written, and
-- `transaction` is the code's BEGIN IMMEDIATE ... commit, with a rollback on every exception.
use astrbot_plugin_groupmate.Prelude.{◌≡◌, refl, ◌∙◌, List, [], ◌∷◌}
use astrbot_plugin_groupmate.Result.{Exception, Result, ok, raise}

abbrev pub Exec : Type 0 → Type 0 → Type 0
Exec S A = S → Result A × S

module _ {S A : Type 0} where
  abbrev pub pure : A → Exec S A
  pure a s = (ok a, s)

  abbrev pub throw : Exception → Exec S A
  throw e s = (raise e, s)

  abbrev pub lift : Result A → Exec S A
  lift r s = (r, s)

  abbrev pub gets : (S → A) → Exec S A
  gets f s = (ok (f s), s)

  abbrev commit_or_rollback : S → Result A → S → Result A × S
  commit_or_rollback before (ok a) after = (ok a, after)
  commit_or_rollback before (raise e) after = (raise e, before)

  abbrev pub transaction : Exec S A → Exec S A
  transaction m s = let (r, s') = m s in commit_or_rollback s r s'

abbrev pub modify : {S : Type 0} → (S → S) → Exec S (Unit {0})
modify f s = (ok tt, f s)

module _ {S A B : Type 0} where
  abbrev continue : Result A → (A → Exec S B) → Exec S B
  continue (ok a) f s = f a s
  continue (raise e) f s = (raise e, s)

  infixl 10 ◌>>=◌ ◌>>◌
  abbrev pub ◌>>=◌ : Exec S A → (A → Exec S B) → Exec S B
  ◌>>=◌ m f s = let (r, s') = m s in continue r f s'

  abbrev pub ◌>>◌ : Exec S A → Exec S B → Exec S B
  m >> n = m >>= λ _. n

-- A chain that returned has returned at each step.
module _ {S A B : Type 0} where
  pub on_lift {ℓ} :
      {C : Type ℓ} (r : Result A) (f : A → Exec S B) {s t : S} {b : B}
      → (lift r >>= f) s ≡ (ok b, t)
      → ((a : A) → r ≡ ok a → f a s ≡ (ok b, t) → C)
      → C
  on_lift (ok a) f h next = next a refl h
  on_lift (raise e) f h next = absurd (cc)

  pub on_run {ℓ} :
      {C : Type ℓ} (m : Exec S A) (f : A → Exec S B) {s t : S} {b : B}
      → (m >>= f) s ≡ (ok b, t)
      → ((a : A) (u : S) → m s ≡ (ok a, u) → f a u ≡ (ok b, t) → C)
      → C
  on_run {C = C} m f {s} {t} {b} h next = split (m s) (λ a u e k. next a u e k) refl h
    where
      split :
          (x : Result A × S)
          → ((a : A) (u : S) → m s ≡ (ok a, u) → f a u ≡ (ok b, t) → C)
          → m s ≡ x
          → continue x.0 f x.1 ≡ (ok b, t)
          → C
      split (ok a, u) k e h = k a u e h
      split (raise x, u) k e h = absurd (cc)

pub on_transaction {ℓ} :
    {S A : Type 0} {C : Type ℓ} (m : Exec S A) {s t : S} {a : A}
    → transaction m s ≡ (ok a, t)
    → (m s ≡ (ok a, t) → C)
    → C
on_transaction {S = S} {A = A} {C = C} m {s} {t} {a} h next = split (m s) next refl h
  where
    split :
        (x : Result A × S)
        → (m s ≡ (ok a, t) → C)
        → m s ≡ x
        → commit_or_rollback s x.0 x.1 ≡ (ok a, t)
        → C
    split (ok b, u) k e h = k (e ∙ h)
    split (raise x, u) k e h = absurd (cc)

-- `for x in xs: body(x)`
unfoldable pub for_each : {S A : Type 0} → (A → Exec S (Unit {0})) → List A → Exec S (Unit {0})
for_each body [] = pure tt
for_each body (x ∷ xs) = do body x; for_each body xs

-- What holds of the state before a chain and after each of its ways on holds after the chain.
pub after_lift {ℓ} :
    {S A B : Type 0} (P : S → Type ℓ) (r : Result A) (f : A → Exec S B) (s : S)
    → P s
    → ((a : A) → r ≡ ok a → P (f a s).1)
    → P ((lift r >>= f) s).1
after_lift P (ok a) f s h next = next a refl
after_lift P (raise e) f s h next = h
