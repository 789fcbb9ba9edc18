-- ===== src/Result.antt =====
-- Exceptions as values: the classes that the modelled code raises, and pure code that may raise.
use astrbot_plugin_groupmate.Prelude.{◌≡◌, refl, ◌⊎◌, inl, inr, Bool, true, false, List, [], ◌∷◌}

-- The exception classes that the modelled code raises.
pub data Exception : Type 0 where
  value_error lookup_error assertion_error integrity_error overflow_error : Exception
  bundle_identity_conflict unsupported_delivery_part outbox_authorization_error : Exception
  outbox_state_conflict : Exception
  task_not_found invalid_task_transition task_identity_conflict : Exception
  provider_event_conflict task_version_conflict unauthorized_capability : Exception

pub data Result (A : Type 0) : Type 0 where
  ok : A → Result A
  raise : Exception → Result A

infixl 10 ◌>>=◌ ◌>>◌
abbrev pub ◌>>=◌ : {A B : Type 0} → Result A → (A → Result B) → Result B
ok a >>= f = f a
raise e >>= f = raise e

abbrev pub ◌>>◌ : {B : Type 0} → Result (Unit {0}) → Result B → Result B
m >> k = m >>= λ _. k

-- `if not test: raise e`
abbrev pub require : Bool → Exception → Result (Unit {0})
require true e = ok tt
require false e = raise e

-- A list comprehension whose entries may raise.
unfoldable pub traverse : {A B : Type 0} → (A → Result B) → List A → Result (List B)
traverse f [] = ok []
traverse f (x ∷ xs) = do y ← f x; ys ← traverse f xs; ok (y ∷ ys)

-- A chain that succeeds has succeeded at each step.
module _ {A B : Type 0} where
  pub on_ok {ℓ} :
      {C : Type ℓ} (m : Result A) (f : A → Result B) {b : B}
      → (m >>= f) ≡ ok b
      → ((a : A) → m ≡ ok a → f a ≡ ok b → C)
      → C
  on_ok (ok a) f h next = next a refl h
  on_ok (raise e) f h next = absurd (cc)

  -- The other way round: a chain of successful steps succeeds.
  pub then_ok :
      {m : Result A} {a : A} (f : A → Result B) {b : B} → m ≡ ok a → f a ≡ ok b → (m >>= f) ≡ ok b
  then_ok f e h = rw e h

pub then_require :
    {B : Type 0} {c : Bool} (e : Exception) {k : Result B} {b : B}
    → c ≡ true
    → k ≡ ok b
    → (require c e >> k) ≡ ok b
then_require e {k} {b} hc hk = rw hc hk

pub on_require {ℓ} :
    {B : Type 0} {C : Type ℓ} (c : Bool) (e : Exception) (k : Result B) {b : B}
    → (require c e >> k) ≡ ok b
    → (c ≡ true → k ≡ ok b → C)
    → C
on_require true e k h next = next refl h
on_require false e k h next = absurd (cc)

pub ok-injective : {A : Type 0} {a b : A} → ok a ≡ ok b → a ≡ b
ok-injective h = cc

pub Result-cases :
    {A : Type 0} (r : Result A) → ((a : A) × (r ≡ ok a)) ⊎ ((e : Exception) × (r ≡ raise e))
Result-cases (ok a) = inl (a, refl)
Result-cases (raise e) = inr (e, refl)

pub require-true : (c : Bool) (e : Exception) {u : Unit {0}} → require c e ≡ ok u → c ≡ true
require-true true e h = refl
require-true false e h = absurd (cc)
