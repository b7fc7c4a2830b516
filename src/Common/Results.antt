-- ===== src/Common/Results.antt =====
-- Go's (value, error) pairs and panics, and state passing with them.

use mathlib.Core.Path.{◌≡◌, refl}
use mathlib.Core.Logic.{◌⊎◌, inl, inr}

pub data Error : Type 0 where
  invalid_magic invalid_size io_failure : Error
  no_write_slot no_block_slot : Error
  device : Error
  bad_payload server_failure missing_arguments : Error

-- `panic` is a slice bound out of range, or a use of a nil pointer: the goroutine dies.
pub data Outcome {ℓ} (A : Type ℓ) : Type ℓ where
  ok : A → Outcome A
  err : Error → Outcome A
  panic : Outcome A

-- A step on a state: it returns, and leaves a state behind on every outcome.
abbrev pub M : Type 0 → Type 0 → Type 0
M S A = S → Outcome A × S

abbrev pub and_then : {S A B : Type 0} → Outcome A → S → (A → M S B) → Outcome B × S
and_then (ok a) s f = f a s
and_then (err e) s f = (err e, s)
and_then panic s f = (panic, s)

abbrev pub pure : {S A : Type 0} → A → M S A
pure a s = (ok a, s)

abbrev pub throw : {S A : Type 0} → Error → M S A
throw e s = (err e, s)

-- A computation that touches no state.
abbrev pub lift : {S A : Type 0} → Outcome A → M S A
lift o s = (o, s)

infixl 5 ◌>>=◌ ◌>>◌
abbrev pub ◌>>=◌ : {S A B : Type 0} → M S A → (A → M S B) → M S B
◌>>=◌ m f s = let (o, s') = m s in and_then o s' f

abbrev pub ◌>>◌ : {S B : Type 0} → M S (Unit {0}) → M S B → M S B
m >> k = m >>= λ _. k

-- `if err != nil { return e }`: the error is replaced.
abbrev pub with_error : {A : Type 0} → Error → Outcome A → Outcome A
with_error e (ok a) = ok a
with_error e (err x) = err e
with_error e panic = panic

abbrev pub or_error : {S A : Type 0} → Error → M S A → M S A
or_error e m s = let (o, s') = m s in (with_error e o, s')

-- A call whose error is not looked at.
abbrev pub dropped : {A : Type 0} → Outcome A → Outcome (Unit {0})
dropped (ok a) = ok tt
dropped (err e) = ok tt
dropped panic = panic

abbrev pub ignore : {S A : Type 0} → M S A → M S (Unit {0})
ignore m s = let (o, s') = m s in (dropped o, s')

abbrev pub get_state : {S : Type 0} → M S S
get_state s = (ok s, s)

-- `if err := m(); err != nil { handler }`.
abbrev pub after_error :
    {S : Type 0} → Outcome (Unit {0}) → S → M S (Unit {0}) → Outcome (Unit {0}) × S
after_error (ok a) s handler = (ok tt, s)
after_error (err e) s handler = handler s
after_error panic s handler = (panic, s)

abbrev pub on_error : {S : Type 0} → M S (Unit {0}) → M S (Unit {0}) → M S (Unit {0})
on_error m handler s = let (o, s') = m s in after_error o s' handler

-- A step that succeeds hands its value and its state on.
pub >>=-ok :
    {S A B : Type 0} (m : M S A) (f : A → M S B) (s : S) {s' : S} {a : A} {r : Outcome B × S}
    → m s ≡ (ok a, s')
    → f a s' ≡ r
    → (m >>= f) s ≡ r
>>=-ok m f s e g = rw e g

pub >>=-err :
    {S A B : Type 0} (m : M S A) (f : A → M S B) (s : S) {s' : S} {x : Error}
    → m s ≡ (err x, s')
    → (m >>= f) s ≡ (err x, s')
>>=-err m f s e = rw e

pub Outcome-cases :
    (o : Outcome (Unit {0})) → (o ≡ ok tt) ⊎ ((e : Error) × (o ≡ err e)) ⊎ (o ≡ panic)
Outcome-cases (ok _) = inl refl
Outcome-cases (err e) = inr (inl (e, refl))
Outcome-cases panic = inr (inr refl)
