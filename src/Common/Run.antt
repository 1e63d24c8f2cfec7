-- ===== src/Common/Run.antt =====
-- Stateful code of several files under src/: a call on a state of type `S` returns a value, fails with
-- -1 and whatever it has changed so far, or faults by following a NULL pointer.
use polar_wg_app.Common.{Bool, true, false, Option, none, some}

pub data Res {ℓ} (A : Type ℓ) : Type ℓ where
  ok : A → Res A
  fail fault : Res A

abbrev pub Run : Type 0 → Type 0 → Type 0
Run S A = S → Res A × S

module _ {S : Type 0} where
  abbrev pub pure : {A : Type 0} → A → Run S A
  pure a st = (ok a, st)

  abbrev pub failure : {A : Type 0} → Run S A
  failure st = (fail, st)

  infixl 5 ◌>>=◌ ◌>>◌
  abbrev pub ◌>>=◌ : {A B : Type 0} → Run S A → (A → Run S B) → Run S B
  ◌>>=◌ m f st =
      let (r, st') = m st in elim r [ ok a ↦ f a st' | fail ↦ (fail, st') | fault ↦ (fault, st') ]

  abbrev pub ◌>>◌ : {B : Type 0} → Run S (Unit {0}) → Run S B → Run S B
  m >> k = m >>= λ _. k

  -- `if (!ok) { cleanup; return -1; }`
  abbrev pub check_or : Run S (Unit {0}) → Bool → Run S (Unit {0})
  check_or cleanup true st = (ok tt, st)
  check_or cleanup false st = (cleanup >> failure) st

  abbrev pub check : Bool → Run S (Unit {0})
  check true st = (ok tt, st)
  check false st = (fail, st)

  -- `if (!p) { cleanup; return -1; }`, and otherwise the value.
  abbrev pub some_or : {A : Type 0} → Run S (Unit {0}) → Option A → Run S A
  some_or cleanup none st = (cleanup >> failure) st
  some_or cleanup (some a) st = (ok a, st)

  -- The use of a pointer that the code does not test.
  abbrev pub deref : {A : Type 0} → Option A → Run S A
  deref none st = (fault, st)
  deref (some a) st = (ok a, st)

  -- The same cleanup on every way out of `m` but a fault.
  abbrev pub finally : {A : Type 0} → Run S A → Run S (Unit {0}) → Run S A
  finally m cleanup st =
      let (r, st') = m st in
      elim r [
        | ok a ↦ (cleanup >> pure a) st'
        | fail ↦ (cleanup >> failure) st'
        | fault ↦ (fault, st')
      ]

  -- `goto err`: the cleanup after a failure only.
  abbrev pub on_fail : {A : Type 0} → Run S A → Run S (Unit {0}) → Run S A
  on_fail m cleanup st =
      let (r, st') = m st in
      elim r [ ok a ↦ (ok a, st') | fail ↦ (cleanup >> failure) st' | fault ↦ (fault, st') ]

  -- What holds after the first call, and what every further call keeps, holds after both.
  pub then_Keeps :
      {A B : Type 0} (P : S → Type 0) (m : Run S A) (f : A → Run S B) (st : S)
      → P (m st).1
      → ((a : A) (s : S) → P s → P (f a s).1)
      → P ((m >>= f) st).1
  then_Keeps {A = A} P m f st h keeps = ended (m st) h
    where
      ended : (r : Res A × S) → P r.1 → P (((λ _. r) >>= f) st).1
      ended (ok a, s) k = keeps a s k
      ended (fail, s) k = k
      ended (fault, s) k = k
