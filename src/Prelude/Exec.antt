-- ===== src/Prelude/Exec.antt =====
-- Methods on `&mut self` that may fail or panic. What was written before the error stays written, so
-- the state comes back beside the outcome.
use mathlib.Core.Path.{◌≡◌, refl}
use rust_libp2p_nym.Prelude.Results.{Outcome, ok, err, panic, stuck, ◌>>=◌ as ◌and_then◌}

abbrev pub Exec : Type 0 → Type 0 → Type 0 → Type 0
Exec S E A = S → Outcome E A × S

module _ {S E : Type 0} where
  abbrev pub pure : {A : Type 0} → A → Exec S E A
  pure a s = (ok a, s)

  abbrev pub raise : {A : Type 0} → E → Exec S E A
  raise e s = (err e, s)

  abbrev pub abort : {A : Type 0} → Exec S E A
  abort s = (panic, s)

  abbrev pub gets : {A : Type 0} → (S → A) → Exec S E A
  gets f s = (ok (f s), s)

  abbrev pub modify : (S → S) → Exec S E (Unit {0})
  modify f s = (ok tt, f s)

  abbrev pub continue : {A B : Type 0} → Outcome E A × S → (A → Exec S E B) → Outcome E B × S
  continue (ok a, s) f = f a s
  continue (err e, s) f = (err e, s)
  continue (panic, s) f = (panic, s)
  continue (stuck, s) f = (stuck, s)

  infixl 5 ◌>>=◌ ◌>>◌
  abbrev pub ◌>>=◌ : {A B : Type 0} → Exec S E A → (A → Exec S E B) → Exec S E B
  ◌>>=◌ m f s = continue (m s) f

  abbrev pub ◌>>◌ : {B : Type 0} → Exec S E (Unit {0}) → Exec S E B → Exec S E B
  m >> n = m >>= λ _. n

  -- What follows a chain of results follows its last part.
  pub continue-bind :
      {A B C : Type 0} (m : Outcome E A) (g : A → Outcome E B) (k : B → Exec S E C) (s : S)
      → continue (m and_then g, s) k ≡ continue (m, s) λ a s'. continue (g a, s') k
  continue-bind (ok a) g k s = refl
  continue-bind (err e) g k s = refl
  continue-bind panic g k s = refl
  continue-bind stuck g k s = refl
