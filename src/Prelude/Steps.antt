-- ===== src/Prelude/Steps.antt =====
-- What is shown of a method step by step: that it ends and keeps a part of the state, or that it
-- does not panic and keeps an invariant.
use mathlib.Core.Path.{◌≡◌, refl, ◌∙◌}
use mathlib.Core.Logic.{◌≢◌}
use rust_libp2p_nym.Prelude.Results.{Outcome, ok, err, panic, stuck}
use rust_libp2p_nym.Prelude.Exec.{Exec, continue}

module _ {S E V : Type 0} (view : S → V) where
  -- The call ends, and leaves what `view` shows of the state as it was in `s`.
  pub record Steps {A : Type 0} (r : Outcome E A × S) (s : S) : Type 0 where
    pub ends : r.0 ≢ stuck
    pub same : view r.1 ≡ view s

  pub continue-Steps :
      {A B : Type 0} (s : S) (r : Outcome E A × S) (g : A → Exec S E B)
      → Steps r s
      → ((a : A) → Steps (g a r.1) r.1)
      → Steps (continue r g) s
  continue-Steps s (ok a, t) g h k = record { ends = (k a).ends; same = (k a).same ∙ h.same }
  continue-Steps s (err e, t) g h k = record { ends = λ x. absurd (cc x); same = h.same }
  continue-Steps s (panic, t) g h k = record { ends = λ x. absurd (cc x); same = h.same }
  continue-Steps s (stuck, t) g h k = absurd (h.ends refl)

module _ {S E : Type 0} where
  pub continue_ends :
      {A B : Type 0} (r : Outcome E A × S) (g : A → Exec S E B)
      → r.0 ≢ stuck
      → ((a : A) → (g a r.1).0 ≢ stuck)
      → (continue r g).0 ≢ stuck
  continue_ends (ok a, t) g h k = k a
  continue_ends (err e, t) g h k = λ x. absurd (cc x)
  continue_ends (panic, t) g h k = λ x. absurd (cc x)
  continue_ends (stuck, t) g h k = absurd (h refl)

module _ {S E : Type 0} (P : S → Type 0) where
  -- The call does not panic, and the state that it leaves satisfies `P`.
  pub record Safe {A : Type 0} (r : Outcome E A × S) : Type 0 where
    pub calm : r.0 ≢ panic
    pub kept : P r.1

  pub continue-Safe :
      {A B : Type 0} (r : Outcome E A × S) (g : A → Exec S E B)
      → Safe r
      → ((a : A) → r.0 ≡ ok a → P r.1 → Safe (g a r.1))
      → Safe (continue r g)
  continue-Safe (ok a, t) g h k = k a refl h.kept
  continue-Safe (err e, t) g h k = record { calm = λ x. absurd (cc x); kept = h.kept }
  continue-Safe (panic, t) g h k = absurd (h.calm refl)
  continue-Safe (stuck, t) g h k = record { calm = λ x. absurd (cc x); kept = h.kept }
