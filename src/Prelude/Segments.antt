-- ===== src/Prelude/Segments.antt =====
-- `take` and `drop` of an append, on either side of the seam.
use rust_libp2p_nym.Prelude.Lists.{length, take, drop, drop-length, take-length}
use rust_libp2p_nym.Prelude.Tests.{le_or_lt}
use Prim.Native.Nat.{ℕ, zero, suc, ◌+◌, ◌-◌, ◌≤◌, min}
use mathlib.Core.Path.{◌≡◌, refl, sym, ap, ◌∙◌}
use mathlib.Core.Logic.{inl, inr}
use mathlib.Core.List.{List, [], ◌∷◌, ◌++◌}
use native.Mathlib.Omega.{arith}

module _ {ℓ} {A : Type ℓ} where
  pub take-append_ge :
      (n : ℕ) (xs ys : List A) → length xs ≤ n → take n (xs ++ ys) ≡ xs ++ take (n - length xs) ys
  unfolding take
  take-append_ge n [] ys h = ap (λ k. take k ys) (omega arith)
  take-append_ge zero (x ∷ xs) ys h = absurd (omega arith)
  take-append_ge (suc n) (x ∷ xs) ys h =
      ap (◌∷◌ x) (take-append_ge n xs ys (omega arith) ∙ ap (λ k. xs ++ take k ys) (omega arith))

  pub drop-append_ge :
      (n : ℕ) (xs ys : List A) → length xs ≤ n → drop n (xs ++ ys) ≡ drop (n - length xs) ys
  unfolding drop
  drop-append_ge n [] ys h = ap (λ k. drop k ys) (omega arith)
  drop-append_ge zero (x ∷ xs) ys h = absurd (omega arith)
  drop-append_ge (suc n) (x ∷ xs) ys h =
      drop-append_ge n xs ys (omega arith) ∙ ap (λ k. drop k ys) (omega arith)

  pub take-append_le : (n : ℕ) (xs ys : List A) → n ≤ length xs → take n (xs ++ ys) ≡ take n xs
  unfolding take
  take-append_le zero xs ys h = refl
  take-append_le (suc n) [] ys h = absurd (omega arith)
  take-append_le (suc n) (x ∷ xs) ys h = ap (◌∷◌ x) (take-append_le n xs ys (omega arith))

  pub drop-append_le :
      (n : ℕ) (xs ys : List A) → n ≤ length xs → drop n (xs ++ ys) ≡ drop n xs ++ ys
  unfolding drop
  drop-append_le zero xs ys h = refl
  drop-append_le (suc n) [] ys h = absurd (omega arith)
  drop-append_le (suc n) (x ∷ xs) ys h = drop-append_le n xs ys (omega arith)

  pub drop-drop : (a b : ℕ) (xs : List A) → drop a (drop b xs) ≡ drop (b + a) xs
  unfolding drop
  drop-drop a zero xs = ap (λ k. drop k xs) (omega arith)
  drop-drop a (suc b) [] =
      drop-length a [] (omega arith) ∙ sym (drop-length (suc b + a) [] (omega arith))
  drop-drop a (suc b) (x ∷ xs) = drop-drop a b xs ∙ ap (λ k. drop k (x ∷ xs)) sum
    where
      sum : suc (b + a) ≡ suc b + a
      sum = omega arith

  -- A bound beyond the length changes nothing.
  pub take-min : (n : ℕ) (xs : List A) → take (min (length xs) n) xs ≡ take n xs
  take-min n xs = elim (le_or_lt (length xs) n) [
    | inl le ↦
        ap (λ k. take k xs) (omega arith)
        ∙ take-length (length xs) xs (omega arith)
        ∙ sym (take-length n xs le)
    | inr lt ↦ ap (λ k. take k xs) (omega arith)
  ]

  pub drop-min : (n : ℕ) (xs : List A) → drop (min (length xs) n) xs ≡ drop n xs
  drop-min n xs = elim (le_or_lt (length xs) n) [
    | inl le ↦
        ap (λ k. drop k xs) (omega arith)
        ∙ drop-length (length xs) xs (omega arith)
        ∙ sym (drop-length n xs le)
    | inr lt ↦ ap (λ k. drop k xs) (omega arith)
  ]

  -- What is behind a prefix that was written over the front.
  pub drop_behind :
      (k : ℕ) (xs ys : List A) → k ≡ min (length xs) (length ys) → drop k ys ≡ drop (length xs) ys
  drop_behind k xs ys e = elim (le_or_lt (length xs) (length ys)) [
    | inl le ↦ ap (λ j. drop j ys) (omega arith)
    | inr lt ↦ drop-length k ys (omega arith) ∙ sym (drop-length (length xs) ys (omega arith))
  ]
