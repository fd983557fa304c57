-- ===== src/Prelude/Results.antt =====
-- How a call ends: a value, an error value, or a panic; and the slice operations of Rust, which
-- panic out of range.
use mathlib.Core.Path.{◌≡◌, ap, ◌∙◌}
use mathlib.Core.Logic.{◌⊎◌, inl, inr}
use mathlib.Core.Bool.{◌&&◌}
use mathlib.Core.Option.{Option, none, some}
use mathlib.Core.List.{List, [], ◌∷◌, ◌++◌, append_assoc}
use Prim.Native.Nat.{ℕ, ◌+◌, ◌-◌, ◌≤◌, ◌<◌}
use native.Mathlib.Omega.{arith}
use rust_libp2p_nym.Prelude.Tests.{leb, ◌==◌, if◌then◌else◌}
use rust_libp2p_nym.Prelude.Lists.{
  length, get_elem?, take, drop, length-append, take-append, drop-append, get_elem?-append,
  get_elem?-in_range,
}

-- `stuck` is no Rust behaviour: a loop of the model ran out of fuel.
pub data Outcome (E A : Type 0) : Type 0 where
  ok : A → Outcome E A
  err : E → Outcome E A
  panic : Outcome E A
  stuck : Outcome E A

module _ {E A B : Type 0} where
  infixl 5 ◌>>=◌
  abbrev pub ◌>>=◌ : Outcome E A → (A → Outcome E B) → Outcome E B
  ok a >>= f = f a
  err e >>= f = err e
  panic >>= f = panic
  stuck >>= f = stuck

-- `result.map_err(f)?` on the result of foreign code.
abbrev pub map_err : {A E F : Type 0} → (F → E) → A ⊎ F → Outcome E A
map_err f (inl a) = ok a
map_err f (inr e) = err (f e)

abbrev pub unwrap : {E A : Type 0} → Option A → Outcome E A
unwrap none = panic
unwrap (some a) = ok a

module _ {E A : Type 0} where
  -- `xs[i]`
  unfoldable pub index : List A → ℕ → Outcome E A
  index xs i = unwrap (get_elem? xs i)

  -- `&xs[a..b]`
  unfoldable pub slice : List A → ℕ → ℕ → Outcome E (List A)
  slice xs a b = if leb a b && leb b (length xs) then ok (take (b - a) (drop a xs)) else panic

  -- `&xs[a..]`
  unfoldable pub slice_from : List A → ℕ → Outcome E (List A)
  slice_from xs a = if leb a (length xs) then ok (drop a xs) else panic

  -- `array[..].copy_from_slice(src)` over a whole array of `n` elements.
  unfoldable pub copy_from_slice : ℕ → List A → Outcome E (List A)
  copy_from_slice n src = if length src == n then ok src else panic

  -- Within bounds none of them panics.
  pub slice_in_range :
      (xs : List A) (a b : ℕ) → a ≤ b → b ≤ length xs → slice xs a b ≡ ok (take (b - a) (drop a xs))
  unfolding slice
  slice_in_range xs a b h k = ground arith

  pub slice_from_in_range : (xs : List A) (a : ℕ) → a ≤ length xs → slice_from xs a ≡ ok (drop a xs)
  unfolding slice_from
  slice_from_in_range xs a h = ground arith

  pub index_in_range : (xs : List A) (i : ℕ) → i < length xs → (a : A) × (index xs i ≡ ok a)
  unfolding index
  index_in_range xs i h = let (a, e) = get_elem?-in_range xs i h in (a, rw e)

  pub copy_from_slice_fits : (n : ℕ) (xs : List A) → length xs ≡ n → copy_from_slice n xs ≡ ok xs
  unfolding copy_from_slice
  copy_from_slice_fits n xs h = ground arith

  -- The parts of an append, at the bounds where they lie.
  pub slice_front : (n : ℕ) (xs ys : List A) → length xs ≡ n → slice (xs ++ ys) 0 n ≡ ok xs
  unfolding drop
  slice_front n xs ys h =
      rw (slice_in_range (xs ++ ys) 0 n (omega arith) (omega (arith, length-append xs ys)))
        (rw (← h) (ground (arith, take-append xs ys)))

  pub slice_middle :
      (a b : ℕ) (xs ys zs : List A)
      → length xs ≡ a
      → a + length ys ≡ b
      → slice (xs ++ (ys ++ zs)) a b ≡ ok ys
  slice_middle a b xs ys zs h k =
      rw
        (slice_in_range (xs ++ (ys ++ zs)) a b (omega arith)
          (omega (arith, length-append xs (ys ++ zs), length-append ys zs)))
        (ground (arith, drop-append xs (ys ++ zs), take-append ys zs))

  pub slice_from_back : (a : ℕ) (xs ys : List A) → length xs ≡ a → slice_from (xs ++ ys) a ≡ ok ys
  slice_from_back a xs ys h =
      rw (slice_from_in_range (xs ++ ys) a (omega (arith, length-append xs ys)))
        (ground (arith, drop-append xs ys))

  pub index_behind :
      (a : ℕ) (xs : List A) (y : A) (ys : List A) → length xs ≡ a → index (xs ++ y ∷ ys) a ≡ ok y
  unfolding index
  index_behind a xs y ys h = ground (arith, get_elem?-append xs y ys)

  pub slice_prefix : (n : ℕ) (xs : List A) → n ≤ length xs → slice xs 0 n ≡ ok (take n xs)
  unfolding drop
  slice_prefix n xs h =
      slice_in_range xs 0 n (omega arith) h ∙ ap (λ k. ok (take k xs)) (omega arith)

  -- The same with one element `y` between the two parts.
  pub slice_from_behind :
      (a b : ℕ) (xs : List A) (y : A) (ys : List A)
      → length xs ≡ a
      → a + 1 ≡ b
      → slice_from (xs ++ y ∷ ys) b ≡ ok ys
  slice_from_behind a b xs y ys h k =
      rw append_assoc at
        (slice_from_back b (xs ++ y ∷ []) ys (omega (arith, length-append xs (y ∷ []))))

  pub slice_behind :
      (a b c : ℕ) (xs : List A) (y : A) (ys zs : List A)
      → length xs ≡ a
      → a + 1 ≡ b
      → b + length ys ≡ c
      → slice (xs ++ y ∷ (ys ++ zs)) b c ≡ ok ys
  slice_behind a b c xs y ys zs h k l =
      rw append_assoc at
        (slice_middle b c (xs ++ y ∷ []) ys zs (omega (arith, length-append xs (y ∷ []))) l)

-- The call returns, and a value that it returns satisfies `P`.
abbrev pub Ensures : {E A : Type 0} → (A → Type 0) → Outcome E A → Type 0
Ensures P (ok a) = P a
Ensures P (err e) = Unit
Ensures P panic = ⊥
Ensures P stuck = ⊥

module _ {E A B : Type 0} where
  pub Ensures-bind :
      (P : A → Type 0) (Q : B → Type 0) (m : Outcome E A) (f : A → Outcome E B)
      → Ensures P m
      → ((a : A) → P a → Ensures Q (f a))
      → Ensures Q (m >>= f)
  Ensures-bind P Q (ok a) f h k = k a h
  Ensures-bind P Q (err e) f h k = tt
  Ensures-bind P Q panic f h k = elim h [ ]
  Ensures-bind P Q stuck f h k = elim h [ ]
