-- ===== src/Prelude/Omits.antt =====
-- Lists that lack some elements of others, in the same order.
use Prim.Native.Nat.{ℕ, ◌+◌, ◌≤◌, ◌<◌}
use mathlib.Core.Path.{◌≡◌, refl, ap}
use mathlib.Core.List.{List, [], ◌∷◌, ◌++◌}
use native.Mathlib.Omega.{arith}

-- `Omits n xs ys`: ys is xs less at most n elements.
pub data Omits {A : Type 0} : ℕ → List A → List A → Type 0 where
  done : {n : ℕ} → Omits n [] []
  keep : {n : ℕ} {x : A} {xs ys : List A} → Omits n xs ys → Omits n (x ∷ xs) (x ∷ ys)
  omit : {n k : ℕ} {x : A} {xs ys : List A} → n < k → Omits n xs ys → Omits k (x ∷ xs) ys

module _ {A : Type 0} where
  pub Omits-refl : {n : ℕ} (xs : List A) → Omits n xs xs
  Omits-refl [] = done
  Omits-refl (x ∷ xs) = keep (Omits-refl xs)

  pub Omits-weaken : {n k : ℕ} {xs ys : List A} → n ≤ k → Omits n xs ys → Omits k xs ys
  Omits-weaken h done = done
  Omits-weaken h (keep o) = keep (Omits-weaken h o)
  Omits-weaken h (omit l o) = omit (omega arith) o

  pub Omits-trans :
      {n k : ℕ} {xs ys zs : List A} → Omits n xs ys → Omits k ys zs → Omits (n + k) xs zs
  Omits-trans done done = done
  Omits-trans (keep o) (keep p) = keep (Omits-trans o p)
  Omits-trans (keep o) (omit l p) = omit (omega arith) (Omits-trans o p)
  Omits-trans (omit l o) p = omit (omega arith) (Omits-trans o p)

  pub Omits-append :
      {n : ℕ} {xs ys : List A} (zs : List A) → Omits n xs ys → Omits n (xs ++ zs) (ys ++ zs)
  Omits-append zs done = Omits-refl zs
  Omits-append zs (keep o) = keep (Omits-append zs o)
  Omits-append zs (omit l o) = omit l (Omits-append zs o)

  -- One element in the middle is left out.
  pub Omits-middle : (xs : List A) (y : A) (ys : List A) → Omits 1 (xs ++ y ∷ ys) (xs ++ ys)
  Omits-middle [] y ys = omit {n = 0} (omega arith) (Omits-refl ys)
  Omits-middle (x ∷ xs) y ys = keep (Omits-middle xs y ys)

  pub Omits-none : {n : ℕ} {xs ys : List A} → n ≡ 0 → Omits n xs ys → xs ≡ ys
  Omits-none h done = refl
  Omits-none h (keep {x = x} o) = ap (◌∷◌ x) (Omits-none h o)
  Omits-none h (omit l o) = absurd (omega arith)
