-- ===== src/Prelude/Bytes.antt =====
-- Byte strings: equality, and unsigned integers in big-endian order.
use rust_libp2p_nym.Prelude.Tests.{◌==◌}
use rust_libp2p_nym.Prelude.Lists.{length, length-append, All}
use Prim.Native.Nat.{ℕ, zero, suc, ◌+◌, ◌*◌, ◌/◌, ◌%◌, ◌^◌, ◌<◌}
use mathlib.Core.Path.{◌≡◌, refl, subst}
use mathlib.Core.Logic.{◌↔◌}
use mathlib.Core.Bool.{Bool, true, false, ◌&&◌}
use mathlib.Core.List.{List, [], ◌∷◌, ◌++◌, foldl, foldl-append}
use native.Mathlib.Omega.{arith}
use native.Mathlib.Nat.{pow-suc, add-zero, zero-add}

unfoldable pub bytes_eq : List ℕ → List ℕ → Bool
bytes_eq [] [] = true
bytes_eq [] (y ∷ ys) = false
bytes_eq (x ∷ xs) [] = false
bytes_eq (x ∷ xs) (y ∷ ys) = x == y && bytes_eq xs ys

bytes_eq_sound : (xs ys : List ℕ) → bytes_eq xs ys ≡ true → xs ≡ ys
unfolding bytes_eq
bytes_eq_sound [] [] h = refl
bytes_eq_sound [] (y ∷ ys) h = cc
bytes_eq_sound (x ∷ xs) [] h = cc
bytes_eq_sound (x ∷ xs) (y ∷ ys) h = ground (arith, bytes_eq_sound xs ys)

bytes_eq_refl : (xs : List ℕ) → bytes_eq xs xs ≡ true
unfolding bytes_eq
bytes_eq_refl [] = refl
bytes_eq_refl (x ∷ xs) = ground (arith, bytes_eq_refl xs)

pub bytes_eq_iff : (xs ys : List ℕ) → (bytes_eq xs ys ≡ true) ↔ (xs ≡ ys)
unfolding bytes_eq
bytes_eq_iff xs ys = (bytes_eq_sound xs ys, λ e. cc (e, bytes_eq_refl xs))

-- `n.to_be_bytes()` of an unsigned integer of `k` bytes.
unfoldable pub to_be_bytes : ℕ → ℕ → List ℕ
to_be_bytes zero n = []
to_be_bytes (suc k) n = to_be_bytes k (n / 256) ++ (n % 256) ∷ []

-- `from_be_bytes`: each byte shifts what was read before it.
unfoldable pub from_be_bytes : List ℕ → ℕ
from_be_bytes = foldl (λ acc b. acc * 256 + b) 0

pub length-to_be_bytes : (k n : ℕ) → length (to_be_bytes k n) ≡ k
unfolding to_be_bytes
length-to_be_bytes zero n = refl
length-to_be_bytes (suc k) n = omega (
  arith,
  length-append (to_be_bytes k (n / 256)) ((n % 256) ∷ []),
  length-to_be_bytes k (n / 256),
)

below_next_power : (k n : ℕ) → n < 256 ^ suc k → n / 256 < 256 ^ k
below_next_power k n h = omega (arith, pow-suc 256 k)

pub from_be_bytes-to_be_bytes : (k n : ℕ) → n < 256 ^ k → from_be_bytes (to_be_bytes k n) ≡ n
unfolding from_be_bytes to_be_bytes
from_be_bytes-to_be_bytes zero n h = omega arith
from_be_bytes-to_be_bytes (suc k) n h =
    rw foldl-append (omega (arith, from_be_bytes-to_be_bytes k (n / 256) (below_next_power k n h)))

abbrev pub IsByte : ℕ → Type 0
IsByte b = b < 256

-- What `k` bytes add to a number already read.
be_bound :
    (acc k : ℕ) (bytes : List ℕ)
    → All IsByte bytes
    → acc < 256 ^ k
    → foldl (λ a b. a * 256 + b) acc bytes < 256 ^ (k + length bytes)
be_bound acc k [] h a = simp add-zero a
be_bound acc k (b ∷ bytes) h a =
    subst (λ e. foldl (λ a b. a * 256 + b) (acc * 256 + b) bytes < 256 ^ e) (omega arith)
      (be_bound (acc * 256 + b) (suc k) bytes h.1 (omega (arith, pow-suc 256 k)))

-- An integer of as many bytes is in range.
pub from_be_bytes-lt :
    (bytes : List ℕ) → All IsByte bytes → from_be_bytes bytes < 256 ^ length bytes
unfolding from_be_bytes
from_be_bytes-lt bytes h = rw zero-add at (be_bound 0 0 bytes h (omega arith))
