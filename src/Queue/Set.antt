-- ===== src/Queue/Set.antt =====
-- The BTreeSet of src/queue.rs, ordered by `Ord for TransportMessage` of src/message.rs, as the list
-- of its elements in order. `insert` keeps the element that is there.
use Prim.Native.Nat.{compare, Ordering}
use rust_libp2p_nym.Prelude.{
  ℕ, suc, ◌≤◌, ◌<◌, ◌≡◌, refl, Bool, true, false, List, [], ◌∷◌, ◌++◌, Option, none, some, arith,
  ◌==◌, if◌then◌else◌, All,
}
use rust_libp2p_nym.Message.TransportMessage.{TransportMessage}

-- `Ord`, and with it `PartialOrd`, `Eq` and `PartialEq`, look at the nonce alone.
abbrev pub cmp : TransportMessage → TransportMessage → Ordering
cmp a b = compare a.nonce b.nonce

unfoldable pub insert : TransportMessage → List TransportMessage → Bool × List TransportMessage
insert m [] = (true, m ∷ [])
insert m (x ∷ xs) =
    let rest = insert m xs in
    elim (cmp m x) [
      | Ordering.lt ↦ (true, m ∷ x ∷ xs)
      | Ordering.eq ↦ (false, x ∷ xs)
      | Ordering.gt ↦ (rest.0, x ∷ rest.1)
    ]

-- The nonces grow along the list, from above `n` on.
abbrev pub Above : ℕ → List TransportMessage → Type 0
Above n [] = Unit
Above n (m ∷ ms) = (n < m.nonce) × Above m.nonce ms

-- The same from `n` itself on.
abbrev pub From : ℕ → List TransportMessage → Type 0
From n [] = Unit
From n (m ∷ ms) = (n ≤ m.nonce) × Above m.nonce ms

-- The first message with a given nonce.
unfoldable pub find : ℕ → List TransportMessage → Option TransportMessage
find n [] = none
find n (m ∷ ms) = if m.nonce == n then some m else find n ms

abbrev pub or_else {ℓ} : {A : Type ℓ} → Option A → Option A → Option A
or_else none b = b
or_else (some a) b = some a

pub find-append :
    (n : ℕ) (xs ys : List TransportMessage) → find n (xs ++ ys) ≡ or_else (find n xs) (find n ys)
unfolding find
find-append n [] ys = refl
find-append n (x ∷ xs) ys = ground (arith, find-append n xs ys)

pub Above-From : (n : ℕ) (xs : List TransportMessage) → Above n xs → From (suc n) xs
Above-From n [] h = tt
Above-From n (x ∷ xs) h = h

pub find_below : (k n : ℕ) (xs : List TransportMessage) → Above n xs → k ≤ n → find k xs ≡ none
unfolding find
find_below k n [] h le = refl
find_below k n (x ∷ xs) h le = ground (arith, find_below k x.nonce xs h.1)

pub insert-Above :
    (n : ℕ) (m : TransportMessage) (xs : List TransportMessage)
    → Above n xs
    → n < m.nonce
    → Above n (insert m xs).1
unfolding insert
insert-Above n m [] h lt = (lt, tt)
insert-Above n m (x ∷ xs) h lt = ground (arith, insert-Above x.nonce m xs h.1)

pub find-insert :
    (k n : ℕ) (m : TransportMessage) (xs : List TransportMessage)
    → Above n xs
    → find k (insert m xs).1 ≡ or_else (find k xs) (find k (m ∷ []))
unfolding insert find
find-insert k n m [] h = refl
find-insert k n m (x ∷ xs) h =
    ground (arith, find-insert k x.nonce m xs h.1, find_below k x.nonce xs h.1)

pub insert-All :
    (P : TransportMessage → Type 0) (m : TransportMessage) (xs : List TransportMessage)
    → All P xs
    → P m
    → All P (insert m xs).1
unfolding insert
insert-All P m [] h p = (p, tt)
insert-All P m (x ∷ xs) h p = ground (arith, insert-All P m xs h.1)
