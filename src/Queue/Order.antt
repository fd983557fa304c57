-- ===== src/Queue/Order.antt =====
-- Runs of consecutive nonces: a run is determined by the first arrivals, whatever their order.
use mathlib.Core.Path.{subst}
use mathlib.Core.HLevel.{×_prop, Unit-prop}
use mathlib.Core.List.{Perm, Permᴰ}
use mathlib.Core.Logic.{∥∥₁_elim}
use native.Mathlib.Nat.{ℕ_set}
use rust_libp2p_nym.Prelude.{
  ℕ, suc, ◌+◌, ◌≤◌, ◌<◌, ◌≡◌, ◌≢◌, refl, sym, ◌∙◌, List, [], ◌∷◌, Option, none, some, arith, ◌⊎◌,
  length, All, All-permᴰ, ==_ne,
}
use rust_libp2p_nym.Message.TransportMessage.{TransportMessage}
use rust_libp2p_nym.Queue.Set.{find}
use rust_libp2p_nym.Queue.Delivery.{Run, IsRun}

-- The messages of a peer that counts from `n`.
abbrev pub Consecutive : ℕ → List TransportMessage → Type 0
Consecutive n [] = Unit
Consecutive n (m ∷ ms) = (m.nonce ≡ n) × Consecutive (suc n) ms

abbrev pub Distinct : List TransportMessage → Type 0
Distinct [] = Unit
Distinct (m ∷ ms) = All (λ x. m.nonce ≢ x.nonce) ms × Distinct ms

-- Two runs of the same arrivals are one.
pub IsRun-unique :
    (n : ℕ) (ms ds es : List TransportMessage) → IsRun n ms ds → IsRun n ms es → ds ≡ es
IsRun-unique n ms [] [] h k = refl
IsRun-unique n ms [] (e ∷ es) h k =
    absurd (none_or (subst (λ j. find j ms ≡ none) (omega arith) h.1) k.0.0)
  where
    none_or : find n ms ≡ none → find n ms ≡ some e → ⊥
    none_or a b = cc
IsRun-unique n ms (d ∷ ds) [] h k =
    absurd (none_or (subst (λ j. find j ms ≡ none) (omega arith) k.1) h.0.0)
  where
    none_or : find n ms ≡ none → find n ms ≡ some d → ⊥
    none_or a b = cc
IsRun-unique n ms (d ∷ ds) (e ∷ es) h k =
    let rest =
      IsRun-unique (suc n) ms ds es (h.0.1, subst (λ j. find j ms ≡ none) (omega arith) h.1)
        (k.0.1, subst (λ j. find j ms ≡ none) (omega arith) k.1) in
    cc (rest, h.0.0, k.0.0)

-- A run is one of any arrivals with the same first messages.
pub Run-transfer :
    (n : ℕ) (ms ns ds : List TransportMessage)
    → ((k : ℕ) → find k ms ≡ find k ns)
    → Run n ms ds
    → Run n ns ds
Run-transfer n ms ns [] same h = tt
Run-transfer n ms ns (d ∷ ds) same h = (sym (same n) ∙ h.0, Run-transfer (suc n) ms ns ds same h.1)

find_past :
    (k : ℕ) (m : TransportMessage) (ms : List TransportMessage)
    → m.nonce ≢ k
    → find k (m ∷ ms) ≡ find k ms
unfolding find
find_past k m ms ne = rw (==_ne m.nonce k ne)

Run-cons :
    (m : TransportMessage) (n : ℕ) (ms ds : List TransportMessage)
    → m.nonce < n
    → Run n ms ds
    → Run n (m ∷ ms) ds
Run-cons m n ms [] lt h = tt
Run-cons m n ms (d ∷ ds) lt h =
    (find_past n m ms (omega arith) ∙ h.0, Run-cons m (suc n) ms ds (omega arith) h.1)

pub find_behind :
    (n k : ℕ) (ms : List TransportMessage)
    → Consecutive n ms
    → (k < n) ⊎ (n + length ms ≤ k)
    → find k ms ≡ none
unfolding find
find_behind n k [] c h = refl
find_behind n k (m ∷ ms) c h = ground (arith, find_behind (suc n) k ms c.1)

-- What was sent in order is its own run.
pub Consecutive-IsRun : (n : ℕ) (ms : List TransportMessage) → Consecutive n ms → IsRun n ms ms
Consecutive-IsRun n [] c = (tt, unfold find in refl)
Consecutive-IsRun n (m ∷ ms) c = (
  (here, Run-cons m (suc n) ms ms (omega arith) (Consecutive-IsRun (suc n) ms c.1).0),
  find_behind n (n + length (m ∷ ms)) (m ∷ ms) c (omega arith),
)
  where
    here : find n (m ∷ ms) ≡ some m
    here = unfold find in ground arith

pub Consecutive-after :
    (n k : ℕ) (ms : List TransportMessage) → k < n → Consecutive n ms → All (λ x. k ≢ x.nonce) ms
Consecutive-after n k [] lt c = tt
Consecutive-after n k (m ∷ ms) lt c =
    (omega arith, Consecutive-after (suc n) k ms (omega arith) c.1)

pub Consecutive-Distinct : (n : ℕ) (ms : List TransportMessage) → Consecutive n ms → Distinct ms
Consecutive-Distinct n [] c = tt
Consecutive-Distinct n (m ∷ ms) c =
    (Consecutive-after (suc n) m.nonce ms (omega arith) c.1, Consecutive-Distinct (suc n) ms c.1)

-- Permutations: distinct nonces, and the message with a nonce.
abbrev Fresh : List TransportMessage → TransportMessage → Type 0
Fresh l m = All (λ x. m.nonce ≢ x.nonce) l

Distinct-permᴰ : {xs ys : List TransportMessage} → Permᴰ xs ys → Distinct xs → Distinct ys
Distinct-permᴰ Permᴰ.nil h = tt
Distinct-permᴰ (Permᴰ.cons {a = a} {b = b} {l₁ = l} {l₂ = l'} e p) h =
    (subst (Fresh l') e (All-permᴰ (λ x. a.nonce ≢ x.nonce) p h.0), Distinct-permᴰ p h.1)
Distinct-permᴰ (Permᴰ.swap {a = a} {b = b} {l = l} e e') h =
    ((λ q. h.0.0 (cc (e, e', q)), subst (Fresh l) e' h.1.0), (subst (Fresh l) e h.0.1, h.1.1))
Distinct-permᴰ (Permᴰ.trans p q) h = Distinct-permᴰ q (Distinct-permᴰ p h)

find_cons :
    (k : ℕ) (a b : TransportMessage) (xs ys : List TransportMessage)
    → a ≡ b
    → find k xs ≡ find k ys
    → find k (a ∷ xs) ≡ find k (b ∷ ys)
unfolding find
find_cons k a b xs ys e h = cc (e, h)

find_swap :
    (k : ℕ) (a b : TransportMessage) (xs : List TransportMessage)
    → a.nonce ≢ b.nonce
    → find k (a ∷ b ∷ xs) ≡ find k (b ∷ a ∷ xs)
unfolding find
find_swap k a b xs ne = ground arith

find_permᴰ :
    {xs ys : List TransportMessage} (k : ℕ) → Permᴰ xs ys → Distinct xs → find k xs ≡ find k ys
find_permᴰ k Permᴰ.nil h = refl
find_permᴰ k (Permᴰ.cons {a = a} {b = b} {l₁ = l} {l₂ = l'} e p) h =
    find_cons k a b l l' e (find_permᴰ k p h.1)
find_permᴰ k (Permᴰ.swap {a = a} {b = b} {a' = a'} {b' = b'} {l = l} e e') h =
    find_swap k a b l h.0.0 ∙ find_cons k b a' (a ∷ l) (b' ∷ l) e' (find_cons k a b' l l e refl)
find_permᴰ k (Permᴰ.trans p q) h = find_permᴰ k p h ∙ find_permᴰ k q (Distinct-permᴰ p h)

found_set : IsSet (Option TransportMessage)
found_set = hlevel ℕ_set

pub find_perm :
    (xs ys : List TransportMessage) → Perm xs ys → Distinct xs → (k : ℕ) → find k xs ≡ find k ys
find_perm xs ys p d k = ∥∥₁_elim p (found_set _ _) λ w. find_permᴰ k w d

All-prop :
    (P : TransportMessage → Type 0)
    → ((m : TransportMessage) → IsProp (P m))
    → (ms : List TransportMessage) → IsProp (All P ms)
All-prop P prop [] = Unit-prop
All-prop P prop (m ∷ ms) = ×_prop (prop m) (All-prop P prop ms)

pub All-perm :
    (P : TransportMessage → Type 0)
    → ((m : TransportMessage) → IsProp (P m))
    → (xs ys : List TransportMessage) → Perm xs ys
    → All P xs
    → All P ys
All-perm P prop xs ys p h = ∥∥₁_elim p (All-prop P prop ys) λ w. All-permᴰ P w h
