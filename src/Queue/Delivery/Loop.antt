-- ===== src/Queue/Delivery/Loop.antt =====
-- The loop over `pop` in src/transport.rs: what it hands on, and the queue behind it.
use rust_libp2p_nym.Prelude.{
  ℕ, zero, suc, ◌≤◌, ◌<◌, ◌≡◌, ◌≢◌, refl, sym, ◌∙◌, List, [], ◌∷◌, none, some, arith, length,
}
use rust_libp2p_nym.Message.TransportMessage.{TransportMessage}
use rust_libp2p_nym.Queue.{MessageQueue, pop}
use native.Mathlib.Decide.{ℕ_discrete}
use mathlib.Core.Path.{subst}
use rust_libp2p_nym.Queue.Set.{Above, find, Above-From}
use rust_libp2p_nym.Queue.Delivery.{pop_all, IsSmall, Synced, Ready, Delivers, queue_of}

pop_next :
    (n : ℕ) (m : TransportMessage) (xs : List TransportMessage)
    → m.nonce ≡ n
    → IsSmall m
    → pop (queue_of n (m ∷ xs)) ≡ (some m, queue_of (suc n) xs)
unfolding pop
pop_next n m xs e s = ground arith

pub pop_gap :
    (n : ℕ) (m : TransportMessage) (xs : List TransportMessage)
    → m.nonce ≢ n
    → pop (queue_of n (m ∷ xs)) ≡ (none, queue_of n (m ∷ xs))
unfolding pop
pop_gap n m xs e = ground arith

-- The loop, one round at a time: the head is the next message, or it is not.
pop_all_next :
    (fuel n : ℕ) (m : TransportMessage) (xs : List TransportMessage)
    → m.nonce ≡ n
    → IsSmall m
    → pop_all (suc fuel) (queue_of n (m ∷ xs))
      ≡ (m ∷ (pop_all fuel (queue_of (suc n) xs)).0, (pop_all fuel (queue_of (suc n) xs)).1)
unfolding pop_all
pop_all_next fuel n m xs e s = let p = pop_next n m xs e s in rw (pop_all, p) (rw p)

pop_all_gap :
    (fuel n : ℕ) (m : TransportMessage) (xs : List TransportMessage)
    → m.nonce ≢ n
    → pop_all (suc fuel) (queue_of n (m ∷ xs)) ≡ ([], queue_of n (m ∷ xs))
unfolding pop_all
pop_all_gap fuel n m xs e = let p = pop_gap n m xs e in rw (pop_all, p) (rw p)

pub nothing_ready :
    {p : List TransportMessage} (n : ℕ) (q : MessageQueue)
    → n ≡ q.next_expected_nonce
    → Synced p q
    → Delivers p n ([], q)
nothing_ready n q e s = record { run = tt; next = omega arith; synced = s }

pub find_past :
    (k : ℕ) (m : TransportMessage) (xs : List TransportMessage)
    → m.nonce < k
    → find k (m ∷ xs) ≡ find k xs
unfolding find
find_past k m xs lt = ground arith

pub find_here :
    (n : ℕ) (m : TransportMessage) (xs : List TransportMessage)
    → m.nonce ≡ n
    → find n (m ∷ xs) ≡ some m
unfolding find
find_here n m xs e = ground arith

-- The loop ends with a queue whose next message has not arrived, and gives what was ready.
pub pop_all-Delivers :
    (fuel n : ℕ) (p xs : List TransportMessage)
    → length xs ≤ fuel
    → Ready p (queue_of n xs)
    → Delivers p n (pop_all fuel (queue_of n xs))
unfolding pop_all
pop_all-Delivers zero n p [] le r =
    nothing_ready n _ refl (record { above = tt; found = r.found; small = tt })
pop_all-Delivers zero n p (x ∷ xs) le r = absurd (omega arith)
pop_all-Delivers (suc fuel) n p [] le r =
    unfold pop in nothing_ready n _ refl (record { above = tt; found = r.found; small = tt })
pop_all-Delivers (suc fuel) n p (x ∷ xs) le r = elim (ℕ_discrete x.nonce n) [
  | no ne ↦ rw (pop_all_gap fuel n x xs ne) (
      nothing_ready n (queue_of n (x ∷ xs)) refl
        (record { above = (omega arith, r.above.1); found = r.found; small = r.small }))
  | yes e ↦
      let rest : Ready p (queue_of (suc n) xs) = record {
        above = Above-From n xs (subst (λ j. Above j xs) e r.above.1);
        found = λ k le'. sym (find_past k x xs (omega arith)) ∙ r.found k (omega arith);
        small = r.small.1;
      } in
      let later = pop_all-Delivers fuel (suc n) p xs (omega arith) rest in
      rw (pop_all_next fuel n x xs e r.small.0) (record {
        run = (sym (r.found n (omega arith)) ∙ find_here n x xs e, later.run);
        next = omega (arith, later.next);
        synced = later.synced;
      })
]
