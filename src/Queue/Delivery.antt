-- ===== src/Queue/Delivery.antt =====
-- The order in which a connection's messages leave the queue: the loop that src/transport.rs runs over
-- `try_push` and `pop`, and what it hands on for a sequence of arrivals.
use rust_libp2p_nym.Prelude.{
  ℕ, zero, suc, ◌+◌, ◌^◌, ◌≤◌, ◌<◌, ◌≡◌, ◌≢◌, refl, sym, ap, ◌∙◌, List, [], ◌∷◌, ◌++◌, none, some,
  arith, length, length-append, All, append_assoc, append-nil,
}
use rust_libp2p_nym.Message.TransportMessage.{TransportMessage}
use rust_libp2p_nym.Queue.{MessageQueue, try_push, pop}
use rust_libp2p_nym.Prelude.{inl, inr, order}
use native.Mathlib.Decide.{ℕ_discrete}
use mathlib.Core.Path.{subst}
use rust_libp2p_nym.Queue.Set.{
  insert, Above, From, find, or_else, find-append, Above-From, find_below, insert-Above,
  find-insert, insert-All,
}
pub mod Loop
pub mod Arrivals

-- `while let Some(msg) = queue.pop()`, with fuel: what it pops, in order, and the queue behind it.
unfoldable pub pop_all : ℕ → MessageQueue → List TransportMessage × MessageQueue
pop_all zero q = ([], q)
pop_all (suc fuel) q =
    let rest = pop_all fuel (pop q).1 in
    elim (pop q).0 [ none ↦ ([], (pop q).1) | some m ↦ (m ∷ rest.0, rest.1) ]

-- One arrival: the message itself, if it is the next one, and the queued ones that it releases. Each
-- round of the loop takes one message off the queue.
unfoldable pub receive : MessageQueue → TransportMessage → List TransportMessage × MessageQueue
receive q m =
    let pushed = (try_push q m).1 in
    let rest = pop_all (length pushed.queue) pushed in
    elim (try_push q m).0 [ none ↦ ([], pushed) | some m' ↦ (m' ∷ rest.0, rest.1) ]

unfoldable pub receive_all :
    MessageQueue → List TransportMessage → List TransportMessage × MessageQueue
receive_all q [] = ([], q)
receive_all q (m ∷ ms) =
    let first = receive q m in let rest = receive_all first.1 ms in (first.0 ++ rest.0, rest.1)

-- `ds` are the first arrivals in `ms` with the nonces n, n + 1, and so on.
abbrev pub Run : ℕ → List TransportMessage → List TransportMessage → Type 0
Run n ms [] = Unit
Run n ms (d ∷ ds) = (find n ms ≡ some d) × Run (suc n) ms ds

-- It goes on until a nonce has not arrived.
abbrev pub IsRun : ℕ → List TransportMessage → List TransportMessage → Type 0
IsRun n ms ds = Run n ms ds × (find (n + length ds) ms ≡ none)

-- The successor of the nonce is a u64.
abbrev pub IsSmall : TransportMessage → Type 0
IsSmall m = m.nonce + 1 < 2 ^ 64

find-extend :
    (n : ℕ) (xs ys : List TransportMessage) {m : TransportMessage}
    → find n xs ≡ some m
    → find n (xs ++ ys) ≡ some m
find-extend n xs ys e = rw (find-append, e)

pub Run-extend : (n : ℕ) (xs ys ds : List TransportMessage) → Run n xs ds → Run n (xs ++ ys) ds
Run-extend n xs ys [] h = tt
Run-extend n xs ys (d ∷ ds) h = (find-extend n xs ys h.0, Run-extend (suc n) xs ys ds h.1)

pub Run-append :
    (n k : ℕ) (ms ds es : List TransportMessage)
    → n + length ds ≡ k
    → Run n ms ds
    → Run k ms es
    → Run n ms (ds ++ es)
Run-append n k ms [] es e h r = subst (λ j. Run j ms es) (omega arith) r
Run-append n k ms (d ∷ ds) es e h r = (h.0, Run-append (suc n) k ms ds es (omega arith) h.1 r)

-- The queue holds what has arrived, `p`, from the next expected nonce on; that one has not arrived.
pub record Synced (p : List TransportMessage) (q : MessageQueue) : Type 0 where
  pub above : Above q.next_expected_nonce q.queue
  pub found : (k : ℕ) → q.next_expected_nonce ≤ k → find k q.queue ≡ find k p
  pub small : All IsSmall q.queue

-- The same before the loop: the next one may be at the head of the queue.
pub record Ready (p : List TransportMessage) (q : MessageQueue) : Type 0 where
  pub above : From q.next_expected_nonce q.queue
  pub found : (k : ℕ) → q.next_expected_nonce ≤ k → find k q.queue ≡ find k p
  pub small : All IsSmall q.queue

-- What a step hands on, `ds`, and the queue that it leaves, after the arrivals `p`.
pub record Delivers (p : List TransportMessage) (n : ℕ) (r : List TransportMessage × MessageQueue)
    : Type 0 where
  pub run : Run n p r.0
  pub next : n + length r.0 ≡ r.1.next_expected_nonce
  pub synced : Synced p r.1

abbrev queue_of : ℕ → List TransportMessage → MessageQueue
queue_of n xs = record { next_expected_nonce = n; queue = xs }
