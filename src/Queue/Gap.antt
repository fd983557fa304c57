-- ===== src/Queue/Gap.antt =====
-- src/queue.rs: what the queue hands on when the sender has skipped a nonce.
use mathlib.Core.List.{Perm}
use rust_libp2p_nym.Prelude.{
  ℕ, suc, ◌+◌, ◌<◌, inl, inr, refl, ◌≡◌, ◌≢◌, ◌∙◌, List, [], ◌∷◌, ◌++◌, arith, length, All,
  All-append, ok,
}
use rust_libp2p_nym.Message.TransportMessage.{TransportMessage}
use rust_libp2p_nym.Queue.{MessageQueue}
use rust_libp2p_nym.Queue.Set.{find-append}
use rust_libp2p_nym.Queue.Delivery.{IsRun, IsSmall, Run-extend}
use rust_libp2p_nym.Queue.Order.{
  Consecutive, Distinct, Consecutive-IsRun, Consecutive-Distinct, Consecutive-after, find_behind,
}
use rust_libp2p_nym.Queue.Session.{session, session_run, IsCounted, Consecutive-IsCounted}

gap-Distinct :
    (n k : ℕ) (xs ys : List TransportMessage)
    → n + length xs < k
    → Consecutive n xs
    → Consecutive k ys
    → Distinct (xs ++ ys)
gap-Distinct n k [] ys lt c d = Consecutive-Distinct k ys d
gap-Distinct n k (m ∷ xs) ys lt c d = (
  All-append (λ x. m.nonce ≢ x.nonce) xs ys
      (Consecutive-after (suc n) m.nonce xs (omega (arith, c.0)) c.1)
      (Consecutive-after k m.nonce ys (omega (arith, c.0, lt)) d),
  gap-Distinct (suc n) k xs ys (omega (arith, lt)) c.1 d,
)

gap-IsRun :
    (xs ys : List TransportMessage)
    → Consecutive 1 xs
    → Consecutive (2 + length xs) ys
    → IsRun 1 (xs ++ ys) xs
gap-IsRun xs ys c d =
    let absent = find_behind 1 (1 + length xs) xs c (inr (omega arith)) in
    let later = find_behind (2 + length xs) (1 + length xs) ys d (inl (omega arith)) in
    (
      Run-extend 1 xs ys xs (Consecutive-IsRun 1 xs c).0,
      find-append (1 + length xs) xs ys ∙ rw (absent, later) refl,
    )

-- The nonce behind those of `xs` is skipped: then nothing of `ys` is handed on.
pub session-gap :
    {E : Type 0} (xs ys before after : List TransportMessage)
    → Consecutive 1 xs
    → Consecutive (2 + length xs) ys
    → All IsSmall (xs ++ ys)
    → Perm (xs ++ ys) (before ++ after)
    → (q : MessageQueue) × (session {E = E} before after ≡ ok (xs, q))
      × (q.next_expected_nonce ≡ 1 + length xs)
session-gap xs ys before after c d small p =
    session_run (xs ++ ys) before after xs (gap-Distinct 1 (2 + length xs) xs ys (omega arith) c d)
      (All-append IsCounted xs ys (Consecutive-IsCounted 1 xs (omega arith) c)
        (Consecutive-IsCounted (2 + length xs) ys (omega arith) d))
      small p (gap-IsRun xs ys c d)
