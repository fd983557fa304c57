-- ===== src/Queue/Delivery/Arrivals.antt =====
-- `try_push` and the loop over `pop` in src/transport.rs, on one arrival and on many.
use rust_libp2p_nym.Prelude.{
  ℕ, suc, ◌<◌, ◌≡◌, ◌≢◌, refl, sym, ap, ◌∙◌, List, [], ◌∷◌, ◌++◌, none, some, arith, length,
  length-append, All, append_assoc, append-nil,
}
use rust_libp2p_nym.Message.TransportMessage.{TransportMessage}
use rust_libp2p_nym.Queue.{try_push}
use rust_libp2p_nym.Prelude.{inl, inr, order}
use mathlib.Core.Path.{subst}
use rust_libp2p_nym.Queue.Set.{
  insert, find, or_else, find-append, Above-From, find_below, insert-Above, find-insert, insert-All,
}
use rust_libp2p_nym.Queue.Delivery.{
  pop_all, receive, receive_all, Run, IsSmall, Run-extend, Run-append, Synced, Ready, Delivers,
  queue_of,
}
use rust_libp2p_nym.Queue.Delivery.Loop.{pop_all-Delivers, nothing_ready, find_here}

find_last :
    (k : ℕ) (p : List TransportMessage) (m : TransportMessage)
    → m.nonce ≢ k
    → find k (p ++ m ∷ []) ≡ find k p
unfolding find
find_last k p m ne = ground (arith, find-append k p (m ∷ []))

find_new :
    (n : ℕ) (p : List TransportMessage) (m : TransportMessage)
    → m.nonce ≡ n
    → find n p ≡ none
    → find n (p ++ m ∷ []) ≡ some m
find_new n p m e gone = rw (find-append, gone, find_here n m [] e)

receive_next :
    (n : ℕ) (m : TransportMessage) (xs : List TransportMessage)
    → m.nonce ≡ n
    → IsSmall m
    → receive (queue_of n xs) m ≡ (
      m ∷ (pop_all (length xs) (queue_of (suc n) xs)).0,
      (pop_all (length xs) (queue_of (suc n) xs)).1,
    )
unfolding receive
receive_next n m xs e s = rw (receive, pushed) (rw pushed)
  where
    pushed : try_push (queue_of n xs) m ≡ (some m, queue_of (suc n) xs)
    pushed = unfold try_push in ground arith

receive_late :
    (n : ℕ) (m : TransportMessage) (xs : List TransportMessage)
    → m.nonce < n
    → receive (queue_of n xs) m ≡ ([], queue_of n xs)
unfolding receive
receive_late n m xs lt = rw (receive, pushed) (rw pushed)
  where
    pushed : try_push (queue_of n xs) m ≡ (none, queue_of n xs)
    pushed = unfold try_push in ground arith

receive_early :
    (n : ℕ) (m : TransportMessage) (xs : List TransportMessage)
    → n < m.nonce
    → receive (queue_of n xs) m ≡ ([], queue_of n (insert m xs).1)
unfolding receive
receive_early n m xs lt = rw (receive, pushed) (rw pushed)
  where
    pushed : try_push (queue_of n xs) m ≡ (none, queue_of n (insert m xs).1)
    pushed = unfold try_push in ground arith

pub receive-Delivers :
    (n : ℕ) (p xs : List TransportMessage) (m : TransportMessage)
    → IsSmall m
    → Synced p (queue_of n xs)
    → Delivers (p ++ m ∷ []) n (receive (queue_of n xs) m)
receive-Delivers n p xs m small s = elim (order m.nonce n) [
  | inl lt ↦ rw (receive_late n m xs lt) (
      nothing_ready n (queue_of n xs) refl (record {
        above = s.above;
        found = λ k le. s.found k le ∙ sym (find_last k p m (omega arith));
        small = s.small;
      }))
  | inr (inl eq) ↦
      let ready : Ready (p ++ m ∷ []) (queue_of (suc n) xs) = record {
        above = Above-From n xs s.above;
        found = λ k le. s.found k (omega arith) ∙ sym (find_last k p m (omega arith));
        small = s.small;
      } in
      let later = pop_all-Delivers (length xs) (suc n) (p ++ m ∷ []) xs (omega arith) ready in
      let gone = sym (s.found n (omega arith)) ∙ find_below n n xs s.above (omega arith) in
      rw (receive_next n m xs eq small) (record {
        run = (find_new n p m eq gone, later.run);
        next = omega (arith, later.next);
        synced = later.synced;
      })
  | inr (inr gt) ↦ rw (receive_early n m xs gt) (
      nothing_ready n (queue_of n (insert m xs).1) refl (record {
        above = insert-Above n m xs s.above gt;
        found = λ k le.
            find-insert k n m xs s.above
            ∙ ap (λ o. or_else o (find k (m ∷ []))) (s.found k le)
            ∙ sym (find-append k p (m ∷ []));
        small = insert-All IsSmall m xs s.small small;
      }))
]

pub receive_all-Delivers :
    (n : ℕ) (p xs ms : List TransportMessage)
    → All IsSmall ms
    → Synced p (queue_of n xs)
    → Delivers (p ++ ms) n (receive_all (queue_of n xs) ms)
unfolding receive_all
receive_all-Delivers n p xs [] small s = nothing_ready n (queue_of n xs) refl (rw append-nil s)
receive_all-Delivers n p xs (m ∷ ms) small s =
    let first = receive-Delivers n p xs m small.0 s in
    let q = (receive (queue_of n xs) m).1 in
    let d = (receive (queue_of n xs) m).0 in
    let rest =
      receive_all-Delivers q.next_expected_nonce (p ++ m ∷ []) q.queue ms small.1 first.synced in
    let joined = append_assoc p (m ∷ []) ms in
    record {
      run =
          Run-append n q.next_expected_nonce (p ++ m ∷ ms) d _ first.next
            (subst (λ all. Run n all d) joined (Run-extend n (p ++ m ∷ []) ms d first.run))
            (subst (λ all. Run q.next_expected_nonce all (receive_all q ms).0) joined rest.run);
      next = omega (arith, length-append d (receive_all q ms).0, first.next, rest.next);
      synced = subst (λ all. Synced all (receive_all q ms).1) joined rest.synced;
    }
