-- ===== src/Transport/Forwarding.antt =====
-- src/transport.rs, the loops over `queue.pop()`: they end, and they hand on what the queue releases.
use rust_libp2p_nym.Prelude.{
  ℕ, zero, suc, ◌≤◌, ◌≡◌, refl, sym, ◌∙◌, true, false, List, [], ◌∷◌, ◌++◌, map, append-nil,
  append_assoc, none, some, arith, length, ◌==◌, Bool-cases, inl, inr, ok,
}
use rust_libp2p_nym.Foreign.{Foreign}
use rust_libp2p_nym.Channel.{Channels, ChannelLaws}
use rust_libp2p_nym.Message.SubstreamMessage.{SubstreamMessage}
use rust_libp2p_nym.Message.TransportMessage.{TransportMessage}
use rust_libp2p_nym.Queue.{MessageQueue, pop, wrapping_inc}
use rust_libp2p_nym.Queue.Delivery.{pop_all}
use rust_libp2p_nym.Transport.Opening.{forward_queued}

-- What a connection gets of a message.
abbrev pub payloads : List TransportMessage → List SubstreamMessage
payloads ms = map (λ m. m.message) ms

abbrev at : ℕ → List TransportMessage → MessageQueue
at n xs = record { next_expected_nonce = n; queue = xs }

pop_hit :
    (n : ℕ) (m : TransportMessage) (xs : List TransportMessage)
    → (m.nonce == n) ≡ true
    → pop (at n (m ∷ xs)) ≡ (some m, at (wrapping_inc n) xs)
unfolding pop
pop_hit n m xs e = rw e

pop_miss :
    (n : ℕ) (m : TransportMessage) (xs : List TransportMessage)
    → (m.nonce == n) ≡ false
    → pop (at n (m ∷ xs)) ≡ (none, at n (m ∷ xs))
unfolding pop
pop_miss n m xs e = rw e

pop_all_hit :
    (fuel n : ℕ) (m : TransportMessage) (xs : List TransportMessage)
    → (m.nonce == n) ≡ true
    → pop_all (suc fuel) (at n (m ∷ xs))
      ≡ (m ∷ (pop_all fuel (at (wrapping_inc n) xs)).0, (pop_all fuel (at (wrapping_inc n) xs)).1)
unfolding pop_all
pop_all_hit fuel n m xs e = let p = pop_hit n m xs e in rw (pop_all, p) (rw p)

pop_all_miss :
    (fuel n : ℕ) (m : TransportMessage) (xs : List TransportMessage)
    → (m.nonce == n) ≡ false
    → pop_all (suc fuel) (at n (m ∷ xs)) ≡ ([], at n (m ∷ xs))
unfolding pop_all
pop_all_miss fuel n m xs e = let p = pop_miss n m xs e in rw (pop_all, p) (rw p)

module _ ⦃f : Foreign⦄ ⦃c : Channels⦄ where
  -- The channel `ch'` is `ch` with the payloads of `ms` sent into it.
  pub record Forwarded (ch ch' : c.Chan SubstreamMessage) (ms : List TransportMessage)
      : Type 0 where
    pub contents : c.contents ch' ≡ c.contents ch ++ payloads ms
    pub still_open : c.is_open ch' ≡ true

  forward_hit :
      (fuel n : ℕ) (m : TransportMessage) (xs : List TransportMessage)
      (ch ch' : c.Chan SubstreamMessage)
      → (m.nonce == n) ≡ true
      → c.send m.message ch ≡ some ch'
      → forward_queued (suc fuel) (at n (m ∷ xs)) ch
        ≡ forward_queued fuel (at (wrapping_inc n) xs) ch'
  unfolding forward_queued
  forward_hit fuel n m xs ch ch' e sent =
      let p = pop_hit n m xs e in rw (forward_queued, p) (rw sent (rw p))

  forward_miss :
      (fuel n : ℕ) (m : TransportMessage) (xs : List TransportMessage)
      (ch : c.Chan SubstreamMessage)
      → (m.nonce == n) ≡ false
      → forward_queued (suc fuel) (at n (m ∷ xs)) ch ≡ (ok tt, at n (m ∷ xs), ch)
  unfolding forward_queued
  forward_miss fuel n m xs ch e = let p = pop_miss n m xs e in rw (forward_queued, p) (rw p)

  module _ (laws : ChannelLaws) where
    -- With an open channel and fuel for each queued message, the loop ends without an error, and
    -- leaves the queue that the pops leave and the channel with the popped payloads in it, in order.
    pub forward_queued-pop_all :
        (fuel n : ℕ) (xs : List TransportMessage) (ch : c.Chan SubstreamMessage)
        → length xs ≤ fuel
        → c.is_open ch ≡ true
        → (ch' : c.Chan SubstreamMessage) × (forward_queued (suc fuel) (at n xs) ch
            ≡ (ok tt, (pop_all fuel (at n xs)).1, ch'))
          × Forwarded ch ch' (pop_all fuel (at n xs)).0
    unfolding pop_all
    forward_queued-pop_all zero n [] ch le o = (
      ch,
      unfold forward_queued pop in refl,
      record { contents = sym (append-nil _); still_open = o },
    )
    forward_queued-pop_all zero n (m ∷ xs) ch le o = absurd (omega arith)
    forward_queued-pop_all (suc fuel) n [] ch le o =
        unfold pop in
        (
          ch,
          unfold forward_queued in refl,
          record { contents = sym (append-nil _); still_open = o },
        )
    forward_queued-pop_all (suc fuel) n (m ∷ xs) ch le o = elim (Bool-cases (m.nonce == n)) [
      | inr miss ↦ rw (pop_all_miss fuel n m xs miss) (
        ch,
        forward_miss (suc fuel) n m xs ch miss,
        record { contents = sym (append-nil _); still_open = o },
      )
      | inl hit ↦
          let (ch', sent, k, o') = laws.send_open m.message ch o in
          let (ch'', rest, done) =
            forward_queued-pop_all fuel (wrapping_inc n) xs ch' (omega arith) o' in
          rw (pop_all_hit fuel n m xs hit) (
            ch'',
            forward_hit (suc fuel) n m xs ch ch' hit sent ∙ rest,
            record {
              contents = done.contents ∙ rw (k, append_assoc);
              still_open = done.still_open;
            },
          )
    ]
