-- ===== src/Connection/Sending.antt =====
-- src/connection.rs and src/substream.rs: all that one side of a connection does, in any order, as
-- steps on what the connection and its substreams share.
use rust_libp2p_nym.Prelude.{
  ℕ, suc, ◌+◌, ◌^◌, ◌<◌, ◌≡◌, ◌≢◌, true, refl, sym, ap, ◌∙◌, subst, false, List, [], ◌∷◌, ◌++◌,
  Option-cases, arith, inl, inr, none, some, length, length-append, All,
}
use rust_libp2p_nym.Foreign.{Foreign}
use rust_libp2p_nym.Channel.{Channels, ChannelLaws}
use rust_libp2p_nym.Message.SubstreamId.{SubstreamId}
use rust_libp2p_nym.Message.SubstreamMessage.{new_with_data, new_close}
use rust_libp2p_nym.Message.TransportMessage.{TransportMessage}
use rust_libp2p_nym.Message.Wire.{
  Message, transport_message, connection_request, connection_response, OutboundMessage,
}
use rust_libp2p_nym.Queue.Order.{Consecutive}
use rust_libp2p_nym.Queue.Delivery.{IsSmall}
use rust_libp2p_nym.Substream.{Substream, Link, poll_write, poll_close, check_closed, framed}
use rust_libp2p_nym.Substream.Nonce.{poll_write-Sent, poll_close-Sent}
use rust_libp2p_nym.Connection.{Muxer, poll, poll_outbound, new_outbound_substream, first_nonce}
use rust_libp2p_nym.Connection.Nonces.{
  nonce_of, Numbers, Numbered, Numbered-refl, Numbered-trans, Sent-Numbered, continue-Numbered,
  poll-Numbered, new_outbound_substream-Numbered,
}

module _ ⦃f : Foreign⦄ ⦃c : Channels⦄ where
  -- One call on the connection or on one of its substreams. The connection and the substream may be
  -- in any state; of closing, only that of a substream whose flag is not set is a step.
  pub data Step : Link → Link → Type 0 where
    polled : (cx : f.Waker) (m : Muxer) → Step m.link (poll cx m).1.link
    opened : (id : SubstreamId) (m : Muxer) → Step m.link (poll_outbound id m).1.link
    wrote : (s : Substream) (buf : List ℕ) (l : Link) → Step l (poll_write s buf l).link
    shut : (s : Substream) (l : Link) → s.closed ≡ false → Step l (poll_close s l).link

  pub data Reaches : Link → Link → Type 0 where
    done : (l : Link) → Reaches l l
    step : {l l' l'' : Link} → Step l l' → Reaches l' l'' → Reaches l l''

  refused_write :
      (s : Substream) (buf : List ℕ) (l : Link)
      → (check_closed s).0 ≢ none
      → (poll_write s buf l).link ≡ l
  unfolding poll_write
  refused_write s buf l h = ground arith

  -- The transport messages among what was sent.
  abbrev pub transport_messages : List OutboundMessage → List TransportMessage
  transport_messages [] = []
  transport_messages (m ∷ ms) = of_message m.message (transport_messages ms)
    where
      of_message : Message → List TransportMessage → List TransportMessage
      of_message (transport_message t) ts = t ∷ ts
      of_message (connection_request r) ts = ts
      of_message (connection_response r) ts = ts

  carried :
      (x : Message) (n : ℕ)
      → nonce_of x ≡ some n
      → (t : TransportMessage) × (x ≡ transport_message t) × (t.nonce ≡ n)
  carried (transport_message t) n e = (t, refl, cc e)
  carried (connection_request r) n e = absurd (cc e)
  carried (connection_response r) n e = absurd (cc e)

  pub Numbers-Consecutive :
      (n : ℕ) (ms : List OutboundMessage) (n' : ℕ)
      → n + length ms < 2 ^ 64
      → Numbers n ms n'
      → (length (transport_messages ms) ≡ length ms)
        × Consecutive n (transport_messages ms)
        × All IsSmall (transport_messages ms)
  Numbers-Consecutive n [] n' b h = (refl, tt, tt)
  Numbers-Consecutive n (m ∷ ms) n' b (e, h) =
      let (t, same, k) = carried m.message n e in
      let (all, cons, small) =
        Numbers-Consecutive (suc n) ms n' (omega arith)
          (subst (λ j. Numbers j ms n') (omega arith) h) in
      rw same (ap suc all, (k, cons), (omega arith, small))

  module _ (laws : ChannelLaws) where
    write-Numbered :
        (s : Substream) (buf : List ℕ) (l : Link)
        → c.is_open l.outbound_tx ≡ true
        → Numbered l (poll_write s buf l).link
    write-Numbered s buf l o = elim (Option-cases (check_closed s).0) [
      | inl live ↦
          Sent-Numbered l _ (framed s (new_with_data s.substream_id buf) l.message_nonce) refl
            (poll_write-Sent laws s l buf live o).1
      | inr (e, closed) ↦
          subst (Numbered l) (sym (refused_write s buf l (λ h. absurd (cc (h, closed)))))
            (Numbered-refl l o)
    ]

    Step-Numbered : (l l' : Link) → Step l l' → c.is_open l.outbound_tx ≡ true → Numbered l l'
    unfolding poll_outbound
    Step-Numbered _ _ (Step.polled cx m) o = poll-Numbered laws cx m o
    Step-Numbered _ _ (Step.opened id m) o =
        let h = new_outbound_substream-Numbered laws id m o in
        continue-Numbered m.link (new_outbound_substream id m) _ h λ s. Numbered-refl _ h.still_open
    Step-Numbered _ _ (Step.wrote s buf l) o = write-Numbered s buf l o
    Step-Numbered _ _ (Step.shut s l live) o =
        Sent-Numbered l _ (framed s (new_close s.substream_id) l.message_nonce) refl
          (poll_close-Sent laws s l live o).2

    -- However a connection and its substreams are polled, opened, written to and closed, in any
    -- order and any number of times, if the mixnet's channel is open and no substream is closed
    -- whose flag is set: the messages that this adds to the channel carry the nonces that the
    -- counter gives out, one by one, none skipped and none used twice.
    pub Reaches-Numbered :
        (l l' : Link) → Reaches l l' → c.is_open l.outbound_tx ≡ true → Numbered l l'
    Reaches-Numbered _ _ (Reaches.done l) o = Numbered-refl l o
    Reaches-Numbered l l' (Reaches.step {l' = mid} s r) o =
        let first = Step-Numbered l mid s o in
        Numbered-trans l mid l' first (Reaches-Numbered mid l' r first.still_open)

    -- A connection begins with the nonce 1. Whatever happens on it while the mixnet's channel is
    -- open and fewer than 2^64 - 1 messages are in it, if no substream is closed whose flag is set,
    -- the messages that the connection adds to the channel are transport messages with the nonces 1,
    -- 2, 3 and so on, in this order, none of them 2^64 - 1.
    pub Reaches-Consecutive :
        (l l' : Link)
        → Reaches l l'
        → l.message_nonce ≡ first_nonce
        → c.is_open l.outbound_tx ≡ true
        → length (c.contents l'.outbound_tx) + 1 < 2 ^ 64
        → (ms : List OutboundMessage) × (c.contents l'.outbound_tx ≡ c.contents l.outbound_tx ++ ms)
          × (length (transport_messages ms) ≡ length ms)
          × Consecutive 1 (transport_messages ms)
          × All IsSmall (transport_messages ms)
    Reaches-Consecutive l l' r e o b =
        let h = Reaches-Numbered l l' r o in
        let total = ap length h.outbound ∙ length-append (c.contents l.outbound_tx) h.messages in
        let (all, k, small) =
          Numbers-Consecutive 1 h.messages l'.message_nonce (omega (arith, b, total))
            (subst (λ n. Numbers n h.messages l'.message_nonce) e h.numbers) in
        (h.messages, h.outbound, all, k, small)
