-- ===== src/Connection/Nonces.antt =====
-- src/connection.rs and src/substream.rs: the messages that leave a connection are numbered one by
-- one.
use rust_libp2p_nym.Prelude.{
  ℕ, zero, suc, ◌≡◌, refl, sym, ◌∙◌, subst, true, List, [], ◌∷◌, ◌++◌, append-nil, append_assoc,
  Option, none, some, arith, inl, inr, Outcome, ok, err, panic, stuck, length,
}
use rust_libp2p_nym.Prelude.Exec.{continue}
use rust_libp2p_nym.Foreign.{Foreign}
use rust_libp2p_nym.Channel.{Channels, ChannelLaws, Poll-cases}
use rust_libp2p_nym.Error.{Error}
use rust_libp2p_nym.Message.SubstreamId.{SubstreamId, SubstreamId_key}
use rust_libp2p_nym.Message.SubstreamMessage.{
  SubstreamMessage, SubstreamMessageType, open_request, open_response, close, payload,
}
use rust_libp2p_nym.Message.Wire.{
  Message, transport_message, connection_request, connection_response, OutboundMessage,
}
use rust_libp2p_nym.Substream.{Substream, Link, fetch_add}
use rust_libp2p_nym.Substream.Nonce.{Sent}
use rust_libp2p_nym.Connection.{
  Muxer, framed, fetch_nonce, send_outbound, new_substream, new_outbound_substream, signal_close,
  notify_closed, handle_close, offer_inbound, handle_open_request, handle_data, handle_message,
  poll_loop, Method, update, poll,
}

module _ ⦃f : Foreign⦄ ⦃c : Channels⦄ where
  abbrev pub nonce_of : Message → Option ℕ
  nonce_of (transport_message m) = some m.nonce
  nonce_of (connection_request m) = none
  nonce_of (connection_response m) = none

  -- The messages carry the nonces that the counter gives out between n and n'.
  abbrev pub Numbers : ℕ → List OutboundMessage → ℕ → Type 0
  Numbers n [] n' = n ≡ n'
  Numbers n (m ∷ ms) n' = (nonce_of m.message ≡ some n) × Numbers (fetch_add n) ms n'

  -- Between `l` and `l'` messages were put into the mixnet's channel with the nonces that were
  -- taken, none skipped and none used twice.
  pub record Numbered (l l' : Link) : Type 0 where
    pub messages : List OutboundMessage
    pub outbound : c.contents l'.outbound_tx ≡ c.contents l.outbound_tx ++ messages
    pub numbers : Numbers l.message_nonce messages l'.message_nonce
    pub still_open : c.is_open l'.outbound_tx ≡ true

  Numbers-append :
      (n : ℕ) (ms : List OutboundMessage) (n' : ℕ) (ms' : List OutboundMessage) (n'' : ℕ)
      → Numbers n ms n'
      → Numbers n' ms' n''
      → Numbers n (ms ++ ms') n''
  Numbers-append n [] n' ms' n'' e h = subst (λ k. Numbers k ms' n'') (sym e) h
  Numbers-append n (m ∷ ms) n' ms' n'' (e, k) h =
      (e, Numbers-append (fetch_add n) ms n' ms' n'' k h)

  pub Numbered-refl : (l : Link) → c.is_open l.outbound_tx ≡ true → Numbered l l
  Numbered-refl l o = record {
    messages = [];
    outbound = sym (append-nil _);
    numbers = refl;
    still_open = o;
  }

  pub Numbered-trans : (l l' l'' : Link) → Numbered l l' → Numbered l' l'' → Numbered l l''
  Numbered-trans l l' l'' h k = record {
    messages = h.messages ++ k.messages;
    outbound = k.outbound ∙ rw (h.outbound, append_assoc);
    numbers =
        Numbers-append l.message_nonce h.messages l'.message_nonce k.messages l''.message_nonce
          h.numbers k.numbers;
    still_open = k.still_open;
  }

  pub Sent-Numbered :
      (l l' : Link) (m : OutboundMessage)
      → nonce_of m.message ≡ some l.message_nonce
      → Sent l l' m
      → Numbered l l'
  Sent-Numbered l l' m e s = record {
    messages = m ∷ [];
    outbound = s.outbound;
    numbers = (e, sym s.nonce);
    still_open = s.still_open;
  }

  new_substream_link : (id : SubstreamId) (m : Muxer) → (new_substream id m).1.link ≡ m.link
  unfolding new_substream
  new_substream_link id m = ground arith

  handle_data_link :
      (id : SubstreamId) (bytes : List ℕ) (m : Muxer) → (handle_data id bytes m).1.link ≡ m.link
  unfolding handle_data
  handle_data_link id bytes m = ground arith

  offer_inbound_link : (s : Substream) (m : Muxer) → (offer_inbound s m).1.link ≡ m.link
  unfolding offer_inbound
  offer_inbound_link s m = ground arith

  handle_close_link : (id : SubstreamId) (m : Muxer) → (handle_close id m).1.link ≡ m.link
  unfolding handle_close signal_close notify_closed
  handle_close_link id m = ground arith

  pub continue-Numbered :
      {A B : Type 0} (l : Link) (r : Outcome Error A × Muxer) (g : A → Method B)
      → Numbered l r.1.link
      → ((a : A) → Numbered r.1.link (g a r.1).1.link)
      → Numbered l (continue r g).1.link
  continue-Numbered l (ok a, m) g h k = Numbered-trans l m.link _ h (k a)
  continue-Numbered l (err e, m) g h k = h
  continue-Numbered l (panic, m) g h k = h
  continue-Numbered l (stuck, m) g h k = h

  pub same-Numbered : (l l' l'' : Link) → Numbered l l' → l'' ≡ l' → Numbered l l''
  same-Numbered l l' l'' h e = subst (Numbered l) (sym e) h

  -- One round's message is taken off the channel.
  abbrev received : Muxer → Muxer
  received m = update (λ conn. record conn { inbound_rx = (c.poll_recv conn.inbound_rx).1 }) m

  module _ (laws : ChannelLaws) where
    send_lem :
        (message : SubstreamMessage) (m : Muxer)
        → c.is_open m.link.outbound_tx ≡ true
        → (l : Link) × (send_outbound message m.link.message_nonce (fetch_nonce m).1
            ≡ (ok tt, record m { link = l }))
          × Numbered m.link l
    unfolding send_outbound fetch_nonce
    send_lem message m o =
        let (ch, e, k, still) =
          laws.send_open (framed m.connection message m.link.message_nonce) m.link.outbound_tx o in
        (
          record { message_nonce = fetch_add m.link.message_nonce; outbound_tx = ch },
          rw (send_outbound, e) refl,
          Sent-Numbered m.link _ (framed m.connection message m.link.message_nonce) refl
              (record { nonce = refl; outbound = k; still_open = still }),
        )

    pub new_outbound_substream-Numbered :
        (id : SubstreamId) (m : Muxer)
        → c.is_open m.link.outbound_tx ≡ true
        → Numbered m.link (new_outbound_substream id m).1.link
    unfolding new_outbound_substream fetch_nonce
    new_outbound_substream-Numbered id m o =
        let (l, e, done) =
          send_lem (record { substream_id = id; message_type = open_request }) m o in
        let made = record m { link = l } in
        let h =
          same-Numbered m.link l (new_substream id made).1.link done (new_substream_link id made) in
        rw (new_outbound_substream, e)
          (continue-Numbered m.link (new_substream id made) _ h
            λ substream. Numbered-refl _ h.still_open)

    handle_open_request-Numbered :
        (id : SubstreamId) (m : Muxer)
        → c.is_open m.link.outbound_tx ≡ true
        → Numbered m.link (handle_open_request id m).1.link
    unfolding handle_open_request
    handle_open_request-Numbered id m o =
        let made = (new_substream id m).1 in
        let same = new_substream_link id m in
        let h = same-Numbered m.link m.link made.link (Numbered-refl m.link o) same in
        let (l, e, done) =
          send_lem (record { substream_id = id; message_type = open_response }) made h.still_open in
        continue-Numbered m.link (new_substream id m) _ h λ substream. rw e (
          same-Numbered made.link l _ done
            (offer_inbound_link substream (record made { link = l })))

    handle_message-Numbered :
        (id : SubstreamId) (type : SubstreamMessageType) (m : Muxer)
        → c.is_open m.link.outbound_tx ≡ true
        → Numbered m.link (handle_message id type m).1.link
    unfolding handle_message
    handle_message-Numbered id open_request m o = handle_open_request-Numbered id m o
    handle_message-Numbered id open_response m o = Numbered-refl m.link o
    handle_message-Numbered id close m o =
        same-Numbered m.link m.link _ (Numbered-refl m.link o) (handle_close_link id m)
    handle_message-Numbered id (payload bytes) m o =
        same-Numbered m.link m.link _ (Numbered-refl m.link o) (handle_data_link id bytes m)

    poll_loop-Numbered :
        (fuel : ℕ) (cx : f.Waker) (m : Muxer)
        → c.is_open m.link.outbound_tx ≡ true
        → Numbered m.link (poll_loop fuel cx m).1.link
    unfolding poll_loop
    poll_loop-Numbered zero cx m o = Numbered-refl m.link o
    poll_loop-Numbered (suc fuel) cx m o =
        elim (Poll-cases (c.poll_recv m.connection.inbound_rx).0) [
          | inl (msg, e) ↦
              let m' = received m in
              rw (poll_loop, e)
                (continue-Numbered m.link (handle_message msg.substream_id msg.message_type m') _
                  (handle_message-Numbered msg.substream_id msg.message_type m' o)
                  λ _.
                    poll_loop-Numbered fuel cx _
                      (handle_message-Numbered msg.substream_id msg.message_type m' o).still_open)
          | inr (inl e) ↦ rw (poll_loop, e) (Numbered-refl m.link o)
          | inr (inr e) ↦ rw (poll_loop, e) (Numbered-refl m.link o)
        ]

    pub poll-Numbered :
        (cx : f.Waker) (m : Muxer)
        → c.is_open m.link.outbound_tx ≡ true
        → Numbered m.link (poll cx m).1.link
    unfolding poll
    poll-Numbered cx m o =
        poll_loop-Numbered (suc (length (c.contents m.connection.inbound_rx))) cx m o
