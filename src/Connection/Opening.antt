-- ===== src/Connection/Opening.antt =====
-- src/connection.rs: a substream is opened by one side, its request and the response.
use rust_libp2p_nym.Prelude.{ℕ, ◌≡◌, refl, ap, ◌∙◌, true, [], ◌∷◌, ◌++◌, none, some, ok}
use rust_libp2p_nym.Prelude.HashMap
use rust_libp2p_nym.Foreign.{Foreign}
use rust_libp2p_nym.Channel.{Channels, ChannelLaws}
use rust_libp2p_nym.Message.SubstreamId.{SubstreamId, SubstreamId_key}
use rust_libp2p_nym.Message.SubstreamMessage.{
  SubstreamMessage, SubstreamMessageType, open_request, open_response,
}
use rust_libp2p_nym.Message.Wire.{OutboundMessage}
use rust_libp2p_nym.Substream
use rust_libp2p_nym.Substream.{Substream}
use rust_libp2p_nym.Connection.{
  Connection, Muxer, update, framed, fetch_nonce, send_outbound, new_substream,
  new_outbound_substream, offer_inbound, handle_open_request, handle_message,
}

module _ ⦃f : Foreign⦄ ⦃c : Channels⦄ where
  -- The substream that a connection makes for an ID.
  abbrev pub made : Connection → SubstreamId → Substream
  made conn id =
      Substream.new conn.remote_recipient conn.id id c.unbounded_channel c.oneshot_channel

  -- The ID is not in use, and the mixnet can be reached.
  pub record CanOpen (id : SubstreamId) (m : Muxer) : Type 0 where
    pub unused : HashMap.get id m.connection.substream_inbound_txs ≡ none
    pub opened : c.is_open m.link.outbound_tx ≡ true

  -- From `m` to `m'` one message about the substream has been sent under the next nonce, and the
  -- connection holds the other ends of a new substream's channels.
  pub record Opened (id : SubstreamId) (message : SubstreamMessageType) (m m' : Muxer)
      : Type 0 where
    pub sent :
        c.contents m'.link.outbound_tx
        ≡ c.contents m.link.outbound_tx
          ++ framed m.connection
              (record { substream_id = id; message_type = message })
              m.link.message_nonce
            ∷ []
    pub data_channel : HashMap.get id m'.connection.substream_inbound_txs ≡ some c.unbounded_channel
    pub close_channel : HashMap.get id m'.connection.substream_close_txs ≡ some c.oneshot_channel

  module _ (laws : ChannelLaws) where
    -- The message has been sent.
    abbrev after_send : c.Chan OutboundMessage → Muxer → Muxer
    after_send out m = record m { link = record m.link { outbound_tx = out } }

    send_outbound_lem :
        (message : SubstreamMessage) (nonce : ℕ) (m : Muxer) (out : c.Chan OutboundMessage)
        → c.send (framed m.connection message nonce) m.link.outbound_tx ≡ some out
        → send_outbound message nonce m ≡ (ok tt, after_send out m)
    unfolding send_outbound
    send_outbound_lem message nonce m out e = rw (send_outbound, e) refl

    -- The substream has been made.
    abbrev after_made : SubstreamId → Muxer → Muxer
    after_made id m = record m {
      connection = record m.connection {
        substream_inbound_txs =
            HashMap.insert id c.unbounded_channel m.connection.substream_inbound_txs;
        substream_close_txs = HashMap.insert id c.oneshot_channel m.connection.substream_close_txs;
        waker = none;
      };
    }

    new_substream_lem :
        (id : SubstreamId) (m : Muxer)
        → HashMap.get id m.connection.substream_inbound_txs ≡ none
        → new_substream id m ≡ (ok (made m.connection id), after_made id m)
    unfolding new_substream
    new_substream_lem id m e = rw (new_substream, e) refl

    offer_inbound_lem :
        (substream : Substream) (m : Muxer) (inner : c.Chan Substream)
        → c.send substream m.connection.inbound_open ≡ some inner
        → offer_inbound substream m
          ≡ (ok tt, update (λ conn. record conn { inbound_open = inner }) m)
    unfolding offer_inbound
    offer_inbound_lem substream m inner e = rw (offer_inbound, e) refl

    -- The message of an ID, and the muxer whose next nonce has been taken.
    abbrev about : SubstreamId → SubstreamMessageType → SubstreamMessage
    about id message = record { substream_id = id; message_type = message }

    abbrev counted : Muxer → Muxer
    counted m = (fetch_nonce m).1

    both_channels :
        (id : SubstreamId) (message : SubstreamMessageType) (m m' : Muxer)
        → c.contents m'.link.outbound_tx
          ≡ c.contents m.link.outbound_tx
            ++ framed m.connection (about id message) m.link.message_nonce ∷ []
        → m'.connection.substream_inbound_txs ≡ (after_made id m).connection.substream_inbound_txs
        → m'.connection.substream_close_txs ≡ (after_made id m).connection.substream_close_txs
        → Opened id message m m'
    both_channels id message m m' e k l = record {
      sent = e;
      data_channel =
          ap (HashMap.get id) k
          ∙ HashMap.get-insert_self id c.unbounded_channel m.connection.substream_inbound_txs;
      close_channel =
          ap (HashMap.get id) l
          ∙ HashMap.get-insert_self id c.oneshot_channel m.connection.substream_close_txs;
    }

    -- The requester makes the substream, sends the request and notes that it waits for the answer.
    new_outbound_substream-Opened :
        (id : SubstreamId) (m : Muxer)
        → CanOpen id m
        → let r = new_outbound_substream id m in
          (r.0 ≡ ok (made m.connection id))
          × Opened id open_request m r.1
          × (HashMap.get id r.1.connection.pending_substreams ≡ some tt)
    unfolding new_outbound_substream fetch_nonce
    new_outbound_substream-Opened id m h =
        let (out, goes, holds, _) =
          laws.send_open (framed m.connection (about id open_request) m.link.message_nonce)
            m.link.outbound_tx h.opened in
        rw (send_outbound_lem (about id open_request) m.link.message_nonce (counted m) out goes) (
          rw (new_substream_lem id (after_send out (counted m)) h.unused) (
            refl,
            both_channels id open_request m _ holds refl refl,
            HashMap.get-insert_self id tt m.connection.pending_substreams,
          ))

    -- The responder makes the substream, sends the response and offers the substream.
    handle_open_request-Opened :
        (id : SubstreamId) (m : Muxer)
        → CanOpen id m
        → c.is_open m.connection.inbound_open ≡ true
        → let r = handle_open_request id m in
          (r.0 ≡ ok tt)
          × Opened id open_response m r.1
          × (c.contents r.1.connection.inbound_open
              ≡ c.contents m.connection.inbound_open ++ made m.connection id ∷ [])
    unfolding handle_open_request fetch_nonce
    handle_open_request-Opened id m h o =
        let (out, goes, holds, _) =
          laws.send_open (framed m.connection (about id open_response) m.link.message_nonce)
            m.link.outbound_tx h.opened in
        let (inner, offered, has, _) =
          laws.send_open (made m.connection id) m.connection.inbound_open o in
        rw (new_substream_lem id m h.unused) (
          rw
            (send_outbound_lem (about id open_response) m.link.message_nonce
              (counted (after_made id m)) out goes)
            (rw
              (offer_inbound_lem (made m.connection id) (after_send out (counted (after_made id m)))
                inner offered)
              (refl, both_channels id open_response m _ holds refl refl, has)))

    -- When both sides can open an ID and the responder's channel of inbound substreams is open, the
    -- requester makes the substream, sends one request under its next nonce, holds the substream's
    -- channels and marks the ID as pending. A responder that handles such a request answers with
    -- one response under its next nonce, holds the channels of its own substream, and appends that
    -- substream to those it offers. A requester that handles the response no longer has the ID
    -- pending, still holds both channels, and sends nothing more.
    pub substream_opens_on_both_sides :
        (id : SubstreamId) (requester responder : Muxer)
        → CanOpen id requester
        → CanOpen id responder
        → c.is_open responder.connection.inbound_open ≡ true
        → let asked = new_outbound_substream id requester in
          let answered = handle_message id open_request responder in
          let opened = handle_message id open_response asked.1 in
          ((asked.0 ≡ ok (made requester.connection id))
            × Opened id open_request requester asked.1
            × (HashMap.get id asked.1.connection.pending_substreams ≡ some tt))
          × ((answered.0 ≡ ok tt)
              × Opened id open_response responder answered.1
              × (c.contents answered.1.connection.inbound_open
                  ≡ c.contents responder.connection.inbound_open
                    ++ made responder.connection id ∷ []))
          × (opened.0 ≡ ok tt)
          × Opened id open_request requester opened.1
          × (HashMap.get id opened.1.connection.pending_substreams ≡ none)
    unfolding handle_message
    substream_opens_on_both_sides id requester responder h k o =
        let asked = new_outbound_substream id requester in
        let (made_it, sent_it, waits) = new_outbound_substream-Opened id requester h in
        (
          (made_it, sent_it, waits),
          handle_open_request-Opened id responder k o,
          refl,
          record {
            sent = sent_it.sent;
            data_channel = sent_it.data_channel;
            close_channel = sent_it.close_channel;
          },
          HashMap.get-remove_self id asked.1.connection.pending_substreams,
        )
