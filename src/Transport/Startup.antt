-- ===== src/Transport/Startup.antt =====
-- src/transport.rs and src/mixnet.rs: what a new transport and its task begin with.
use rust_libp2p_nym.Prelude.{
  ℕ, String, ◌≡◌, refl, ap, ◌∙◌, inl, List, [], ◌∷◌, ◌++◌, All, Option, none, ok,
}
use rust_libp2p_nym.Prelude.HashMap
use rust_libp2p_nym.Foreign.{Foreign}
use rust_libp2p_nym.Channel.{Channels, ChannelLaws}
use rust_libp2p_nym.Error.{Result}
use rust_libp2p_nym.Mixnet.{parse_nym_message, Task}
use rust_libp2p_nym.Mixnet.Client.{WsMessage, ServerResponse, Frame, Websocket, WebsocketLaws}
use rust_libp2p_nym.Mixnet.Address.{
  read_frame, address_request, get_self_address, initialize_mixnet, Initialized,
}
use rust_libp2p_nym.Mixnet.Answer.{get_self_address_waits}
use rust_libp2p_nym.Mixnet.EndToEnd.{IsFresh}
use rust_libp2p_nym.Transport.State.{NymTransport, TransportEvent, new_address}
use rust_libp2p_nym.Transport.Dialing
use rust_libp2p_nym.Transport.Dialing.{nym_address_to_multiaddress, timeout_or_default}
use rust_libp2p_nym.Transport.Creation.{new_maybe_with_notify_inbound}

module _ ⦃f : Foreign⦄ ⦃w : Websocket⦄ ⦃c : Channels⦄ where
  -- The transport has its address, and has nothing but the event that announces it.
  pub record IsNew (id : f.ListenerId) (key : f.Keypair) (timeout : Option ℕ)
      (recipient : f.Recipient) (address : f.Multiaddr) (t : NymTransport) : Type 0 where
    pub self_address : t.self_address ≡ recipient
    pub listen_addr : t.listen_addr ≡ address
    pub listener_id : t.listener_id ≡ id
    pub keypair : t.keypair ≡ key
    pub connections : t.connections ≡ HashMap.new
    pub pending_dials : t.pending_dials ≡ HashMap.new
    pub dialled : t.dialled ≡ HashMap.new
    pub message_queues : t.message_queues ≡ HashMap.new
    pub handshake_timeout : t.handshake_timeout ≡ timeout_or_default timeout
    pub events : c.contents t.poll_chan ≡ new_address id address ∷ []
    pub waker : t.waker ≡ none

  module _ (laws : ChannelLaws) (wlaws : WebsocketLaws) where
    new-IsNew :
        (id : f.ListenerId) (keypair : f.Keypair) (timeout : Option ℕ) (recipient : f.Recipient)
        (address : f.Multiaddr) (made : Initialized)
        → made.recipient ≡ recipient
        → nym_address_to_multiaddress recipient ≡ ok address
        → (t : NymTransport) × (Dialing.new keypair timeout made.recipient made.inbound_rx
              made.outbound_tx id
            ≡ ok t)
          × IsNew id keypair timeout recipient address t
    unfolding Dialing.new
    new-IsNew id keypair timeout recipient address made same e =
        let first : TransportEvent = new_address id address in
        let (ch, sent, holds, _) = laws.send_open first c.unbounded_channel laws.is_open-new in
        rw (same) (
          rw (Dialing.new, e)
            (rw sent (
              _,
              refl,
              record {
                self_address = refl;
                listen_addr = refl;
                listener_id = refl;
                keypair = refl;
                connections = refl;
                pending_dials = refl;
                dialled = refl;
                message_queues = refl;
                handshake_timeout = refl;
                events = holds ∙ ap (λ events. events ++ first ∷ []) laws.contents-new;
                waker = refl;
              },
            )))

    -- What `initialize_mixnet` makes on a socket that has been asked for the address.
    abbrev initialized : Option (c.Chan (Unit {0})) → f.Recipient → w.Socket → Initialized
    initialized notify recipient socket = record {
      recipient = recipient;
      inbound_rx = c.unbounded_channel;
      outbound_tx = c.unbounded_channel;
      task = record {
        socket = socket;
        notify_inbound_tx = notify;
        inbound_tx = c.unbounded_channel;
        outbound_rx = c.unbounded_channel;
      };
    }

    initialize_mixnet_lem :
        (uri : String) (notify : Option (c.Chan (Unit {0}))) (s : w.Socket)
        (recipient : f.Recipient)
        → w.connect_async uri ≡ inl s
        → (get_self_address s).0 ≡ ok recipient
        → initialize_mixnet uri notify ≡ ok (initialized notify recipient (get_self_address s).1)
    unfolding initialize_mixnet
    initialize_mixnet_lem uri notify s recipient e k = rw (initialize_mixnet, e) (rw k refl)

    -- The socket is connected, the request is sent, and the client answers with an address that a
    -- Multiaddr can hold, behind any number of responses that are no errors and no address. Then the
    -- transport is created with this address, the given or the default timeout, empty tables, and the
    -- event of its new address; and its task has empty channels, and next reads what came behind the
    -- answer.
    pub created_transport-IsNew :
        (id : f.ListenerId) (uri : String) (keypair : f.Keypair) (timeout : Option ℕ) (s : w.Socket)
        (before : List Frame) (msg : WsMessage) (after : List Frame) (recipient : f.Recipient)
        (address : f.Multiaddr)
        → w.connect_async uri ≡ inl s
        → (w.send_message address_request s).0 ≡ none
        → w.incoming s ≡ before ++ inl msg ∷ after
        → All (λ frame. read_frame frame ≡ ok none) before
        → parse_nym_message msg ≡ ok (ServerResponse.self_address recipient)
        → nym_address_to_multiaddress recipient ≡ ok address
        → (t : NymTransport) × (task : Task) × (new_maybe_with_notify_inbound id uri keypair none
              timeout
            ≡ ok (t, task))
          × IsNew id keypair timeout recipient address t
          × IsFresh task
          × (w.incoming task.socket ≡ after)
    unfolding new_maybe_with_notify_inbound
    created_transport-IsNew id uri keypair timeout s before msg after recipient address e sent k h
          answer formatted =
        let answered = get_self_address_waits wlaws s before msg after recipient sent k h answer in
        let returns : (get_self_address s).0 ≡ ok recipient =
          ap (λ (p : Result f.Recipient × List Frame). p.0) answered in
        let made = initialize_mixnet_lem uri none s recipient e returns in
        let (t, created, new) =
          new-IsNew id keypair timeout recipient address
            (initialized none recipient (get_self_address s).1) refl formatted in
        (
          t,
          (initialized none recipient (get_self_address s).1).task,
          rw (new_maybe_with_notify_inbound, made) (rw created refl),
          new,
          record {
            inbound = laws.contents-new;
            outbound = laws.contents-new;
            heard = record { inbound = laws.is_open-new; notified = λ ch x. absurd (cc x) };
          },
          ap (λ (p : Result f.Recipient × List Frame). p.1) answered,
        )
