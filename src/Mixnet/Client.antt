-- ===== src/Mixnet/Client.antt =====
-- The crates behind src/mixnet.rs: tungstenite's websocket and the messages of the Nym client. They
-- are third-party code, so they are parameters. Of their enums the model has the variants that the
-- crate names and one for all others.
use rust_libp2p_nym.Prelude.{ℕ, ◌≡◌, ◌⊎◌, List, [], ◌∷◌, ◌++◌, Option, none, some, String}
use rust_libp2p_nym.Foreign.{Foreign}

-- `tungstenite::protocol::Message`
pub data WsMessage : Type 0 where
  text : String → WsMessage
  binary : List ℕ → WsMessage
  other_ws_message : WsMessage

module _ ⦃f : Foreign⦄ where
  -- `nym_websocket::responses::ServerResponse`; of a received message the crate reads the bytes
  pub data ServerResponse : Type 0 where
    received : List ℕ → ServerResponse
    self_address : f.Recipient → ServerResponse
    error : f.NymError → ServerResponse
    other_response : ServerResponse

  -- `nym_websocket::requests::ClientRequest`
  pub data ClientRequest : Type 0 where
    send : f.Recipient → List ℕ → Option ℕ → ClientRequest
    self_address_request : ClientRequest

  -- What the stream of a websocket yields: a message or an error.
  abbrev pub Frame : Type 0
  Frame = WsMessage ⊎ f.WsError

  -- A socket stands for both halves of its `split`, which share it.
  pub record Websocket : Type 1 where
    pub Socket : Type 0
    pub into_bytes : String → List ℕ
    pub serialize : ClientRequest → List ℕ
    pub deserialize : List ℕ → ServerResponse ⊎ f.NymError
    pub connect_async : String → Socket ⊎ f.WsError
    -- `next().await` and `send(..).await` when they are done
    pub next : Socket → Option Frame × Socket
    pub send_message : WsMessage → Socket → Option f.WsError × Socket
    -- the socket when the future of a `send` has been dropped before it was done
    pub drop_send : WsMessage → Socket → Socket
    -- views of a socket, for statements: what its stream yields until it ends, and what its sink has
    -- taken
    pub incoming : Socket → List Frame
    pub written : Socket → List WsMessage

-- The documented behaviour of Stream and Sink: the stream yields its items in order and then `None`,
-- and a send that succeeds has handed its item over. When a send fails or its future is dropped,
-- nothing says whether the item has been handed over. The halves do not disturb each other.
module _ ⦃f : Foreign⦄ where
  pub record WebsocketLaws ⦃w : Websocket⦄ : Type 0 where
    pub next_frame :
        (s : w.Socket) (frame : Frame) (frames : List Frame)
        → w.incoming s ≡ frame ∷ frames
        → ((w.next s).0 ≡ some frame) × (w.incoming (w.next s).1 ≡ frames)
    pub next_end :
        (s : w.Socket) → w.incoming s ≡ [] → ((w.next s).0 ≡ none) × (w.incoming (w.next s).1 ≡ [])
    pub next_written : (s : w.Socket) → w.written (w.next s).1 ≡ w.written s
    pub send_written :
        (m : WsMessage) (s : w.Socket)
        → (w.send_message m s).0 ≡ none
        → w.written (w.send_message m s).1 ≡ w.written s ++ m ∷ []
    pub send_failed :
        (m : WsMessage) (s : w.Socket)
        → (w.written (w.send_message m s).1 ≡ w.written s)
          ⊎ (w.written (w.send_message m s).1 ≡ w.written s ++ m ∷ [])
    pub send_incoming :
        (m : WsMessage) (s : w.Socket) → w.incoming (w.send_message m s).1 ≡ w.incoming s
    pub drop_written :
        (m : WsMessage) (s : w.Socket)
        → (w.written (w.drop_send m s) ≡ w.written s)
          ⊎ (w.written (w.drop_send m s) ≡ w.written s ++ m ∷ [])
    pub drop_incoming : (m : WsMessage) (s : w.Socket) → w.incoming (w.drop_send m s) ≡ w.incoming s
