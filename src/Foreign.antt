-- ===== src/Foreign.antt =====
-- The third-party types and functions that the crate uses: nym_sphinx::addressing::clients::Recipient,
-- libp2p's PeerId and identity, Multiaddr and ListenerId, the error types of the dependencies, and the
-- runtime's Waker. Code that is not in the repository is a parameter of the model.
use rust_libp2p_nym.Prelude.{ℕ, ◌<◌, ◌≡◌, ◌⊎◌, inl, List, Bool, Option, String, length}

-- The last part of a Multiaddr, as far as the crate looks at it.
pub data Protocol : Type 0 where
  nym : String → Protocol
  other_protocol : Protocol

pub record Foreign : Type 1 where
  pub Recipient : Type 0
  pub PeerId : Type 0
  pub Keypair : Type 0
  pub Multiaddr : Type 0
  pub ListenerId : Type 0
  pub Waker : Type 0
  pub MultiaddrError : Type 0
  pub WsError : Type 0
  pub NymError : Type 0
  pub MultihashError : Type 0
  pub RecipientFormattingError : Type 0
  pub OneshotRecvError : Type 0
  pub Elapsed : Type 0
  -- `Recipient::LEN`, `Recipient::to_bytes`, `Recipient::try_from_bytes`
  pub recipient_len : ℕ
  pub recipient_to_bytes : Recipient → List ℕ
  pub recipient_try_from_bytes : List ℕ → Recipient ⊎ RecipientFormattingError
  -- `Display` and `FromStr` of Recipient
  pub recipient_to_string : Recipient → String
  pub recipient_from_str : String → Recipient ⊎ RecipientFormattingError
  -- `Multiaddr::from_str`, `Multiaddr::pop`, and `==` on ListenerId
  pub multiaddr_from_str : String → Multiaddr ⊎ MultiaddrError
  pub multiaddr_pop : Multiaddr → Option Protocol
  pub listener_id_eq : ListenerId → ListenerId → Bool
  -- `PeerId::to_bytes`, `PeerId::from_bytes`, `PeerId::from_public_key(&keypair.public())`
  pub peer_id_to_bytes : PeerId → List ℕ
  pub peer_id_from_bytes : List ℕ → PeerId ⊎ MultihashError
  pub peer_id_of : Keypair → PeerId
  -- what `to_string` of a Nym client's error and of a channel's SendError returns
  pub nym_error_to_string : NymError → String
  pub send_error_text : String

-- What the codecs rely on. `to_bytes` of a Recipient returns an array of LEN bytes, both pairs of
-- conversions are documented as inverse, and the bytes of a PeerId hold a multihash, at least its
-- code.
pub record CodecLaws ⦃f : Foreign⦄ : Type 0 where
  pub recipient_length : (r : f.Recipient) → length (f.recipient_to_bytes r) ≡ f.recipient_len
  pub recipient_round_trip :
      (r : f.Recipient) → f.recipient_try_from_bytes (f.recipient_to_bytes r) ≡ inl r
  pub peer_id_nonempty : (p : f.PeerId) → 0 < length (f.peer_id_to_bytes p)
  pub peer_id_round_trip : (p : f.PeerId) → f.peer_id_from_bytes (f.peer_id_to_bytes p) ≡ inl p
