-- ===== src/Connection/Data.antt =====
-- src/connection.rs, the data messages of `Connection::poll`: whom they reach, and when they panic.
use rust_libp2p_nym.Prelude.{
  ℕ, ◌≡◌, ◌≢◌, ◌↔◌, refl, true, List, [], ◌∷◌, ◌++◌, none, some, Option-cases, inl, inr, ok, panic,
}
use rust_libp2p_nym.Prelude.HashMap
use rust_libp2p_nym.Foreign.{Foreign}
use rust_libp2p_nym.Channel.{Channels, ChannelLaws}
use rust_libp2p_nym.Message.SubstreamId.{SubstreamId, SubstreamId_key}
use rust_libp2p_nym.Connection.{Muxer, handle_data}

module _ ⦃f : Foreign⦄ ⦃c : Channels⦄ where
  -- The bytes `bytes` have been put behind what the substream `id` has, and nothing else has changed
  -- for any substream.
  pub record Delivered (id : SubstreamId) (bytes : List ℕ) (tx : c.Chan (List ℕ)) (m m' : Muxer)
      : Type 0 where
    pub tx' : c.Chan (List ℕ)
    pub own : HashMap.get id m'.connection.substream_inbound_txs ≡ some tx'
    pub contents : c.contents tx' ≡ c.contents tx ++ bytes ∷ []
    pub others :
        (other : SubstreamId)
        → id ≢ other
        → HashMap.get other m'.connection.substream_inbound_txs
          ≡ HashMap.get other m.connection.substream_inbound_txs

  -- Data for a substream whose channel is open is put into this channel, behind what is there, as a
  -- whole; the channels of the other substreams do not change.
  pub handle_data-Delivered :
      (laws : ChannelLaws) (id : SubstreamId) (bytes : List ℕ) (m : Muxer) (tx : c.Chan (List ℕ))
      → HashMap.get id m.connection.substream_inbound_txs ≡ some tx
      → c.is_open tx ≡ true
      → ((handle_data id bytes m).0 ≡ ok tt) × Delivered id bytes tx m (handle_data id bytes m).1
  unfolding handle_data
  handle_data-Delivered laws id bytes m tx e o =
      let (tx', sent, contents, _) = laws.send_open bytes tx o in
      rw (handle_data, e)
        (rw sent (
          refl,
          record {
            tx' = tx';
            own = HashMap.get-insert_self id tx' m.connection.substream_inbound_txs;
            contents = contents;
            others = λ other ne.
                HashMap.get-insert_ne id other tx' m.connection.substream_inbound_txs ne;
          },
        ))

  -- A data message makes the connection panic exactly when the connection has no substream of this
  -- ID; a substream whose channel is closed does not make it panic.
  pub handle_data-panics :
      (id : SubstreamId) (bytes : List ℕ) (m : Muxer)
      → ((handle_data id bytes m).0 ≡ panic)
        ↔ (HashMap.get id m.connection.substream_inbound_txs ≡ none)
  unfolding handle_data
  handle_data-panics id bytes m =
      elim (Option-cases (HashMap.get id m.connection.substream_inbound_txs)) [
        | inl e ↦ rw (handle_data, e) (λ h. refl, λ h. refl)
        | inr (tx, e) ↦ elim (Option-cases (c.send bytes tx)) [
          | inl shut ↦ rw (handle_data, e) (rw shut (λ h. absurd (cc h), λ h. absurd (cc h)))
          | inr (tx', sent) ↦ rw (handle_data, e) (rw sent (λ h. absurd (cc h), λ h. absurd (cc h)))
        ]
      ]
