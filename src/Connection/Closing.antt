-- ===== src/Connection/Closing.antt =====
-- src/connection.rs: what a message that closes a substream does.
use rust_libp2p_nym.Prelude.{
  ℕ, ◌≡◌, ◌⊎◌, refl, sym, ap, ◌∙◌, true, false, List, [], ◌∷◌, ◌++◌, none, some, Option-cases,
  Bool-cases, inl, inr, Outcome, ok, err, panic,
}
use rust_libp2p_nym.Prelude.HashMap
use rust_libp2p_nym.Prelude.HashMap.{Eq, HashMap}
use rust_libp2p_nym.Foreign.{Foreign}
use rust_libp2p_nym.Channel.{Channels, ChannelLaws}
use rust_libp2p_nym.Error.{Error}
use rust_libp2p_nym.Message.SubstreamId.{SubstreamId, SubstreamId_key}
use rust_libp2p_nym.Connection.{Muxer, signal_close, notify_closed, handle_close}
use rust_libp2p_nym.Connection.Registry.{is_some, IsPaired}

module _ ⦃f : Foreign⦄ ⦃c : Channels⦄ where
  -- The connection has forgotten the substream's two channels, and what it gets of closed substreams
  -- waits in `close_chan`.
  abbrev forgotten : SubstreamId → c.Chan SubstreamId → Muxer → Muxer
  forgotten id close_chan m = record m {
    connection = record m.connection {
      substream_inbound_txs = HashMap.remove id m.connection.substream_inbound_txs;
      substream_close_txs = HashMap.remove id m.connection.substream_close_txs;
      close_chan = close_chan;
    };
  }

  -- What closing a substream does whose channel for the closing is `close_tx`.
  pub data Closes (id : SubstreamId) (m : Muxer) (close_tx : c.Oneshot (Unit {0}))
      : Outcome Error (Unit {0}) → Muxer → Type 0 where
    told :
        (close_chan : c.Chan SubstreamId)
        → c.oneshot_send tt close_tx ≡ true
        → c.is_open m.connection.close_chan ≡ true
        → c.contents close_chan ≡ c.contents m.connection.close_chan ++ id ∷ []
        → Closes id m close_tx (ok tt) (forgotten id close_chan m)
    untold :
        c.oneshot_send tt close_tx ≡ true
        → c.is_open m.connection.close_chan ≡ false
        → Closes id m close_tx
            (err (Error.inbound_send_error f.send_error_text))
            (forgotten id m.connection.close_chan m)
    dropped :
        c.oneshot_send tt close_tx ≡ false
        → Closes id m close_tx panic (forgotten id m.connection.close_chan m)

  module _ (laws : ChannelLaws) where
    known-Closes :
        (id : SubstreamId) (m : Muxer) (tx : c.Chan (List ℕ)) (close_tx : c.Oneshot (Unit {0}))
        → HashMap.get id m.connection.substream_inbound_txs ≡ some tx
        → HashMap.get id m.connection.substream_close_txs ≡ some close_tx
        → Closes id m close_tx (handle_close id m).0 (handle_close id m).1
    unfolding handle_close signal_close notify_closed
    known-Closes id m tx close_tx e k = elim (Bool-cases (c.oneshot_send tt close_tx)) [
      | inr gone ↦ rw (handle_close, e) (rw k (rw gone (Closes.dropped gone)))
      | inl sent ↦ elim (Bool-cases (c.is_open m.connection.close_chan)) [
        | inl o ↦
            let (ch, goes, holds, _) = laws.send_open id m.connection.close_chan o in
            rw (handle_close, e)
              (rw k (rw sent (rw (notify_closed, goes) (Closes.told ch sent o holds))))
        | inr shut ↦
            rw (handle_close, e)
              (rw k (
                rw sent (
                  rw (notify_closed, laws.send_closed id m.connection.close_chan shut)
                    (Closes.untold sent shut))))
      ]
    ]

    -- With the invariant, a message that closes a substream which the connection does not know is
    -- refused with an error and changes nothing. Otherwise the connection has a channel for telling
    -- the substream, it forgets both channels of the substream, and it panics if the substream has
    -- been dropped; if not, it returns and appends the ID to what `poll_close` gets, or it returns
    -- an error if that channel has no receiver.
    pub handle_close-cases :
        (id : SubstreamId) (m : Muxer)
        → IsPaired m.connection
        → ((HashMap.get id m.connection.substream_inbound_txs ≡ none)
            × (handle_close id m ≡ (err (Error.substream_id_does_not_exist id), m)))
          ⊎ ((tx : c.Chan (List ℕ)) × (close_tx : c.Oneshot (Unit {0})) × (HashMap.get id
                  m.connection.substream_inbound_txs
                ≡ some tx)
              × (HashMap.get id m.connection.substream_close_txs ≡ some close_tx)
              × Closes id m close_tx (handle_close id m).0 (handle_close id m).1)
    handle_close-cases id m p =
        elim (Option-cases (HashMap.get id m.connection.substream_inbound_txs)) [
          | inl e ↦ inl (e, unfold handle_close in rw (handle_close, e) refl)
          | inr (tx, e) ↦ elim (Option-cases (HashMap.get id m.connection.substream_close_txs)) [
            | inl k ↦ absurd (cc (ap is_some (sym e) ∙ p id ∙ ap is_some k))
            | inr (close_tx, k) ↦ inr (tx, close_tx, e, k, known-Closes id m tx close_tx e k)
          ]
        ]
