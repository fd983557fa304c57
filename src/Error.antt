-- ===== src/Error.antt =====
-- src/error.rs: the crate's error type. The payloads of other crates are the parameter's types.
use rust_libp2p_nym.Prelude.{String, Outcome}
use rust_libp2p_nym.Foreign.{Foreign}
use rust_libp2p_nym.Message.SubstreamId.{SubstreamId}

module _ ⦃f : Foreign⦄ where
  pub data Error : Type 0 where
    unimplemented : Error
    failed_to_format_multiaddr : f.MultiaddrError → Error
    invalid_protocol_for_multiaddr : Error
    websocket_stream_error : f.WsError → Error
    websocket_stream_read_none : Error
    nym_message_error : String → Error
    unexpected_nym_message : Error
    unexpected_self_address_response : Error
    unknown_nym_message : Error
    invalid_message_bytes : Error
    no_connection_for_response : Error
    connection_already_established : Error
    none_recipient_in_connection_request : Error
    connection_id_exists : Error
    no_connection_for_transport_message : Error
    connection_message_bytes_too_short : Error
    connection_message_bytes_no_recipient : Error
    connection_message_bytes_no_peer_id : Error
    invalid_peer_id_bytes : f.MultihashError → Error
    invalid_recipient_bytes : f.RecipientFormattingError → Error
    invalid_recipient_prefix_byte : Error
    transport_message_bytes_too_short : Error
    invalid_nonce : Error
    invalid_substream_message_bytes : Error
    invalid_substream_message_type : Error
    substream_id_exists : SubstreamId → Error
    substream_id_does_not_exist : SubstreamId → Error
    oneshot_recv_error : f.OneshotRecvError → Error
    substream_send_error : Error
    recv_error : Error
    outbound_send_error : String → Error
    inbound_send_error : String → Error
    connection_send_error : Error
    send_error_transport_event : Error
    dial_timeout : f.Elapsed → Error

  -- `Result<A, Error>`, or a panic.
  abbrev pub Result : Type 0 → Type 0
  Result A = Outcome Error A
