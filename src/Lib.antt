-- ===== src/Lib.antt =====
-- rust-libp2p-nym: a libp2p transport over the Nym mixnet (Rust). The mixnet delivers messages in
-- no order, so the crate numbers the messages of a connection and puts them in order at the
-- receiver.
--
-- The parts and their files:
--
-- - Message (src/message.rs): the messages and their bytes. Message/ConnectionId, SubstreamId,
--   SubstreamMessage, TransportMessage and ConnectionMessage hold a type each with its `to_bytes`
--   and `try_from_bytes`; Message/Wire holds the enum Message and `parse_message_data`.
--   Message/Encodable says which messages have bytes that read back; Message/RoundTrip and
--   Message/Totality hold the proofs.
-- - Queue (src/queue.rs): MessageQueue with `set_connection_message_received`, `try_push` and
--   `pop`. Queue/Set is its BTreeSet, a list sorted by the nonce. Queue/Delivery, Order, Session
--   and Gap are about the loop that src/transport.rs runs over it.
-- - Substream (src/substream.rs): `poll_read`, `poll_write`, `poll_flush` and `poll_close` of one
--   byte stream. What the substreams of a connection share with it, the counter of nonces and the
--   channel to the mixnet, is a Link that an operation takes and returns.
-- - Connection (src/connection.rs): the stream muxer, whose methods act on a Muxer, the Connection
--   and its Link. Connection/Nonces and Sending follow the nonces through all operations,
--   Termination is about the loop of `poll`, Registry about the maps of the substreams, Opening and
--   Closing about the opening and the closing of one, Data about the data messages, and Gap about
--   what a second closing does to the receiver. Substream/Closed is about what is left of a closed
--   substream.
-- - Transport (src/transport.rs): State is NymTransport and its Upgrade, Opening and Handlers are
--   the three handlers of inbound messages, Polling is `handle_inbound` and `poll`, Dialing is the
--   first part of the creation, the listeners and the dialler, and Creation is the whole of it.
--   Branches has the branches of the handlers. Forwarding, Delivery, Isolation, Establishment,
--   Stages, Waiting, Lifetime and EndToEnd build up what a connection gets of transport messages;
--   Interleaving and Serving what it gets of whole polls, one or many. Handshake is about both
--   sides of a dial, Startup about a new transport, and Reporting about what polls return. Steps
--   and Termination show that the loops end, Safety when nothing panics, and Panics what makes it
--   panic.
-- - Mixnet (src/mixnet.rs): the functions of the task between the transport and the Nym client.
--   Client is the websocket and the client's messages, as parameters with WebsocketLaws. Address is
--   `get_self_address` and `initialize_mixnet`, and Answer what they return. Run is the task's loop
--   as steps; Inbound, Turns and Delivery are about what it hands on and writes, and EndToEnd about
--   two tasks and the mixnet between them.
-- - EndToEnd: all of it together, from the operations of one side's substreams to the other side's
--   channel.
-- - Error (src/error.rs): the error enum.
-- - Foreign and Channel: the third-party code, as parameters. Foreign has the Recipient of Nym and
--   the types of libp2p with their conversions, and CodecLaws what these promise. Channels has
--   tokio's channels, and ChannelLaws that they are first in, first out, and that sending fails
--   exactly when the receiver is gone. Tests/World fills both in and proves the laws, and
--   Tests/Mixnets those of a websocket.
-- - Prelude: Boolean tests, lists over the native numbers, outcomes (a value, an error, a panic, or
--   out of fuel), bytes in big-endian order, HashMap as an association list, lists that lack some
--   elements of others, and what is shown of a method step by step.
--
-- How they interact: the mixnet's task turns the frames of the websocket into messages for the
-- transport, and the transport's messages into frames. The transport takes its messages from this
-- task, keeps a queue for each connection, and sends what a queue releases into the connection's
-- channel. The connection takes messages out of the channel and hands data to its substreams.
-- Connection and substreams send to the mixnet under the nonces of one counter.
--
-- State and effects: a method on `&mut self` takes the state and returns an outcome with the state,
-- which is also there behind an error. A u64 is a number with its wrap-around written out; an array
-- type is a list with its length as a hypothesis. A slice or an index out of range, `unwrap` of
-- nothing and `panic!` are the outcome `panic`. A channel's end is a value of the parameter type;
-- the oneshot channels whose connection has been sent to a dial's future stand in the transport's
-- field `dialled`; `wake` is only the taking of the waker, and logging is left out.
--
-- Loops: the loop over `queue.pop()` has fuel for one round more than the queue is long, and the
-- loop of `Connection::poll` and that of the transport's `poll` for one more than the messages in
-- their channels, and the loop of `get_self_address` for one more than the frames that arrive; each
-- round takes one away, and none of them runs out of fuel. The endless loop of the mixnet's task is
-- a step relation.
--
-- Async code: a future is a function of what it awaits. `select!` of the task's loop is a choice
-- between the two futures that are ready, with one more step for a send that is dropped because the
-- other future was done first; the steps of the task and those of the transport on its channels
-- come in any order.
--
-- Not modelled: the test helper (src/test_utils.rs), which starts a container, and the examples;
-- the mutexes of a substream, as each method has the substream to itself; the texts of the errors
-- and the logs.
pub mod Prelude
pub mod Foreign
pub mod Error
pub mod Message
pub mod Mixnet
pub mod Queue
pub mod Channel
pub mod Substream
pub mod Connection
pub mod Transport
pub mod EndToEnd
mod Tests
