-- ===== src/Lib.antt =====
-- A model of the media transport core of libp2pchannel, and what holds of it.
--
-- The program connects a publisher with up to ten subscribers. For each of them there is a peer slot: an
-- ICE agent of libjuice carries datagrams, xquic runs a QUIC connection over it, and a media session
-- on that connection carries video, audio and messages. One engine thread drives all slots. Threads
-- of libjuice put what arrives into a packet queue; the application puts what it sends into a frame
-- queue of the peer; the engine thread empties both, starts and restarts connections and keeps the
-- wake-up time. Peers find each other by JSON messages over a signaling server. A session is the public
-- interface over all this: it owns the engine and the signaling client, answers the callbacks of both,
-- numbers and reassembles frames, and keeps the data channels.
--
-- Files and source:
--   PacketQueue    src/p2p/src/p2p_packet_queue.c, the circular buffer of received packets
--   FrameQueue     src/p2p/src/p2p_adapter.c, frame_queue_* and the loop of p2p_peer_flush_send_queue
--   Jitter         src/p2p/src/p2p_adapter.c, p2p_video_jitter_*
--   Adapter        src/p2p/include/p2p_adapter.h, roles, states and constants
--   Peer           src/p2p/src/p2p_adapter.c, one peer: Ice for the libjuice callbacks, Quic for the xquic
--                  callbacks and p2p_peer_start_quic, Moq for the media session callbacks, Send for
--                  p2p_peer_send_* and the flush
--   Engine         src/p2p/src/p2p_adapter.c, the engine: Peers for the peer table, Loops for the loops of
--                  engine_thread_func, Timer for its clock step, Life for p2p_engine_init to
--                  p2p_engine_destroy and ice_on_recv
--   Json           src/p2p/src/p2p_signaling.c, the JSON helpers
--   Signaling      src/p2p/src/p2p_signaling.c, Posts for the queue of asynchronous posts, Message for
--                  map_event_type and p2p_sig_message_from_json, Build for build_signal_json, Candidates for what
--                  parse_candidates_array makes of its candidates, Dispatch for sse_thread_func, Client for p2p_signaling_create_room to _send_gathering_done_async,
--                  Connect for p2p_signaling_connect, _disconnect and post_signal, Legacy for
--                  p2p_sig_message_to_json
--   Transport      src/p2p/src/p2p_tls.c: reads, writes and lines, Http for p2p_https_*, Events for
--                  p2p_sse_read_event, Context for p2p_tls_ctx_* and p2p_tls_connect
--   Session        src/p2p/src/p2pav.c, the public interface over the engine: Reassembly for reasm_buf_t and
--                  the locked part of internal_on_data_recv, Receive for the rest of it, Media for
--                  p2pav_video_* and p2pav_audio_*, Channels for p2pav_data_*, Signals for the callbacks
--                  internal_on_*, Create and Life for p2pav_session_*, Events for these callbacks
--                  over a stream of events, Stats for the diagnostics
--   Publisher      src/p2p/src/p2p_publisher.c, Signals for its callbacks, Media for what it sends
--   Subscriber     src/p2p/src/p2p_subscriber.c
--   Prelude        lists, circular buffers, C integers and C strings
--   Tests          each theorem below at a concrete input, and runs
-- A definition has the name of its C function, less the prefix p2p_ where the module says it.
--
-- State is a record and each operation a function from state to state; a call out of the program is
-- an element of the list of effects that the operation returns, in order. A mutex makes a locked
-- part one step. What a library or the system answers (memory, xquic handles, the state of an ICE
-- agent, the clock) is an argument. A session tells the application and the signaling client by
-- notices. A handle is a number, and a pointer that may be NULL is an option. Unsigned differences
-- and casts wrap as written in C; the counters that no run can bring to their limit (the times in
-- microseconds plus 5 ms, the failure count) are unbounded.
--
-- Loops are structural recursion. `recv_loop` runs on fuel, one more than the packets held: each round
-- takes one packet, and the last finds none. `read_lines` runs on one more than the answers of the
-- connection, since each line takes one, and `read_rounds` on the bytes wanted, since each read brings
-- one. `flush_rounds` and `clear_rounds` make as many rounds as the queue holds frames.
--
-- What C leaves undefined is told apart where the code can reach it: the keyframe cache that `realloc` to
-- size 0 has freed (`dangling`), and a data message whose buffer's size wraps to 0 (`datachannel_overrun`).
-- The shutdown of the event stream under its reader is the freeing of the stream's socket.
--
-- Not modelled: of p2p_tls.c the settings handed to mbedtls; of p2pav.c the
-- statistics thread and the figures of xquic, log settings and codec settings, which are only copied, and
-- a session pointer that is NULL, which every function rejects; the command line programs; capture,
-- codecs and rendering, which call FFmpeg and SDL; the signaling server, which is not in C; the
-- third-party libraries. What callbacks of the application do in turn is not followed.
-- Interleavings inside an operation (the flags that the threads share without a lock) are not
-- modelled either: every operation is one step.
pub mod Prelude
pub mod PacketQueue
pub mod Json
pub mod Signaling
pub mod Adapter
pub mod FrameQueue
pub mod Jitter
pub mod Peer
pub mod Engine
pub mod Session
pub mod Tests
pub mod Transport
pub mod Publisher
pub mod Subscriber
