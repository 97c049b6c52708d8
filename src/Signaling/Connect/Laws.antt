-- ===== src/Signaling/Connect/Laws.antt =====
-- What src/p2p/src/p2p_signaling.c opens and closes when it connects and disconnects.
use libp2pchannel.Prelude.{
  ℕ, ◌≡◌, refl, Bool, true, false, ◌&&◌, Option, some, List, [], ◌∷◌, ◌++◌, arith, ◌==◌,
  if◌then◌else◌, Bool-cases,
}
use libp2pchannel.Prelude.Ledger.{Act, ledger}
use libp2pchannel.Transport.Http.{p2p_https_get_sse}
use libp2pchannel.Signaling.Dispatch.{on_connected, if_set}
use libp2pchannel.Signaling.Connect.{
  SigConfig, Resource, post_mutex, tls_ctx, tls_ctx_sse, post_conn, sse_conn, sse_socket,
  post_queue_mutex, post_queue_cond, post_worker, sse_reader, Online, Attempt, Connected,
  open_contexts, new_client, host_hdr, sse_path, start_threads, p2p_signaling_connect,
  p2p_signaling_disconnect, parse_url,
}

abbrev id_of : Resource → ℕ
id_of post_mutex = 0
id_of tls_ctx = 1
id_of tls_ctx_sse = 2
id_of post_conn = 3
id_of sse_conn = 4
id_of post_queue_mutex = 5
id_of post_queue_cond = 6
id_of post_worker = 7
id_of sse_reader = 8
id_of sse_socket = 9

abbrev pub same_resource : Resource → Resource → Bool
same_resource a b = id_of a == id_of b

-- A connection lives in its context, the reader reads its connection, and the worker posts on the other and
-- waits on the queue. The socket of the event stream keeps the reader in its read: the end of the reader
-- can be awaited only once it is freed.
abbrev pub resource_uses : Resource → Resource → Bool
resource_uses post_conn tls_ctx = true
resource_uses sse_conn tls_ctx_sse = true
resource_uses sse_reader sse_conn = true
resource_uses post_worker post_conn = true
resource_uses post_worker post_mutex = true
resource_uses post_worker post_queue_mutex = true
resource_uses post_worker post_queue_cond = true
resource_uses sse_socket sse_reader = true
resource_uses _ _ = false

abbrev pub left_open : List (Act Resource) → Option (List Resource)
left_open acts = ledger same_resource resource_uses acts []

-- All that a connected client has.
abbrev pub all_open : List Resource
all_open =
    sse_reader ∷ post_worker ∷ post_queue_cond ∷ post_queue_mutex ∷ post_conn ∷ sse_socket
    ∷ sse_conn ∷ tls_ctx_sse ∷ tls_ctx ∷ post_mutex ∷ []

-- Does the server open the event stream?
abbrev pub streams : Attempt → Online → Bool
streams a c =
    (p2p_https_get_sse (host_hdr c.server_host c.server_port)
      (sse_path c.client.own_id c.client.auth) a.stream).0

abbrev pub reaches : Attempt → Online → Bool
reaches a c = a.ctx_made && a.ctx_sse_made && (a.post_up && a.sse_up) && streams a c

-- What holds of a try to connect as the client `c`, and of a disconnect after it.
abbrev pub IsClosed : Attempt → Online → Connected → Type 0
IsClosed a c r =
    let (gone, acts) = p2p_signaling_disconnect r.online in
    (r.ok ≡ (reaches a c && (a.worker_starts && a.reader_starts)))
    × (r.online.client.is_connected ≡ r.ok)
    × (r.calls ≡ (
        if reaches a c && a.worker_starts
        then if_set c.client.sig_callbacks.connected on_connected
        else []))
    × (left_open r.acts ≡ some (if r.ok then all_open else post_mutex ∷ []))
    × (left_open (r.acts ++ acts) ≡ some [])

open_contexts-IsClosed :
    (a : Attempt) (host : List ℕ) (port : ℕ) (peer_id : List ℕ) (cfg : SigConfig)
    → let c = new_client host port peer_id cfg in IsClosed a c (open_contexts a c)
unfolding ledger start_threads p2p_signaling_disconnect
open_contexts-IsClosed a host port peer_id cfg =
    let c = new_client host port peer_id cfg in ground (arith, Bool-cases (streams a c))

-- A client with an address and a name connects just if both contexts are made, both connections come up,
-- the server opens the event stream and both threads start. It then has all its resources; otherwise it
-- has closed all but the lock of its posts. `on_connected` is called once, if the callback is set, as soon
-- as the worker runs, also when the client then fails because its reader does not start. A disconnect after
-- it leaves nothing open in either case: it frees the stream's socket before it waits for the reader, whose
-- read only this ends, and the memory of the connection only after it. Nothing is closed twice, and, the
-- socket of the running reader aside, nothing that a thread or a connection still uses. Of the connection
-- for the posts the socket is not told apart.
pub p2p_signaling_connect-IsClosed :
    (cfg : SigConfig) (a : Attempt) (url peer_id host : List ℕ) (port : ℕ)
    → cfg.server_url ≡ some url
    → cfg.peer_id ≡ some peer_id
    → parse_url url ≡ some (host, port)
    → (r : Connected) × (p2p_signaling_connect cfg a ≡ some r)
      × IsClosed a (new_client host port peer_id cfg) r
unfolding p2p_signaling_connect
p2p_signaling_connect-IsClosed cfg a url peer_id host port u i p = (
  open_contexts a (new_client host port peer_id cfg),
  rw (u, i, p) refl,
  open_contexts-IsClosed a host port peer_id cfg,
)
