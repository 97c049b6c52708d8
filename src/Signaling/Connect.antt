-- ===== src/Signaling/Connect.antt =====
-- Connecting and disconnecting the signaling client of src/p2p/src/p2p_signaling.c, and its posts over
-- the connection. What the TLS library, the system's threads and the server answer is an argument; the
-- contexts, connections, threads and locks are told as they are opened and closed. The two connections are
-- opened in parallel; the model has them in one order.
pub mod Laws
pub mod Requests
use libp2pchannel.Prelude.{
  ℕ, zero, suc, ◌+◌, ◌-◌, ◌*◌, ◌/◌, ◌%◌, ◌^◌, ◌≤◌, ◌<◌, min, ◌≡◌, refl, sym, ap, ap₂, subst, ◌∙◌,
  ◌≡⟨◌⟩◌, ◌∎, ◌≢◌, ◌↔◌, ◌⊎◌, inl, inr, Bool, true, false, not, ◌&&◌, ◌||◌, Option, none, some, List,
  [], ◌∷◌, ◌++◌, map, append_assoc, append-nil, arith, dec_lt, dec_le, ℕ_discrete, ltb, leb, ◌==◌,
  if◌then◌else◌, ltb→lt, lt→ltb, ge→ltb, eq→==, ne→==, ==_iff, Bool-cases, Option-cases, length,
  get_elem?, get_or, set, take, drop, replicate, memcpy, length-append, length-set,
  length-replicate, length-take, length-drop, take-length, take-take-append, get_or-set_self,
  get_or-set_ne, ℤ, pos, negsuc, to_int64, to_uint64, is_negative, List-cases,
}
use libp2pchannel.Prelude.Text.{codes, snprintf_s}
use libp2pchannel.Prelude.Decimal.{decimal, scan_int}
use libp2pchannel.Prelude.Ledger.{Act, opens, closes}
use libp2pchannel.Transport.Http.{Connection, Reply, p2p_https_post, p2p_https_get_sse}
use libp2pchannel.Signaling.Posts.{PostQueue, post_queue_size}
use libp2pchannel.Signaling.Dispatch.{SigCallbacks, SigCall, on_connected, if_set}
use libp2pchannel.Signaling.Client.{Client}

-- `p2p_signaling_config_t`; `none` is a NULL pointer.
pub record SigConfig : Type 0 where
  pub server_url : Option (List ℕ)
  pub peer_id : Option (List ℕ)
  pub token : Option (List ℕ)
  pub callbacks : SigCallbacks

pub data Resource : Type 0 where
  post_mutex tls_ctx tls_ctx_sse post_conn sse_conn sse_socket : Resource
  post_queue_mutex post_queue_cond post_worker sse_reader : Resource

-- The rest of `p2p_signaling_client_s`: the server, which pointers are not NULL, and `running`.
pub record Online : Type 0 where
  pub client : Client
  pub server_host : List ℕ
  pub server_port : ℕ
  pub has_ctx : Bool
  pub has_ctx_sse : Bool
  pub has_post : Bool
  pub has_sse : Bool
  pub running : Bool

-- `%255[^:]`: the text before the first colon, of 255 bytes at most, and what follows it.
unfoldable pub host_part : ℕ → List ℕ → List ℕ × List ℕ
host_part zero text = ([], text)
host_part (suc room) [] = ([], [])
host_part (suc room) (c ∷ cs) =
    let (host, rest) = host_part room cs in if c == b':' then ([], c ∷ cs) else (c ∷ host, rest)

-- `:%hu`; the port stays 443 if it is not there.
abbrev pub port_part : List ℕ → ℕ
port_part [] = 443
port_part (c ∷ cs) =
    if c == b':' then (elim (scan_int cs) [ none ↦ 443 | some n ↦ to_uint64 n % 2 ^ 16 ]) else 443

abbrev pub with_host : List ℕ × List ℕ → Option (List ℕ × ℕ)
with_host ([], rest) = none
with_host (c ∷ cs, rest) = some (c ∷ cs, port_part rest)

unfoldable pub parse_url : List ℕ → Option (List ℕ × ℕ)
unfolding host_part
parse_url url = with_host (host_part 255 url)

-- `/v1/events?peer_id=%s&token=%s` in 1024 bytes
unfoldable pub sse_path : List ℕ → List ℕ → List ℕ
sse_path peer_id token =
    snprintf_s 1024 (codes "/v1/events?peer_id=" ++ (peer_id ++ (codes "&token=" ++ token)))

-- `%s:%u` in 280 bytes
unfoldable pub host_hdr : List ℕ → ℕ → List ℕ
unfolding decimal
host_hdr host port = snprintf_s 280 (host ++ (b':' ∷ decimal port))

abbrev pub text_or : Option (List ℕ) → List ℕ
text_or none = []
text_or (some text) = text

-- No body waits, and no worker runs.
abbrev pub idle_queue : PostQueue
idle_queue = record { slots = replicate post_queue_size []; head = 0; tail = 0; running = false }

-- The client once its server and its names are set.
abbrev pub new_client : List ℕ → ℕ → List ℕ → SigConfig → Online
new_client host port peer_id cfg = record {
  client = record {
    own_id = snprintf_s 64 peer_id;
    auth = snprintf_s 1024 (text_or cfg.token);
    room = [];
    sig_callbacks = cfg.callbacks;
    is_connected = false;
    post_queue = idle_queue;
  };
  server_host = host;
  server_port = port;
  has_ctx = false;
  has_ctx_sse = false;
  has_post = false;
  has_sse = false;
  running = false;
}

-- What `p2p_signaling_connect` meets: whether each context is made, each connection comes up and each
-- thread starts, and the connection on which the event stream is asked for.
pub record Attempt : Type 0 where
  pub ctx_made : Bool
  pub ctx_sse_made : Bool
  pub post_up : Bool
  pub sse_up : Bool
  pub stream : Connection
  pub worker_starts : Bool
  pub reader_starts : Bool

-- The client, the result 0 or -1 as a truth value, the calls, and the resources.
pub record Connected : Type 0 where
  pub online : Online
  pub ok : Bool
  pub calls : List SigCall
  pub acts : List (Act Resource)

abbrev pub gives_up : List (Act Resource) → Online → Connected
gives_up acts c = record { online = c; ok = false; calls = []; acts = acts }

abbrev pub opened_if : Bool → Resource → List (Act Resource)
opened_if b r = if b then opens r ∷ [] else []

abbrev pub closed_if : Bool → Resource → List (Act Resource)
closed_if b r = if b then closes r ∷ [] else []

-- `p2p_tls_close` of the event stream's connection, whose socket is still open
abbrev pub closed_sse : List (Act Resource)
closed_sse = closes sse_socket ∷ closes sse_conn ∷ []

-- The four connections and contexts, closed as the failures of the event stream and of the threads do.
abbrev pub closed_all : List (Act Resource)
closed_all =
    closes sse_socket
    ∷ closes sse_conn
    ∷ closes post_conn
    ∷ closes tls_ctx
    ∷ closes tls_ctx_sse
    ∷ []

abbrev pub queue_locks : List (Act Resource)
queue_locks = opens post_queue_mutex ∷ opens post_queue_cond ∷ []

abbrev pub queue_unlocks : List (Act Resource)
queue_unlocks = closes post_queue_mutex ∷ closes post_queue_cond ∷ []

-- The client that is up, with its queue and its worker.
abbrev pub up : Online → Online
up c = record c {
  client = record c.client {
    is_connected = true;
    post_queue = record c.client.post_queue { head = 0; tail = 0; running = true };
  };
  has_ctx = true;
  has_ctx_sse = true;
  has_post = true;
  has_sse = true;
  running = true;
}

-- The end of `p2p_signaling_connect`: the worker, `on_connected`, the reader.
unfoldable pub start_threads : Attempt → List (Act Resource) → Online → Connected
start_threads a acts c =
    let call = if_set c.client.sig_callbacks.connected on_connected in
    if not a.worker_starts
    then gives_up (acts ++ (queue_locks ++ (queue_unlocks ++ closed_all))) c
    else if not a.reader_starts
    then record {
      online = c;
      ok = false;
      calls = call;
      acts =
          acts
          ++ (queue_locks
              ++ ((opens post_worker ∷ closes post_worker ∷ []) ++ (queue_unlocks ++ closed_all)));
    }
    else record {
      online = up c;
      ok = true;
      calls = call;
      acts = acts ++ (queue_locks ++ (opens post_worker ∷ opens sse_reader ∷ []));
    }

-- The request for the event stream.
abbrev pub open_stream : Attempt → List (Act Resource) → Online → Connected
open_stream a acts c =
    let asked =
      p2p_https_get_sse (host_hdr c.server_host c.server_port)
        (sse_path c.client.own_id c.client.auth) a.stream in
    if asked.0 then start_threads a acts c else gives_up (acts ++ closed_all) c

-- The two connections.
abbrev pub open_connections : Attempt → List (Act Resource) → Online → Connected
open_connections a acts c =
    let tried =
      acts
      ++ ((if a.sse_up then opens sse_conn ∷ opens sse_socket ∷ [] else [])
          ++ opened_if a.post_up post_conn) in
    let undo =
      closed_if a.post_up post_conn
      ++ ((if a.sse_up then closed_sse else []) ++ (closes tls_ctx ∷ closes tls_ctx_sse ∷ [])) in
    if not (a.post_up && a.sse_up) then gives_up (tried ++ undo) c else open_stream a tried c

-- The two contexts.
abbrev pub open_contexts : Attempt → Online → Connected
open_contexts a c =
    let tried =
      opens post_mutex ∷ (opened_if a.ctx_made tls_ctx ++ opened_if a.ctx_sse_made tls_ctx_sse) in
    if not (a.ctx_made && a.ctx_sse_made)
    then gives_up (tried ++ (closed_if a.ctx_made tls_ctx ++ closed_if a.ctx_sse_made tls_ctx_sse))
        c
    else open_connections a tried c

abbrev pub open_server : Attempt → SigConfig → List ℕ → Option (List ℕ × ℕ) → Option Connected
open_server a cfg peer_id none = none
open_server a cfg peer_id (some (host, port)) =
    some (open_contexts a (new_client host port peer_id cfg))

abbrev pub open_named : Attempt → SigConfig → Option (List ℕ) → Option (List ℕ) → Option Connected
open_named a cfg (some url) (some peer_id) = open_server a cfg peer_id (parse_url url)
open_named a cfg _ _ = none

-- `p2p_signaling_connect`; `none` is the -1 of a configuration that is not complete or whose address has no
-- host, before anything is opened.
unfoldable pub p2p_signaling_connect : SigConfig → Attempt → Option Connected
unfolding parse_url sse_path host_hdr start_threads
p2p_signaling_connect cfg a = open_named a cfg cfg.server_url cfg.peer_id

-- `p2p_signaling_disconnect`: the client, and what is closed. `p2p_tls_shutdown` frees the socket of the event
-- stream while the reader still runs; `p2p_tls_close` then frees the connection, and `mbedtls_net_free` on
-- a socket that was freed does nothing.
unfoldable pub p2p_signaling_disconnect : Online → Online × List (Act Resource)
p2p_signaling_disconnect c =
    let gone = record c {
      client = record c.client {
        is_connected = false;
        post_queue = record c.client.post_queue { running = false };
      };
      has_ctx = false;
      has_ctx_sse = false;
      has_post = false;
      has_sse = false;
      running = false;
    } in
    let worker = if c.client.post_queue.running then closes post_worker ∷ queue_unlocks else [] in
    (
      gone,
      worker
          ++ (closed_if c.has_sse sse_socket
              ++ (closed_if c.client.is_connected sse_reader
                  ++ (closed_if c.has_sse sse_conn
                      ++ (closed_if c.has_post post_conn
                          ++ (closed_if c.has_ctx tls_ctx
                              ++ (closed_if c.has_ctx_sse tls_ctx_sse
                                  ++ (closes post_mutex ∷ []))))))),
    )

-- `post_signal`, with the size of the caller's buffer for the response
unfoldable pub post_signal : Online → List ℕ → ℕ → Connection → Reply
unfolding host_hdr
post_signal c body resp_sz conn =
    p2p_https_post (host_hdr c.server_host c.server_port) (codes "/v1/signal") body resp_sz conn
