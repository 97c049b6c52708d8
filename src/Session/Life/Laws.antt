-- ===== src/Session/Life/Laws.antt =====
-- Start and stop of a session of src/p2p/src/p2pav.c.
use libp2pchannel.Prelude.{
  ℕ, ◌<◌, ◌≡◌, refl, sym, ap, subst, ◌∙◌, ◌≢◌, ◌⊎◌, inl, inr, true, false, ◌&&◌, none, some, List,
  [], ◌∷◌, ◌++◌, arith, Bool-cases, Option-cases, length, length-append,
}
use libp2pchannel.Prelude.Text.{snprintf_s_short, atoi}
use libp2pchannel.Engine.{Engine}
use libp2pchannel.Engine.Life.{set_up}
use libp2pchannel.Engine.Life.{engine_init, engine_start, engine_stop, engine_destroy}
use libp2pchannel.Engine.Life.Laws.{Ready, engine_init-Ready, engine_init-some}
use libp2pchannel.Session.{Session, SessionError}
use libp2pchannel.Session.Life.{
  split_last, to_uint16, parse_server, engine_config, Startup, start_engine, session_start,
  session_stop,
}

-- The outcome of a start: the session runs on a ready engine whose thread runs; or it does not run, no
-- engine counts as started, and its engine has neither a running thread nor an xquic engine.
abbrev pub Outcome : Session → SessionError → Type 0
Outcome s e =
    ((e ≡ SessionError.ok)
      × (s.session_running ≡ true)
      × (s.engine_started ≡ true)
      × (s.engine.running ≡ true)
      × Ready s.engine)
    ⊎ ((e ≢ SessionError.ok)
        × (s.session_running ≡ false)
        × (s.engine_started ≡ false)
        × (s.engine.running ≡ false)
        × (s.engine.has_xqc_engine ≡ false))

running-Ready : (eng : Engine) → Ready eng → Ready (record eng { running = true })
running-Ready eng r = record {
  queue_valid = r.queue_valid;
  queue_empty = r.queue_empty;
  queue_size = r.queue_size;
  no_peers = r.no_peers;
  all_free = r.all_free;
  unnamed = r.unnamed;
}

failed :
    (e : SessionError)
    → ((e ≡ SessionError.internal) ⊎ (e ≡ SessionError.not_connected))
    → e ≢ SessionError.ok
failed e (inl p) q = cc
failed e (inr p) q = cc

run_engine_lem :
    (u : Startup) (eng : Engine) (s : Session)
    → s.engine_started ≡ false
    → s.session_running ≡ false
    → let up = u.thread && u.signaling in
      let (s', e, ns) = start_engine u (some eng) s in
      (s'.session_running ≡ up)
      × (s'.engine_started ≡ up)
      × ((up ≡ false) ⊎ ((e ≡ SessionError.ok) × (s'.engine ≡ record eng { running = true })))
      × ((up ≡ true)
          ⊎ (((e ≡ SessionError.internal) ⊎ (e ≡ SessionError.not_connected))
              × (s'.engine.running ≡ false)
              × (s'.engine.has_xqc_engine ≡ false)))
unfolding engine_start engine_stop engine_destroy
run_engine_lem u eng s st r = ground arith

start_engine-Outcome :
    (u : Startup) (eng : Engine) (s : Session)
    → s.engine_started ≡ false
    → s.session_running ≡ false
    → Ready eng
    → let (s', e, ns) = start_engine u (some eng) s in Outcome s' e
start_engine-Outcome u eng s st r ready =
    let (a, b, c, d) = run_engine_lem u eng s st r in
    elim (Bool-cases (u.thread && u.signaling)) [
      | inl up ↦ elim c [
        | inl down ↦ cc
        | inr (ok, is) ↦ inl (
          ok,
          a ∙ up,
          b ∙ up,
          ap (λ (x : Engine). x.running) is,
          subst Ready (sym is) (running-Ready eng ready),
        )
      ]
      | inr down ↦ elim d [
        | inl up ↦ cc
        | inr (k, halted, bare) ↦ inr (failed _ k, a ∙ down, b ∙ down, halted, bare)
      ]
    ]

session_start_lem :
    (u : Startup) (s : Session)
    → s.session_running ≡ false
    → session_start u s
      ≡ start_engine u
          (engine_init (engine_config s) u.memory u.xquic)
          (record s { timing = record s.timing { session_start_us = u.started_us } })
unfolding session_start
session_start_lem u s r = rw r refl

-- `p2pav_session_start` on a session that does not run: it returns OK just if the session then runs, on
-- an engine that is ready and whose thread runs; on every failure, of the engine, of its thread or of
-- the signaling connection, the session does not run, and its engine is not started, its thread does not
-- run and its xquic engine is gone. Before, nothing of the engine ran.
pub session_start-Outcome :
    (u : Startup) (s : Session)
    → s.session_running ≡ false
    → s.engine_started ≡ false
    → s.engine.running ≡ false
    → s.engine.has_xqc_engine ≡ false
    → let (s', e, ns) = session_start u s in Outcome s' e
session_start-Outcome u s r st halted bare =
    let s0 = record s { timing = record s.timing { session_start_us = u.started_us } } in
    elim (Option-cases (engine_init (engine_config s) u.memory u.xquic)) [
      | inl e ↦
          rw (session_start_lem u s r, e)
            (inr (failed SessionError.internal (inl refl), r, st, halted, bare))
      | inr (eng, e) ↦
          rw (session_start_lem u s r, e)
            (start_engine-Outcome u eng s0 st r
              (engine_init-Ready (engine_config s) u.memory u.xquic eng e))
    ]

-- `p2pav_session_start` succeeds when all that it asks of the system and of the libraries is there.
pub session_start-ok :
    (u : Startup) (s : Session)
    → s.session_running ≡ false
    → s.engine_started ≡ false
    → u.memory ≡ true
    → u.xquic ≡ true
    → u.thread ≡ true
    → u.signaling ≡ true
    → let (s', e, ns) = session_start u s in (e ≡ SessionError.ok) × (s'.session_running ≡ true)
session_start-ok u s r st m x t g =
    let s0 = record s { timing = record s.timing { session_start_us = u.started_us } } in
    let (q, e) = engine_init-some (engine_config s) in
    let (a, _, c, _) = run_engine_lem u (set_up (engine_config s) q) s0 st r in
    let up : (u.thread && u.signaling) ≡ true = rw (t, g) refl in
    rw (session_start_lem u s r, m, x, e) (elim c [ inl down ↦ cc | inr (ok, _) ↦ ok ], a ∙ up)

-- `p2pav_session_stop` leaves nothing running, whether the session ran or not, if the session ran just when
-- its engine was started.
pub session_stop_lem :
    (s : Session)
    → s.session_running ≡ s.engine_started
    → let (s', ns) = session_stop s in
      (s'.session_running ≡ false)
      × (s'.engine_started ≡ false)
      × ((s.session_running ≡ false)
          ⊎ ((s'.engine.running ≡ false) × (s'.engine.has_xqc_engine ≡ false)))
unfolding session_stop engine_stop engine_destroy
session_stop_lem s c = ground arith

no_colon_splits_nowhere :
    (c : ℕ) (text : List ℕ)
    → split_last c text ≡ none
    → (before : List ℕ) → split_last c (before ++ (c ∷ text)) ≡ some (before, text)
unfolding split_last
no_colon_splits_nowhere c text e [] = ground arith
no_colon_splits_nowhere c text e (x ∷ before) =
    ground (arith, no_colon_splits_nowhere c text e before)

-- A server that is written as a host, a colon and a port without a colon is taken apart into just these,
-- the host whatever it holds, and the port as a 16-bit number; one without a colon has port 3478. The
-- text has at most 255 bytes.
pub parse_server_lem :
    (host port : List ℕ)
    → split_last b':' port ≡ none
    → length (host ++ (b':' ∷ port)) < 256
    → (parse_server (host ++ (b':' ∷ port)) ≡ (host, to_uint16 (atoi port)))
      × (parse_server port ≡ (port, 3478))
unfolding parse_server
parse_server_lem host port e h = ground (
  arith,
  snprintf_s_short 256 (host ++ (b':' ∷ port)) h,
  snprintf_s_short 256 port,
  length-append host (b':' ∷ port),
  no_colon_splits_nowhere b':' port e host,
)
