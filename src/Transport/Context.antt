-- ===== src/Transport/Context.antt =====
-- The life of TLS contexts and connections in src/p2p/src/p2p_tls.c. What the memory and the library
-- answer is an argument; the actions are the resources that a call opens and closes, in order.
pub mod Laws
use libp2pchannel.Prelude.{
  ℕ, zero, suc, ◌+◌, ◌-◌, ◌*◌, ◌/◌, ◌%◌, ◌^◌, ◌≤◌, ◌<◌, min, ◌≡◌, refl, sym, ap, ap₂, subst, ◌∙◌,
  ◌≡⟨◌⟩◌, ◌∎, ◌≢◌, ◌↔◌, ◌⊎◌, inl, inr, Bool, true, false, not, ◌&&◌, ◌||◌, Option, none, some, List,
  [], ◌∷◌, ◌++◌, map, append_assoc, append-nil, arith, dec_lt, dec_le, ℕ_discrete, ltb, leb, ◌==◌,
  if◌then◌else◌, ltb→lt, lt→ltb, ge→ltb, eq→==, ne→==, ==_iff, Bool-cases, Option-cases, length,
  get_elem?, get_or, set, take, drop, replicate, memcpy, length-append, length-set,
  length-replicate, length-take, length-drop, take-length, take-take-append, get_or-set_self,
  get_or-set_ne, ℤ, pos, negsuc, to_int64, to_uint64, is_negative, List-cases,
}
use libp2pchannel.Prelude.Ledger.{Act, opens, closes}

-- What a context and a connection own.
pub data Part : Type 0 where
  ctx_memory config entropy ctr_drbg conn_memory ssl net : Part

-- `p2p_tls_ctx_create`: is there memory, is the generator seeded, are the defaults set?
unfoldable pub p2p_tls_ctx_create : Bool → Bool → Bool → Bool × List (Act Part)
p2p_tls_ctx_create memory seeded defaults =
    let init = opens ctx_memory ∷ opens config ∷ opens entropy ∷ opens ctr_drbg ∷ [] in
    let fail = closes ctr_drbg ∷ closes entropy ∷ closes config ∷ closes ctx_memory ∷ [] in
    if not memory
    then (false, [])
    else if not seeded
    then (false, init ++ fail)
    else if not defaults
    then (false, init ++ fail)
    else (true, init)

-- `p2p_tls_ctx_destroy`; NULL is ignored.
unfoldable pub p2p_tls_ctx_destroy : Bool → List (Act Part)
p2p_tls_ctx_destroy given =
    if given then closes config ∷ closes ctr_drbg ∷ closes entropy ∷ closes ctx_memory ∷ [] else []

-- What one call of `mbedtls_ssl_handshake` answers: `WANT_READ` or `WANT_WRITE`, 0, or another error.
pub data Shake : Type 0 where
  again : Shake
  agreed : Shake
  broken : Shake

-- The handshake loop; without a further answer there is no connection any more.
unfoldable pub handshake : List Shake → Bool
handshake [] = false
handshake (again ∷ shakes) = handshake shakes
handshake (agreed ∷ shakes) = true
handshake (broken ∷ shakes) = false

-- `p2p_tls_connect`, for a context and a host that are given: is there memory, is the server reached, is
-- the session set up, and how does the handshake go?
unfoldable pub p2p_tls_connect : Bool → Bool → Bool → List Shake → Bool × List (Act Part)
unfolding handshake
p2p_tls_connect memory reached set_up shakes =
    let init = opens conn_memory ∷ opens ssl ∷ opens net ∷ [] in
    let fail = closes ssl ∷ closes net ∷ closes conn_memory ∷ [] in
    if not memory
    then (false, [])
    else if not reached
    then (false, init ++ fail)
    else if not set_up
    then (false, init ++ fail)
    else if not (handshake shakes)
    then (false, init ++ fail)
    else (true, init)

-- `p2p_tls_close`; NULL is ignored.
unfoldable pub p2p_tls_close : Bool → List (Act Part)
p2p_tls_close given = if given then closes ssl ∷ closes net ∷ closes conn_memory ∷ [] else []
