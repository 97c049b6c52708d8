-- ===== src/Transport/Context/Laws.antt =====
-- Contexts and connections of src/p2p/src/p2p_tls.c leave nothing open.
use libp2pchannel.Prelude.{
  ℕ, ◌≡◌, Bool, true, false, ◌&&◌, Option, some, List, [], ◌∷◌, ◌++◌, arith, ◌==◌, if◌then◌else◌,
  Bool-cases,
}
use libp2pchannel.Prelude.Ledger.{Act, ledger}
use libp2pchannel.Transport.Context.{
  Part, ctx_memory, config, entropy, ctr_drbg, conn_memory, ssl, net, p2p_tls_ctx_create,
  p2p_tls_ctx_destroy, Shake, handshake, p2p_tls_connect, p2p_tls_close,
}

abbrev id_of : Part → ℕ
id_of ctx_memory = 0
id_of config = 1
id_of entropy = 2
id_of ctr_drbg = 3
id_of conn_memory = 4
id_of ssl = 5
id_of net = 6

abbrev pub same_part : Part → Part → Bool
same_part a b = id_of a == id_of b

-- A part lies in the memory of its object, the generator draws on the entropy, and a session has the
-- configuration of its context and the socket of its connection.
abbrev pub part_uses : Part → Part → Bool
part_uses config ctx_memory = true
part_uses entropy ctx_memory = true
part_uses ctr_drbg ctx_memory = true
part_uses ctr_drbg entropy = true
part_uses ssl conn_memory = true
part_uses net conn_memory = true
part_uses ssl config = true
part_uses ssl net = true
part_uses _ _ = false

abbrev pub parts : List (Act Part) → Option (List Part)
parts acts = ledger same_part part_uses acts []

-- What a context and a connection own once they are made.
abbrev pub context_parts : Bool → List Part
context_parts made = if made then ctr_drbg ∷ entropy ∷ config ∷ ctx_memory ∷ [] else []

abbrev pub connection_parts : Bool → List Part
connection_parts up = if up then net ∷ ssl ∷ conn_memory ∷ [] else []

-- A context is made just if there is memory and the library seeds and configures it; a connection in it is
-- up just if there is memory, the server is reached, the session is set up and the handshake agrees. Then
-- they own all their parts, and otherwise nothing of them is left open; once both are closed, the
-- connection first, nothing is. At no time is a part closed twice or while it is in use.
pub p2p_tls_connect-closed :
    (memory seeded defaults mem reached set_up : Bool) (shakes : List Shake)
    → let (made, acts) = p2p_tls_ctx_create memory seeded defaults in
      let (up, more) = p2p_tls_connect (made && mem) reached set_up shakes in
      (made ≡ (memory && seeded && defaults))
      × (up ≡ (made && mem && reached && set_up && handshake shakes))
      × (parts (acts ++ more) ≡ some (connection_parts up ++ context_parts made))
      × (parts (acts ++ (more ++ (p2p_tls_close up ++ p2p_tls_ctx_destroy made))) ≡ some [])
unfolding ledger p2p_tls_ctx_create p2p_tls_connect p2p_tls_close p2p_tls_ctx_destroy
p2p_tls_connect-closed memory seeded defaults mem reached set_up shakes =
    ground (arith, Bool-cases (handshake shakes))
