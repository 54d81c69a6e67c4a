-- ===== src/Handshake/Runs.antt =====
-- The handshake of net/connection.cpp on concrete nodes.
use chromatin_protocol.Prelude.{
  ℕ, ◌≡◌, ◌≢◌, refl, arith, List, [], ◌∷◌, ◌++◌, true, false, some, get_or, replicate, ap,
}
use chromatin_protocol.External.SampleTransport.{plain_keys}
use chromatin_protocol.Frame.{is_implemented_role}
use chromatin_protocol.Connection.{Connection}
use chromatin_protocol.Connection.Samples.{
  sample_crypto, sample_transport, sample_keys, calm, node, idle,
}
use chromatin_protocol.Handshake.{Draw, PeerAuth, derive_session_keys, responder_verify_peer_auth}
use chromatin_protocol.Handshake.Paths.{do_handshake}
use chromatin_protocol.Handshake.Outcome.{Settled}
use chromatin_protocol.Handshake.Vouched.{do_handshake-Settled}
use chromatin_protocol.Handshake.Agreement.{IsIdentity, raw, auth_frame}
use chromatin_protocol.Handshake.Session.{
  IsPaired, IsReady, responder_takes_signer, handshake_agrees,
}

abbrev draw : Draw
draw = record { nonce = replicate 32 1; seed = replicate 64 2; coins = replicate 32 3 }

abbrev responder : Connection
responder = record idle { authenticated = false; send_counter = 0; recv_counter = 0 }

abbrev initiator : Connection
initiator = record responder { is_initiator = true }

node-IsIdentity : IsIdentity node
unfolding plain_keys
node-IsIdentity = refl

peer_role_known : is_implemented_role 0 ≡ true
unfolding is_implemented_role
peer_role_known = refl

responder-IsReady : IsReady responder
responder-IsReady = record {
  is_open = refl;
  honest = node-IsIdentity;
  known_role = peer_role_known;
  fresh = refl;
  s_room = omega arith;
  r_room = omega arith;
}

initiator-IsReady : IsReady initiator
initiator-IsReady = record {
  is_open = refl;
  honest = node-IsIdentity;
  known_role = peer_role_known;
  fresh = refl;
  s_room = omega arith;
  r_room = omega arith;
}

do_handshake-Settled_example :
    Settled (do_handshake draw (record responder { incoming = 0 ∷ 0 ∷ 0 ∷ 1 ∷ 9 ∷ [] }))
do_handshake-Settled_example =
    do_handshake-Settled draw (record responder { incoming = 0 ∷ 0 ∷ 0 ∷ 1 ∷ 9 ∷ [] }) refl

handshake_agrees_example :
    (forth back : List ℕ) × (let i = do_handshake draw (record initiator { incoming = back }) in
      let r = do_handshake draw (record responder { incoming = forth }) in
      (i.1 ≡ some tt)
      × (r.1 ≡ some tt)
      × (i.0.outgoing ≡ forth)
      × (r.0.outgoing ≡ back)
      × IsPaired i.0 r.0)
handshake_agrees_example =
    handshake_agrees draw draw initiator responder (λ n. refl) initiator-IsReady responder-IsReady
      refl refl refl refl refl refl

abbrev claimed : List ℕ
claimed = replicate 2592 8

claimed-ne-node : claimed ≢ node.public_key
claimed-ne-node e = let heads : ◌≡◌ {A = ℕ} 8 7 = ap (λ (l : List ℕ). get_or l 0 0) e in omega arith

responder_takes_signer_example :
    let keys =
      derive_session_keys
        (sample_keys.encaps_ss draw.coins (sample_keys.kem_public draw.seed))
        claimed
        node.public_key
        false in
    let auth = auth_frame node 0 keys keys.recv_key 0 in
    let first = sample_transport.encode 1 (sample_keys.kem_public draw.seed ++ claimed) 0 in
    let end = do_handshake draw (record responder { incoming = raw first ++ auth }) in
    (end.1 ≡ some tt)
    × (end.0.peer_pubkey ≡ node.public_key)
    × (responder_verify_peer_auth claimed keys 0 auth ≡ PeerAuth.auth_failed)
responder_takes_signer_example =
    responder_takes_signer draw draw.seed claimed node 0 responder (λ n. refl) responder-IsReady
      refl node-IsIdentity peer_role_known refl claimed-ne-node
