-- ===== src/Connection/Samples.antt =====
-- Concrete connections for runs, on a network that loses nothing.
use chromatin_protocol.Prelude.{[], true, false, replicate}
use chromatin_protocol.External.Crypto.{Crypto}
use chromatin_protocol.External.Transport.{Transport, Keys}
use chromatin_protocol.External.Samples.{plain_crypto}
use chromatin_protocol.External.SampleTransport.{plain_transport, plain_keys}
use chromatin_protocol.Connection.{Connection, Identity, Network}

instance abbrev pub sample_crypto : Crypto
sample_crypto = plain_crypto

instance abbrev pub sample_transport : Transport
sample_transport = plain_transport

instance abbrev pub sample_keys : Keys
sample_keys = plain_keys

instance abbrev pub calm : Network
calm = record { write_fails = λ n. false; now = 77 }

abbrev pub node : Identity
node = record { public_key = replicate 2592 7; secret_key = replicate 4896 1 }

-- An authenticated connection with nothing to do.
abbrev pub idle : Connection
idle = record {
  identity = node;
  is_initiator = false;
  is_uds = false;
  address_trusted = false;
  local_role = 0;
  authenticated = true;
  closed = false;
  received_goodbye = false;
  closing = false;
  send_key = replicate 32 5;
  recv_key = replicate 32 5;
  session_fingerprint = replicate 32 6;
  send_counter = 1;
  recv_counter = 1;
  peer_pubkey = replicate 2592 7;
  peer_role = 0;
  send_queue = [];
  results = [];
  next_ticket = 0;
  incoming = [];
  outgoing = [];
  writes = 0;
  last_recv_time = 0;
  delivered = [];
}
