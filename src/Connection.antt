-- ===== src/Connection.antt =====
-- net/connection.cpp: a connection as a state, with the bytes that the peer has sent still to be read,
-- the bytes written, and the messages handed to the callback. The children have the handshake, the
-- send queue and the message loop. A coroutine is a function on the state whose result is `none` where
-- the source returns false or `nullopt`.
pub mod Frames
pub mod Queue
pub mod Texts
pub mod Reassembly
pub mod Wire
pub mod Sending
pub mod Delivery
pub mod Keeping
pub mod Steps
pub mod Sound
pub mod Reading
pub mod Samples
mod Runs
pub mod Loop
use chromatin_protocol.Prelude.{
  ℕ, ◌+◌, ◌%◌, ◌^◌, List, [], ◌++◌, Bool, true, false, not, Option, none, some, ltb, leb,
  if◌then◌else◌, length, drop, slice,
}
use chromatin_protocol.Endian.{store_u32_be, read_u32_be}
use chromatin_protocol.External.Crypto.{Crypto}
use chromatin_protocol.External.Transport.{DecodedMessage}
use chromatin_protocol.Frame.{max_frame_size, make_nonce}

-- One element of `send_queue_`. The ticket stands for the completion timer and the result pointer
-- of the coroutine that waits for it.
pub record PendingMessage : Type 0 where
  pub encoded : List ℕ
  pub ticket : ℕ
  pub is_chunked : Bool
  pub chunked_payload : List ℕ

pub record Identity : Type 0 where
  pub public_key : List ℕ
  pub secret_key : List ℕ

pub record Connection : Type 0 where
  pub identity : Identity
  pub is_initiator : Bool
  pub is_uds : Bool
  -- what the trust check says of the remote address
  pub address_trusted : Bool
  pub local_role : ℕ
  pub authenticated : Bool
  pub closed : Bool
  pub received_goodbye : Bool
  pub closing : Bool
  pub send_key : List ℕ
  pub recv_key : List ℕ
  pub session_fingerprint : List ℕ
  pub send_counter : ℕ
  pub recv_counter : ℕ
  pub peer_pubkey : List ℕ
  pub peer_role : ℕ
  pub send_queue : List PendingMessage
  -- what the queue's waiters were told, by ticket, latest first, and the next ticket
  pub results : List (ℕ × Bool)
  pub next_ticket : ℕ
  pub incoming : List ℕ
  pub outgoing : List ℕ
  -- how many writes were made: the environment says which of them fail
  pub writes : ℕ
  pub last_recv_time : ℕ
  -- the messages that the callback was given, latest first
  pub delivered : List DecodedMessage

abbrev pub Io {ℓ} : Type ℓ → Type ℓ
Io A = Connection → Connection × Option A

abbrev pub and_then {ℓ κ} :
    {A : Type ℓ} {B : Type κ} → Connection × Option A → (A → Io B) → Connection × Option B
and_then (c, none) f = (c, none)
and_then (c, some a) f = f a c

infixl 5 ◌>>=◌ ◌>>◌
abbrev pub ◌>>=◌ {ℓ κ} : {A : Type ℓ} {B : Type κ} → Io A → (A → Io B) → Io B
◌>>=◌ m f c = and_then (m c) f

abbrev pub ◌>>◌ {ℓ κ} : {A : Type ℓ} {B : Type κ} → Io A → Io B → Io B
m >> k = m >>= λ _. k

abbrev pub done {ℓ} : {A : Type ℓ} → A → Io A
done a c = (c, some a)

abbrev pub failed {ℓ} : {A : Type ℓ} → Io A
failed c = (c, none)

abbrev pub this : Io Connection
this c = (c, some c)

abbrev pub change : (Connection → Connection) → Io (Unit {0})
change f c = (f c, some tt)

abbrev pub require : Bool → Io (Unit {0})
require b c = if b then (c, some tt) else (c, none)

abbrev pub from {ℓ} : {A : Type ℓ} → Option A → Io A
from o c = (c, o)

unfoldable pub close : Connection → Connection
close c = if c.closed then c else record c { closed = true }

abbrev pub nonce_limit : ℕ
nonce_limit = 2 ^ 63

-- Which of a connection's writes fail, and the clock. A write on a closed socket fails.
pub record Network : Type 0 where
  pub write_fails : ℕ → Bool
  pub now : ℕ

module _ ⦃N : Network⦄ where
  unfoldable pub async_write : List ℕ → Io (Unit {0})
  async_write bytes c =
      let c' = record c { writes = c.writes + 1 } in
      if N.write_fails c.writes
      then (c', none)
      else if c.closed
      then (c', none)
      else (record c' { outgoing = c.outgoing ++ bytes }, some tt)

  unfoldable pub send_raw : List ℕ → Io (Unit {0})
  unfolding async_write
  send_raw bytes = do async_write (store_u32_be (length bytes % 2 ^ 32)); async_write bytes

-- A read of `n` bytes fails if the stream ends before or the socket is closed.
unfoldable pub async_read : ℕ → Io (List ℕ)
async_read n c =
    if c.closed
    then (c, none)
    else if ltb (length c.incoming) n
    then (record c { incoming = [] }, none)
    else (record c { incoming = drop n c.incoming }, some (slice 0 n c.incoming))

unfoldable pub recv_raw : Io (List ℕ)
unfolding async_read
recv_raw = do
  header ← async_read 4
  let len = read_u32_be header
  require (not (ltb max_frame_size len))
  async_read len

module _ ⦃C : Crypto⦄ ⦃N : Network⦄ where
  unfoldable pub send_encrypted : List ℕ → Io (Unit {0})
  unfolding send_raw
  send_encrypted plaintext c =
      if leb nonce_limit c.send_counter
      then (close c, none)
      else send_raw (C.encrypt plaintext [] (make_nonce c.send_counter) c.send_key)
          (record c { send_counter = c.send_counter + 1 })

module _ ⦃C : Crypto⦄ where
  -- Where the counter is used up the frame is read and dropped, and the connection closed.
  unfoldable pub open_frame : List ℕ → Io (List ℕ)
  open_frame raw c = if leb nonce_limit c.recv_counter then (close c, none) else (
    record c { recv_counter = c.recv_counter + 1 },
    C.decrypt raw [] (make_nonce c.recv_counter) c.recv_key,
  )

  unfoldable pub recv_encrypted : Io (List ℕ)
  unfolding recv_raw open_frame
  recv_encrypted = recv_raw >>= open_frame
