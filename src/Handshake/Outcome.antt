-- ===== src/Handshake/Outcome.antt =====
-- What a part of the handshake of net/connection.cpp comes to, whatever arrives.
use chromatin_protocol.Prelude.{
  ℕ, ◌≡◌, refl, arith, List, Bool, true, false, Option, none, some, Bool-cases, inl, inr, ◌==◌,
}
use chromatin_protocol.External.Crypto.{Crypto}
use chromatin_protocol.External.Transport.{Transport, Keys}
use chromatin_protocol.Frame.{AuthPayload, is_implemented_role, decode_auth_payload}
use chromatin_protocol.Connection.{
  Connection, Network, Io, ◌>>=◌, ◌>>◌, and_then, change, require, from, send_encrypted,
  recv_encrypted,
}
use chromatin_protocol.Connection.Keeping.{Untouched, send_encrypted-keeps, recv_encrypted-keeps}
use chromatin_protocol.Handshake.{auth_signature_type, auth_message}
use chromatin_protocol.Handshake.Paths.{
  set_peer, set_authenticated, recv_auth, verify_auth, send_auth,
}

-- The outcome of a part of the handshake: failed and not authenticated, or as `Q` says.
abbrev pub Post {ℓ} : {A : Type ℓ} → (A → Connection → Type 0) → Connection × Option A → Type 0
Post Q (d, none) = d.authenticated ≡ false
Post Q (d, some a) = Q a d

pub Post->>= {ℓ κ} :
    {A : Type ℓ} {B : Type κ} (P : A → Connection → Type 0) (Q : B → Connection → Type 0)
    (r : Connection × Option A) (f : A → Io B)
    → Post P r
    → ((a : A) (d : Connection) → P a d → Post Q (f a d))
    → Post Q (and_then r f)
Post->>= P Q (d, none) f p k = p
Post->>= P Q (d, some a) f p k = k a d p

-- A part that keeps a predicate of connections that are not authenticated.
pub keeps-Post {ℓ} :
    {A : Type ℓ} (P : Connection → Type 0)
    → ((d : Connection) → P d → d.authenticated ≡ false)
    → (r : Connection × Option A) → P r.0
    → Post (λ _. P) r
keeps-Post P out (d, none) p = out d p
keeps-Post P out (d, some a) p = p

abbrev pub Out : Connection → Type 0
Out d = d.authenticated ≡ false

pub Out-Untouched : Untouched Out
Out-Untouched = record {
  on_close = λ d p. p;
  on_write = λ n bytes d p. p;
  on_send = λ d room p. p;
  on_read = λ bytes d p. p;
  on_recv = λ d room p. p;
  on_clock = λ t d p. p;
}

module _ ⦃C : Crypto⦄ where
  -- The signature of a payload is one of this session under the payload's key.
  pub record IsChecked (auth : AuthPayload) (d : Connection) : Type 0 where
    pub out : d.authenticated ≡ false
    pub role_known : is_implemented_role auth.role ≡ true
    pub signed : C.verify d.session_fingerprint auth.signature auth.pubkey ≡ true

  pub IsChecked-Untouched : (auth : AuthPayload) → Untouched (IsChecked auth)
  IsChecked-Untouched auth = record {
    on_close = λ d p. record { out = p.out; role_known = p.role_known; signed = p.signed };
    on_write = λ n bytes d p. record { out = p.out; role_known = p.role_known; signed = p.signed };
    on_send = λ d room p. record { out = p.out; role_known = p.role_known; signed = p.signed };
    on_read = λ bytes d p. record { out = p.out; role_known = p.role_known; signed = p.signed };
    on_recv = λ d room p. record { out = p.out; role_known = p.role_known; signed = p.signed };
    on_clock = λ t d p. record { out = p.out; role_known = p.role_known; signed = p.signed };
  }

  -- Someone signed this session under the key that the connection has for its peer.
  pub record IsVouched (d : Connection) : Type 0 where
    pub role_known : is_implemented_role d.peer_role ≡ true
    pub signature : List ℕ
    pub signed : C.verify d.session_fingerprint signature d.peer_pubkey ≡ true

  abbrev pub IsVouching : Connection → Type 0
  IsVouching d = (d.authenticated ≡ false) × IsVouched d

  abbrev pub IsSettled : Connection → Type 0
  IsSettled d = (d.authenticated ≡ true) × IsVouched d

  -- A handshake fails and leaves the connection unauthenticated, or authenticates a peer that is
  -- vouched for.
  abbrev pub Settled : Connection × Option (Unit {0}) → Type 0
  Settled = Post (λ _. IsSettled)

module _ ⦃C : Crypto⦄ where
  pub IsVouching-Untouched : Untouched IsVouching
  IsVouching-Untouched = record {
    on_close = λ d p. (
      p.0,
      record { role_known = p.1.role_known; signature = p.1.signature; signed = p.1.signed },
    );
    on_write = λ n bytes d p. (
      p.0,
      record { role_known = p.1.role_known; signature = p.1.signature; signed = p.1.signed },
    );
    on_send = λ d room p. (
      p.0,
      record { role_known = p.1.role_known; signature = p.1.signature; signed = p.1.signed },
    );
    on_read = λ bytes d p. (
      p.0,
      record { role_known = p.1.role_known; signature = p.1.signature; signed = p.1.signed },
    );
    on_recv = λ d room p. (
      p.0,
      record { role_known = p.1.role_known; signature = p.1.signature; signed = p.1.signed },
    );
    on_clock = λ t d p. (
      p.0,
      record { role_known = p.1.role_known; signature = p.1.signature; signed = p.1.signed },
    );
  }

pub role_of_payload :
    (bytes : List ℕ) (auth : AuthPayload)
    → decode_auth_payload bytes ≡ some auth
    → is_implemented_role auth.role ≡ true
unfolding decode_auth_payload
role_of_payload bytes auth h = ground arith

abbrev pub Known : AuthPayload → Connection → Type 0
Known auth d = (d.authenticated ≡ false) × (is_implemented_role auth.role ≡ true)

pub payload-Post :
    (o : Option AuthPayload) (d : Connection)
    → ((auth : AuthPayload) → o ≡ some auth → is_implemented_role auth.role ≡ true)
    → Out d
    → Post Known (from o d)
payload-Post none d k p = p
payload-Post (some auth) d k p = (p, k auth refl)

pub require-Post :
    (P : Connection → Type 0) (b : Bool) (d : Connection)
    → ((e : Connection) → P e → e.authenticated ≡ false)
    → P d
    → Post (λ _. P) (require b d)
require-Post P true d out p = p
require-Post P false d out p = out d p

module _ ⦃C : Crypto⦄ ⦃T : Transport⦄ where
  pub recv_auth-Post : (d : Connection) → Out d → Post Known (recv_auth d)
  unfolding recv_auth
  recv_auth-Post d p =
      Post->>= (λ _. Out) Known (recv_encrypted d) _
        (keeps-Post Out (λ _ q. q) (recv_encrypted d) (recv_encrypted-keeps Out-Untouched d p))
        (λ raw e q.
          Post->>= (λ _. Out) Known (from (T.decode raw) e) _
            (keeps-Post Out (λ _ r. r) (from (T.decode raw) e) q)
            (λ m f r.
              Post->>= (λ _. Out) Known (require (m.kind == auth_signature_type) f) _
                (require-Post Out (m.kind == auth_signature_type) f (λ _ s. s) r)
                (λ _ g s.
                  payload-Post (decode_auth_payload m.payload) g (role_of_payload m.payload) s)))

  pub verify_auth-Post :
      (auth : AuthPayload) (d : Connection)
      → Known auth d
      → Post (λ _. IsChecked auth) (verify_auth auth d)
  unfolding verify_auth
  verify_auth-Post auth d (p, k) =
      elim (Bool-cases (C.verify d.session_fingerprint auth.signature auth.pubkey)) [
        | inl e ↦ rw e (record { out = p; role_known = k; signed = e })
        | inr e ↦ rw e p
      ]

module _ ⦃C : Crypto⦄ ⦃K : Keys⦄ ⦃T : Transport⦄ ⦃N : Network⦄ where
  pub send_auth-Post :
      (P : Connection → Type 0) (d : Connection)
      → Untouched P
      → ((e : Connection) → P e → e.authenticated ≡ false)
      → P d
      → Post (λ _. P) (send_auth d)
  unfolding send_auth
  send_auth-Post P d u out p =
      let message = auth_message d.identity d.session_fingerprint d.local_role in
      keeps-Post P out (send_encrypted message d) (send_encrypted-keeps u message d p)

  pub settle :
      (auth : AuthPayload) (d : Connection)
      → IsChecked auth d
      → IsSettled (set_authenticated (set_peer auth d))
  unfolding set_authenticated set_peer
  settle auth d k =
      (refl, record { role_known = k.role_known; signature = auth.signature; signed = k.signed })

  -- An initiator, once it has the keys; `test` is what a path asks of the peer's key before.
  pub initiator_tail :
      (test : AuthPayload → Bool) (d : Connection)
      → Out d
      → Settled (
          (do
            send_auth
            auth ← recv_auth
            require (test auth)
            verify_auth auth
            change (set_peer auth)
            change set_authenticated)
            d)
  initiator_tail test d p =
      Post->>= (λ _. Out) (λ _. IsSettled) (send_auth d) _
        (send_auth-Post Out d Out-Untouched (λ _ q. q) p)
        (λ _ e q.
          Post->>= Known (λ _. IsSettled) (recv_auth e) _ (recv_auth-Post e q)
            (λ auth f r.
              Post->>= (λ _. Known auth) (λ _. IsSettled) (require (test auth) f) _
                (require-Post (Known auth) (test auth) f (λ _ s. s.0) r)
                (λ _ g s.
                  Post->>= (λ _. IsChecked auth) (λ _. IsSettled) (verify_auth auth g) _
                    (verify_auth-Post auth g s) (λ _ h t. settle auth h t))))
