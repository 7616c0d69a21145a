-- ===== src/Tls/Peer.antt =====
-- What src/tls.c tells of the peer of an SSL.
use openssl_wasm.Common.{
  ℕ, ◌+◌, ◌*◌, ◌/◌, ◌%◌, ◌^◌, ◌==◌, ltb, Bool, if◌then◌else◌, Option, none, some, List, [], ◌∷◌,
  length,
}
use openssl_wasm.Memory.{
  Ptr, null, Buffer, ◌>>=◌, ◌>>◌, pure, call, new_object, allocate, raw, xmalloc_struct, free,
  free_object, string_take,
}
use openssl_wasm.Tls.Structs.{pointers, strings}
use openssl_wasm.Tls.Keylog.{put_pointer, put_string}
use openssl_wasm.Tls.Openssl.{Openssl, x509, TlsCmd}
use openssl_wasm.Tls.Ssl.{load_ssl}

-- peer_info
pub record PeerInfo : Type 0 where
  pub protocol : ℕ
  pub cipher_suite : Buffer
  pub alpn : Option Buffer
  pub sni : Option Buffer
  pub chain_ptr : Ptr
  pub chain_len : ℕ
  pub resumed : Bool
  pub group : Option Buffer

-- A string, or the empty one for NULL.
abbrev pub or_empty : Option (List ℕ) → List ℕ
or_empty none = []
or_empty (some s) = s

-- The string, if it is neither NULL nor empty.
abbrev pub if_some : Option (List ℕ) → Option (List ℕ)
if_some none = none
if_some (some []) = none
if_some (some (c ∷ s)) = some (c ∷ s)

abbrev pub protocol_of : ℕ → ℕ
protocol_of ver = if ver == 0x0304 then 1 else if ver == 0xFEFD then 2 else 0

module _ (room : ℕ → Bool) {lib : Openssl} where
  abbrev pub take_if : Option (List ℕ) → TlsCmd lib (Option Buffer)
  take_if none = pure none
  take_if (some s) = do b ← string_take room s; pure (some b)

  -- The loop of fill_peer_info over the chain: a handle for a new reference to each certificate.
  abbrev pub put_certs : Ptr → ℕ → List lib.Cert → TlsCmd lib (Unit {0})
  put_certs out i [] = pure tt
  put_certs out i (c ∷ cs) = do
    h ← new_object (some (x509 c))
    put_pointer out i h
    put_certs out (i + 1) cs

  -- fill_peer_info
  unfoldable pub fill_peer_info : Ptr → TlsCmd lib PeerInfo
  fill_peer_info p = do
    s ← load_ssl p
    let t = s.state
    cipher ← string_take room (or_empty (lib.cipher_name t))
    alpn ← take_if (if_some (lib.alpn_selected t))
    sni ← take_if (if_some (lib.servername t))
    let chain = lib.peer_cert_chain t
    let n = length chain
    let size : ℕ = if ltb 0 n then n * 4 % 2 ^ 32 else 4
    out ← xmalloc_struct room size (pointers (size / 4) [])
    put_certs out 0 chain
    group ← take_if (lib.group_name t)
    pure (record {
      protocol = protocol_of (lib.ssl_version t);
      cipher_suite = cipher;
      alpn = alpn;
      sni = sni;
      chain_ptr = out;
      chain_len = n;
      resumed = lib.session_reused t;
      group = group;
    })

  -- A DER encoding in a buffer of OpenSSL's, if there is one, copied to a new one.
  abbrev pub take_der : Option (List ℕ) → TlsCmd lib (Option Buffer)
  take_der none = pure none
  take_der (some der) = do
    buf ← allocate (raw (length der) der)
    b ← string_take room der
    free buf
    pure (some b)

  -- The loop of fill_peer_chain_der, which leaves out a certificate that has no encoding: `written`.
  abbrev pub put_ders : Ptr → ℕ → List lib.Cert → TlsCmd lib ℕ
  put_ders out written [] = pure written
  put_ders out written (c ∷ cs) = do
    der ← call (lib.i2d_x509 c)
    b ← take_der der
    elim b [
      | none ↦ put_ders out written cs
      | some d ↦ (do put_string out written d; put_ders out (written + 1) cs)
    ]

  -- fill_peer_chain_der: `out->ptr` and `out->len`
  unfoldable pub fill_peer_chain_der : Ptr → TlsCmd lib (Ptr × ℕ)
  fill_peer_chain_der p = if p == null then pure (null, 0) else (do
    s ← load_ssl p
    let chain = lib.peer_cert_chain s.state
    let size = length chain * 8 % 2 ^ 32
    if length chain == 0 then pure (null, 0) else (do
      out ← xmalloc_struct room size (strings (size / 8) [])
      written ← put_ders out 0 chain
      pure (out, written)))

  -- client_session_ticket, on the SSL: nothing if there is no session, or no encoding of it.
  unfoldable pub session_ticket : Ptr → TlsCmd lib (Option Buffer)
  session_ticket p = do
    s ← load_ssl p
    session ← call (lib.session_der s.state)
    elim session [ none ↦ pure none | some der ↦ take_der der ]

  -- The peer_cert_der of the memory BIO resources: the reference to the certificate is given back.
  unfoldable pub peer_cert_der : Ptr → TlsCmd lib (Option Buffer)
  peer_cert_der p = do
    s ← load_ssl p
    elim (lib.peer_certificate s.state) [
      | none ↦ pure none
      | some c ↦ (do
        cert ← new_object (some (x509 c))
        der ← call (lib.i2d_x509 c)
        free_object cert
        take_der der)
    ]

  -- Their version.
  unfoldable pub version_string : Ptr → TlsCmd lib Buffer
  version_string p = do s ← load_ssl p; string_take room (or_empty (lib.version_name s.state))

  -- Their selected_alpn_protocol.
  unfoldable pub selected_alpn : Ptr → TlsCmd lib (Option Buffer)
  selected_alpn p = do s ← load_ssl p; take_if (if_some (lib.alpn_selected s.state))
