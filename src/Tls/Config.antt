-- ===== src/Tls/Config.antt =====
-- The configurations of src/tls.c, and what client_connect, server_listener_bind and the two memory
-- BIO constructors set on an SSL_CTX by them.
pub mod Sets
use openssl_wasm.Common.{ℕ, ◌||◌, ◌==◌, Bool, if◌then◌else◌, Option, none, some, List, [], ◌∷◌}
use openssl_wasm.Memory.{
  Ptr, null, fault, ◌>>=◌, ◌>>◌, pure, call, new_object, load, read_bytes, free,
}
use openssl_wasm.Tls.CString.{c_string, copy_c_string}
use openssl_wasm.Tls.Alpn.{alpn_wire}
use openssl_wasm.Tls.Openssl.{
  Role, VerifyMode, verify_none, verify_peer, verify_require, CtxSetting, set_min_proto_version,
  set_max_proto_version, set_cipher_list, set_ciphersuites, set1_groups_list, set_alpn_protos,
  set_verify, set_cert_store, use_certificate, add1_chain_cert, use_private_key,
  set_keylog_callback, Openssl, ssl_ctx, x509_store, x509, evp_pkey, TlsCmd,
}
use openssl_wasm.Tls.Ssl.{ctx_set}

-- protocol_range: 0 is TLS 1.2, 1 is TLS 1.3, and 2 is DTLS 1.2.
pub record ProtocolRange : Type 0 where
  pub min : ℕ
  pub max : ℕ

-- cipher_preferences
pub record CipherPreferences : Type 0 where
  pub tls12 : Option (List ℕ)
  pub tls13 : Option (List ℕ)

-- client_config, less the fields that the code does not read.
pub record ClientConfig : Type 0 where
  pub protocols : ProtocolRange
  pub verify : ℕ
  pub trust : Option Ptr
  pub server_name : Option (List ℕ)
  pub client_cert : Option Ptr
  pub client_key : Option Ptr
  pub alpn : Option (List (List ℕ))
  pub ciphers : Option CipherPreferences
  pub groups : Option (List ℕ)
  pub keylog : Bool

-- server_config, less the fields that the code does not read.
pub record ServerConfig : Type 0 where
  pub protocols : ProtocolRange
  pub verify : ℕ
  pub client_trust : Option Ptr
  pub cert_chain : List Ptr
  pub key : Ptr
  pub alpn : Option (List (List ℕ))
  pub ciphers : Option CipherPreferences
  pub groups : Option (List ℕ)
  pub keylog : Bool

-- proto_version
unfoldable pub proto_version : ℕ → ℕ
proto_version p = if p == 0 then 0x0303 else if p == 1 then 0x0304 else if p == 2 then 0xFEFD else 0

-- The test of the handlers for DTLS 1.2.
abbrev pub wants_dtls : ProtocolRange → Bool
wants_dtls r = r.min == 2 || r.max == 2

-- The mode that server_listener_bind and mem_bio_server_new pass to SSL_CTX_set_verify.
abbrev pub server_verify_mode : ℕ → VerifyMode
server_verify_mode v =
    if v == 0 then verify_none else if v == 1 then verify_require else verify_peer

-- The mode that client_connect and mem_bio_client_new pass to it.
abbrev pub client_verify_mode : ℕ → VerifyMode
client_verify_mode v = if v == 0 then verify_none else verify_peer

module _ (room : ℕ → Bool) {lib : Openssl} where
  -- The string that OpenSSL finds at a pointer.
  abbrev pub string_at : Ptr → TlsCmd lib (List ℕ)
  string_at p = do bs ← read_bytes p; elim (c_string bs) [ none ↦ λ w. fault | some s ↦ pure s ]

  -- apply_protocols
  unfoldable pub apply_protocols : Ptr → ProtocolRange → TlsCmd lib (Unit {0})
  apply_protocols ctx r =
      let mn = proto_version r.min in
      let mx = proto_version r.max in
      do
        if mn == 0 then pure tt else ctx_set ctx (set_min_proto_version mn)
        if mx == 0 then pure tt else ctx_set ctx (set_max_proto_version mx)

  -- A NUL-terminated copy of a string for one call on the SSL_CTX.
  abbrev pub set_string :
      Ptr
      → (List ℕ → CtxSetting lib.Store lib.Cert lib.Key)
      → Option (List ℕ)
      → TlsCmd lib (Unit {0})
  set_string ctx setting none = pure tt
  set_string ctx setting (some v) = do
    s ← copy_c_string room v
    t ← string_at s
    ctx_set ctx (setting t)
    free s

  -- apply_ciphers
  unfoldable pub apply_ciphers : Ptr → Option CipherPreferences → TlsCmd lib (Unit {0})
  apply_ciphers ctx none = pure tt
  apply_ciphers ctx (some cp) = do
    set_string ctx set_cipher_list cp.tls12
    set_string ctx set_ciphersuites cp.tls13

  -- apply_groups
  unfoldable pub apply_groups : Ptr → Option (List ℕ) → TlsCmd lib (Unit {0})
  apply_groups ctx g = set_string ctx set1_groups_list g

  -- The objects behind the handles of a configuration.
  abbrev pub load_store : Ptr → TlsCmd lib lib.Store
  load_store p = do o ← load p; elim o [ x509_store s ↦ pure s | _ ↦ λ w. fault ]

  abbrev pub load_cert : Ptr → TlsCmd lib lib.Cert
  load_cert p = do o ← load p; elim o [ x509 c ↦ pure c | _ ↦ λ w. fault ]

  abbrev pub load_key : Ptr → TlsCmd lib lib.Key
  load_key p = do o ← load p; elim o [ evp_pkey k ↦ pure k | _ ↦ λ w. fault ]

  abbrev pub set_trust : Ptr → Option Ptr → TlsCmd lib (Unit {0})
  set_trust ctx none = pure tt
  set_trust ctx (some h) = do s ← load_store h; ctx_set ctx (set_cert_store s)

  abbrev pub set_cert : Ptr → Option Ptr → TlsCmd lib (Unit {0})
  set_cert ctx none = pure tt
  set_cert ctx (some h) = do c ← load_cert h; ctx_set ctx (use_certificate c)

  abbrev pub set_key : Ptr → Option Ptr → TlsCmd lib (Unit {0})
  set_key ctx none = pure tt
  set_key ctx (some h) = do k ← load_key h; ctx_set ctx (use_private_key k)

  -- SSL_CTX_set_alpn_protos with a list in wire format, which may be NULL.
  abbrev pub offer_wire : Ptr → Ptr × ℕ → TlsCmd lib (Unit {0})
  offer_wire ctx (wire, len) =
      if wire == null
      then pure tt
      else (do bs ← read_bytes wire; ctx_set ctx (set_alpn_protos bs); free wire)

  -- SSL_CTX_set_alpn_protos with the names in wire format.
  abbrev pub offer_alpn : Ptr → Option (List (List ℕ)) → TlsCmd lib (Unit {0})
  offer_alpn ctx a = do made ← alpn_wire room a; offer_wire ctx made

  abbrev pub set_keylog : Ptr → Bool → TlsCmd lib (Unit {0})
  set_keylog ctx on = if on then ctx_set ctx set_keylog_callback else pure tt

  abbrev pub add_chain : Ptr → List Ptr → TlsCmd lib (Unit {0})
  add_chain ctx [] = pure tt
  add_chain ctx (h ∷ hs) = do c ← load_cert h; ctx_set ctx (add1_chain_cert c); add_chain ctx hs

  abbrev pub set_chain : Ptr → List Ptr → TlsCmd lib (Unit {0})
  set_chain ctx [] = pure tt
  set_chain ctx (h ∷ hs) = do c ← load_cert h; ctx_set ctx (use_certificate c); add_chain ctx hs

  -- SSL_CTX_new of TLS_client_method() or TLS_server_method(): NULL if it fails.
  abbrev pub new_ctx : Role → TlsCmd lib Ptr
  new_ctx role = do
    c ← call (lib.ctx_new role)
    elim c [ none ↦ pure null | some x ↦ new_object (some (ssl_ctx x)) ]

  -- What the two client constructors set on the SSL_CTX.
  unfoldable pub configure_client : Ptr → ClientConfig → TlsCmd lib (Unit {0})
  configure_client ctx cfg = do
    apply_protocols ctx cfg.protocols
    apply_ciphers ctx cfg.ciphers
    apply_groups ctx cfg.groups
    ctx_set ctx (set_verify (client_verify_mode cfg.verify))
    set_trust ctx cfg.trust
    set_cert ctx cfg.client_cert
    set_key ctx cfg.client_key
    set_keylog ctx cfg.keylog
    offer_alpn ctx cfg.alpn

  -- What the two server constructors set on the SSL_CTX.
  unfoldable pub configure_server : Ptr → ServerConfig → TlsCmd lib (Unit {0})
  configure_server ctx cfg = do
    apply_protocols ctx cfg.protocols
    apply_ciphers ctx cfg.ciphers
    apply_groups ctx cfg.groups
    ctx_set ctx (set_verify (server_verify_mode cfg.verify))
    set_trust ctx cfg.client_trust
    set_chain ctx cfg.cert_chain
    k ← load_key cfg.key
    ctx_set ctx (use_private_key k)
    set_keylog ctx cfg.keylog

  -- The names in wire format with a 0 behind them, and the length of the former; NULL if there are
  -- none, or one is too long.
  unfoldable pub server_alpn : Option (List (List ℕ)) → TlsCmd lib (Ptr × ℕ)
  server_alpn a = do
    (wire, w) ← alpn_wire room a
    if wire == null
        then pure (null, 0)
        else (do bs ← read_bytes wire; nul ← copy_c_string room bs; free wire; pure (nul, w))
