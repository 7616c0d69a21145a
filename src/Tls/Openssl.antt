-- ===== src/Tls/Openssl.antt =====
-- What src/tls.c uses of OpenSSL's SSL, BIO and X509 objects and of sockets, as parameters.
pub use openssl_wasm.Int.{ℤ, pos, negsuc, is_negative, is_positive, to_unsigned, to_int}
use openssl_wasm.Common.{ℕ, Bool, Option, List}
use openssl_wasm.Memory.{Queue, Cmd, Ptr}
use openssl_wasm.Tls.Structs.{TlsStruct}

-- The tags of tls-error that the code gives.
pub data ErrorTag : Type 0 where
  bad_config handshake_failed protocol_version io_closed would_block internal_error : ErrorTag

-- tls-error: its tag, and `val.internal` where the code sets it.
pub record TlsError : Type 0 where
  pub tag : ErrorTag
  pub internal : Option ℕ

pub data Role : Type 0 where
  as_client as_server : Role

-- SSL_VERIFY_NONE, SSL_VERIFY_PEER, and SSL_VERIFY_PEER | SSL_VERIFY_FAIL_IF_NO_PEER_CERT
pub data VerifyMode : Type 0 where
  verify_none verify_peer verify_require : VerifyMode

-- A call on an SSL_CTX whose result the code ignores, named after the function of OpenSSL.
pub data CtxSetting (Store Cert Key : Type 0) : Type 0 where
  set_min_proto_version set_max_proto_version : ℕ → CtxSetting Store Cert Key
  set_cipher_list set_ciphersuites set1_groups_list set_alpn_protos :
      List ℕ → CtxSetting Store Cert Key
  set_verify : VerifyMode → CtxSetting Store Cert Key
  set_cert_store : Store → CtxSetting Store Cert Key
  use_certificate add1_chain_cert : Cert → CtxSetting Store Cert Key
  use_private_key : Key → CtxSetting Store Cert Key
  set_keylog_callback : CtxSetting Store Cert Key
  set_alpn_select_cb : Ptr → CtxSetting Store Cert Key

-- A call on an SSL whose result the code ignores; `ctx_alpn_select_cb` is what an SSL sees of a call
-- of SSL_CTX_set_alpn_select_cb on its SSL_CTX.
pub data SslSetting : Type 0 where
  set_tlsext_host_name set1_host : List ℕ → SslSetting
  set_fd : Ptr → SslSetting
  set_connect_state set_accept_state : SslSetting
  ctx_alpn_select_cb : Ptr → SslSetting

-- An SSL with the BIOs that it reads and writes, if they are memory BIOs.
pub record Endpoint (Ssl Bio : Type 0) : Type 0 where
  pub state : Ssl
  pub input : Option Bio
  pub output : Option Bio

-- A call of OpenSSL that runs the TLS protocol: its result, the SSL and the BIOs after it, and the
-- key log lines for which it calls the keylog callback.
abbrev pub Protocol : Type 0 → Type 0 → Type 0 → Type 0
Protocol Ssl Bio A = Endpoint Ssl Bio → Queue → (A × (Endpoint Ssl Bio × List (List ℕ))) × Queue

-- The outcome of socket and connect, or of socket, bind and listen, at one address.
pub data Attempt : Type 0 where
  no_socket refused connected : Attempt

-- The bits of `revents` that the code tests.
pub record Events : Type 0 where
  pub pollin : Bool
  pub pollhup : Bool
  pub pollerr : Bool

-- OpenSSL and the sockets. `errno` is its value after a call that failed.
pub record Openssl : Type 1 where
  pub Ctx : Type 0
  pub Ssl : Type 0
  pub Bio : Type 0
  pub Store : Type 0
  pub Cert : Type 0
  pub Key : Type 0
  pub Addr : Type 0
  pub ctx_new : Role → Queue → Option Ctx × Queue
  pub ctx_set : CtxSetting Store Cert Key → Ctx → Queue → (Unit {0} × Ctx) × Queue
  pub ssl_new : Ctx → Queue → Option Ssl × Queue
  pub ssl_set : SslSetting → Ssl → Queue → (Unit {0} × Ssl) × Queue
  pub connect : Protocol Ssl Bio ℤ
  pub accept : Protocol Ssl Bio ℤ
  pub do_handshake : Protocol Ssl Bio ℤ
  pub shutdown : Protocol Ssl Bio ℤ
  pub write : List ℕ → ℤ → Protocol Ssl Bio ℤ
  pub read : ℤ → Protocol Ssl Bio (ℤ × List ℕ)
  pub write_early_data : List ℕ → Protocol Ssl Bio (ℤ × ℕ)
  pub get_error : Ssl → ℤ → Queue → ℕ × Queue
  pub has_pending : Ssl → Bool
  pub early_data_accepted : Ssl → Bool
  pub ssl_version : Ssl → ℕ
  pub version_name : Ssl → Option (List ℕ)
  pub cipher_name : Ssl → Option (List ℕ)
  pub alpn_selected : Ssl → Option (List ℕ)
  pub servername : Ssl → Option (List ℕ)
  pub peer_cert_chain : Ssl → List Cert
  pub peer_certificate : Ssl → Option Cert
  pub session_reused : Ssl → Bool
  pub group_name : Ssl → Option (List ℕ)
  pub session_der : Ssl → Queue → Option (Option (List ℕ)) × Queue
  pub i2d_x509 : Cert → Queue → Option (List ℕ) × Queue
  pub bio_new : Queue → Option Bio × Queue
  pub bio_write : List ℕ → ℤ → Bio → Queue → (ℤ × Bio) × Queue
  pub bio_read : ℤ → Bio → Queue → ((ℤ × List ℕ) × Bio) × Queue
  pub bio_pending : Bio → ℕ
  pub resolve : List ℕ → ℕ → Option (List Addr)
  pub try_connect : Addr → Attempt
  pub try_bind : Addr → Attempt
  pub accept_socket : Ptr → Bool
  pub get_fd : Ssl → ℤ
  pub poll : ℤ → ℤ × Events
  pub local_port : Ptr → Option ℕ
  pub errno : ℕ

-- An SSL with its ex-data, which is NULL or the place of a keylog_buf, and its memory BIOs, which it
-- owns.
pub record SslObject (Ssl : Type 0) : Type 0 where
  pub state : Ssl
  pub ex_data : Ptr
  pub rbio : Ptr
  pub wbio : Ptr

-- An object of OpenSSL, an open socket, or a list of addresses. What lies at a pointer is the
-- reference that the holder of the pointer has.
pub data TlsObject (lib : Openssl) : Type 0 where
  ssl_ctx : lib.Ctx → TlsObject lib
  ssl : SslObject lib.Ssl → TlsObject lib
  bio : lib.Bio → TlsObject lib
  x509_store : lib.Store → TlsObject lib
  x509 : lib.Cert → TlsObject lib
  evp_pkey : lib.Key → TlsObject lib
  socket : TlsObject lib
  addresses : TlsObject lib

abbrev pub TlsCmd : Openssl → Type 0 → Type 0
TlsCmd lib A = Cmd (TlsObject lib) TlsStruct A
