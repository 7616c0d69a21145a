-- ===== src/Tls/Connection.antt =====
-- The SSL of a connection of src/tls.c, and the key log buffer that it gets before its handshake.
use openssl_wasm.Common.{ℕ, ◌==◌, Bool, if◌then◌else◌, none, some}
use openssl_wasm.Memory.{
  Ptr, null, fault, ◌>>=◌, ◌>>◌, pure, call, new_object, xmalloc_struct, load_struct, store_struct,
  free,
}
use openssl_wasm.Tls.Structs.{KeylogBuf, keylog_buf, keylog_in}
use openssl_wasm.Tls.Keylog.{keylog_buf_init, keylog_buf_clear}
use openssl_wasm.Tls.Openssl.{
  bad_config, TlsError, set_tlsext_host_name, set1_host, Openssl, ssl, bio, TlsCmd,
}
use openssl_wasm.Tls.Ssl.{load_ctx, ssl_set, set_ex_data, ssl_free, call_ssl}
use openssl_wasm.Tls.Config.{string_at}

-- bad_config, with which the code sets no number.
abbrev pub bad : TlsError
bad = record { tag = bad_config; internal = none }

module _ (room : ℕ → Bool) {lib : Openssl} where
  -- SSL_new on the SSL_CTX at a pointer: NULL if it fails.
  abbrev pub new_ssl : Ptr → TlsCmd lib Ptr
  new_ssl ctx = do
    c ← load_ctx ctx
    s ← call (lib.ssl_new c)
    elim s [
      | none ↦ pure null
      | some t ↦
          new_object (some (ssl (record { state = t; ex_data = null; rbio = null; wbio = null })))
    ]

  -- The key log buffer for the handshake, if the configuration asks for it; NULL if not.
  abbrev pub new_keylog : Bool → Ptr → TlsCmd lib Ptr
  new_keylog on s =
      if on
      then (do p ← xmalloc_struct room 12 (keylog_buf keylog_buf_init); set_ex_data s p; pure p)
      else pure null

  -- The buffer at a pointer.
  abbrev pub load_keylog : Ptr → TlsCmd lib KeylogBuf
  load_keylog p = do r ← load_struct p; elim (keylog_in r) [ none ↦ λ w. fault | some b ↦ pure b ]

  -- The buffer is given back when a handshake has failed.
  abbrev pub drop_keylog : Ptr → TlsCmd lib (Unit {0})
  drop_keylog p =
      if p == null
      then pure tt
      else (do b ← load_keylog p; b' ← keylog_buf_clear b; store_struct p (keylog_buf b'); free p)

  -- The buffer that a struct takes over.
  abbrev pub take_keylog : Ptr → TlsCmd lib KeylogBuf
  take_keylog p = if p == null then pure keylog_buf_init else (do b ← load_keylog p; free p; pure b)

  -- The ex-data points at the buffer inside the struct `r`, if there was a buffer.
  abbrev pub move_ex_data : Ptr → Ptr → Ptr → TlsCmd lib (Unit {0})
  move_ex_data old s r = if old == null then pure tt else set_ex_data s r

  -- SSL_set_tlsext_host_name and SSL_set1_host with the string at a pointer.
  abbrev pub set_host : Ptr → Ptr → TlsCmd lib (Unit {0})
  set_host s p = do
    name ← string_at room p
    ssl_set s (set_tlsext_host_name name)
    ssl_set s (set1_host name)

  -- SSL_shutdown and SSL_free of an SSL that may be NULL.
  abbrev pub shut_down : Ptr → TlsCmd lib (Unit {0})
  shut_down s = if s == null then pure tt else (do rc ← call_ssl room s lib.shutdown; ssl_free s)

  -- BIO_new of a memory BIO: NULL if it fails.
  abbrev pub new_bio : TlsCmd lib Ptr
  new_bio = do
    b ← call lib.bio_new
    elim b [ none ↦ pure null | some x ↦ new_object (some (bio x)) ]
