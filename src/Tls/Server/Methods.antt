-- ===== src/Tls/Server/Methods.antt =====
-- The methods of the server resource of src/tls.c. A handle is the address of its server_rep.
use openssl_wasm.Common.{ℕ, ◌==◌, Bool, if◌then◌else◌, List}
use openssl_wasm.Memory.{
  Ptr, null, fault, Result, Buffer, ◌>>=◌, ◌>>◌, pure, load_struct, store_struct, free,
}
use openssl_wasm.Tls.Structs.{ServerRep, server}
use openssl_wasm.Tls.Keylog.{keylog_buf_clear, keylog_buf_drain_to}
use openssl_wasm.Tls.Openssl.{TlsError, ℤ, Openssl, TlsCmd}
use openssl_wasm.Tls.Ssl.{load_ssl}
use openssl_wasm.Tls.Socket.{close_fd, socket_readable, socket_fd}
use openssl_wasm.Tls.Data.{socket_write_error, ssl_write, socket_read}
use openssl_wasm.Tls.Peer.{PeerInfo, fill_peer_info}
use openssl_wasm.Tls.Connection.{shut_down}

module _ (room : ℕ → Bool) {lib : Openssl} where
  -- The struct of a handle.
  abbrev pub load_server : Ptr → TlsCmd lib ServerRep
  load_server p = do r ← load_struct p; elim r [ server s ↦ pure s | _ ↦ λ w. fault ]

  -- exports_openssl_component_tls_method_server_write
  unfoldable pub server_write : Ptr → List ℕ → TlsCmd lib (Result TlsError ℕ)
  server_write p bytes = do r ← load_server p; ssl_write room socket_write_error r.ssl bytes

  -- exports_openssl_component_tls_method_server_read
  unfoldable pub server_read : Ptr → ℕ → TlsCmd lib (Result TlsError Buffer)
  server_read p max_bytes = do r ← load_server p; socket_read room r.ssl max_bytes

  -- exports_openssl_component_tls_method_server_has_pending
  unfoldable pub server_has_pending : Ptr → TlsCmd lib Bool
  server_has_pending p = do r ← load_server p; s ← load_ssl r.ssl; pure (lib.has_pending s.state)

  -- exports_openssl_component_tls_method_server_socket_readable
  unfoldable pub server_socket_readable : Ptr → TlsCmd lib Bool
  server_socket_readable p = do r ← load_server p; socket_readable r.ssl

  -- exports_openssl_component_tls_method_server_socket_fd
  unfoldable pub server_socket_fd : Ptr → TlsCmd lib ℤ
  server_socket_fd p = do r ← load_server p; socket_fd r.ssl

  -- exports_openssl_component_tls_method_server_peer
  unfoldable pub server_peer : Ptr → TlsCmd lib PeerInfo
  server_peer p = do r ← load_server p; fill_peer_info room r.ssl

  -- exports_openssl_component_tls_method_server_drain_keylog
  unfoldable pub server_drain_keylog : Ptr → TlsCmd lib (Ptr × ℕ)
  server_drain_keylog p = do
    r ← load_server p
    (out, b) ← keylog_buf_drain_to room r.keylog
    store_struct p (server (record r { keylog = b }))
    pure out

  -- exports_openssl_component_tls_server_destructor
  unfoldable pub server_destructor : Ptr → TlsCmd lib (Unit {0})
  server_destructor p = if p == null then pure tt else (do
    r ← load_server p
    shut_down room r.ssl
    close_fd r.fd
    s ← load_server p
    b ← keylog_buf_clear s.keylog
    store_struct p (server (record s { keylog = b }))
    free p)

  -- exports_openssl_component_tls_static_server_close. server_drop_own runs the destructor.
  unfoldable pub server_close : Ptr → TlsCmd lib (Unit {0})
  unfolding server_destructor
  server_close p = do
    r ← load_server p
    shut_down room r.ssl
    close_fd r.fd
    s ← load_server p
    store_struct p (server (record s { ssl = null; fd = null }))
    server_destructor p
