-- ===== src/Tls/Client.antt =====
-- The client resource of src/tls.c. A handle is the address of its client_rep.
use openssl_wasm.Common.{ℕ, ◌%◌, ◌^◌, ◌==◌, Bool, if◌then◌else◌, Option, none, some, List}
use openssl_wasm.Memory.{
  Ptr, null, fault, Result, ok, err, Buffer, ◌>>=◌, ◌>>◌, pure, xmalloc_struct, load_struct,
  store_struct, free, free_object,
}
use openssl_wasm.Tls.CString.{copy_c_string}
use openssl_wasm.Tls.Structs.{ClientRep, client}
use openssl_wasm.Tls.Keylog.{keylog_buf_clear, keylog_buf_drain_to}
use openssl_wasm.Tls.Openssl.{
  handshake_failed, protocol_version, io_closed, internal_error, TlsError, ℤ, negsuc, is_positive,
  to_unsigned, as_client, set_fd, Openssl, TlsCmd,
}
use openssl_wasm.Tls.Ssl.{load_ssl, ssl_set, ssl_free, get_error, call_ssl}
use openssl_wasm.Tls.Connection.{
  bad, new_ssl, new_keylog, drop_keylog, take_keylog, move_ex_data, set_host, shut_down,
}
use openssl_wasm.Tls.Config.{ClientConfig, wants_dtls, string_at, new_ctx, configure_client}
use openssl_wasm.Tls.Socket.{connect_tcp, close_fd, socket_readable, socket_fd}
use openssl_wasm.Tls.Data.{with_code, socket_write_error, ssl_write, socket_read}
use openssl_wasm.Tls.Peer.{PeerInfo, fill_peer_info, fill_peer_chain_der, session_ticket}

module _ (room : ℕ → Bool) {lib : Openssl} where
  -- client_connect, on the SSL_CTX, which it owns.
  abbrev pub connect_on : Ptr → List ℕ → ℕ → ClientConfig → TlsCmd lib (Result TlsError Ptr)
  connect_on ctx host port cfg = do
    configure_client room ctx cfg
    hostnul ← copy_c_string room host
    name ← string_at room hostnul
    opened ← connect_tcp name port
    elim opened [
      | err ioerr ↦ (do free_object ctx; free hostnul; pure (err (with_code io_closed ioerr)))
      | ok fd ↦ (do
        s ← new_ssl room ctx
        if s == null then (do close_fd fd; free_object ctx; free hostnul; pure (err bad)) else (do
          pre_keylog ← new_keylog room cfg.keylog s
          elim cfg.server_name [
            | none ↦ set_host room s hostnul
            | some v ↦ (do p ← copy_c_string room v; set_host room s p; free p)
          ]
          ssl_set s (set_fd fd)
          rc ← call_ssl room s lib.connect
          if to_unsigned rc == 1
              then (do
                free hostnul
                b ← take_keylog room pre_keylog
                r ←
                    xmalloc_struct room 24
                      (client (record { ctx = ctx; ssl = s; fd = fd; keylog = b }))
                move_ex_data room pre_keylog s r
                pure (ok r))
              else (do
                e ← get_error s (negsuc 0)
                drop_keylog room pre_keylog
                ssl_free s
                close_fd fd
                free_object ctx
                free hostnul
                pure (err (with_code handshake_failed e)))))
    ]

  -- exports_openssl_component_tls_static_client_connect
  unfoldable pub client_connect : List ℕ → ℕ → ClientConfig → TlsCmd lib (Result TlsError Ptr)
  client_connect host port cfg =
      if wants_dtls cfg.protocols then pure (err (with_code protocol_version 0)) else (do
        ctx ← new_ctx room as_client
        if ctx == null then pure (err bad) else connect_on ctx host port cfg)

  -- The struct of a handle.
  abbrev pub load_client : Ptr → TlsCmd lib ClientRep
  load_client p = do r ← load_struct p; elim r [ client c ↦ pure c | _ ↦ λ w. fault ]

  -- exports_openssl_component_tls_method_client_write
  unfoldable pub client_write : Ptr → List ℕ → TlsCmd lib (Result TlsError ℕ)
  client_write p bytes = do r ← load_client p; ssl_write room socket_write_error r.ssl bytes

  -- exports_openssl_component_tls_method_client_read
  unfoldable pub client_read : Ptr → ℕ → TlsCmd lib (Result TlsError Buffer)
  client_read p max_bytes = do r ← load_client p; socket_read room r.ssl max_bytes

  -- exports_openssl_component_tls_method_client_has_pending
  unfoldable pub client_has_pending : Ptr → TlsCmd lib Bool
  client_has_pending p = do r ← load_client p; s ← load_ssl r.ssl; pure (lib.has_pending s.state)

  -- exports_openssl_component_tls_method_client_socket_readable
  unfoldable pub client_socket_readable : Ptr → TlsCmd lib Bool
  client_socket_readable p = do r ← load_client p; socket_readable r.ssl

  -- exports_openssl_component_tls_method_client_socket_fd
  unfoldable pub client_socket_fd : Ptr → TlsCmd lib ℤ
  client_socket_fd p = do r ← load_client p; socket_fd r.ssl

  -- exports_openssl_component_tls_method_client_write_early
  unfoldable pub client_write_early : Ptr → List ℕ → TlsCmd lib (Result TlsError ℕ)
  client_write_early p bytes = do
    r ← load_client p
    (rc, n) ← call_ssl room r.ssl (lib.write_early_data bytes)
    if is_positive rc
        then pure (ok (n % 2 ^ 32))
        else (do e ← get_error r.ssl rc; pure (err (with_code internal_error e)))

  -- exports_openssl_component_tls_method_client_early_data_accepted
  unfoldable pub client_early_data_accepted : Ptr → TlsCmd lib Bool
  client_early_data_accepted p = do
    r ← load_client p
    s ← load_ssl r.ssl
    pure (lib.early_data_accepted s.state)

  -- exports_openssl_component_tls_method_client_peer
  unfoldable pub client_peer : Ptr → TlsCmd lib PeerInfo
  client_peer p = do r ← load_client p; fill_peer_info room r.ssl

  -- exports_openssl_component_tls_method_client_session_ticket
  unfoldable pub client_session_ticket : Ptr → TlsCmd lib (Option Buffer)
  client_session_ticket p = do r ← load_client p; session_ticket room r.ssl

  -- exports_openssl_component_tls_method_client_peer_chain_der
  unfoldable pub client_peer_chain_der : Ptr → TlsCmd lib (Ptr × ℕ)
  client_peer_chain_der p = do r ← load_client p; fill_peer_chain_der room r.ssl

  -- exports_openssl_component_tls_method_client_drain_keylog
  unfoldable pub client_drain_keylog : Ptr → TlsCmd lib (Ptr × ℕ)
  client_drain_keylog p = do
    r ← load_client p
    (out, b) ← keylog_buf_drain_to room r.keylog
    store_struct p (client (record r { keylog = b }))
    pure out

  -- exports_openssl_component_tls_client_destructor
  unfoldable pub client_destructor : Ptr → TlsCmd lib (Unit {0})
  client_destructor p = if p == null then pure tt else (do
    r ← load_client p
    shut_down room r.ssl
    close_fd r.fd
    free_object r.ctx
    c ← load_client p
    b ← keylog_buf_clear c.keylog
    store_struct p (client (record c { keylog = b }))
    free p)

  -- exports_openssl_component_tls_static_client_close. client_drop_own runs the destructor.
  unfoldable pub client_close : Ptr → TlsCmd lib (Unit {0})
  unfolding client_destructor
  client_close p = do
    r ← load_client p
    shut_down room r.ssl
    close_fd r.fd
    free_object r.ctx
    c ← load_client p
    store_struct p (client (record c { ctx = null; ssl = null; fd = null }))
    client_destructor p
