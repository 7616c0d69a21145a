-- ===== src/Tls/Server.antt =====
-- The server listener and server resources of src/tls.c. A handle is the address of its struct.
pub mod Methods
use openssl_wasm.Common.{ℕ, ◌==◌, Bool, false, if◌then◌else◌, Option, none, some, List}
use openssl_wasm.Memory.{
  Cmd, Ptr, null, fault, Result, ok, err, Buffer, ◌>>=◌, ◌>>◌, pure, call, new_object,
  xmalloc_struct, load_struct, store_struct, free, free_object,
}
use openssl_wasm.Tls.CString.{copy_c_string}
use openssl_wasm.Tls.Structs.{KeylogBuf, ServerRep, ListenerRep, TlsStruct, server, listener}
use openssl_wasm.Tls.Keylog.{keylog_buf_init, keylog_buf_clear}
use openssl_wasm.Tls.Openssl.{
  bad_config, handshake_failed, protocol_version, io_closed, internal_error, TlsError, ℤ, pos,
  negsuc, to_unsigned, as_server, set_fd, set_alpn_select_cb, Openssl, TlsObject, socket, TlsCmd,
}
use openssl_wasm.Tls.Ssl.{ctx_set, ssl_set, ssl_free, get_error, call_ssl}
use openssl_wasm.Tls.Config.{
  ServerConfig, wants_dtls, string_at, new_ctx, configure_server, server_alpn,
}
use openssl_wasm.Tls.Socket.{bind_tcp, close_fd}
use openssl_wasm.Tls.Data.{with_code, print_errors}
use openssl_wasm.Tls.Connection.{
  bad, new_ssl, new_keylog, drop_keylog, take_keylog, move_ex_data, shut_down,
}

module _ (room : ℕ → Bool) {lib : Openssl} where
  -- The struct of a listener's handle.
  abbrev pub load_listener : Ptr → TlsCmd lib ListenerRep
  load_listener p = do r ← load_struct p; elim r [ listener l ↦ pure l | _ ↦ λ w. fault ]

  -- server_listener_bind, on the SSL_CTX, which it owns.
  abbrev pub bind_on : Ptr → List ℕ → ℕ → ServerConfig → TlsCmd lib (Result TlsError Ptr)
  bind_on ctx host port cfg = do
    configure_server room ctx cfg
    hostnul ← copy_c_string room host
    name ← string_at room hostnul
    opened ← bind_tcp name port
    free hostnul
    elim opened [
      | err ioerr ↦ (do free_object ctx; pure (err (with_code io_closed ioerr)))
      | ok fd ↦ (do
        r ← xmalloc_struct room 20 (
            listener (record {
              ctx = ctx;
              fd = fd;
              alpn_wire = null;
              alpn_wire_len = 0;
              keylog_enabled = cfg.keylog;
            }))
        (wire, len) ← server_alpn room cfg.alpn
        if wire == null then pure (ok r) else (do
          l ← load_listener r
          store_struct r (listener (record l { alpn_wire = wire; alpn_wire_len = len }))
          ctx_set ctx (set_alpn_select_cb wire)
          pure (ok r)))
    ]

  -- exports_openssl_component_tls_static_server_listener_bind
  unfoldable pub server_listener_bind : List ℕ → ℕ → ServerConfig → TlsCmd lib (Result TlsError Ptr)
  server_listener_bind host port cfg =
      if wants_dtls cfg.protocols then pure (err (with_code protocol_version 0)) else (do
        ctx ← new_ctx room as_server
        if ctx == null then pure (err bad) else bind_on ctx host port cfg)

  -- server_listener_accept, on the SSL of the new connection.
  abbrev pub accept_on : Ptr → Ptr → Bool → TlsCmd lib (Result TlsError Ptr)
  accept_on s cfd keylog_enabled = do
    ssl_set s (set_fd cfd)
    pre_keylog ← new_keylog room keylog_enabled s
    rc ← call_ssl room s lib.accept
    if to_unsigned rc == 1
        then (do
          b ← take_keylog room pre_keylog
          r ← xmalloc_struct room 20 (server (record { ssl = s; fd = cfd; keylog = b }))
          move_ex_data room pre_keylog s r
          pure (ok r))
        else (do
          e ← get_error s (negsuc 0)
          print_errors
          drop_keylog room pre_keylog
          ssl_free s
          close_fd cfd
          pure (err (with_code handshake_failed e)))

  -- exports_openssl_component_tls_method_server_listener_accept. The internal error of an SSL_new
  -- that fails has no number.
  unfoldable pub server_listener_accept : Ptr → TlsCmd lib (Result TlsError Ptr)
  server_listener_accept p = do
    l ← load_listener p
    cfd ← if lib.accept_socket l.fd then new_object (some socket) else pure null
    if cfd == null then pure (err (with_code io_closed lib.errno)) else (do
      s ← new_ssl room l.ctx
      if s == null
          then (do close_fd cfd; pure (err (record { tag = internal_error; internal = none })))
          else accept_on s cfd l.keylog_enabled)

  -- exports_openssl_component_tls_method_server_listener_local_port
  unfoldable pub local_port : Ptr → TlsCmd lib ℕ
  local_port p = do
    l ← load_listener p
    elim (lib.local_port l.fd) [ none ↦ pure 0 | some port ↦ pure port ]

  -- free of the list for alpn_select_cb, which may be NULL.
  abbrev pub free_wire : Ptr → TlsCmd lib (Unit {0})
  free_wire wire = if wire == null then pure tt else free wire

  -- exports_openssl_component_tls_server_listener_destructor
  unfoldable pub server_listener_destructor : Ptr → TlsCmd lib (Unit {0})
  server_listener_destructor p =
      if p == null
      then pure tt
      else (do l ← load_listener p; close_fd l.fd; free_object l.ctx; free_wire l.alpn_wire; free p)

  -- exports_openssl_component_tls_static_server_listener_close. server_listener_drop_own runs the
  -- destructor.
  unfoldable pub server_listener_close : Ptr → TlsCmd lib (Unit {0})
  unfolding server_listener_destructor
  server_listener_close p = do
    l ← load_listener p
    close_fd l.fd
    free_object l.ctx
    free_wire l.alpn_wire
    store_struct p (listener (record l { alpn_wire = null; fd = null; ctx = null }))
    server_listener_destructor p
