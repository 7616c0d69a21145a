-- ===== src/Tls/MemBioServer.antt =====
-- The mem-bio-server resource of src/tls.c. A handle is the address of its mem_bio_server_rep.
pub mod Methods
pub mod Ops
pub mod Reads
pub mod Close
use openssl_wasm.Common.{ℕ, ◌==◌, ◌||◌, Bool, true, false, if◌then◌else◌, Option, none, some, List}
use openssl_wasm.Memory.{
  Cmd, Ptr, null, fault, Result, ok, err, Buffer, ◌>>=◌, ◌>>◌, pure, call, new_object,
  xmalloc_struct, load_struct, store_struct, free, free_object,
}
use openssl_wasm.Tls.CString.{copy_c_string}
use openssl_wasm.Tls.Structs.{MemBioServerRep, TlsStruct, mem_bio_server}
use openssl_wasm.Tls.Keylog.{keylog_buf_clear, keylog_buf_drain_to}
use openssl_wasm.Tls.Openssl.{
  protocol_version, TlsError, as_server, set_accept_state, set_alpn_select_cb, ctx_alpn_select_cb,
  Openssl, TlsObject, bio, TlsCmd,
}
use openssl_wasm.Tls.Ssl.{ctx_set, ssl_set, set_bio, ssl_free}
use openssl_wasm.Tls.Config.{ServerConfig, wants_dtls, new_ctx, configure_server, server_alpn}
use openssl_wasm.Tls.Data.{
  with_code, bio_ssl_read, bio_ssl_write, bio_ssl_shutdown, run_handshake, feed_bio, take_bio,
  pending_bio,
}
use openssl_wasm.Tls.Peer.{
  PeerInfo, fill_peer_info, fill_peer_chain_der, peer_cert_der, version_string, selected_alpn,
}
use openssl_wasm.Tls.Connection.{
  bad, new_ssl, new_keylog, drop_keylog, take_keylog, move_ex_data, new_bio, set_host,
}
use openssl_wasm.Tls.Server.{free_wire}

module _ (room : ℕ → Bool) {lib : Openssl} where
  -- The struct of a handle.
  abbrev pub load_rep : Ptr → TlsCmd lib MemBioServerRep
  load_rep p = do r ← load_struct p; elim r [ mem_bio_server m ↦ pure m | _ ↦ λ w. fault ]

  -- SSL_CTX_set_alpn_select_cb with a list that may be NULL.
  abbrev pub select_alpn : Ptr → Ptr → Ptr → TlsCmd lib (Unit {0})
  select_alpn ctx s wire =
      if wire == null
      then pure tt
      else (do ctx_set ctx (set_alpn_select_cb wire); ssl_set s (ctx_alpn_select_cb wire))

  -- mem_bio_server_new, on the SSL_CTX, which it owns.
  abbrev pub new_on : Ptr → ServerConfig → TlsCmd lib (Result TlsError Ptr)
  new_on ctx cfg = do
    configure_server room ctx cfg
    (wire, wire_len) ← server_alpn room cfg.alpn
    s ← new_ssl room ctx
    if s == null then (do free_wire room wire; free_object ctx; pure (err bad)) else (do
      pre_keylog ← new_keylog room cfg.keylog s
      in_bio ← new_bio room
      out_bio ← new_bio room
      if in_bio == null || out_bio == null
          then (do
            free_object in_bio
            free_object out_bio
            drop_keylog room pre_keylog
            free_wire room wire
            ssl_free s
            free_object ctx
            pure (err bad))
          else (do
            set_bio s in_bio out_bio
            ssl_set s set_accept_state
            b ← take_keylog room pre_keylog
            r ← xmalloc_struct room 40 (
                mem_bio_server (record {
                  ctx = ctx;
                  ssl = s;
                  in_bio = in_bio;
                  out_bio = out_bio;
                  handshake_done = false;
                  keylog = b;
                  alpn_wire = wire;
                  alpn_wire_len = wire_len;
                }))
            move_ex_data room pre_keylog s r
            select_alpn ctx s wire
            pure (ok r)))

  -- exports_openssl_component_tls_static_mem_bio_server_new
  unfoldable pub mem_bio_server_new : ServerConfig → TlsCmd lib (Result TlsError Ptr)
  mem_bio_server_new cfg =
      if wants_dtls cfg.protocols
      then pure (err (with_code protocol_version 0))
      else (do ctx ← new_ctx room as_server; if ctx == null then pure (err bad) else new_on ctx cfg)

  -- SSL_free of an SSL that may be NULL.
  abbrev pub free_ssl : Ptr → TlsCmd lib (Unit {0})
  free_ssl s = if s == null then pure tt else ssl_free s

  -- exports_openssl_component_tls_mem_bio_server_destructor
  unfoldable pub mem_bio_server_destructor : Ptr → TlsCmd lib (Unit {0})
  mem_bio_server_destructor p = if p == null then pure tt else (do
    r ← load_rep p
    free_ssl r.ssl
    free_object r.ctx
    free_wire room r.alpn_wire
    b ← keylog_buf_clear r.keylog
    store_struct p (mem_bio_server (record r { keylog = b }))
    free p)

  -- exports_openssl_component_tls_static_mem_bio_server_close. mem_bio_server_drop_own runs the destructor.
  unfoldable pub mem_bio_server_close : Ptr → TlsCmd lib (Unit {0})
  unfolding mem_bio_server_destructor
  mem_bio_server_close p = do
    r ← load_rep p
    free_ssl r.ssl
    free_object r.ctx
    free_wire room r.alpn_wire
    store_struct p (
        mem_bio_server
          (record r { alpn_wire = null; ctx = null; ssl = null; in_bio = null; out_bio = null }))
    mem_bio_server_destructor p
