-- ===== src/Tls/MemBioClient.antt =====
-- The mem-bio-client resource of src/tls.c. A handle is the address of its mem_bio_client_rep.
pub mod Methods
pub mod Ops
pub mod Reads
pub mod Close
pub mod New
use openssl_wasm.Common.{ℕ, ◌==◌, ◌||◌, Bool, true, false, if◌then◌else◌, Option, none, some, List}
use openssl_wasm.Memory.{
  Cmd, Ptr, null, fault, Result, ok, err, Buffer, ◌>>=◌, ◌>>◌, pure, call, new_object,
  xmalloc_struct, load_struct, store_struct, free, free_object,
}
use openssl_wasm.Tls.CString.{copy_c_string}
use openssl_wasm.Tls.Structs.{MemBioClientRep, TlsStruct, mem_bio_client}
use openssl_wasm.Tls.Keylog.{keylog_buf_clear, keylog_buf_drain_to}
use openssl_wasm.Tls.Openssl.{
  protocol_version, TlsError, as_client, set_connect_state, Openssl, TlsObject, bio, TlsCmd,
}
use openssl_wasm.Tls.Ssl.{ctx_set, ssl_set, set_bio, ssl_free}
use openssl_wasm.Tls.Config.{ClientConfig, wants_dtls, new_ctx, configure_client}
use openssl_wasm.Tls.Data.{
  with_code, bio_ssl_read, bio_ssl_write, bio_ssl_shutdown, run_handshake, feed_bio, take_bio,
  pending_bio,
}
use openssl_wasm.Tls.Peer.{
  PeerInfo, fill_peer_info, fill_peer_chain_der, peer_cert_der, version_string, selected_alpn,
}
use openssl_wasm.Tls.Connection.{
  bad, new_ssl, new_keylog, drop_keylog, take_keylog, move_ex_data, new_bio, set_host,
}

module _ (room : ℕ → Bool) {lib : Openssl} where
  -- The struct of a handle.
  abbrev pub load_rep : Ptr → TlsCmd lib MemBioClientRep
  load_rep p = do r ← load_struct p; elim r [ mem_bio_client m ↦ pure m | _ ↦ λ w. fault ]

  -- mem_bio_client_new, on the SSL_CTX, which it owns.
  abbrev pub new_on : Ptr → ClientConfig → TlsCmd lib (Result TlsError Ptr)
  new_on ctx cfg = do
    configure_client room ctx cfg
    s ← new_ssl room ctx
    if s == null then (do free_object ctx; pure (err bad)) else (do
      pre_keylog ← new_keylog room cfg.keylog s
      elim cfg.server_name [
        | none ↦ pure tt
        | some v ↦ (do p ← copy_c_string room v; set_host room s p; free p)
      ]
      in_bio ← new_bio room
      out_bio ← new_bio room
      if in_bio == null || out_bio == null
          then (do
            free_object in_bio
            free_object out_bio
            drop_keylog room pre_keylog
            ssl_free s
            free_object ctx
            pure (err bad))
          else (do
            set_bio s in_bio out_bio
            ssl_set s set_connect_state
            b ← take_keylog room pre_keylog
            r ← xmalloc_struct room 32 (
                mem_bio_client (record {
                  ctx = ctx;
                  ssl = s;
                  in_bio = in_bio;
                  out_bio = out_bio;
                  handshake_done = false;
                  keylog = b;
                }))
            move_ex_data room pre_keylog s r
            pure (ok r)))

  -- exports_openssl_component_tls_static_mem_bio_client_new
  unfoldable pub mem_bio_client_new : ClientConfig → TlsCmd lib (Result TlsError Ptr)
  mem_bio_client_new cfg =
      if wants_dtls cfg.protocols
      then pure (err (with_code protocol_version 0))
      else (do ctx ← new_ctx room as_client; if ctx == null then pure (err bad) else new_on ctx cfg)

  -- SSL_free of an SSL that may be NULL.
  abbrev pub free_ssl : Ptr → TlsCmd lib (Unit {0})
  free_ssl s = if s == null then pure tt else ssl_free s

  -- exports_openssl_component_tls_mem_bio_client_destructor
  unfoldable pub mem_bio_client_destructor : Ptr → TlsCmd lib (Unit {0})
  mem_bio_client_destructor p = if p == null then pure tt else (do
    r ← load_rep p
    free_ssl r.ssl
    free_object r.ctx
    b ← keylog_buf_clear r.keylog
    store_struct p (mem_bio_client (record r { keylog = b }))
    free p)

  -- exports_openssl_component_tls_static_mem_bio_client_close. mem_bio_client_drop_own runs the destructor.
  unfoldable pub mem_bio_client_close : Ptr → TlsCmd lib (Unit {0})
  unfolding mem_bio_client_destructor
  mem_bio_client_close p = do
    r ← load_rep p
    free_ssl r.ssl
    free_object r.ctx
    store_struct p
        (mem_bio_client (record r { ctx = null; ssl = null; in_bio = null; out_bio = null }))
    mem_bio_client_destructor p
