-- ===== src/Tls/MemBioServer/Methods.antt =====
-- The methods of the mem-bio-server resource of src/tls.c. A handle is the address of its mem_bio_server_rep.
use openssl_wasm.Common.{ℕ, Bool, true, Option, List}
use openssl_wasm.Memory.{Ptr, Result, ok, err, Buffer, ◌>>=◌, ◌>>◌, pure, store_struct}
use openssl_wasm.Tls.Structs.{mem_bio_server}
use openssl_wasm.Tls.Openssl.{TlsError, Openssl, TlsCmd}
use openssl_wasm.Tls.Data.{
  bio_ssl_read, bio_ssl_write, bio_ssl_shutdown, run_handshake, feed_bio, take_bio, pending_bio,
}
use openssl_wasm.Tls.Peer.{
  PeerInfo, fill_peer_info, fill_peer_chain_der, peer_cert_der, version_string, selected_alpn,
}
use openssl_wasm.Tls.MemBioServer.{load_rep}

module _ (room : ℕ → Bool) {lib : Openssl} where
  -- exports_openssl_component_tls_method_mem_bio_server_do_handshake
  unfoldable pub mem_bio_server_do_handshake : Ptr → TlsCmd lib (Result TlsError (Unit {0}))
  mem_bio_server_do_handshake p = do
    r ← load_rep room p
    v ← run_handshake room r.ssl
    elim v [
      | err e ↦ pure (err e)
      | ok t ↦ (do
        m ← load_rep room p
        store_struct p (mem_bio_server (record m { handshake_done = true }))
        pure (ok tt))
    ]

  -- exports_openssl_component_tls_method_mem_bio_server_handshake_done
  unfoldable pub mem_bio_server_handshake_done : Ptr → TlsCmd lib Bool
  mem_bio_server_handshake_done p = do r ← load_rep room p; pure r.handshake_done

  -- exports_openssl_component_tls_method_mem_bio_server_bio_write
  unfoldable pub mem_bio_server_bio_write : Ptr → List ℕ → TlsCmd lib ℕ
  mem_bio_server_bio_write p bytes = do r ← load_rep room p; feed_bio room r.in_bio bytes

  -- exports_openssl_component_tls_method_mem_bio_server_bio_read
  unfoldable pub mem_bio_server_bio_read : Ptr → ℕ → TlsCmd lib Buffer
  mem_bio_server_bio_read p max = do r ← load_rep room p; take_bio room r.out_bio max

  -- exports_openssl_component_tls_method_mem_bio_server_bio_pending
  unfoldable pub mem_bio_server_bio_pending : Ptr → TlsCmd lib ℕ
  mem_bio_server_bio_pending p = do r ← load_rep room p; pending_bio room r.out_bio

  -- exports_openssl_component_tls_method_mem_bio_server_read
  unfoldable pub mem_bio_server_read : Ptr → ℕ → TlsCmd lib (Result TlsError Buffer)
  mem_bio_server_read p max_bytes = do r ← load_rep room p; bio_ssl_read room r.ssl max_bytes

  -- exports_openssl_component_tls_method_mem_bio_server_write
  unfoldable pub mem_bio_server_write : Ptr → List ℕ → TlsCmd lib (Result TlsError ℕ)
  mem_bio_server_write p bytes = do r ← load_rep room p; bio_ssl_write room r.ssl bytes

  -- exports_openssl_component_tls_method_mem_bio_server_peer_cert_der
  unfoldable pub mem_bio_server_peer_cert_der : Ptr → TlsCmd lib (Option Buffer)
  mem_bio_server_peer_cert_der p = do r ← load_rep room p; peer_cert_der room r.ssl

  -- exports_openssl_component_tls_method_mem_bio_server_version
  unfoldable pub mem_bio_server_version : Ptr → TlsCmd lib Buffer
  mem_bio_server_version p = do r ← load_rep room p; version_string room r.ssl

  -- exports_openssl_component_tls_method_mem_bio_server_selected_alpn_protocol
  unfoldable pub mem_bio_server_selected_alpn_protocol : Ptr → TlsCmd lib (Option Buffer)
  mem_bio_server_selected_alpn_protocol p = do r ← load_rep room p; selected_alpn room r.ssl

  -- exports_openssl_component_tls_method_mem_bio_server_peer
  unfoldable pub mem_bio_server_peer : Ptr → TlsCmd lib PeerInfo
  mem_bio_server_peer p = do r ← load_rep room p; fill_peer_info room r.ssl

  -- exports_openssl_component_tls_method_mem_bio_server_peer_chain_der
  unfoldable pub mem_bio_server_peer_chain_der : Ptr → TlsCmd lib (Ptr × ℕ)
  mem_bio_server_peer_chain_der p = do r ← load_rep room p; fill_peer_chain_der room r.ssl

  -- exports_openssl_component_tls_method_mem_bio_server_shutdown
  unfoldable pub mem_bio_server_shutdown : Ptr → TlsCmd lib (Result TlsError (Unit {0}))
  mem_bio_server_shutdown p = do r ← load_rep room p; bio_ssl_shutdown room r.ssl
