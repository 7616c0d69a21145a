-- ===== src/Tls/MemBioClient/Close.antt =====
-- The end of the mem-bio-client resource of src/tls.c.
use openssl_wasm.Common.{ℕ, ◌==◌, ◌≡◌, Bool, false, none, some, List, [], ◌∷◌, arith}
use openssl_wasm.Memory.{Ptr, null, struct, object, World, update}
use openssl_wasm.Memory.Contract.{Returns}
use openssl_wasm.Tls.Structs.{KeylogBuf, MemBioClientRep, TlsStruct, mem_bio_client}
use openssl_wasm.Tls.Openssl.{Openssl, SslObject, TlsObject, ssl, ssl_ctx, bio}
use openssl_wasm.Tls.Keylog.Held.{Memory, IsHolding}
use openssl_wasm.Tls.Keylog.Frame.{
  without, Returns-same, IsHolding-other, IsHolding-update, drop_struct, drop_struct-Returns,
}
use openssl_wasm.Tls.MemBioClient.{mem_bio_client_close}

-- The addresses that a client owns besides its key log buffer.
abbrev pub client_owned : Ptr → MemBioClientRep → List Ptr
client_owned p rep = p ∷ rep.ssl ∷ rep.in_bio ∷ rep.out_bio ∷ rep.ctx ∷ []

module _ {lib : Openssl} where
  -- The struct at `p`, its SSL with the two BIOs, and its SSL_CTX lie in the memory `m`.
  pub record IsOpen (m : Memory (TlsObject lib)) (p : Ptr) (rep : MemBioClientRep) : Type 0 where
    pub state : SslObject lib.Ssl
    pub ctx : lib.Ctx
    pub input : lib.Bio
    pub output : lib.Bio
    pub held : m p ≡ some (struct (mem_bio_client rep))
    pub ssl_held :
        m rep.ssl ≡ some (object (ssl (record state { rbio = rep.in_bio; wbio = rep.out_bio })))
    pub ctx_held : m rep.ctx ≡ some (object (ssl_ctx ctx))
    pub in_held : m rep.in_bio ≡ some (object (bio input))
    pub out_held : m rep.out_bio ≡ some (object (bio output))
    pub apart : (rep.in_bio == rep.out_bio) ≡ false

  -- mem_bio_client_close gives back all that the client owns: the SSL, its two BIOs, the SSL_CTX, the
  -- lines and the array of its key log buffer, and the struct, each once. The rest of the memory is
  -- as before.
  pub mem_bio_client_close_lem :
      (room : ℕ → Bool) (m : Memory (TlsObject lib)) (w : World (TlsObject lib) TlsStruct) (p : Ptr)
      (rep : MemBioClientRep) (ps : List Ptr) (ls : List (List ℕ))
      → IsOpen m p rep
      → IsHolding m w rep.keylog ps ls
      → Returns (without (client_owned p rep) m) (mem_bio_client_close room p w) (tt, w.errs)
  unfolding mem_bio_client_close
  mem_bio_client_close_lem room m w p rep ps ls s h =
      let b = rep.keylog in
      let i = rep.in_bio in
      let o = rep.out_bio in
      let ssl_cell = object (ssl (record (s.state) { rbio = rep.in_bio; wbio = rep.out_bio })) in
      let h1 = IsHolding-update m w b ps ls i (object (bio s.input)) none h s.in_held in
      let m1 = update m i none in
      let h2 =
        IsHolding-update m1 _ b ps ls o (object (bio s.output)) none h1
          (ground (arith, s.out_held, s.apart)) in
      let m2 = update m1 o none in
      let h3 =
        IsHolding-update m2 _ b ps ls rep.ssl ssl_cell none h2
          (ground (arith, s.ssl_held, s.in_held, s.out_held)) in
      let m3 = update m2 rep.ssl none in
      let h4 =
        IsHolding-update m3 _ b ps ls rep.ctx (object (ssl_ctx s.ctx)) none h3
          (ground (arith, s.ctx_held, s.ssl_held, s.in_held, s.out_held)) in
      let m4 = update m3 rep.ctx none in
      let shut : MemBioClientRep = record rep {
        ctx = null;
        ssl = null;
        in_bio = null;
        out_bio = null;
      } in
      let v = some (struct (mem_bio_client shut)) in
      let h5 =
        IsHolding-update m4 _ b ps ls p (struct (mem_bio_client rep)) v h4
          (ground (arith, s.held, s.ctx_held, s.ssl_held, s.in_held, s.out_held)) in
      let w5 : World (TlsObject lib) TlsStruct = record w {
        cell =
            update
              (update (update (update (update w.cell i none) o none) rep.ssl none) rep.ctx none) p
              v;
      } in
      let at_p = IsHolding-other m w b ps ls p (struct (mem_bio_client rep)) h s.held in
      let at_ssl = IsHolding-other m w b ps ls rep.ssl ssl_cell h s.ssl_held in
      let at_ctx = IsHolding-other m w b ps ls rep.ctx (object (ssl_ctx s.ctx)) h s.ctx_held in
      let at_in = IsHolding-other m w b ps ls i (object (bio s.input)) h s.in_held in
      let at_out = IsHolding-other m w b ps ls o (object (bio s.output)) h s.out_held in
      let to_struct : KeylogBuf → TlsStruct = λ k. mem_bio_client (record shut { keylog = k }) in
      let runs : mem_bio_client_close room p w ≡ drop_struct p b to_struct w5 =
        ground (arith, at_p, at_ssl, at_ctx, at_in, at_out, s.apart, h.fresh.null_free) in
      rw runs (
        Returns-same _ (without (client_owned p rep) m) _ _ (λ x. ground arith)
          (drop_struct-Returns (update m4 p v) w5 p (mem_bio_client shut) b to_struct ps ls h5
            (ground arith)))
