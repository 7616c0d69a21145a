-- ===== src/Tls/MemBioServer/Close.antt =====
-- The end of the mem-bio-server resource of src/tls.c.
use openssl_wasm.Common.{
  ℕ, ◌==◌, ◌≡◌, Bool, false, none, some, List, [], ◌∷◌, length, inl, inr, Bool-cases, arith,
}
use openssl_wasm.Memory.{Cmd, Ptr, null, raw, store_struct, ◌>>◌, struct, object, World, update}
use openssl_wasm.Memory.Contract.{Returns}
use openssl_wasm.Tls.Structs.{KeylogBuf, MemBioServerRep, TlsStruct, mem_bio_server}
use openssl_wasm.Tls.Openssl.{Openssl, SslObject, TlsObject, ssl, ssl_ctx, bio}
use openssl_wasm.Tls.Keylog.Held.{Memory, IsHolding}
use openssl_wasm.Tls.Keylog.Frame.{
  without, Returns-same, IsHolding-other, IsHolding-update, drop_struct, drop_struct-Returns,
}
use openssl_wasm.Tls.Server.{free_wire}
use openssl_wasm.Tls.MemBioServer.{mem_bio_server_destructor, mem_bio_server_close}

-- The addresses that a server owns besides its key log buffer.
abbrev pub server_owned : Ptr → MemBioServerRep → List Ptr
server_owned p rep = p ∷ rep.ssl ∷ rep.in_bio ∷ rep.out_bio ∷ rep.ctx ∷ rep.alpn_wire ∷ []

-- The struct of a server that has given back what it owns but for its key log buffer.
abbrev emptied : MemBioServerRep → KeylogBuf → TlsStruct
emptied rep k = mem_bio_server (record rep {
  alpn_wire = null;
  ctx = null;
  ssl = null;
  in_bio = null;
  out_bio = null;
  keylog = k;
})

module _ {lib : Openssl} where
  -- The struct at `p`, its SSL with the two BIOs, its SSL_CTX and its ALPN list, if it has one,
  -- lie in the memory `m`.
  pub record IsOpen (m : Memory (TlsObject lib)) (p : Ptr) (rep : MemBioServerRep) : Type 0 where
    pub state : SslObject lib.Ssl
    pub ctx : lib.Ctx
    pub input : lib.Bio
    pub output : lib.Bio
    pub held : m p ≡ some (struct (mem_bio_server rep))
    pub ssl_held :
        m rep.ssl ≡ some (object (ssl (record state { rbio = rep.in_bio; wbio = rep.out_bio })))
    pub ctx_held : m rep.ctx ≡ some (object (ssl_ctx ctx))
    pub in_held : m rep.in_bio ≡ some (object (bio input))
    pub out_held : m rep.out_bio ≡ some (object (bio output))
    pub wire : List ℕ
    pub wire_held :
        (rep.alpn_wire == null) ≡ false → m rep.alpn_wire ≡ some (raw (length wire) wire)
    pub apart : (rep.in_bio == rep.out_bio) ≡ false

  -- The struct without its pointers, and its destructor.
  abbrev emptying : (ℕ → Bool) → Ptr → MemBioServerRep → Cmd (TlsObject lib) TlsStruct (Unit {0})
  emptying room p rep = do store_struct p (emptied rep rep.keylog); mem_bio_server_destructor room p

  -- The end of mem_bio_server_close, when the SSL, its BIOs, the SSL_CTX and the list are freed.
  abbrev ending : (ℕ → Bool) → Ptr → MemBioServerRep → Cmd (TlsObject lib) TlsStruct (Unit {0})
  ending room p rep = do free_wire room rep.alpn_wire; emptying room p rep

  ending_runs :
      (room : ℕ → Bool) (w : World (TlsObject lib) TlsStruct) (p : Ptr) (rep : MemBioServerRep)
      → w.cell p ≡ some (struct (mem_bio_server rep))
      → (p == null) ≡ false
      → emptying room p rep w
        ≡ drop_struct p rep.keylog
            (emptied rep)
            (record w { cell = update w.cell p (some (struct (emptied rep rep.keylog))) })
  unfolding mem_bio_server_destructor
  ending_runs room w p rep held set = ground (arith, held, set)

  ending-Returns :
      (room : ℕ → Bool) (m : Memory (TlsObject lib)) (w : World (TlsObject lib) TlsStruct) (p : Ptr)
      (rep : MemBioServerRep) (ps : List Ptr) (ls : List (List ℕ)) (wire : List ℕ)
      → m p ≡ some (struct (mem_bio_server rep))
      → ((rep.alpn_wire == null) ≡ false → m rep.alpn_wire ≡ some (raw (length wire) wire))
      → IsHolding m w rep.keylog ps ls
      → Returns (without (p ∷ rep.alpn_wire ∷ []) m) (ending room p rep w) (tt, w.errs)
  unfolding mem_bio_server_destructor
  ending-Returns room m w p rep ps ls wire held wire_held h =
      let b = rep.keylog in
      let shut = emptied rep b in
      let v = some (struct shut) in
      let at_p = IsHolding-other m w b ps ls p (struct (mem_bio_server rep)) h held in
      let p_set : (p == null) ≡ false = ground (arith, at_p, h.fresh.null_free) in
      elim (Bool-cases (rep.alpn_wire == null)) [
        | inl none_set ↦
            let h1 = IsHolding-update m w b ps ls p (struct (mem_bio_server rep)) v h held in
            let w1 : World (TlsObject lib) TlsStruct = record w { cell = update w.cell p v } in
            let runs : ending room p rep w ≡ drop_struct p b (emptied rep) w1 =
              ground (arith, none_set, ending_runs room w p rep at_p p_set) in
            rw runs (
              Returns-same _ (without (p ∷ rep.alpn_wire ∷ []) m) _ _
                (λ x. ground (arith, none_set, h.null_free))
                (drop_struct-Returns (update m p v) w1 p shut b (emptied rep) ps ls h1
                  (ground arith)))
        | inr set ↦
            let a = rep.alpn_wire in
            let at_a = IsHolding-other m w b ps ls a (raw (length wire) wire) h (wire_held set) in
            let h1 =
              IsHolding-update m w b ps ls a (raw (length wire) wire) none h (wire_held set) in
            let h2 =
              IsHolding-update (update m a none) _ b ps ls p (struct (mem_bio_server rep)) v h1
                (ground (arith, held, wire_held set)) in
            let w2 : World (TlsObject lib) TlsStruct = record w {
              cell = update (update w.cell a none) p v;
            } in
            let runs : ending room p rep w ≡ drop_struct p b (emptied rep) w2 = ground (
              arith,
              set,
              at_a,
              ending_runs room (record w { cell = update w.cell a none }) p rep
                  (ground (arith, at_p, at_a)) p_set,
            ) in
            rw runs (
              Returns-same _ (without (p ∷ rep.alpn_wire ∷ []) m) _ _ (λ x. ground arith)
                (drop_struct-Returns (update (update m a none) p v) w2 p shut b (emptied rep) ps ls
                  h2 (ground arith)))
      ]

  -- mem_bio_server_close gives back all that the server owns: the SSL, its two BIOs, the SSL_CTX, the
  -- ALPN list, the lines and the array of its key log buffer, and the struct, each once. The rest of the memory is
  -- as before.
  pub mem_bio_server_close_lem :
      (room : ℕ → Bool) (m : Memory (TlsObject lib)) (w : World (TlsObject lib) TlsStruct) (p : Ptr)
      (rep : MemBioServerRep) (ps : List Ptr) (ls : List (List ℕ))
      → IsOpen m p rep
      → IsHolding m w rep.keylog ps ls
      → Returns (without (server_owned p rep) m) (mem_bio_server_close room p w) (tt, w.errs)
  unfolding mem_bio_server_close
  mem_bio_server_close_lem room m w p rep ps ls s h =
      let b = rep.keylog in
      let i = rep.in_bio in
      let o = rep.out_bio in
      let ssl_cell = object (ssl (record (s.state) { rbio = rep.in_bio; wbio = rep.out_bio })) in
      let h1 = IsHolding-update m w b ps ls i (object (bio s.input)) none h s.in_held in
      let m1 = update m i none in
      let h2 =
        IsHolding-update m1 _ b ps ls o (object (bio s.output)) none h1
          (ground (arith, s.out_held, s.apart)) in
      let m2 = update m1 o none in
      let h3 =
        IsHolding-update m2 _ b ps ls rep.ssl ssl_cell none h2
          (ground (arith, s.ssl_held, s.in_held, s.out_held)) in
      let m3 = update m2 rep.ssl none in
      let h4 =
        IsHolding-update m3 _ b ps ls rep.ctx (object (ssl_ctx s.ctx)) none h3
          (ground (arith, s.ctx_held, s.ssl_held, s.in_held, s.out_held)) in
      let m4 = update m3 rep.ctx none in
      let at_p = IsHolding-other m w b ps ls p (struct (mem_bio_server rep)) h s.held in
      let at_ssl = IsHolding-other m w b ps ls rep.ssl ssl_cell h s.ssl_held in
      let at_ctx = IsHolding-other m w b ps ls rep.ctx (object (ssl_ctx s.ctx)) h s.ctx_held in
      let at_in = IsHolding-other m w b ps ls i (object (bio s.input)) h s.in_held in
      let at_out = IsHolding-other m w b ps ls o (object (bio s.output)) h s.out_held in
      let w4 : World (TlsObject lib) TlsStruct = record w {
        cell = update (update (update (update w.cell i none) o none) rep.ssl none) rep.ctx none;
      } in
      let runs : mem_bio_server_close room p w ≡ ending room p rep w4 =
        ground (arith, at_p, at_ssl, at_ctx, at_in, at_out, s.apart, h.fresh.null_free) in
      rw runs (
        Returns-same _ (without (server_owned p rep) m) _ _ (λ x. ground arith)
          (ending-Returns room m4 w4 p rep ps ls s.wire
            (ground (arith, s.held, s.ctx_held, s.ssl_held, s.in_held, s.out_held))
            (λ set. ground (arith, s.wire_held set, s.ctx_held, s.ssl_held, s.in_held, s.out_held))
            h4))
