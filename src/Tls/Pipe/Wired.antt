-- ===== src/Tls/Pipe/Wired.antt =====
-- Where an SSL of src/tls.c and its two memory BIOs lie, and a call on it.
use mathlib.Core.Path.{fun_ext}
use openssl_wasm.Common.{
  ap, ℕ, ◌==◌, ◌≡◌, refl, Bool, false, Option, none, some, List, [], ◌∷◌, arith,
}
use openssl_wasm.Memory.{
  Queue, Cmd, Ptr, null, World, Run, done, object, update, ◌>>◌, pure, store, set_errs,
}
use openssl_wasm.Memory.Contract.{IsFresh}
use openssl_wasm.Tls.Structs.{TlsStruct}
use openssl_wasm.Tls.Openssl.{Endpoint, Protocol, Openssl, TlsObject, ssl, bio}
use openssl_wasm.Tls.Ssl.{call_ssl, keylog_cb, log_lines, put_bio}
use openssl_wasm.Tls.Pipe.{Pipe, or_old, run_pipe}

module _ {lib : Openssl} where
  -- The SSL at `s`, without a key log buffer, and its memory BIOs.
  pub record IsWired (w : World (TlsObject lib) TlsStruct) (s i o : Ptr) (a : Pipe lib)
      : Type 0 where
    pub fresh : IsFresh w
    pub ssl_held :
        w.cell s
        ≡ some (object (ssl (record { state = a.state; ex_data = null; rbio = i; wbio = o })))
    pub in_held : w.cell i ≡ some (object (bio a.input))
    pub out_held : w.cell o ≡ some (object (bio a.output))
    pub apart : (i == o) ≡ false

  log_nothing :
      (room : ℕ → Bool) (ls : List (List ℕ)) (w : World (TlsObject lib) TlsStruct)
      → log_lines room null ls w ≡ done tt w
  unfolding keylog_cb
  log_nothing room [] w = refl
  log_nothing room (l ∷ ls) w = log_nothing room ls w

  -- A call leaves the SSL and its BIOs as the call of the pipe does, and the rest of the memory as it was.
  pub record Called {A : Type 0} (w : World (TlsObject lib) TlsStruct)
      (run : Run (TlsObject lib) TlsStruct A) (s i o : Ptr) (r : (A × Pipe lib) × Queue)
      : Type 0 where
    pub after : World (TlsObject lib) TlsStruct
    pub runs : run ≡ done r.0.0 after
    pub wired : IsWired after s i o r.0.1
    pub others :
        (x : Ptr) → (x == s) ≡ false → (x == i) ≡ false → (x == o) ≡ false → after.cell x ≡ w.cell x
    pub same_next : after.next ≡ w.next
    pub errs : after.errs ≡ r.1

  -- What a call does after OpenSSL's function has returned.
  abbrev stored :
      {A : Type 0}
      → (ℕ → Bool)
      → Ptr
      → Ptr
      → Ptr
      → (A × (Endpoint lib.Ssl lib.Bio × List (List ℕ))) × Queue
      → Cmd (TlsObject lib) TlsStruct A
  stored room s i o r = do
    set_errs r.1
    store s (ssl (record { state = r.0.1.0.state; ex_data = null; rbio = i; wbio = o }))
    put_bio i r.0.1.0.input
    put_bio o r.0.1.0.output
    log_lines room null r.0.1.1
    pure r.0.0

  put_bio_runs :
      (p : Ptr) (b : lib.Bio) (bi : Option lib.Bio) (w : World (TlsObject lib) TlsStruct)
      → w.cell p ≡ some (object (bio b))
      → (p == null) ≡ false
      → put_bio p bi w
        ≡ done tt (record w { cell = update w.cell p (some (object (bio (or_old b bi)))) })
  put_bio_runs p b none w held set =
      ap (λ c. done tt (record w { cell = c })) (fun_ext (λ x. ground (arith, held)))
  put_bio_runs p b (some c) w held set = ground (arith, set)

  stored-Called :
      {A : Type 0} (room : ℕ → Bool) (x : A) (st : lib.Ssl) (bi bo : Option lib.Bio)
      (ls : List (List ℕ)) (q : Queue) (w : World (TlsObject lib) TlsStruct) (s i o : Ptr)
      (a : Pipe lib)
      → IsWired w s i o a
      → Called w
          (stored room s i o ((x, (record { state = st; input = bi; output = bo }, ls)), q) w)
          s
          i
          o
          ((x, record a { state = st; input = or_old a.input bi; output = or_old a.output bo }), q)
  stored-Called room x st bi bo ls q w s i o a h =
      let i_set : (i == null) ≡ false = ground (arith, h.in_held, h.fresh.null_free) in
      let o_set : (o == null) ≡ false = ground (arith, h.out_held, h.fresh.null_free) in
      let s_set : (s == null) ≡ false = ground (arith, h.ssl_held, h.fresh.null_free) in
      let s_i : (s == i) ≡ false = ground (arith, h.ssl_held, h.in_held) in
      let s_o : (s == o) ≡ false = ground (arith, h.ssl_held, h.out_held) in
      let w1 : World (TlsObject lib) TlsStruct = record w {
        cell =
            update w.cell s
              (some (object (ssl (record { state = st; ex_data = null; rbio = i; wbio = o }))));
        errs = q;
      } in
      let w2 : World (TlsObject lib) TlsStruct = record w1 {
        cell = update w1.cell i (some (object (bio (or_old a.input bi))));
      } in
      let w3 : World (TlsObject lib) TlsStruct = record w2 {
        cell = update w2.cell o (some (object (bio (or_old a.output bo))));
      } in
      let r2 : put_bio i bi w1 ≡ done tt w2 =
        put_bio_runs i a.input bi w1 (ground (arith, h.in_held, s_i)) i_set in
      let r3 : put_bio o bo w2 ≡ done tt w3 =
        put_bio_runs o a.output bo w2 (ground (arith, h.out_held, s_o, h.apart)) o_set in
      record {
        after = w3;
        runs = ground (arith, r2, r3, log_nothing room ls w3);
        wired = record {
          fresh = record {
            unused =
                λ y hy. ground (arith, hy, h.fresh.unused y, h.ssl_held, h.in_held, h.out_held);
            null_free = ground (arith, h.fresh.null_free, s_set, i_set, o_set);
          };
          ssl_held = ground (arith, s_i, s_o);
          in_held = ground (arith, h.apart);
          out_held = ground arith;
          apart = h.apart;
        };
        others = λ y h1 h2 h3. ground (arith, h1, h2, h3);
        same_next = refl;
        errs = refl;
      }

  pub call_ssl-Called :
      {A : Type 0} (room : ℕ → Bool) (f : Protocol lib.Ssl lib.Bio A)
      (w : World (TlsObject lib) TlsStruct) (s i o : Ptr) (a : Pipe lib)
      → IsWired w s i o a
      → Called w (call_ssl room s f w) s i o (run_pipe f a w.errs)
  call_ssl-Called room f w s i o a h =
      let i_set : (i == null) ≡ false = ground (arith, h.in_held, h.fresh.null_free) in
      let o_set : (o == null) ≡ false = ground (arith, h.out_held, h.fresh.null_free) in
      let r = f (record { state = a.state; input = some a.input; output = some a.output }) w.errs in
      let runs : call_ssl room s f w ≡ stored room s i o r w =
        ground (arith, h.ssl_held, h.in_held, h.out_held, i_set, o_set) in
      rw runs (
        stored-Called room r.0.0 r.0.1.0.state r.0.1.0.input r.0.1.0.output r.0.1.1 r.1 w s i o a h)
