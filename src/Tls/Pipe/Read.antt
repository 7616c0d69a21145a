-- ===== src/Tls/Pipe/Read.antt =====
-- The read of the memory BIO resources of src/tls.c, on an SSL with two memory BIOs.
use mathlib.Core.List.{append-nil}
use openssl_wasm.Common.{
  ℕ, suc, ◌≤◌, ◌==◌, ◌≡◌, ◌∙◌, sym, ap, refl, Bool, true, false, inl, inr, Bool-cases, Option, none,
  some, List, [], length, arith,
}
use openssl_wasm.Memory.{
  Queue, Ptr, null, Buffer, Cell, raw, World, Run, Result, ok, err, done, update, at_least_one,
}
use openssl_wasm.Tls.Structs.{TlsStruct}
use openssl_wasm.Tls.Openssl.{TlsError, ℤ, is_negative, to_int, Endpoint, Openssl, TlsObject}
use openssl_wasm.Tls.Ssl.{get_error}
use openssl_wasm.Tls.Data.{read_into, bio_ssl_read, bio_read_error}
use openssl_wasm.Tls.Pipe.{Pipe, read_tag, run_pipe, read_pipe}
use openssl_wasm.Tls.Pipe.Wired.{IsWired, call_ssl-Called}
use openssl_wasm.Tls.Pipe.Calls.{get_error_runs}

-- The buffer at `p` in place of its bytes.
abbrev pub at_buffer : Ptr → Result TlsError (List ℕ × ℕ) → Result TlsError Buffer
at_buffer p (ok (bytes, n)) = ok (record { ptr = p; len = n })
at_buffer p (err e) = err e

-- The cell of a buffer for `max` bytes; none after an error.
abbrev pub buffer_cell : {O R : Type 0} → ℕ → Result TlsError (List ℕ × ℕ) → Option (Cell O R)
buffer_cell max (ok (bytes, n)) = some (raw (at_least_one max) bytes)
buffer_cell max (err e) = none

-- OpenSSL writes no more bytes into a buffer than it is told.
abbrev pub ReadsWithin : Openssl → Type 0
ReadsWithin l =
    (max : ℕ) (e : Endpoint l.Ssl l.Bio) (q : Queue)
    → length (l.read (to_int max) e q).0.0.1 ≤ at_least_one max

-- The code's tests on the value of SSL_get_error come to the tags by value.
bio_read_error_lem : (e : ℕ) → bio_read_error e ≡ record { tag = read_tag e; internal = some e }
bio_read_error_lem e = ground arith

module _ {lib : Openssl} where
  -- The read returns what the read of the pipe does, its bytes in a new buffer, which is freed if
  -- there is an error. But for that and the SSL and its BIOs the memory is as before.
  pub record Reads (w : World (TlsObject lib) TlsStruct)
      (run : Run (TlsObject lib) TlsStruct (Result TlsError Buffer)) (s i o : Ptr) (max : ℕ)
      (r : (Result TlsError (List ℕ × ℕ) × Pipe lib) × Queue) : Type 0 where
    pub after : World (TlsObject lib) TlsStruct
    pub buf : Ptr
    pub runs : run ≡ done (at_buffer buf r.0.0) after
    pub new : w.cell buf ≡ none
    pub set : (buf == null) ≡ false
    pub holds : after.cell buf ≡ buffer_cell max r.0.0
    pub wired : IsWired after s i o r.0.1
    pub others :
        (x : Ptr)
        → (x == s) ≡ false
        → (x == i) ≡ false
        → (x == o) ≡ false
        → (x == buf) ≡ false
        → after.cell x ≡ w.cell x
    pub errs : after.errs ≡ r.1

  -- A read that fails frees its buffer.
  read_fails :
      (room : ℕ → Bool) (s : Ptr) (max : ℕ) (w w2 : World (TlsObject lib) TlsStruct) (p : Ptr)
      (n : ℤ) (size : ℕ) (bytes : List ℕ) (e : ℕ × Queue)
      → is_negative n ≡ true
      → read_into room s max w ≡ done (p, n) w2
      → get_error s n w2 ≡ done e.0 (record w2 { errs = e.1 })
      → w2.cell p ≡ some (raw size bytes)
      → (p == null) ≡ false
      → bio_ssl_read room s max w
        ≡ done
            (err (record { tag = read_tag e.0; internal = some e.0 }))
            (record w2 { cell = update w2.cell p none; errs = e.1 })
  unfolding bio_ssl_read
  read_fails room s max w w2 p n size bytes e bad into g held set =
      ground (arith, bad, into, g, held, set, sym (bio_read_error_lem e.0))

  pub read-Reads :
      (room : ℕ → Bool) (max : ℕ) (w : World (TlsObject lib) TlsStruct) (s i o : Ptr) (a : Pipe lib)
      → room (at_least_one max) ≡ true
      → ReadsWithin lib
      → IsWired w s i o a
      → Reads w (bio_ssl_read room s max w) s i o max (read_pipe max a w.errs)
  unfolding bio_ssl_read
  read-Reads room max w s i o a grant within h =
      let p = suc w.next in
      let size = at_least_one max in
      let w1 : World (TlsObject lib) TlsStruct = record w {
        next = p;
        cell = update w.cell p (some (raw size []));
      } in
      let unused : w.cell p ≡ none = h.fresh.unused p (omega arith) in
      let p_s : (p == s) ≡ false = ground (arith, unused, h.ssl_held) in
      let p_i : (p == i) ≡ false = ground (arith, unused, h.in_held) in
      let p_o : (p == o) ≡ false = ground (arith, unused, h.out_held) in
      let h1 : IsWired w1 s i o a = record {
        fresh = record {
          unused = λ x hx. ground (arith, hx, h.fresh.unused x);
          null_free = ground (arith, h.fresh.null_free);
        };
        ssl_held = ground (arith, h.ssl_held, p_s);
        in_held = ground (arith, h.in_held, p_i);
        out_held = ground (arith, h.out_held, p_o);
        apart = h.apart;
      } in
      let f = lib.read (to_int max) in
      let c = call_ssl-Called room f w1 s i o a h1 in
      let r = run_pipe f a w.errs in
      let n = r.0.0.0 in
      let bytes = r.0.0.1 in
      let fits : length bytes ≤ size =
        within max (record { state = a.state; input = some a.input; output = some a.output })
          w.errs in
      let p_held : c.after.cell p ≡ some (raw size []) = c.others p p_s p_i p_o ∙ ground arith in
      let w2 : World (TlsObject lib) TlsStruct = record (c.after) {
        cell = update c.after.cell p (some (raw size bytes));
      } in
      let h2 : IsWired w2 s i o r.0.1 = record {
        fresh = record {
          unused = λ x hx. ground (arith, hx, c.wired.fresh.unused x, c.same_next);
          null_free = ground (arith, c.wired.fresh.null_free);
        };
        ssl_held = ground (arith, c.wired.ssl_held, p_s);
        in_held = ground (arith, c.wired.in_held, p_i);
        out_held = ground (arith, c.wired.out_held, p_o);
        apart = h.apart;
      } in
      let into : read_into room s max w ≡ done (p, n) w2 =
        ground (arith, grant, c.runs, p_held, fits, append-nil bytes) in
      let g = get_error_runs room w2 s i o r.0.1 n h2 in
      let e = lib.get_error r.0.1.state n r.1 in
      elim (Bool-cases (is_negative n)) [
        | inl bad ↦ rw bad (record {
          after = record (w2) { cell = update w2.cell p none; errs = e.1 };
          buf = p;
          runs =
              read_fails room s max w w2 p n size bytes e bad into
                (g
                  ∙ ap
                      (λ q.
                        done (lib.get_error r.0.1.state n q).0
                          (record w2 { errs = (lib.get_error r.0.1.state n q).1 }))
                      c.errs)
                (ground arith) (ground arith);
          new = unused;
          set = ground arith;
          holds = ground arith;
          wired = record {
            fresh = record {
              unused = λ x hx. ground (arith, hx, h2.fresh.unused x);
              null_free = ground (arith, h2.fresh.null_free);
            };
            ssl_held = ground (arith, h2.ssl_held, p_s);
            in_held = ground (arith, h2.in_held, p_i);
            out_held = ground (arith, h2.out_held, p_o);
            apart = h.apart;
          };
          others = λ x h3 h4 h5 h6. ground (arith, h6, c.others x h3 h4 h5);
          errs = refl;
        })
        | inr good ↦ rw good (record {
          after = w2;
          buf = p;
          runs = ground (arith, into, good);
          new = unused;
          set = ground arith;
          holds = ground arith;
          wired = h2;
          others = λ x h3 h4 h5 h6. ground (arith, h6, c.others x h3 h4 h5);
          errs = c.errs;
        })
      ]
