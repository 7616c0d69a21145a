-- ===== src/Tls/Pipe/Calls.antt =====
-- The operations of src/tls.c on an SSL with two memory BIOs, which do what they do of a pipe.
use openssl_wasm.Common.{
  ℕ, ◌==◌, ◌≡◌, ◌∙◌, ap, refl, Bool, true, false, inl, inr, Bool-cases, some, List, length, arith,
}
use openssl_wasm.Memory.{Queue, Cmd, Ptr, null, World, Run, done, object, update, and_then, pure}
use openssl_wasm.Tls.Structs.{TlsStruct}
use openssl_wasm.Tls.Openssl.{
  ℤ, is_negative, is_positive, to_unsigned, to_int, Openssl, TlsObject, bio,
}
use openssl_wasm.Tls.Ssl.{get_error}
use openssl_wasm.Tls.Data.{wants, run_handshake, feed_bio, bio_ssl_write, bio_ssl_shutdown}
use openssl_wasm.Tls.Pipe.{
  Pipe, Outcome, mapped, run_pipe, handshake_pipe, shutdown_pipe, write_pipe, feed_pipe,
}
use openssl_wasm.Tls.Pipe.Wired.{IsWired, Called, call_ssl-Called}

module _ {lib : Openssl} (room : ℕ → Bool) where
  -- The same call, with its result mapped and the error queue changed.
  pub finish-Called :
      {A B : Type 0} (w : World (TlsObject lib) TlsStruct) (run : Run (TlsObject lib) TlsStruct A)
      (k : A → Cmd (TlsObject lib) TlsStruct B) (s i o : Ptr) (r : (A × Pipe lib) × Queue) (v : B)
      (q : Queue) (fin : Bool)
      → (c : Called w run s i o r) → k r.0.0 c.after ≡ done v (record (c.after) { errs = q })
      → Called w (and_then run k) s i o ((v, record (r.0.1) { finished = fin }), q)
  finish-Called w run k s i o r v q fin c runs = record {
    after = record (c.after) { errs = q };
    runs = ap (λ z. and_then z k) c.runs ∙ runs;
    wired = record {
      fresh = record { unused = c.wired.fresh.unused; null_free = c.wired.fresh.null_free };
      ssl_held = c.wired.ssl_held;
      in_held = c.wired.in_held;
      out_held = c.wired.out_held;
      apart = c.wired.apart;
    };
    others = c.others;
    same_next = c.same_next;
    errs = refl;
  }

  -- The same call, with its result mapped to an outcome.
  pub mapped-Called :
      {A : Type 0} (f : A → Outcome) (w : World (TlsObject lib) TlsStruct)
      (run : Run (TlsObject lib) TlsStruct A) (s i o : Ptr) (r : (A × Pipe lib) × Queue)
      → Called w run s i o r
      → Called w (and_then run (λ v. pure (f v))) s i o (mapped f r)
  mapped-Called f w run s i o r c =
      finish-Called w run (λ v. pure (f v)) s i o r (f r.0.0) r.1 r.0.1.finished c
        (ground (arith, c.errs))

  pub get_error_runs :
      (w : World (TlsObject lib) TlsStruct) (s i o : Ptr) (a : Pipe lib) (rc : ℤ)
      → IsWired w s i o a
      → get_error s rc w
        ≡ done
            (lib.get_error a.state rc w.errs).0
            (record w { errs = (lib.get_error a.state rc w.errs).1 })
  get_error_runs w s i o a rc h = ground (arith, h.ssl_held)

  pub shutdown-Called :
      (w : World (TlsObject lib) TlsStruct) (s i o : Ptr) (a : Pipe lib)
      → IsWired w s i o a
      → Called w (bio_ssl_shutdown room s w) s i o (shutdown_pipe a w.errs)
  unfolding bio_ssl_shutdown
  shutdown-Called w s i o a h =
      let c = call_ssl-Called room lib.shutdown w s i o a h in
      let r = run_pipe lib.shutdown a w.errs in
      let g = get_error_runs c.after s i o r.0.1 r.0.0 c.wired in
      elim (Bool-cases (is_negative r.0.0)) [
        | inl bad ↦
            rw bad
              (finish-Called w _ _ s i o r _ _ r.0.1.finished c (ground (arith, g, bad, c.errs)))
        | inr good ↦
            rw good
              (finish-Called w _ _ s i o r _ _ r.0.1.finished c (ground (arith, good, c.errs)))
      ]

  pub handshake-Called :
      (w : World (TlsObject lib) TlsStruct) (s i o : Ptr) (a : Pipe lib)
      → IsWired w s i o a
      → Called w (run_handshake room s w) s i o (handshake_pipe a w.errs)
  unfolding run_handshake
  handshake-Called w s i o a h =
      let c = call_ssl-Called room lib.do_handshake w s i o a h in
      let r = run_pipe lib.do_handshake a w.errs in
      let g = get_error_runs c.after s i o r.0.1 r.0.0 c.wired in
      let e = (lib.get_error r.0.1.state r.0.0 r.1).0 in
      elim (Bool-cases (to_unsigned r.0.0 == 1)) [
        | inl good ↦ rw good (finish-Called w _ _ s i o r _ _ true c (ground (arith, good, c.errs)))
        | inr bad ↦ elim (Bool-cases (wants e)) [
          | inl more ↦
              rw (bad, more)
                (finish-Called w _ _ s i o r _ _ r.0.1.finished c
                  (ground (arith, g, bad, more, c.errs)))
          | inr less ↦
              rw (bad, less)
                (finish-Called w _ _ s i o r _ _ r.0.1.finished c
                  (ground (arith, g, bad, less, c.errs)))
        ]
      ]

  pub write-Called :
      (bytes : List ℕ) (w : World (TlsObject lib) TlsStruct) (s i o : Ptr) (a : Pipe lib)
      → IsWired w s i o a
      → Called w (bio_ssl_write room s bytes w) s i o (write_pipe bytes a w.errs)
  unfolding bio_ssl_write
  write-Called bytes w s i o a h =
      let f = lib.write bytes (to_int (length bytes)) in
      let c = call_ssl-Called room f w s i o a h in
      let r = run_pipe f a w.errs in
      let g = get_error_runs c.after s i o r.0.1 r.0.0 c.wired in
      elim (Bool-cases (length bytes == 0)) [
        | inl empty ↦ rw empty (record {
          after = w;
          runs = refl;
          wired = h;
          others = λ x h1 h2 h3. refl;
          same_next = refl;
          errs = refl;
        })
        | inr full ↦ elim (Bool-cases (is_positive r.0.0)) [
          | inl good ↦
              rw (full, good)
                (finish-Called w _ _ s i o r _ _ r.0.1.finished c (ground (arith, good, c.errs)))
          | inr bad ↦
              rw (full, bad)
                (finish-Called w _ _ s i o r _ _ r.0.1.finished c (ground (arith, g, bad, c.errs)))
        ]
      ]

  pub feed-Called :
      (bytes : List ℕ) (w : World (TlsObject lib) TlsStruct) (s i o : Ptr) (a : Pipe lib)
      → IsWired w s i o a
      → Called w (feed_bio room i bytes w) s i o (feed_pipe bytes a w.errs)
  unfolding feed_bio
  feed-Called bytes w s i o a h =
      let r = lib.bio_write bytes (to_int (length bytes)) a.input w.errs in
      let s_i : (s == i) ≡ false = ground (arith, h.ssl_held, h.in_held) in
      let i_set : (i == null) ≡ false = ground (arith, h.in_held, h.fresh.null_free) in
      elim (Bool-cases (length bytes == 0)) [
        | inl empty ↦ rw empty (record {
          after = w;
          runs = refl;
          wired = h;
          others = λ x h1 h2 h3. refl;
          same_next = refl;
          errs = refl;
        })
        | inr full ↦ rw full (record {
          after = record {
            next = w.next;
            cell = update w.cell i (some (object (bio r.0.1)));
            errs = r.1;
          };
          runs = ground (arith, h.in_held);
          wired = record {
            fresh = record {
              unused = λ y hy. ground (arith, hy, h.fresh.unused y, h.in_held);
              null_free = ground (arith, h.fresh.null_free, i_set);
            };
            ssl_held = ground (arith, h.ssl_held, s_i);
            in_held = ground arith;
            out_held = ground (arith, h.out_held, h.apart);
            apart = h.apart;
          };
          others = λ x h1 h2 h3. ground (arith, h2);
          same_next = refl;
          errs = refl;
        })
      ]
