-- ===== src/Tls/Pipe/Resource.antt =====
-- A resource of src/tls.c that keeps an SSL with two memory BIOs in its struct, and runs of its operations.
use mathlib.Core.Path.{subst}
use openssl_wasm.Common.{
  ◌==◌, ◌≡◌, ◌∙◌, ap, sym, refl, Bool, false, ◌||◌, inl, inr, Bool-cases, some, List, [], ◌∷◌,
  arith,
}
use openssl_wasm.Memory.{Queue, Ptr, null, struct, World, Run, done, update, and_then, ◌>>=◌, pure}
use openssl_wasm.Tls.Structs.{TlsStruct}
use openssl_wasm.Tls.Data.{wants}
use openssl_wasm.Tls.Openssl.{to_unsigned, Openssl, TlsObject, TlsCmd}
use openssl_wasm.Tls.Pipe.{
  Pipe, Op, do_handshake, shutdown, write, feed, Outcome, run_pipe, op_pipe, ops_pipe, is_shook,
  any_shook,
}
use openssl_wasm.Tls.Pipe.Wired.{IsWired, Called}

-- The struct of a resource, and what of it the operations use.
pub record Resource : Type 1 where
  pub Rep : Type 0
  pub to_struct : Rep → TlsStruct
  pub ssl_of : Rep → Ptr
  pub in_of : Rep → Ptr
  pub out_of : Rep → Ptr
  pub done_of : Rep → Bool

module _ {lib : Openssl} where
  op_finishes :
      (op : Op) (a : Pipe lib) (q : Queue)
      → (op_pipe op a q).0.1.finished ≡ (a.finished || is_shook (op_pipe op a q).0.0)
  op_finishes do_handshake a q =
      let r = run_pipe lib.do_handshake a q in
      elim (Bool-cases (to_unsigned r.0.0 == 1)) [
        | inl good ↦ ground (arith, good)
        | inr bad ↦ elim (Bool-cases (wants (lib.get_error r.0.1.state r.0.0 r.1).0)) [
          | inl more ↦ ground (arith, bad, more)
          | inr less ↦ ground (arith, bad, less)
        ]
      ]
  op_finishes shutdown a q = ground arith
  op_finishes (write bytes) a q = ground arith
  op_finishes (feed bytes) a q = ground arith

  -- The pipe is finished if it was, or a do_handshake has succeeded.
  pub ops_finish :
      (ops : List Op) (a : Pipe lib) (q : Queue)
      → (ops_pipe ops a q).0.1.finished ≡ (a.finished || any_shook (ops_pipe ops a q).0.0)
  ops_finish [] a q = ground arith
  ops_finish (op ∷ ops) a q =
      let r = op_pipe op a q in ground (arith, op_finishes op a q, ops_finish ops r.0.1 r.1)

module _ {lib : Openssl} (res : Resource) where
  -- The struct `rep` of a resource lies at `p`, and its SSL and BIOs are the pipe.
  pub record IsAt (w : World (TlsObject lib) TlsStruct) (p : Ptr) (rep : res.Rep) (a : Pipe lib)
      : Type 0 where
    pub held : w.cell p ≡ some (struct (res.to_struct rep))
    pub wired : IsWired w (res.ssl_of rep) (res.in_of rep) (res.out_of rep) a
    pub finished : res.done_of rep ≡ a.finished

  -- The call returns the value and leaves the pipe of `r` behind the handle; but for the struct, its
  -- SSL and its BIOs, whose addresses stay, the memory is as before.
  pub record Acts {A : Type 0} (w : World (TlsObject lib) TlsStruct)
      (run : Run (TlsObject lib) TlsStruct A) (p : Ptr) (rep : res.Rep) (r : (A × Pipe lib) × Queue)
      : Type 0 where
    pub after : World (TlsObject lib) TlsStruct
    pub new : res.Rep
    pub runs : run ≡ done r.0.0 after
    pub at : IsAt after p new r.0.1
    pub same_ssl : res.ssl_of new ≡ res.ssl_of rep
    pub same_in : res.in_of new ≡ res.in_of rep
    pub same_out : res.out_of new ≡ res.out_of rep
    pub others :
        (x : Ptr)
        → (x == p) ≡ false
        → (x == res.ssl_of rep) ≡ false
        → (x == res.in_of rep) ≡ false
        → (x == res.out_of rep) ≡ false
        → after.cell x ≡ w.cell x
    pub errs : after.errs ≡ r.1

  -- A call on the SSL and its BIOs that leaves the struct as it is.
  pub kept-Acts :
      {A : Type 0} (w : World (TlsObject lib) TlsStruct) (run : Run (TlsObject lib) TlsStruct A)
      (p : Ptr) (rep : res.Rep) (a : Pipe lib) (r : (A × Pipe lib) × Queue)
      → IsAt w p rep a
      → Called w run (res.ssl_of rep) (res.in_of rep) (res.out_of rep) r
      → r.0.1.finished ≡ a.finished
      → Acts w run p rep r
  kept-Acts w run p rep a r h c same = record {
    after = c.after;
    new = rep;
    runs = c.runs;
    at = record {
      held =
          c.others p (ground (arith, h.held, h.wired.ssl_held))
            (ground (arith, h.held, h.wired.in_held)) (ground (arith, h.held, h.wired.out_held))
          ∙ h.held;
      wired = c.wired;
      finished = h.finished ∙ sym same;
    };
    same_ssl = refl;
    same_in = refl;
    same_out = refl;
    others = λ x h1 h2 h3 h4. c.others x h2 h3 h4;
    errs = c.errs;
  }

  -- Operations on a handle, one after the other.
  abbrev pub run_all : (Op → Ptr → TlsCmd lib Outcome) → List Op → Ptr → TlsCmd lib (List Outcome)
  run_all run [] p = pure []
  run_all run (op ∷ ops) p = do v ← run op p; vs ← run_all run ops p; pure (v ∷ vs)

  pub all-Acts :
      (run : Op → Ptr → TlsCmd lib Outcome)
      → ((op : Op) (w : World (TlsObject lib) TlsStruct) (p : Ptr) (rep : res.Rep) (a : Pipe lib)
          → IsAt w p rep a
          → Acts w (run op p w) p rep (op_pipe op a w.errs))
      → (ops : List Op) (w : World (TlsObject lib) TlsStruct) (p : Ptr) (rep : res.Rep)
        (a : Pipe lib)
      → IsAt w p rep a
      → Acts w (run_all run ops p w) p rep (ops_pipe ops a w.errs)
  all-Acts run each [] w p rep a h = record {
    after = w;
    new = rep;
    runs = refl;
    at = h;
    same_ssl = refl;
    same_in = refl;
    same_out = refl;
    others = λ x h1 h2 h3 h4. refl;
    errs = refl;
  }
  all-Acts run each (op ∷ ops) w p rep a h =
      let c = each op w p rep a h in
      let r = op_pipe op a w.errs in
      let t : Acts c.after (run_all run ops p c.after) p c.new (ops_pipe ops r.0.1 r.1) =
        subst (λ q. Acts c.after (run_all run ops p c.after) p c.new (ops_pipe ops r.0.1 q)) c.errs
          (all-Acts run each ops c.after p c.new r.0.1 c.at) in
      record {
        after = t.after;
        new = t.new;
        runs =
            ap (λ z. and_then z (λ v. run_all run ops p >>= λ vs. pure (v ∷ vs))) c.runs
            ∙ ap (λ z. and_then z (λ vs. pure (r.0.0 ∷ vs))) t.runs;
        at = t.at;
        same_ssl = t.same_ssl ∙ c.same_ssl;
        same_in = t.same_in ∙ c.same_in;
        same_out = t.same_out ∙ c.same_out;
        others = λ x h1 h2 h3 h4.
            t.others x h1 (ground (arith, h2, c.same_ssl)) (ground (arith, h3, c.same_in))
              (ground (arith, h4, c.same_out))
            ∙ c.others x h1 h2 h3 h4;
        errs = t.errs;
      }

  -- A call after which the struct is stored again, with the flag of the pipe.
  pub stored-Acts :
      {A : Type 0} (w : World (TlsObject lib) TlsStruct) (run : Run (TlsObject lib) TlsStruct A)
      (p : Ptr) (rep new : res.Rep) (a : Pipe lib) (r : (A × Pipe lib) × Queue)
      → IsAt w p rep a
      → (c : Called w run (res.ssl_of rep) (res.in_of rep) (res.out_of rep) r)
      → res.ssl_of new ≡ res.ssl_of rep
      → res.in_of new ≡ res.in_of rep
      → res.out_of new ≡ res.out_of rep
      → res.done_of new ≡ r.0.1.finished
      → Acts w
          (done r.0.0
            (record (c.after) { cell = update c.after.cell p (some (struct (res.to_struct new))) }))
          p
          rep
          r
  stored-Acts w run p rep new a r h c same_ssl same_in same_out flag =
      let s_p : (res.ssl_of rep == p) ≡ false = ground (arith, h.held, h.wired.ssl_held) in
      let i_p : (res.in_of rep == p) ≡ false = ground (arith, h.held, h.wired.in_held) in
      let o_p : (res.out_of rep == p) ≡ false = ground (arith, h.held, h.wired.out_held) in
      let p_kept : c.after.cell p ≡ some (struct (res.to_struct rep)) =
        c.others p (ground (arith, s_p)) (ground (arith, i_p)) (ground (arith, o_p)) ∙ h.held in
      let p_set : (p == null) ≡ false = ground (arith, h.held, h.wired.fresh.null_free) in
      record {
        after = record (c.after) {
          cell = update c.after.cell p (some (struct (res.to_struct new)));
        };
        new = new;
        runs = refl;
        at = record {
          held = ground arith;
          wired = record {
            fresh = record {
              unused = λ y hy. ground (arith, hy, c.wired.fresh.unused y, p_kept);
              null_free = ground (arith, c.wired.fresh.null_free, p_set);
            };
            ssl_held = ground (arith, c.wired.ssl_held, s_p, same_ssl, same_in, same_out);
            in_held = ground (arith, c.wired.in_held, i_p, same_in);
            out_held = ground (arith, c.wired.out_held, o_p, same_out);
            apart = ground (arith, c.wired.apart, same_in, same_out);
          };
          finished = flag;
        };
        same_ssl = same_ssl;
        same_in = same_in;
        same_out = same_out;
        others = λ x h1 h2 h3 h4. ground (arith, h1, c.others x h2 h3 h4);
        errs = c.errs;
      }
