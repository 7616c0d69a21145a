-- ===== src/Tls/MemBioClient/New.antt =====
-- mem_bio_client_new of src/tls.c: on every path it returns, and it leaves nothing behind when it fails.
use openssl_wasm.Common.{
  ℕ, ◌<◌, suc, ◌+◌, ◌==◌, ◌≡◌, ◌∙◌, ap, refl, Bool, true, false, ◌||◌, inl, inr, Bool-cases,
  if◌then◌else◌, Option, none, some, List, length, arith,
}
use openssl_wasm.Memory.{
  Queue, Ptr, null, Cell, struct, object, World, Run, Result, ok, err, done, abort, fault, update,
  and_then, ◌>>=◌, ◌>>◌, pure, free, free_object, xmalloc_struct,
}
use openssl_wasm.Memory.Contract.{IsFresh}
use openssl_wasm.Tls.CString.{copy_c_string, copy_c_string_runs, with_copy}
use openssl_wasm.Tls.Structs.{MemBioClientRep, TlsStruct, mem_bio_client}
use openssl_wasm.Tls.Keylog.{keylog_buf_init}
use openssl_wasm.Tls.Openssl.{
  TlsError, as_client, set_tlsext_host_name, set1_host, set_connect_state, Openssl, TlsObject,
  ssl_ctx, ssl, bio, TlsCmd,
}
use openssl_wasm.Tls.Ssl.{ssl_set, set_bio, ssl_free}
use openssl_wasm.Tls.Config.{ClientConfig, wants_dtls, new_ctx}
use openssl_wasm.Tls.MemBioClient.{new_on, mem_bio_client_new}
use openssl_wasm.Tls.Config.Sets.{
  c_string_ends, IsConfigured, Sets, HasObjects, configure_client-Sets,
}
use openssl_wasm.Tls.Connection.{bad, new_bio, new_ssl, set_host}
use openssl_wasm.Tls.Pipe.{Pipe}
use openssl_wasm.Tls.Pipe.Resource.{IsAt}
use openssl_wasm.Tls.MemBioClient.Ops.{client_resource}

module _ {lib : Openssl} (room : ℕ → Bool) (grants : (n : ℕ) → room n ≡ true) where
  -- A new client lies at `p`: its handshake is not done, and its struct, SSL, BIOs and SSL_CTX lie
  -- where `w0` has nothing.
  pub record IsNew (w0 w : World (TlsObject lib) TlsStruct) (p : Ptr) : Type 0 where
    pub rep : MemBioClientRep
    pub pipe : Pipe lib
    pub ctx : lib.Ctx
    pub at : IsAt client_resource w p rep pipe
    pub ctx_held : w.cell rep.ctx ≡ some (object (ssl_ctx ctx))
    pub unfinished : pipe.finished ≡ false
    pub struct_new : w0.cell p ≡ none
    pub ssl_new : w0.cell rep.ssl ≡ none
    pub in_new : w0.cell rep.in_bio ≡ none
    pub out_new : w0.cell rep.out_bio ≡ none
    pub ctx_new : w0.cell rep.ctx ≡ none
    pub others :
        (x : Ptr)
        → (x == p) ≡ false
        → (x == rep.ssl) ≡ false
        → (x == rep.in_bio) ≡ false
        → (x == rep.out_bio) ≡ false
        → (x == rep.ctx) ≡ false
        → w.cell x ≡ w0.cell x

  -- The constructor gives a new client, or an error with the memory as it was.
  abbrev pub Opens :
      World (TlsObject lib) TlsStruct → Run (TlsObject lib) TlsStruct (Result TlsError Ptr) → Type 0
  Opens w0 (done (ok p) w) = IsNew w0 w p
  Opens w0 (done (err e) w) = (x : Ptr) → w.cell x ≡ w0.cell x
  Opens w0 abort = ⊥
  Opens w0 fault = ⊥

  -- There are an SSL_CTX at `ctx` and an SSL without BIOs at `s`, and the rest of the memory is `w0`.
  record IsPaired (w0 w : World (TlsObject lib) TlsStruct) (ctx s : Ptr) : Type 0 where
    value : lib.Ctx
    state : lib.Ssl
    fresh : IsFresh w
    ctx_held : w.cell ctx ≡ some (object (ssl_ctx value))
    ssl_held :
        w.cell s
        ≡ some (object (ssl (record { state = state; ex_data = null; rbio = null; wbio = null })))
    ctx_new : w0.cell ctx ≡ none
    ssl_new : w0.cell s ≡ none
    others : (x : Ptr) → (x == ctx) ≡ false → (x == s) ≡ false → w.cell x ≡ w0.cell x

  -- The end of the constructor, without a key log buffer.
  abbrev finish_new : Ptr → Ptr → TlsCmd lib (Result TlsError Ptr)
  finish_new ctx s = do
    in_bio ← new_bio room
    out_bio ← new_bio room
    if in_bio == null || out_bio == null
        then (do
          free_object in_bio
          free_object out_bio
          ssl_free s
          free_object ctx
          pure (err bad))
        else (do
          set_bio s in_bio out_bio
          ssl_set s set_connect_state
          r ← xmalloc_struct room 32 (
              mem_bio_client (record {
                ctx = ctx;
                ssl = s;
                in_bio = in_bio;
                out_bio = out_bio;
                handshake_done = false;
                keylog = keylog_buf_init;
              }))
          pure (ok r))

  finish_new-Opens :
      (w0 w : World (TlsObject lib) TlsStruct) (ctx s : Ptr)
      → IsPaired w0 w ctx s
      → Opens w0 (finish_new ctx s w)
  finish_new-Opens w0 w ctx s h =
      go (lib.bio_new w.errs) refl (lib.bio_new (lib.bio_new w.errs).1) refl
    where
      c_s : (ctx == s) ≡ false
      c_s = ground (arith, h.ctx_held, h.ssl_held)

      go :
          (b : Option lib.Bio × Queue)
          → lib.bio_new w.errs ≡ b
          → (d : Option lib.Bio × Queue) → lib.bio_new (lib.bio_new w.errs).1 ≡ d
          → Opens w0 (finish_new ctx s w)
      go (none, q) e (none, q2) f =
          let runs : finish_new ctx s w
              ≡ done (err bad) (record {
                next = w.next;
                cell = update (update w.cell s none) ctx none;
                errs = q2;
              }) =
            ground (arith, e, f, h.ssl_held, h.ctx_held, c_s, h.fresh.null_free) in
          rw runs (λ x. ground (arith, h.others x, h.ctx_new, h.ssl_new))
      go (some b, q) e (none, q2) f =
          let i = suc w.next in
          let unused : w.cell i ≡ none = h.fresh.unused i (omega arith) in
          let i_c : (i == ctx) ≡ false = ground (arith, unused, h.ctx_held) in
          let i_s : (i == s) ≡ false = ground (arith, unused, h.ssl_held) in
          let c =
            update (update (update (update w.cell i (some (object (bio b)))) i none) s none) ctx
              none in
          let runs : finish_new ctx s w
              ≡ done (err bad) (record { next = i; cell = c; errs = q2 }) =
            ground (arith, e, f, h.ssl_held, h.ctx_held, c_s, i_c, i_s) in
          rw runs (λ x. ground (arith, h.others x, h.ctx_new, h.ssl_new, unused))
      go (none, q) e (some d, q2) f =
          let i = suc w.next in
          let unused : w.cell i ≡ none = h.fresh.unused i (omega arith) in
          let i_c : (i == ctx) ≡ false = ground (arith, unused, h.ctx_held) in
          let i_s : (i == s) ≡ false = ground (arith, unused, h.ssl_held) in
          let c =
            update (update (update (update w.cell i (some (object (bio d)))) i none) s none) ctx
              none in
          let runs : finish_new ctx s w
              ≡ done (err bad) (record { next = i; cell = c; errs = q2 }) =
            ground (arith, e, f, h.ssl_held, h.ctx_held, c_s, i_c, i_s) in
          rw runs (λ x. ground (arith, h.others x, h.ctx_new, h.ssl_new, unused))
      go (some b, q) e (some d, q2) f =
          let i = suc w.next in
          let o = suc i in
          let p = suc o in
          let unused : (x : Ptr) → w.next < x → w.cell x ≡ none = h.fresh.unused in
          let i_new : w.cell i ≡ none = unused i (omega arith) in
          let o_new : w.cell o ≡ none = unused o (omega arith) in
          let p_new : w.cell p ≡ none = unused p (omega arith) in
          let i_c : (i == ctx) ≡ false = ground (arith, i_new, h.ctx_held) in
          let i_s : (i == s) ≡ false = ground (arith, i_new, h.ssl_held) in
          let o_c : (o == ctx) ≡ false = ground (arith, o_new, h.ctx_held) in
          let o_s : (o == s) ≡ false = ground (arith, o_new, h.ssl_held) in
          let p_c : (p == ctx) ≡ false = ground (arith, p_new, h.ctx_held) in
          let p_s : (p == s) ≡ false = ground (arith, p_new, h.ssl_held) in
          let r = lib.ssl_set set_connect_state h.state q2 in
          let wired_ssl : lib.Ssl → Cell (TlsObject lib) TlsStruct =
            λ t. object (ssl (record { state = t; ex_data = null; rbio = i; wbio = o })) in
          let rep : MemBioClientRep = record {
            ctx = ctx;
            ssl = s;
            in_bio = i;
            out_bio = o;
            handshake_done = false;
            keylog = keylog_buf_init;
          } in
          let c1 = update (update w.cell i (some (object (bio b)))) o (some (object (bio d))) in
          let c =
            update (update (update c1 s (some (wired_ssl h.state))) s (some (wired_ssl r.0.1))) p
              (some (struct (mem_bio_client rep))) in
          let runs : finish_new ctx s w ≡ done (ok p) (record { next = p; cell = c; errs = r.1 }) =
            ground (arith, e, f, h.ssl_held, i_s, o_s, grants 32) in
          rw runs (record {
            rep = rep;
            pipe = record { state = r.0.1; input = b; output = d; finished = false };
            ctx = h.value;
            at = record {
              held = ground arith;
              wired = record {
                fresh = record {
                  unused = λ x hx. ground (arith, hx, unused x, h.ssl_held);
                  null_free = ground (arith, h.fresh.null_free, h.ssl_held);
                };
                ssl_held = ground (arith, p_s);
                in_held = ground (arith, i_s);
                out_held = ground (arith, o_s);
                apart = ground arith;
              };
              finished = refl;
            };
            ctx_held = ground (arith, h.ctx_held, c_s, i_c, o_c, p_c);
            unfinished = refl;
            struct_new = ground (arith, p_new, p_c, p_s, h.others p);
            ssl_new = h.ssl_new;
            in_new = ground (arith, i_new, i_c, i_s, h.others i);
            out_new = ground (arith, o_new, o_c, o_s, h.others o);
            ctx_new = h.ctx_new;
            others = λ x x1 x2 x3 x4 x5. ground (arith, x1, x2, x3, x4, x5, h.others x);
          })

  -- The host name, and the end of the constructor.
  abbrev name_and_finish : Option (List ℕ) → Ptr → Ptr → TlsCmd lib (Result TlsError Ptr)
  name_and_finish name ctx s = do
    elim name [ none ↦ pure tt | some v ↦ (do p ← copy_c_string room v; set_host room s p; free p) ]
    finish_new ctx s

  name-Opens :
      (w0 w : World (TlsObject lib) TlsStruct) (ctx s : Ptr) (name : Option (List ℕ))
      → IsPaired w0 w ctx s
      → Opens w0 (name_and_finish name ctx s w)
  name-Opens w0 w ctx s none h = finish_new-Opens w0 w ctx s h
  name-Opens w0 w ctx s (some v) h =
      let p = suc w.next in
      let copied = copy_c_string_runs room v w (grants (length v + 1)) in
      let t = c_string_ends v in
      let r1 = lib.ssl_set (set_tlsext_host_name t.0) h.state w.errs in
      let r2 = lib.ssl_set (set1_host t.0) r1.0.1 r1.1 in
      let unused : w.cell p ≡ none = h.fresh.unused p (omega arith) in
      let p_s : (p == s) ≡ false = ground (arith, unused, h.ssl_held) in
      let p_c : (p == ctx) ≡ false = ground (arith, unused, h.ctx_held) in
      let c_s : (ctx == s) ≡ false = ground (arith, h.ctx_held, h.ssl_held) in
      let bare : lib.Ssl → Cell (TlsObject lib) TlsStruct =
        λ u. object (ssl (record { state = u; ex_data = null; rbio = null; wbio = null })) in
      let c =
        update
          (update (update (with_copy room v w).cell s (some (bare r1.0.1))) s (some (bare r2.0.1)))
          p none in
      let w2 : World (TlsObject lib) TlsStruct = record { next = p; cell = c; errs = r2.1 } in
      let runs : name_and_finish (some v) ctx s w ≡ finish_new ctx s w2 =
        ground (arith, copied, t.1, h.ssl_held, p_s) in
      rw runs (
        finish_new-Opens w0 w2 ctx s (record {
          value = h.value;
          state = r2.0.1;
          fresh = record {
            unused = λ x hx. ground (arith, hx, h.fresh.unused x, h.ssl_held);
            null_free = ground (arith, h.fresh.null_free, h.ssl_held);
          };
          ctx_held = ground (arith, h.ctx_held, p_c, c_s);
          ssl_held = ground (arith, p_s);
          ctx_new = h.ctx_new;
          ssl_new = h.ssl_new;
          others = λ x x1 x2. ground (arith, x1, x2, h.others x, unused);
        }))

  after_config :
      (w0 : World (TlsObject lib) TlsStruct) (ctx : Ptr)
      (run : Run (TlsObject lib) TlsStruct (Unit {0})) (k : TlsCmd lib (Result TlsError Ptr))
      → Sets w0 ctx run
      → ((w : World (TlsObject lib) TlsStruct) → IsConfigured w0 w ctx → Opens w0 (k w))
      → Opens w0 (and_then run (λ t. k))
  after_config w0 ctx (done t w) k h next = next w h
  after_config w0 ctx abort k h next = h
  after_config w0 ctx fault k h next = h

  abbrev paired : Option (List ℕ) → Ptr → Ptr → TlsCmd lib (Result TlsError Ptr)
  paired name ctx s =
      if s == null then (do free_object ctx; pure (err bad)) else name_and_finish name ctx s

  -- The constructor from SSL_new on.
  abbrev pair_and_finish : Option (List ℕ) → Ptr → TlsCmd lib (Result TlsError Ptr)
  pair_and_finish name ctx = do s ← new_ssl room ctx; paired name ctx s

  new_ssl_runs :
      (w w1 : World (TlsObject lib) TlsStruct) (ctx : Ptr) (c : lib.Ctx) (st : lib.Ssl) (q : Queue)
      → w.cell ctx ≡ some (object (ssl_ctx c))
      → lib.ssl_new c w.errs ≡ (some st, q)
      → w1 ≡ record {
        next = suc w.next;
        cell =
            update w.cell (suc w.next) (
              some
                (object (ssl (record { state = st; ex_data = null; rbio = null; wbio = null }))));
        errs = q;
      }
      → new_ssl room ctx w ≡ done (suc w.next) w1
  new_ssl_runs w w1 ctx c st q held e same = ground (arith, held, e, same)

  pair-Opens :
      (w0 w : World (TlsObject lib) TlsStruct) (ctx : Ptr) (name : Option (List ℕ))
      → w0.cell ctx ≡ none
      → IsConfigured w0 w ctx
      → Opens w0 (pair_and_finish name ctx w)
  pair-Opens w0 w ctx name new h = go (lib.ssl_new h.value w.errs) refl
    where
      go :
          (r : Option lib.Ssl × Queue)
          → lib.ssl_new h.value w.errs ≡ r
          → Opens w0 (pair_and_finish name ctx w)
      go (none, q) e =
          let runs : pair_and_finish name ctx w
              ≡ done (err bad) (record { next = w.next; cell = update w.cell ctx none; errs = q }) =
            ground (arith, h.held, e, h.fresh.null_free) in
          rw runs (λ x. ground (arith, h.others x, new))
      go (some st, q) e =
          let s = suc w.next in
          let unused : w.cell s ≡ none = h.fresh.unused s (omega arith) in
          let s_c : (s == ctx) ≡ false = ground (arith, unused, h.held) in
          let w1 : World (TlsObject lib) TlsStruct = record {
            next = s;
            cell = update w.cell s (
                some
                  (object (ssl (record { state = st; ex_data = null; rbio = null; wbio = null }))));
            errs = q;
          } in
          let set : (s == null) ≡ false = ground arith in
          let set_paired : paired name ctx s w1 ≡ name_and_finish name ctx s w1 = rw set refl in
          let runs : pair_and_finish name ctx w ≡ name_and_finish name ctx s w1 =
            ap (λ z. and_then z (paired name ctx))
              (new_ssl_runs w w1 ctx h.value st q h.held e refl)
            ∙ set_paired in
          rw runs (
            name-Opens w0 w1 ctx s name (record {
              value = h.value;
              state = st;
              fresh = record {
                unused = λ x hx. ground (arith, hx, h.fresh.unused x);
                null_free = ground (arith, h.fresh.null_free);
              };
              ctx_held = ground (arith, h.held, s_c);
              ssl_held = ground arith;
              ctx_new = new;
              ssl_new = ground (arith, h.others s, s_c, unused);
              others = λ x x1 x2. ground (arith, x1, x2, h.others x);
            }))

  -- mem_bio_client_new gives a new client, whose handshake is not done, whose struct, SSL, two memory
  -- BIOs and SSL_CTX are all new, at addresses that held nothing, or it gives an error. On every path
  -- it returns, but for these five the memory is as before, and so a failure leaves nothing behind.
  -- This holds without a key log, where the handles of the configuration are good and malloc does not
  -- fail.
  pub mem_bio_client_new_lem :
      (w : World (TlsObject lib) TlsStruct) (cfg : ClientConfig)
      → IsFresh w
      → HasObjects room grants w cfg
      → cfg.keylog ≡ false
      → Opens w (mem_bio_client_new room cfg w)
  unfolding mem_bio_client_new
  mem_bio_client_new_lem w cfg fresh has quiet = elim (Bool-cases (wants_dtls cfg.protocols)) [
    | inl dtls ↦ rw dtls (λ x. refl)
    | inr tls ↦ rw tls (go (lib.ctx_new as_client w.errs) refl)
  ]
    where
      after_ctx : Ptr → TlsCmd lib (Result TlsError Ptr)
      after_ctx ctx = if ctx == null then pure (err bad) else new_on room ctx cfg

      go :
          (r : Option lib.Ctx × Queue)
          → lib.ctx_new as_client w.errs ≡ r
          → Opens w (and_then (new_ctx room as_client w) after_ctx)
      go (none, q) e =
          let runs : new_ctx room as_client w ≡ done null (record w { errs = q }) =
            ground (arith, e) in
          rw runs (λ x. refl)
      go (some c, q) e =
          let ctx = suc w.next in
          let w1 : World (TlsObject lib) TlsStruct = record {
            next = ctx;
            cell = update w.cell ctx (some (object (ssl_ctx c)));
            errs = q;
          } in
          let runs : new_ctx room as_client w ≡ done ctx w1 = ground (arith, e) in
          let set : (ctx == null) ≡ false = ground arith in
          let new : w.cell ctx ≡ none = fresh.unused ctx (omega arith) in
          rw (runs, set)
            (after_config w ctx _ _
              (configure_client-Sets room grants w w1 ctx cfg has new (record {
                value = c;
                fresh = record {
                  unused = λ x hx. ground (arith, hx, fresh.unused x);
                  null_free = ground (arith, fresh.null_free);
                };
                held = ground arith;
                others = λ x hx. ground (arith, hx);
              }))
              (λ v g. rw quiet (pair-Opens w v ctx cfg.server_name new g)))
