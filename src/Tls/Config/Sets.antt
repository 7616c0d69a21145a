-- ===== src/Tls/Config/Sets.antt =====
-- The configuration of an SSL_CTX in src/tls.c changes nothing but the SSL_CTX.
use openssl_wasm.Common.{
  ℕ, suc, ◌+◌, ◌==◌, ◌≡◌, ◌∙◌, refl, Bool, true, false, inl, inr, Bool-cases, if◌then◌else◌, Option,
  none, some, List, [], ◌∷◌, ◌++◌, length, arith,
}
use openssl_wasm.Memory.{
  Ptr, null, Cell, raw, struct, object, World, Run, done, abort, fault, update, and_then, pure,
  at_least_one,
}
use openssl_wasm.Memory.Contract.{IsFresh}
use openssl_wasm.Tls.CString.{c_string, copy_c_string_runs, with_copy}
use openssl_wasm.Tls.Alpn.{alpn_wire, alpn_total}
use openssl_wasm.Tls.Alpn.Next.{NextIs, alpn_wire-NextIs}
use openssl_wasm.Tls.Alpn.Wire.{Writes, alpn_wire_lem, wire_value}
use openssl_wasm.Tls.Structs.{TlsStruct}
use openssl_wasm.Tls.Openssl.{
  CtxSetting, set_min_proto_version, set_max_proto_version, set_keylog_callback, set_cert_store,
  use_certificate, use_private_key, set_alpn_protos, set_cipher_list, set_ciphersuites,
  set1_groups_list, set_verify, Openssl, TlsObject, ssl_ctx, x509_store, x509, evp_pkey, TlsCmd,
}
use openssl_wasm.Tls.Ssl.{ctx_set}
use openssl_wasm.Tls.Config.{
  ClientConfig, ProtocolRange, CipherPreferences, proto_version, set_string, apply_protocols,
  apply_ciphers, apply_groups, set_trust, set_cert, set_key, offer_wire, offer_alpn, set_keylog,
  client_verify_mode, configure_client,
}

-- strlen finds a NUL at the end, if not before.
pub c_string_ends : (s : List ℕ) → (t : List ℕ) × (c_string (s ++ 0 ∷ []) ≡ some t)
c_string_ends [] = ([], refl)
c_string_ends (c ∷ s) = elim (Bool-cases (c == 0)) [
  | inl zero_byte ↦ ([], ground (arith, zero_byte))
  | inr other ↦ (c ∷ (c_string_ends s).0, ground (arith, other, (c_string_ends s).1))
]

module _ {lib : Openssl} where
  -- The world `w` has an SSL_CTX at `ctx`.
  pub record IsConfigured (w0 w : World (TlsObject lib) TlsStruct) (ctx : Ptr) : Type 0 where
    pub value : lib.Ctx
    pub fresh : IsFresh w
    pub held : w.cell ctx ≡ some (object (ssl_ctx value))
    pub others : (x : Ptr) → (x == ctx) ≡ false → w.cell x ≡ w0.cell x

  -- The command leaves an SSL_CTX at `ctx` and the rest of the memory as it was at first.
  abbrev pub Sets :
      World (TlsObject lib) TlsStruct → Ptr → Run (TlsObject lib) TlsStruct (Unit {0}) → Type 0
  Sets w0 ctx (done t w) = IsConfigured w0 w ctx
  Sets w0 ctx abort = ⊥
  Sets w0 ctx fault = ⊥

  pub then-Sets :
      (w0 : World (TlsObject lib) TlsStruct) (ctx : Ptr)
      (run : Run (TlsObject lib) TlsStruct (Unit {0})) (k : TlsCmd lib (Unit {0}))
      → Sets w0 ctx run
      → ((w : World (TlsObject lib) TlsStruct) → IsConfigured w0 w ctx → Sets w0 ctx (k w))
      → Sets w0 ctx (and_then run (λ t. k))
  then-Sets w0 ctx (done t w) k h next = next w h
  then-Sets w0 ctx abort k h next = h
  then-Sets w0 ctx fault k h next = h

  pub ctx_set-Sets :
      (w0 w : World (TlsObject lib) TlsStruct) (ctx : Ptr)
      (s : CtxSetting lib.Store lib.Cert lib.Key)
      → IsConfigured w0 w ctx
      → Sets w0 ctx (ctx_set ctx s w)
  ctx_set-Sets w0 w ctx s h =
      let r = lib.ctx_set s h.value w.errs in
      let runs : ctx_set ctx s w
          ≡ done tt (record {
            next = w.next;
            cell = update w.cell ctx (some (object (ssl_ctx r.0.1)));
            errs = r.1;
          }) =
        ground (arith, h.held) in
      rw runs (record {
        value = r.0.1;
        fresh = record {
          unused = λ x hx. ground (arith, hx, h.fresh.unused x, h.held);
          null_free = ground (arith, h.fresh.null_free, h.held);
        };
        held = ground arith;
        others = λ x hx. ground (arith, hx, h.others x);
      })

  module _ (room : ℕ → Bool) (grants : (n : ℕ) → room n ≡ true) where
    pub set_string-Sets :
        (w0 w : World (TlsObject lib) TlsStruct) (ctx : Ptr)
        (setting : List ℕ → CtxSetting lib.Store lib.Cert lib.Key) (v : Option (List ℕ))
        → IsConfigured w0 w ctx
        → Sets w0 ctx (set_string room ctx setting v w)
    set_string-Sets w0 w ctx setting none h = h
    set_string-Sets w0 w ctx setting (some v) h =
        let p = suc w.next in
        let copied = copy_c_string_runs room v w (grants (length v + 1)) in
        let t = c_string_ends v in
        let r = lib.ctx_set (setting t.0) h.value w.errs in
        let unused : w.cell p ≡ none = h.fresh.unused p (omega arith) in
        let p_c : (p == ctx) ≡ false = ground (arith, unused, h.held) in
        let c =
          update (update (with_copy room v w).cell ctx (some (object (ssl_ctx r.0.1)))) p none in
        let runs : set_string room ctx setting (some v) w
            ≡ done tt (record { next = p; cell = c; errs = r.1 }) =
          ground (arith, copied, t.1, h.held, p_c) in
        rw runs (record {
          value = r.0.1;
          fresh = record {
            unused = λ x hx. ground (arith, hx, h.fresh.unused x, h.held);
            null_free = ground (arith, h.fresh.null_free, h.held);
          };
          held = ground (arith, p_c);
          others = λ x hx. ground (arith, hx, h.others x, unused);
        })

    wire-Sets :
        (w0 w : World (TlsObject lib) TlsStruct) (ctx : Ptr)
        (run : Run (TlsObject lib) TlsStruct (Ptr × ℕ)) (v : Option (List ℕ))
        → IsConfigured w0 w ctx
        → Writes w run v
        → NextIs (suc w.next) run
        → Sets w0 ctx (and_then run (offer_wire room ctx))
    wire-Sets w0 w ctx (done (p, n) w') none h y next =
        let runs : offer_wire room ctx (p, n) w' ≡ done tt w' = ground (arith, y.0) in
        rw runs (record {
          value = h.value;
          fresh = record {
            unused = λ x hx. y.2 x ∙ h.fresh.unused x (ground (arith, hx, next));
            null_free = y.2 null ∙ h.fresh.null_free;
          };
          held = y.2 ctx ∙ h.held;
          others = λ x hx. y.2 x ∙ h.others x hx;
        })
    wire-Sets w0 w ctx (done (p, n) w') (some bs) h y next = go (w'.cell p) refl
      where
        go :
            (c : Option (Cell (TlsObject lib) TlsStruct))
            → w'.cell p ≡ c
            → Sets w0 ctx (offer_wire room ctx (p, n) w')
        go none e = absurd (ground (arith, e, y.0))
        go (some (struct r)) e = absurd (ground (arith, e, y.0))
        go (some (object o)) e = absurd (ground (arith, e, y.0))
        go (some (raw k old)) e =
            let p_c : (p == ctx) ≡ false = ground (arith, y.2, h.held) in
            let at_ctx : w'.cell ctx ≡ some (object (ssl_ctx h.value)) =
              ground (arith, y.3 ctx, p_c, h.held) in
            let r = lib.ctx_set (set_alpn_protos old) h.value w'.errs in
            let c = update (update w'.cell ctx (some (object (ssl_ctx r.0.1)))) p none in
            let runs : offer_wire room ctx (p, n) w'
                ≡ done tt (record { next = w'.next; cell = c; errs = r.1 }) =
              ground (arith, y.5, e, at_ctx, p_c) in
            rw runs (record {
              value = r.0.1;
              fresh = record {
                unused = λ x hx. ground (arith, hx, next, h.fresh.unused x, h.held, y.3 x);
                null_free = ground (arith, h.fresh.null_free, y.3 null, h.held);
              };
              held = ground (arith, p_c);
              others = λ x hx. ground (arith, hx, h.others x, y.2, y.3 x);
            })
    wire-Sets w0 w ctx abort v h y next = y
    wire-Sets w0 w ctx fault v h y next = y

    offer_alpn-Sets :
        (w0 w : World (TlsObject lib) TlsStruct) (ctx : Ptr) (a : Option (List (List ℕ)))
        → IsConfigured w0 w ctx
        → Sets w0 ctx (offer_alpn room ctx a w)
    unfolding alpn_wire
    offer_alpn-Sets w0 w ctx none h = h
    offer_alpn-Sets w0 w ctx (some ps) h =
        wire-Sets w0 w ctx (alpn_wire room (some ps) w) (wire_value ps) h
          (alpn_wire_lem room ps w h.fresh (grants (at_least_one (alpn_total ps)))).0
          (alpn_wire-NextIs room ps w (grants (at_least_one (alpn_total ps))))

    set_keylog-Sets :
        (w0 w : World (TlsObject lib) TlsStruct) (ctx : Ptr) (on : Bool)
        → IsConfigured w0 w ctx
        → Sets w0 ctx (set_keylog room ctx on w)
    set_keylog-Sets w0 w ctx true h = ctx_set-Sets w0 w ctx set_keylog_callback h
    set_keylog-Sets w0 w ctx false h = h

    version-Sets :
        (w0 w : World (TlsObject lib) TlsStruct) (ctx : Ptr) (v : ℕ)
        (s : CtxSetting lib.Store lib.Cert lib.Key)
        → IsConfigured w0 w ctx
        → Sets w0 ctx ((if v == 0 then pure tt else ctx_set ctx s) w)
    version-Sets w0 w ctx v s h = elim (Bool-cases (v == 0)) [
      | inl off ↦ rw off h
      | inr on ↦ rw on (ctx_set-Sets w0 w ctx s h)
    ]

    apply_protocols-Sets :
        (w0 w : World (TlsObject lib) TlsStruct) (ctx : Ptr) (r : ProtocolRange)
        → IsConfigured w0 w ctx
        → Sets w0 ctx (apply_protocols room ctx r w)
    unfolding apply_protocols
    apply_protocols-Sets w0 w ctx r h =
        then-Sets w0 ctx _ _
          (version-Sets w0 w ctx (proto_version r.min) (set_min_proto_version (proto_version r.min))
            h)
          (λ v g.
            version-Sets w0 v ctx (proto_version r.max)
              (set_max_proto_version (proto_version r.max)) g)

    apply_ciphers-Sets :
        (w0 w : World (TlsObject lib) TlsStruct) (ctx : Ptr) (c : Option CipherPreferences)
        → IsConfigured w0 w ctx
        → Sets w0 ctx (apply_ciphers room ctx c w)
    unfolding apply_ciphers
    apply_ciphers-Sets w0 w ctx none h = h
    apply_ciphers-Sets w0 w ctx (some c) h =
        then-Sets w0 ctx _ _ (set_string-Sets w0 w ctx set_cipher_list c.tls12 h)
          (λ v g. set_string-Sets w0 v ctx set_ciphersuites c.tls13 g)

    apply_groups-Sets :
        (w0 w : World (TlsObject lib) TlsStruct) (ctx : Ptr) (s : Option (List ℕ))
        → IsConfigured w0 w ctx
        → Sets w0 ctx (apply_groups room ctx s w)
    unfolding apply_groups
    apply_groups-Sets w0 w ctx s h = set_string-Sets w0 w ctx set1_groups_list s h

    -- The handles of a configuration stand for objects of their kinds.
    pub record HasObjects (w : World (TlsObject lib) TlsStruct) (cfg : ClientConfig) : Type 0 where
      pub trust :
          (p : Ptr)
          → cfg.trust ≡ some p
          → (s : lib.Store) × (w.cell p ≡ some (object (x509_store s)))
      pub cert :
          (p : Ptr)
          → cfg.client_cert ≡ some p
          → (c : lib.Cert) × (w.cell p ≡ some (object (x509 c)))
      pub key :
          (p : Ptr)
          → cfg.client_key ≡ some p
          → (k : lib.Key) × (w.cell p ≡ some (object (evp_pkey k)))

    set_trust-Sets :
        (w0 w : World (TlsObject lib) TlsStruct) (ctx : Ptr) (t : Option Ptr)
        → ((p : Ptr) → t ≡ some p → (s : lib.Store) × (w0.cell p ≡ some (object (x509_store s))))
        → w0.cell ctx ≡ none
        → IsConfigured w0 w ctx
        → Sets w0 ctx (set_trust room ctx t w)
    set_trust-Sets w0 w ctx none has new h = h
    set_trust-Sets w0 w ctx (some p) has new h =
        let o = has p refl in
        let held : w.cell p ≡ some (object (x509_store o.0)) =
          ground (arith, h.others p, o.1, new) in
        let runs : set_trust room ctx (some p) w ≡ ctx_set ctx (set_cert_store o.0) w =
          ground (arith, held) in
        rw runs (ctx_set-Sets w0 w ctx (set_cert_store o.0) h)

    set_cert-Sets :
        (w0 w : World (TlsObject lib) TlsStruct) (ctx : Ptr) (t : Option Ptr)
        → ((p : Ptr) → t ≡ some p → (s : lib.Cert) × (w0.cell p ≡ some (object (x509 s))))
        → w0.cell ctx ≡ none
        → IsConfigured w0 w ctx
        → Sets w0 ctx (set_cert room ctx t w)
    set_cert-Sets w0 w ctx none has new h = h
    set_cert-Sets w0 w ctx (some p) has new h =
        let o = has p refl in
        let held : w.cell p ≡ some (object (x509 o.0)) = ground (arith, h.others p, o.1, new) in
        let runs : set_cert room ctx (some p) w ≡ ctx_set ctx (use_certificate o.0) w =
          ground (arith, held) in
        rw runs (ctx_set-Sets w0 w ctx (use_certificate o.0) h)

    set_key-Sets :
        (w0 w : World (TlsObject lib) TlsStruct) (ctx : Ptr) (t : Option Ptr)
        → ((p : Ptr) → t ≡ some p → (s : lib.Key) × (w0.cell p ≡ some (object (evp_pkey s))))
        → w0.cell ctx ≡ none
        → IsConfigured w0 w ctx
        → Sets w0 ctx (set_key room ctx t w)
    set_key-Sets w0 w ctx none has new h = h
    set_key-Sets w0 w ctx (some p) has new h =
        let o = has p refl in
        let held : w.cell p ≡ some (object (evp_pkey o.0)) = ground (arith, h.others p, o.1, new) in
        let runs : set_key room ctx (some p) w ≡ ctx_set ctx (use_private_key o.0) w =
          ground (arith, held) in
        rw runs (ctx_set-Sets w0 w ctx (use_private_key o.0) h)

    -- configure_client changes nothing but the SSL_CTX.
    pub configure_client-Sets :
        (w0 w : World (TlsObject lib) TlsStruct) (ctx : Ptr) (cfg : ClientConfig)
        → HasObjects w0 cfg
        → w0.cell ctx ≡ none
        → IsConfigured w0 w ctx
        → Sets w0 ctx (configure_client room ctx cfg w)
    unfolding configure_client
    configure_client-Sets w0 w ctx cfg has new h =
        then-Sets w0 ctx _ _ (apply_protocols-Sets w0 w ctx cfg.protocols h) (λ w1 h1.
          then-Sets w0 ctx _ _ (apply_ciphers-Sets w0 w1 ctx cfg.ciphers h1) (λ w2 h2.
            then-Sets w0 ctx _ _ (apply_groups-Sets w0 w2 ctx cfg.groups h2) (λ w3 h3.
              then-Sets w0 ctx _ _
                (ctx_set-Sets w0 w3 ctx (set_verify (client_verify_mode cfg.verify)) h3)
                (λ w4 h4.
                  then-Sets w0 ctx _ _ (set_trust-Sets w0 w4 ctx cfg.trust has.trust new h4)
                    (λ w5 h5.
                      then-Sets w0 ctx _ _ (set_cert-Sets w0 w5 ctx cfg.client_cert has.cert new h5)
                        (λ w6 h6.
                          then-Sets w0 ctx _ _
                            (set_key-Sets w0 w6 ctx cfg.client_key has.key new h6)
                            (λ w7 h7.
                              then-Sets w0 ctx _ _ (set_keylog-Sets w0 w7 ctx cfg.keylog h7)
                                (λ w8 h8. offer_alpn-Sets w0 w8 ctx cfg.alpn h8))))))))
