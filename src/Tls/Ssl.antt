-- ===== src/Tls/Ssl.antt =====
-- Calls on an SSL_CTX, an SSL or a BIO of src/tls.c, and keylog_cb.
use openssl_wasm.Common.{ℕ, Bool, ◌==◌, if◌then◌else◌, Option, none, some, List, [], ◌∷◌}
use openssl_wasm.Memory.{
  Queue, Ptr, null, fault, ◌>>=◌, ◌>>◌, pure, call, load, store, load_struct, store_struct,
  free_object,
}
use openssl_wasm.Tls.Structs.{keylog_in, with_keylog}
use openssl_wasm.Tls.Keylog.{keylog_buf_append}
use openssl_wasm.Tls.Openssl.{
  ℤ, CtxSetting, SslSetting, Protocol, Openssl, SslObject, ssl_ctx, ssl, bio, TlsCmd,
}

module _ {lib : Openssl} where
  -- A call on the SSL_CTX at a pointer.
  abbrev pub call_ctx :
      {A : Type 0} → Ptr → (lib.Ctx → Queue → (A × lib.Ctx) × Queue) → TlsCmd lib A
  call_ctx p f = do
    o ← load p
    elim o [ ssl_ctx c ↦ (do (a, c') ← call (f c); store p (ssl_ctx c'); pure a) | _ ↦ λ w. fault ]

  abbrev pub load_ctx : Ptr → TlsCmd lib lib.Ctx
  load_ctx p = do o ← load p; elim o [ ssl_ctx c ↦ pure c | _ ↦ λ w. fault ]

  abbrev pub ctx_set : Ptr → CtxSetting lib.Store lib.Cert lib.Key → TlsCmd lib (Unit {0})
  ctx_set p s = call_ctx p (lib.ctx_set s)

  -- The SSL at a pointer, without a change.
  abbrev pub load_ssl : Ptr → TlsCmd lib (SslObject lib.Ssl)
  load_ssl p = do o ← load p; elim o [ ssl s ↦ pure s | _ ↦ λ w. fault ]

  abbrev pub ssl_set : Ptr → SslSetting → TlsCmd lib (Unit {0})
  ssl_set p v = do
    s ← load_ssl p
    (a, t) ← call (lib.ssl_set v s.state)
    store p (ssl (record s { state = t }))

  -- SSL_set_ex_data at the index of keylog_ssl_ex_idx
  abbrev pub set_ex_data : Ptr → Ptr → TlsCmd lib (Unit {0})
  set_ex_data p buf = do s ← load_ssl p; store p (ssl (record s { ex_data = buf }))

  -- SSL_set_bio
  abbrev pub set_bio : Ptr → Ptr → Ptr → TlsCmd lib (Unit {0})
  set_bio p rbio wbio = do s ← load_ssl p; store p (ssl (record s { rbio = rbio; wbio = wbio }))

  -- SSL_free, which frees the BIOs that the SSL has too.
  abbrev pub ssl_free : Ptr → TlsCmd lib (Unit {0})
  ssl_free p = do s ← load_ssl p; free_object s.rbio; free_object s.wbio; free_object p

  -- SSL_get_error
  abbrev pub get_error : Ptr → ℤ → TlsCmd lib ℕ
  get_error p rc = do s ← load_ssl p; call (lib.get_error s.state rc)

  -- A call on the BIO at a pointer.
  abbrev pub call_bio :
      {A : Type 0} → Ptr → (lib.Bio → Queue → (A × lib.Bio) × Queue) → TlsCmd lib A
  call_bio p f = do
    o ← load p
    elim o [ bio b ↦ (do (a, c) ← call (f b); store p (bio c); pure a) | _ ↦ λ w. fault ]

  abbrev pub load_bio : Ptr → TlsCmd lib lib.Bio
  load_bio p = do o ← load p; elim o [ bio b ↦ pure b | _ ↦ λ w. fault ]

  -- The memory BIO of an SSL, if it has one.
  abbrev pub bio_of : Ptr → TlsCmd lib (Option lib.Bio)
  bio_of p = if p == null then pure none else (do b ← load_bio p; pure (some b))

  abbrev pub put_bio : Ptr → Option lib.Bio → TlsCmd lib (Unit {0})
  put_bio p none = pure tt
  put_bio p (some b) = if p == null then pure tt else store p (bio b)

  module _ (room : ℕ → Bool) where
    -- keylog_cb of an SSL with this ex-data, and keylog_buf_append's return for a buffer that is NULL.
    unfoldable pub keylog_cb : Ptr → List ℕ → TlsCmd lib (Unit {0})
    keylog_cb ex_data line = if ex_data == null then pure tt else (do
      r ← load_struct ex_data
      elim (keylog_in r) [
        | none ↦ λ w. fault
        | some b ↦ (do b' ← keylog_buf_append room b line; store_struct ex_data (with_keylog b' r))
      ])

    abbrev pub log_lines : Ptr → List (List ℕ) → TlsCmd lib (Unit {0})
    log_lines ex_data [] = pure tt
    log_lines ex_data (l ∷ ls) = do keylog_cb ex_data l; log_lines ex_data ls

    -- A call that runs the protocol of the SSL at a pointer.
    abbrev pub call_ssl : {A : Type 0} → Ptr → Protocol lib.Ssl lib.Bio A → TlsCmd lib A
    call_ssl p f = do
      s ← load_ssl p
      i ← bio_of s.rbio
      o ← bio_of s.wbio
      (a, (e, lines)) ← call (f (record { state = s.state; input = i; output = o }))
      store p (ssl (record s { state = e.state }))
      put_bio s.rbio e.input
      put_bio s.wbio e.output
      log_lines s.ex_data lines
      pure a
