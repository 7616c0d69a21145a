-- ===== src/Mac/Context.antt =====
-- new_mac_ctx of src/mac.c, and calls on a context.

use mathlib.Core.Option
use openssl_wasm.Common.{ℕ, ◌==◌, if◌then◌else◌, Option, none, some, List}
use openssl_wasm.Memory.{
  Queue, Cmd, Ptr, null, fault, Result, ok, err, ◌>>=◌, ◌>>◌, pure, call, new_object, load, store,
  free_object, peek_last_error,
}
use openssl_wasm.Mac.Params.{
  MacError, unsupported_algorithm, internal, MacParams, mac_name, build_mac_params, EvpMac,
  MacObject, mac, mac_ctx,
}

-- mac_ctx_rep
pub record MacRep : Type 0 where
  pub ctx : Ptr

abbrev pub MacCmd : EvpMac → Type 0 → Type 0
MacCmd evp A = Cmd (MacObject evp) MacRep A

abbrev pub internal_error : {evp : EvpMac} {A : Type 0} → MacCmd evp (Result MacError A)
internal_error = do e ← peek_last_error; pure (err (internal e))

module _ (evp : EvpMac) where
  -- A call on the EVP_MAC_CTX at a pointer.
  abbrev pub call_ctx :
      {A : Type 0} → Ptr → (evp.Ctx → Queue → (A × evp.Ctx) × Queue) → MacCmd evp A
  call_ctx p f = do
    o ← load p
    elim o [
      | mac k ↦ λ w. fault
      | mac_ctx c ↦ (do (a, c') ← call (f c); store p (mac_ctx c'); pure a)
    ]

  -- EVP_MAC_CTX_new on the EVP_MAC at a pointer.
  abbrev pub ctx_new_at : Ptr → MacCmd evp (Option (MacObject evp))
  ctx_new_at p = do
    o ← load p
    elim o [
      | mac k ↦ (do c ← call (evp.ctx_new k); pure (Option.map mac_ctx c))
      | mac_ctx c ↦ λ w. fault
    ]

  -- new_mac_ctx: the context, or the error.
  unfoldable pub new_mac_ctx : ℕ → List ℕ → MacParams → MacCmd evp (Result MacError Ptr)
  new_mac_ctx alg key p = elim (mac_name alg) [
    | none ↦ pure (err unsupported_algorithm)
    | some name ↦ do
      m ← call (evp.fetch name)
      mp ← new_object (Option.map mac m)
      if mp == null then pure (err unsupported_algorithm) else do
        c ← ctx_new_at mp
        ctx ← new_object c
        free_object mp
        if ctx == null then pure (err (internal 0)) else elim (build_mac_params alg p) [
          | err e ↦ (do free_object ctx; pure (err e))
          | ok params ↦ (do
            started ← call_ctx ctx (evp.init key params)
            if started
                then pure (ok ctx)
                else do e ← peek_last_error; free_object ctx; pure (err (internal e)))
        ]
  ]
