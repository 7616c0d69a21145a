-- ===== src/Mac/OneShot.antt =====
-- The exported functions of src/mac.c. A handle is the address of its struct.
use openssl_wasm.Common.{ℕ, Bool, not, ◌==◌, if◌then◌else◌, Option, none, some, List, [], length}
use openssl_wasm.Memory.{
  Ptr, null, fault, Result, ok, err, Buffer, ◌>>=◌, ◌>>◌, pure, call, xmalloc, xmalloc_struct, free,
  new_object, load, load_struct, store_struct, free_object, write_at, set_errs, at_least_one,
}
use openssl_wasm.Mac.Params.{MacError, MacParams, EvpMac, MacObject, mac, mac_ctx}
use openssl_wasm.Mac.Context.{MacCmd, internal_error, call_ctx, new_mac_ctx}
use mathlib.Core.Option

module _ (evp : EvpMac) (room : ℕ → Bool) where
  -- `one_shot` from the first EVP_MAC_final on.
  unfoldable pub finish_mac : Ptr → MacCmd evp (Result MacError Buffer)
  finish_mac ctx = do
    sized ← call_ctx evp ctx evp.final_size
    elim sized [
      | none ↦ (do free_object ctx; internal_error)
      | some n ↦ (do
        p ← xmalloc room (at_least_one n)
        out ← call_ctx evp ctx (evp.final n)
        elim out [
          | none ↦ (do free p; free_object ctx; internal_error)
          | some bs ↦ (do
            write_at p 0 bs
            free_object ctx
            pure (ok (record { ptr = p; len = length bs })))
        ])
    ]

  -- exports_openssl_component_mac_one_shot
  unfoldable pub mac_one_shot :
      ℕ → List ℕ → List ℕ → MacParams → MacCmd evp (Result MacError Buffer)
  mac_one_shot alg key input params = do
    made ← new_mac_ctx evp alg key params
    elim made [
      | err e ↦ pure (err e)
      | ok ctx ↦ (do
        fed ← call_ctx evp ctx (evp.update input)
        if not fed then (do free_object ctx; internal_error) else finish_mac ctx)
    ]

  -- exports_openssl_component_mac_constructor_context; the struct has 4 bytes. ERR_clear_error
  -- empties the queue if there is no context.
  unfoldable pub mac_constructor : ℕ → List ℕ → MacParams → MacCmd evp Ptr
  mac_constructor alg key params = do
    self ← xmalloc_struct room 4 (record { ctx = null })
    made ← new_mac_ctx evp alg key params
    elim made [
      | err e ↦ (do set_errs []; pure self)
      | ok ctx ↦ (do store_struct self (record { ctx = ctx }); pure self)
    ]

  -- exports_openssl_component_mac_method_context_update
  unfoldable pub mac_update : Ptr → List ℕ → MacCmd evp (Result MacError (Unit {0}))
  mac_update self input = do
    r ← load_struct self
    if r.ctx == null then internal_error else do
      fed ← call_ctx evp r.ctx (evp.update input)
      if fed then pure (ok tt) else internal_error

  -- exports_openssl_component_mac_context_destructor; drop_own on a handle runs it.
  unfoldable pub mac_destructor : Ptr → MacCmd evp (Unit {0})
  mac_destructor rep =
      if rep == null then pure tt else do r ← load_struct rep; free_object r.ctx; free rep

  -- The two calls of EVP_MAC_final in `finish`: the buffer, if both return 1.
  unfoldable pub take_mac : Ptr → MacCmd evp (Option Buffer)
  take_mac ctx = if ctx == null then pure none else do
    sized ← call_ctx evp ctx evp.final_size
    elim sized [
      | none ↦ pure none
      | some n ↦ (do
        p ← xmalloc room (at_least_one n)
        out ← call_ctx evp ctx (evp.final n)
        elim out [
          | none ↦ (do free p; pure none)
          | some bs ↦ (do write_at p 0 bs; pure (some (record { ptr = p; len = length bs })))
        ])
    ]

  -- exports_openssl_component_mac_static_context_finish
  unfoldable pub mac_finish : Ptr → MacCmd evp (Result MacError Buffer)
  unfolding take_mac mac_destructor
  mac_finish handle = do
    r ← load_struct handle
    out ← take_mac r.ctx
    mac_destructor handle
    elim out [ none ↦ internal_error | some b ↦ pure (ok b) ]

  -- EVP_MAC_CTX_dup of the context at a pointer.
  abbrev dup_at : Ptr → MacCmd evp (Option (MacObject evp))
  dup_at p = do
    o ← load p
    elim o [
      | mac k ↦ λ w. fault
      | mac_ctx c ↦ (do d ← call (evp.dup c); pure (Option.map mac_ctx d))
    ]

  -- exports_openssl_component_mac_method_context_clone
  unfoldable pub mac_clone : Ptr → MacCmd evp Ptr
  mac_clone self = do
    src ← load_struct self
    dst ← xmalloc_struct room 4 (record { ctx = null })
    if src.ctx == null then pure dst else do
      d ← dup_at src.ctx
      ctx ← new_object d
      store_struct dst (record { ctx = ctx })
      pure dst
