-- ===== src/Digest/Context.antt =====
-- The streaming digest context of src/component.c. A handle is the address of its struct.
use openssl_wasm.Common.{ℕ, Bool, not, ◌==◌, if◌then◌else◌, Option, none, some, List}
use openssl_wasm.Memory.{
  Cmd, Ptr, null, Result, ok, err, Buffer, ◌>>=◌, ◌>>◌, pure, call, call_on, xmalloc,
  xmalloc_struct, free, new_object, load, load_struct, store_struct, free_object, at_least_one,
}
use openssl_wasm.Digest.Algs.{digest_md, digest_is_xof}
use openssl_wasm.Digest.Evp.{EvpMd}
use openssl_wasm.Digest.OneShot.{DigestError, xof_required, ContextRep, internal_error, returned}

module _ (evp : EvpMd) (room : ℕ → Bool) where
  -- exports_openssl_component_digest_context_destructor; drop_own on a handle runs it.
  unfoldable pub destructor : Ptr → Cmd evp.Ctx ContextRep (Unit {0})
  destructor rep =
      if rep == null then pure tt else do r ← load_struct rep; free_object r.ctx; free rep

  -- exports_openssl_component_digest_constructor_context. The struct's
  -- 8 bytes are filled in as the fields are assigned.
  unfoldable pub constructor_context : ℕ → Cmd evp.Ctx ContextRep Ptr
  constructor_context alg = do
    self ← xmalloc_struct room 8 (record { ctx = null; alg = alg })
    c ← call evp.ctx_new
    ctx ← new_object c
    store_struct self (record { ctx = ctx; alg = alg })
    elim (digest_md evp.build alg) [
      | none ↦ pure self
      | some md ↦
          if ctx == null then pure self else do started ← call_on ctx (evp.init md); pure self
    ]

  -- exports_openssl_component_digest_method_context_update
  unfoldable pub context_update :
      Ptr → List ℕ → Cmd evp.Ctx ContextRep (Result DigestError (Unit {0}))
  context_update self input = do
    r ← load_struct self
    if r.ctx == null
        then internal_error
        else do fed ← call_on r.ctx (evp.update input); if fed then pure (ok tt) else internal_error

  -- The context at a pointer that may be NULL.
  abbrev context_at : Ptr → Cmd evp.Ctx ContextRep (Option evp.Ctx)
  context_at p = if p == null then pure none else do c ← load p; pure (some c)

  -- exports_openssl_component_digest_static_context_finish
  unfoldable pub context_finish : Ptr → Cmd evp.Ctx ContextRep (Result DigestError Buffer)
  unfolding destructor digest_is_xof
  context_finish handle = do
    r ← load_struct handle
    if digest_is_xof r.alg then (do destructor handle; pure (err xof_required)) else do
      c ← context_at r.ctx
      p ← xmalloc room (evp.ctx_size c)
      out ← if r.ctx == null then pure none else call_on r.ctx evp.final
      destructor handle
      returned p out

  -- exports_openssl_component_digest_static_context_finish_xof
  unfoldable pub context_finish_xof : Ptr → ℕ → Cmd evp.Ctx ContextRep (Result DigestError Buffer)
  unfolding destructor digest_is_xof
  context_finish_xof handle out_len = do
    r ← load_struct handle
    if not (digest_is_xof r.alg) then (do destructor handle; pure (err xof_required)) else do
      p ← xmalloc room (at_least_one out_len)
      out ← if r.ctx == null then pure none else call_on r.ctx (evp.final_xof out_len)
      destructor handle
      returned p out

  -- exports_openssl_component_digest_method_context_clone
  unfoldable pub context_clone : Ptr → Cmd evp.Ctx ContextRep Ptr
  context_clone self = do
    src ← load_struct self
    dst ← xmalloc_struct room 8 (record { ctx = null; alg = src.alg })
    c ← call evp.ctx_new
    ctx ← new_object c
    store_struct dst (record { ctx = ctx; alg = src.alg })
    if ctx == null
        then pure dst
        else if src.ctx == null
        then pure dst
        else do from ← load src.ctx; copied ← call_on ctx (evp.copy from); pure dst
