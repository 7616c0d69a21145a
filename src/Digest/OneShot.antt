-- ===== src/Digest/OneShot.antt =====
-- The one-shot digests of src/component.c and the two size queries.
use openssl_wasm.Common.{ℕ, Bool, not, ◌==◌, if◌then◌else◌, Option, none, some, List, length}
use openssl_wasm.Memory.{
  Cmd, Ptr, null, Result, ok, err, Buffer, ◌>>=◌, ◌>>◌, pure, call, call_on, xmalloc, free,
  new_object, free_object, write_at, peek_last_error, at_least_one,
}
use openssl_wasm.Digest.Algs.{Md, digest_md, digest_is_xof}
use openssl_wasm.Digest.Evp.{EvpMd}

-- digest-error
pub data DigestError : Type 0 where
  unsupported_algorithm xof_required : DigestError
  internal : ℕ → DigestError

-- The struct digest_context_rep.
pub record ContextRep : Type 0 where
  pub ctx : Ptr
  pub alg : ℕ

-- err->val.internal = ERR_peek_last_error()
abbrev pub internal_error : {O A : Type 0} → Cmd O ContextRep (Result DigestError A)
internal_error = do e ← peek_last_error; pure (err (internal e))

-- What OpenSSL wrote to `ret->ptr`, which is given back if it failed. `ret->len` is the length that
-- OpenSSL reports.
abbrev pub returned :
    {O : Type 0} → Ptr → Option (List ℕ) → Cmd O ContextRep (Result DigestError Buffer)
returned p none = do free p; internal_error
returned p (some bs) = do write_at p 0 bs; pure (ok (record { ptr = p; len = length bs }))

-- The same with `ret->len` set beforehand.
abbrev pub returned_xof :
    {O : Type 0} → Ptr → ℕ → Option (List ℕ) → Cmd O ContextRep (Result DigestError Buffer)
returned_xof p n none = do free p; internal_error
returned_xof p n (some bs) = do write_at p 0 bs; pure (ok (record { ptr = p; len = n }))

module _ (evp : EvpMd) (room : ℕ → Bool) where
  -- exports_openssl_component_digest_one_shot
  unfoldable pub one_shot : ℕ → List ℕ → Cmd evp.Ctx ContextRep (Result DigestError Buffer)
  unfolding digest_is_xof
  one_shot alg input = elim (digest_md evp.build alg) [
    | none ↦ pure (err unsupported_algorithm)
    | some md ↦
        if digest_is_xof alg
        then pure (err xof_required)
        else do p ← xmalloc room (evp.get_size md); out ← call (evp.digest md input); returned p out
  ]

  -- EVP_DigestInit_ex, EVP_DigestUpdate and EVP_DigestFinalXOF, each only if the one before
  -- returned 1.
  unfoldable pub absorb_xof : Md → List ℕ → ℕ → Ptr → Cmd evp.Ctx ContextRep (Option (List ℕ))
  absorb_xof md input out_len ctx = do
    started ← call_on ctx (evp.init md)
    if not started then pure none else do
      fed ← call_on ctx (evp.update input)
      if not fed then pure none else call_on ctx (evp.final_xof out_len)

  -- exports_openssl_component_digest_one_shot_xof
  unfoldable pub one_shot_xof : ℕ → List ℕ → ℕ → Cmd evp.Ctx ContextRep (Result DigestError Buffer)
  unfolding absorb_xof digest_is_xof
  one_shot_xof alg input out_len = elim (digest_md evp.build alg) [
    | none ↦ pure (err unsupported_algorithm)
    | some md ↦ if not (digest_is_xof alg) then pure (err xof_required) else do
      c ← call evp.ctx_new
      ctx ← new_object c
      if ctx == null then pure (err (internal 0)) else do
        p ← xmalloc room (at_least_one out_len)
        out ← absorb_xof md input out_len ctx
        free_object ctx
        returned_xof p out_len out
  ]

  -- exports_openssl_component_digest_output_size
  unfoldable pub output_size : ℕ → Cmd evp.Ctx ContextRep (Result DigestError ℕ)
  output_size alg = elim (digest_md evp.build alg) [
    | none ↦ pure (err unsupported_algorithm)
    | some md ↦ pure (ok (evp.get_size md))
  ]

  -- exports_openssl_component_digest_block_size
  unfoldable pub block_size : ℕ → Cmd evp.Ctx ContextRep (Result DigestError ℕ)
  block_size alg = elim (digest_md evp.build alg) [
    | none ↦ pure (err unsupported_algorithm)
    | some md ↦ pure (ok (evp.get_block_size md))
  ]
