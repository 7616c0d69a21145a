-- ===== src/Kdf/Derive.antt =====
-- `derive` of src/kdf.c, and that it implements the derivation as a value.
use Prim.Native.String.{String}
use mathlib.Core.List.{append-nil}
use mathlib.Core.Option
use openssl_wasm.Common.{
  ℕ, suc, ◌≡◌, refl, Bool, true, ◌==◌, if◌then◌else◌, Option, none, some, List, length, arith,
}
use openssl_wasm.Memory.{
  Queue, peek_last, World, Cmd, fault, Ptr, null, Result, ok, err, Buffer, ◌>>=◌, ◌>>◌, pure, call,
  xmalloc, free, new_object, load, store, free_object, write_at, peek_last_error,
}
use openssl_wasm.Memory.Contract.{IsFresh, Yields, output}
use openssl_wasm.Kdf.Evp.{Param, EvpKdf, KdfObject, kdf, kdf_ctx}

-- kdf-error
pub data KdfError : Type 0 where
  unsupported_algorithm invalid_parameter output_too_large : KdfError
  internal : ℕ → KdfError

-- The code allocates no struct.
abbrev pub KdfCmd : EvpKdf → Type 0 → Type 0
KdfCmd evp A = Cmd (KdfObject evp) ⊥ A

module _ (evp : EvpKdf) (room : ℕ → Bool) where
  -- EVP_KDF_CTX_new on the EVP_KDF at a pointer.
  abbrev ctx_new_at : Ptr → KdfCmd evp (Option (KdfObject evp))
  ctx_new_at p = do
    o ← load p
    elim o [
      | kdf k ↦ (do c ← call (evp.ctx_new k); pure (Option.map kdf_ctx c))
      | kdf_ctx c ↦ λ w. fault
    ]

  -- EVP_KDF_derive on the EVP_KDF_CTX at a pointer.
  abbrev derive_at : Ptr → ℕ → List Param → KdfCmd evp (Option (List ℕ))
  derive_at p out_len params = do
    o ← load p
    elim o [
      | kdf k ↦ λ w. fault
      | kdf_ctx c ↦ (do
        (out, c') ← call (evp.derive out_len params c)
        store p (kdf_ctx c')
        pure out)
    ]

  unfoldable pub derive : String → List Param → ℕ → KdfCmd evp (Result KdfError Buffer)
  derive name params out_len = do
    k ← call (evp.fetch name)
    kp ← new_object (Option.map kdf k)
    if kp == null then pure (err unsupported_algorithm) else do
      c ← ctx_new_at kp
      ctx ← new_object c
      free_object kp
      if ctx == null then pure (err (internal 0)) else do
        p ← xmalloc room (if out_len == 0 then 1 else out_len)
        out ← derive_at ctx out_len params
        free_object ctx
        elim out [
          | none ↦ (do free p; e ← peek_last_error; pure (err (internal e)))
          | some bs ↦ (do write_at p 0 bs; pure (ok (record { ptr = p; len = out_len })))
        ]

module _ (evp : EvpKdf) where
  abbrev or_internal : Option (List ℕ) → Queue → Result KdfError (List ℕ) × Queue
  or_internal none q = (err (internal (peek_last q)), q)
  or_internal (some bs) q = (ok bs, q)

  -- The derivation as a value.
  unfoldable pub derive_value : String → List Param → ℕ → Queue → Result KdfError (List ℕ) × Queue
  derive_value name params out_len q =
      let (k, q1) = evp.fetch name q in
      elim k [
        | none ↦ (err unsupported_algorithm, q1)
        | some kk ↦
            let (c, q2) = evp.ctx_new kk q1 in
            elim c [
              | none ↦ (err (internal 0), q2)
              | some cc ↦
                  let ((out, c'), q3) = evp.derive out_len params cc q2 in or_internal out q3
            ]
      ]

  -- EVP_KDF_derive fills the buffer that it is given.
  abbrev pub FillsBuffer : Type 0
  FillsBuffer =
      (n : ℕ) (params : List Param) (c : evp.Ctx) (q : Queue) (bs : List ℕ)
      → (evp.derive n params c q).0.0 ≡ some bs
      → length bs ≡ n

  -- For every KDF name, parameters and length: `derive` returns what EVP_KDF_derive gives in one
  -- new buffer of that length, or the error of the first call that fails with the memory as it
  -- was; the fetched KDF and its context are freed on every path.
  pub derive_lem :
      (room : ℕ → Bool) (name : String) (params : List Param) (out_len : ℕ)
      (w : World (KdfObject evp) ⊥)
      → IsFresh w
      → FillsBuffer
      → room (if out_len == 0 then 1 else out_len) ≡ true
      → Yields w.cell
          (derive evp room name params out_len w)
          (derive_value name params out_len w.errs)
  unfolding derive derive_value
  derive_lem room name params out_len w fresh fills grants = split (evp.fetch name w.errs).0 refl
    where
      split :
          (k : Option evp.Kdf)
          → (evp.fetch name w.errs).0 ≡ k
          → Yields w.cell
              (derive evp room name params out_len w)
              (derive_value name params out_len w.errs)
      split none e = ground (arith, e)
      split (some k) e = let q1 = (evp.fetch name w.errs).1 in split_ctx (evp.ctx_new k q1).0 refl
        where
          split_ctx :
              (c : Option evp.Ctx)
              → (evp.ctx_new k (evp.fetch name w.errs).1).0 ≡ c
              → Yields w.cell
                  (derive evp room name params out_len w)
                  (derive_value name params out_len w.errs)
          split_ctx none e' = ground (arith, e, e', fresh.unused (suc w.next))
          split_ctx (some c) e' =
              let r = evp.derive out_len params c (evp.ctx_new k (evp.fetch name w.errs).1).1 in
              ground (
                arith,
                e,
                e',
                grants,
                fresh.unused (suc w.next),
                fresh.unused (suc (suc w.next)),
                fresh.unused (suc (suc (suc w.next))),
                append-nil (output r.0.0),
                fills out_len params c (evp.ctx_new k (evp.fetch name w.errs).1).1 (output r.0.0),
              )
