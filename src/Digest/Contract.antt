-- ===== src/Digest/Contract.antt =====
-- What the one-shot digests return, without their memory, and that the code implements it.
use mathlib.Core.List.{append-nil}
use openssl_wasm.Common.{
  ℕ, suc, ◌≡◌, ◌≤◌, refl, Bool, true, not, if◌then◌else◌, Option, none, some, List, length, arith,
}
use openssl_wasm.Memory.{Queue, peek_last, World, Result, ok, err, at_least_one}
use openssl_wasm.Memory.Contract.{IsFresh, Yields, output}
use openssl_wasm.Digest.Algs.{Md, digest_md, digest_is_xof}
use openssl_wasm.Digest.Evp.{EvpMd}
use openssl_wasm.Digest.OneShot.{
  DigestError, unsupported_algorithm, xof_required, internal, ContextRep, one_shot, one_shot_xof,
}

abbrev pub or_internal : Option (List ℕ) × Queue → Result DigestError (List ℕ) × Queue
or_internal (none, q) = (err (internal (peek_last q)), q)
or_internal (some bs, q) = (ok bs, q)

module _ (evp : EvpMd) where
  unfoldable pub one_shot_value : ℕ → List ℕ → Queue → Result DigestError (List ℕ) × Queue
  one_shot_value alg input q = elim (digest_md evp.build alg) [
    | none ↦ (err unsupported_algorithm, q)
    | some md ↦
        if digest_is_xof alg then (err xof_required, q) else or_internal (evp.digest md input q)
  ]

  -- The calls on a context that one_shot_xof makes, on the context as a value.
  abbrev absorb_value : Md → List ℕ → ℕ → evp.Ctx → Queue → Option (List ℕ) × Queue
  absorb_value md input out_len c q =
      let ((started, c1), q1) = evp.init md c q in
      if not started
      then (none, q1)
      else let ((fed, c2), q2) = evp.update input c1 q1 in
        if not fed
        then (none, q2)
        else let ((out, c3), q3) = evp.final_xof out_len c2 q2 in (out, q3)

  unfoldable pub one_shot_xof_value : ℕ → List ℕ → ℕ → Queue → Result DigestError (List ℕ) × Queue
  one_shot_xof_value alg input out_len q = elim (digest_md evp.build alg) [
    | none ↦ (err unsupported_algorithm, q)
    | some md ↦
        if not (digest_is_xof alg)
        then (err xof_required, q)
        else let (made, q') = evp.ctx_new q in
          elim made [
            | none ↦ (err (internal 0), q')
            | some c ↦ or_internal (absorb_value md input out_len c q')
          ]
  ]

  -- What the documentation of EVP_Digest and EVP_DigestFinalXOF says of their output.
  pub record SizesHold : Type 0 where
    pub digest_fits :
        (md : Md) (input bs : List ℕ) (q : Queue)
        → (evp.digest md input q).0 ≡ some bs
        → length bs ≤ evp.get_size md
    pub xof_fills :
        (n : ℕ) (c : evp.Ctx) (bs : List ℕ) (q : Queue)
        → (evp.final_xof n c q).0.0 ≡ some bs
        → length bs ≡ n

  -- For every algorithm and input: the one-shot digest returns what EVP_Digest gives in one new
  -- buffer of exactly that length, or the error of the first check that fails with the memory as
  -- it was, and it neither aborts nor faults. This holds where malloc grants the digest sizes and
  -- EVP_Digest writes no more than the digest's size.
  pub one_shot_lem :
      (room : ℕ → Bool) (alg : ℕ) (input : List ℕ) (w : World evp.Ctx ContextRep)
      → IsFresh w
      → SizesHold
      → ((md : Md) → room (evp.get_size md) ≡ true)
      → Yields w.cell (one_shot evp room alg input w) (one_shot_value alg input w.errs)
  unfolding one_shot one_shot_value
  one_shot_lem room alg input w fresh sizes grants = split (digest_md evp.build alg) refl
    where
      split :
          (o : Option Md)
          → digest_md evp.build alg ≡ o
          → Yields w.cell (one_shot evp room alg input w) (one_shot_value alg input w.errs)
      split none e = ground (arith, e)
      split (some md) e =
          let bs = output (evp.digest md input w.errs).0 in
          ground (
            arith,
            e,
            grants md,
            fresh.unused (suc w.next),
            append-nil bs,
            sizes.digest_fits md input bs w.errs,
          )

  -- The same of the one-shot digest with a chosen length, for SHAKE: the context that it makes is
  -- freed on every path after it is made.
  pub one_shot_xof_lem :
      (room : ℕ → Bool) (alg : ℕ) (input : List ℕ) (out_len : ℕ) (w : World evp.Ctx ContextRep)
      → IsFresh w
      → SizesHold
      → room (at_least_one out_len) ≡ true
      → Yields w.cell
          (one_shot_xof evp room alg input out_len w)
          (one_shot_xof_value alg input out_len w.errs)
  unfolding one_shot_xof one_shot_xof_value
  one_shot_xof_lem room alg input out_len w fresh sizes grants =
      split (digest_md evp.build alg) refl (evp.ctx_new w.errs).0 refl
    where
      split :
          (o : Option Md)
          → digest_md evp.build alg ≡ o
          → (m : Option evp.Ctx) → (evp.ctx_new w.errs).0 ≡ m
          → Yields w.cell
              (one_shot_xof evp room alg input out_len w)
              (one_shot_xof_value alg input out_len w.errs)
      split none e m em = ground (arith, e)
      split (some md) e none em = ground (arith, e, em)
      split (some md) e (some c) em =
          let q1 = (evp.ctx_new w.errs).1 in
          let r1 = evp.init md c q1 in
          let r2 = evp.update input r1.0.1 r1.1 in
          let r3 = evp.final_xof out_len r2.0.1 r2.1 in
          let bs = output r3.0.0 in
          ground (
            arith,
            e,
            em,
            grants,
            fresh.unused (suc w.next),
            fresh.unused (suc (suc w.next)),
            append-nil bs,
            sizes.xof_fills out_len r2.0.1 bs r2.1,
          )
