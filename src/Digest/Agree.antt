-- ===== src/Digest/Agree.antt =====
-- The tables of src/component.c and src/include/algs.h against one another.
use openssl_wasm.Common.{
  ℕ, ◌≤◌, ◌≡◌, ◌∙◌, ap, sym, refl, Bool, true, false, inl, inr, Bool-cases, Option, none, some,
  only, only_given, get_elem?, get_elem?_past, agree_everywhere, arith,
}
use openssl_wasm.Digest.Algs.{
  Md, MdBuild, full_md_build, md_built, wit_md_built, is_shake, md_cases, wit_name_cases, digest_md,
  digest_is_xof, wit_digest_md, wit_digest_name,
}

abbrev pub is_some {ℓ} : {A : Type ℓ} → Option A → Bool
is_some none = false
is_some (some a) = true

past_md : (x : ℕ) → 18 ≤ x → get_elem? md_cases x ≡ none
past_md x h = get_elem?_past md_cases x h

shakes : (alg : ℕ) → digest_is_xof alg ≡ is_shake (get_elem? md_cases alg)
unfolding digest_is_xof
shakes =
    agree_everywhere 18 digest_is_xof (λ x. is_shake (get_elem? md_cases x)) refl
      (λ x h. ground (arith, past_md x h))

-- No build leaves out a SHAKE.
shake_built : (build : MdBuild) (o : Option Md) → is_shake (only (md_built build) o) ≡ is_shake o
shake_built build none = refl
shake_built build (some md) = elim (Bool-cases (md_built build md)) [
  | inl kept ↦ ground (arith, kept)
  | inr dropped ↦ ground (arith, dropped)
]

-- Both tables leave out the same.
same_built :
    (build : MdBuild) (o : Option Md) → only (md_built build) o ≡ only (wit_md_built build) o
same_built build none = refl
same_built build (some md) = ground arith

named : (alg : ℕ) → is_some (wit_digest_name alg) ≡ is_some (wit_digest_md full_md_build alg)
unfolding wit_digest_md wit_digest_name
named =
    agree_everywhere 18 (λ x. is_some (wit_digest_name x))
      (λ x. is_some (wit_digest_md full_md_build x)) refl
      (λ x h. ground (arith, past_md x h, get_elem?_past wit_name_cases x h))

-- For every build, whichever of BLAKE2, RIPEMD-160 and SM3 it leaves out, and every discriminant,
-- also past the last: the digest interface and the shared table give the same digest,
-- `digest_is_xof` says whether a digest that they give is a SHAKE and is never true where they give
-- none, and the shared table has a name exactly for the digests of the full build, so that a digest
-- that is left out keeps its name.
pub digest_md-agrees :
    (build : MdBuild) (alg : ℕ)
    → (digest_md build alg ≡ wit_digest_md build alg)
      × ((digest_is_xof alg ≡ is_shake (digest_md build alg))
          × (is_some (wit_digest_name alg) ≡ is_some (wit_digest_md full_md_build alg)))
unfolding digest_md wit_digest_md
digest_md-agrees build alg = (
  same_built build (get_elem? md_cases alg),
  (shakes alg ∙ sym (shake_built build (get_elem? md_cases alg)), named alg),
)

-- A digest that the table gives is built in, and is a SHAKE where `digest_is_xof` says so.
pub digest_md-given :
    (build : MdBuild) (alg : ℕ) (md : Md)
    → digest_md build alg ≡ some md
    → (md_built build md ≡ true) × (is_shake (some md) ≡ digest_is_xof alg)
unfolding digest_md
digest_md-given build alg md h =
    let g = only_given (md_built build) (get_elem? md_cases alg) md h in
    (g.0, ap is_shake (sym g.1) ∙ sym (shakes alg))
