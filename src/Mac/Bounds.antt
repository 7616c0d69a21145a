-- ===== src/Mac/Bounds.antt =====
-- The parameter array of new_mac_ctx, which has room for six.
use openssl_wasm.Common.{ℕ, zero, suc}
use openssl_wasm.Mac.Params.{MacParams, hmac, cmac, kmac, gmac}

-- The variant that an algorithm takes; Poly1305 and SipHash take any.
abbrev pub Takes : ℕ → MacParams → Type 0
Takes zero (hmac h) = Unit
Takes zero _ = ⊥
Takes (suc zero) (cmac c) = Unit
Takes (suc zero) _ = ⊥
Takes (suc (suc zero)) (kmac c n) = Unit
Takes (suc (suc zero)) _ = ⊥
Takes (suc (suc (suc zero))) (kmac c n) = Unit
Takes (suc (suc (suc zero))) _ = ⊥
Takes (suc (suc (suc (suc (suc (suc zero)))))) (gmac c n) = Unit
Takes (suc (suc (suc (suc (suc (suc zero)))))) _ = ⊥
Takes _ _ = Unit
