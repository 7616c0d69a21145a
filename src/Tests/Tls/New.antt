-- ===== src/Tests/Tls/New.antt =====
-- A new mem-bio-client with the toy SSL.
use openssl_wasm.Common.{refl, false, none, some, [], ◌∷◌, arith}
use openssl_wasm.Memory.{World}
use openssl_wasm.Tls.Structs.{TlsStruct}
use openssl_wasm.Tls.Openssl.{TlsObject}
use openssl_wasm.Tls.Config.{ClientConfig}
use openssl_wasm.Tls.Config.Sets.{HasObjects}
use openssl_wasm.Tls.MemBioClient.{mem_bio_client_new}
use openssl_wasm.Tls.MemBioClient.New.{Opens, mem_bio_client_new_lem}
use openssl_wasm.Tests.World.{enough_room, empty_world, empty_world-IsFresh}
use openssl_wasm.Tests.Tls.MemBio.{toy}

abbrev start : World (TlsObject toy) TlsStruct
start = empty_world

-- TLS 1.2 and 1.3, the host "hi", and the protocol "h2".
abbrev plain_config : ClientConfig
plain_config = record {
  protocols = record { min = 0; max = 1 };
  verify = 1;
  trust = none;
  server_name = some (104 ∷ 105 ∷ []);
  client_cert = none;
  client_key = none;
  alpn = some ((104 ∷ 50 ∷ []) ∷ []);
  ciphers = none;
  groups = none;
  keylog = false;
}

plain_config-HasObjects : HasObjects enough_room (λ n. refl) start plain_config
plain_config-HasObjects = record {
  trust = λ p h. absurd (ground (arith, h));
  cert = λ p h. absurd (ground (arith, h));
  key = λ p h. absurd (ground (arith, h));
}

mem_bio_client_new_lem_example :
    Opens enough_room (λ n. refl) start (mem_bio_client_new enough_room plain_config start)
mem_bio_client_new_lem_example =
    mem_bio_client_new_lem enough_room (λ n. refl) start plain_config empty_world-IsFresh
      plain_config-HasObjects refl
