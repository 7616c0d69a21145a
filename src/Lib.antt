-- ===== src/Lib.antt =====
-- The cryptographic component of openssl-wasm: the C code in src/ that puts OpenSSL's libcrypto
-- behind WebAssembly component interfaces, and its vector implementation of AES.
--
-- The parts, and the files that model them:
--
-- - Aes: src/aes_simd.c. Aes/Vector has the 128-bit vectors and the instructions used; Aes/Tables
--   the two substitution tables; Aes/Round the steps of a round, from aes_sub_bytes to
--   load_round_key; Aes/Block the round loops (aes_encrypt_simd, aes_decrypt_simd) and the two
--   functions that the linker puts in place of OpenSSL's AES_encrypt and AES_decrypt. Aes/Field,
--   Aes/Linear, Aes/Columns and Aes/Sbox relate the steps to FIPS 197; Aes/Inverse and Aes/Wrap the
--   two directions to one another.
-- - Memory: what every interface works on. Cells at addresses, OpenSSL's error queue, and commands
--   that return, abort or fault; xmalloc of src/include/support.h, free, constructors and
--   destructors of OpenSSL objects, bounded writes. A read or write through a pointer to nothing,
--   past a buffer's end, or a second free is a fault. Memory/Contract states what a call owes to its
--   caller, in terms of the whole memory, so that a leak is a difference.
-- - Digest: the digest interface of src/component.c. Digest/Algs has the algorithm tables, with
--   those of src/include/algs.h; Digest/OneShot the calls one_shot, one_shot_xof, output_size and
--   block_size; Digest/Context the streaming resource; Digest/Contract and Digest/Streaming their
--   specifications; Digest/Agree compares the tables.
-- - Kdf: src/kdf.c. Kdf/Derive has `derive`, through which every export goes; Kdf/Exports the ten
--   exports with the parameters that they pass; Kdf/Label the HkdfLabel that tls13_expand_label
--   writes, byte by byte at its offsets, and that of RFC 8446; Kdf/Expand the specification.
-- - Cipher: src/cipher.c. Cipher/Algs has the cipher table; Cipher/OneShot the one-shot calls;
--   Cipher/Aead seal and open; Cipher/Stream the encryptor and decryptor resources; Cipher/Contract
--   the specification of the one-shot calls; Cipher/Modes compares the tests on algorithms with the
--   table.
-- - Mac: src/mac.c. Mac/Params has build_mac_params and the name tables; Mac/Context new_mac_ctx;
--   Mac/OneShot the exports; Mac/Bounds and Mac/Contract the specifications.
-- - Bignum: src/bignum.c. Bignum/Build has the constructors and the destructor, Bignum/Output the
--   conversions and predicates, Bignum/Arith the arithmetic; Bignum/Contract and Bignum/Word their
--   specifications.
-- - Errors: the error interface of src/component.c, but for `describe`, which only calls OpenSSL.
--   Errors/Info has fill_error_info and pop_error; Errors/Drain drain_errors and its growing array;
--   Errors/Contract what describing an entry adds to the memory; Errors/Loop the whole loop.
-- - Random: the random interface of src/component.c, but for add-seed, which only calls OpenSSL.
--   Random/Bytes has the two exports, Random/Contract their specification.
-- - Tls: src/tls.c. Tls/Openssl has what it uses of OpenSSL and of sockets; Tls/Structs its structs;
--   Tls/Ssl calls on an SSL, and keylog_cb; Tls/CString the NUL-terminated copies; Tls/Alpn alpn_wire
--   and the scan of alpn_select_cb; Tls/Keylog the key log buffer; Tls/Config the apply functions and
--   what the constructors set on an SSL_CTX; Tls/Socket connect_tcp and bind_tcp; Tls/Data the reads,
--   writes and shutdowns; Tls/Peer the queries; Tls/Connection what connections share; and
--   Tls/Client, Tls/Server, Tls/MemBioClient and Tls/MemBioServer the resources, with their methods
--   and the end of their lives. Tls/Pipe says what an SSL with two memory BIOs is apart from the
--   memory, and that the operations on it are those.
-- - Tests: runs at concrete inputs, among them the example of FIPS 197, appendix B.
--
-- The functions keep the names of the source, without the prefix of the generated bindings. They
-- call one another as there: an export checks its algorithm against a table, makes an OpenSSL
-- object, allocates the result through xmalloc, runs the calls, and frees what it made.
--
-- OpenSSL and libc are not under src/, so they are parameters: a record for each family of calls
-- (EvpMd, EvpKdf, EvpCipher, EvpMac, EvpRand, BnLib, ErrText, Openssl), with the error queue that each call
-- reads and leaves; `room` says which sizes malloc grants, and a size is granted always or never. What the theorems
-- assume of OpenSSL's documented behaviour stands among their hypotheses. A list or string that the
-- bindings pass in is a list of bytes; OpenSSL's reads of a key or an IV past its end are faults.
--
-- The build is a parameter too: which of the algorithms between #ifndef OPENSSL_NO_... are in the
-- tables of digests (MdBuild) and of ciphers (CipherBuild).
--
-- Bounds: sizes are natural numbers. A count that the source casts to `int` for a call is a signed
-- number (Int), negative from 2^31 on. Where the source computes a size as an `int`, a sum of 2^31 or
-- more is counted as a fault, as is a text or associated data of 2^31 bytes or more that seal, open
-- and set-aad hand to EVP_CipherUpdate; where the source's size_t sum can wrap (the label length in
-- tls13_expand_label), the model wraps at 2^32, that of wasm32. So does the size of
-- the array of drain_errors. The loops over rounds are recursions on the number of rounds left. The
-- loop of drain_errors runs on fuel, one step more than the queue has entries: every step but the
-- last takes one off.
--
-- In the TLS model a file descriptor is the address of a cell for the open socket, the object at a
-- pointer is the reference that the pointer's holder has, and the key log lines of a protocol call
-- reach keylog_cb after it. So X509_STORE_up_ref in
-- the configuration is nothing: the SSL_CTX and the caller's handle each have a reference of their own. The
-- sum of the lengths of the ALPN names does not wrap, since the names lie in memory. The two socket options of bind_tcp and the text printed to stderr are
-- left out, and so is SSL_select_next_proto's choice in alpn_select_cb.
--
-- Not modelled: X.509 (src/x509.c, src/x509_build.c), keys (src/pkey.c), the provider bridges (src/provider_wit.c,
-- src/encoder_wit.c, src/decoder_wit.c, src/store_wit.c) and their test driver
-- (src/wit_bridge_test.c), and the examples. The scalar build of src/aes_simd.c only calls OpenSSL.
-- Time, and so the claim that AES runs in constant time, is not modelled either.
pub mod Common
pub mod Aes
pub mod Int
pub mod Memory
pub mod Digest
pub mod Kdf
pub mod Cipher
pub mod Mac
pub mod Bignum
pub mod Errors
pub mod Random
pub mod Tls
pub mod Tests
