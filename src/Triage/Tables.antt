-- ===== src/Triage/Tables.antt =====
-- The algorithm families of the priority: cryptiq/app/engine/priority/rules.py.
use cryptiq.Shared.{String, List, [], ◌∷◌}

abbrev pub asymmetric_algorithms : List String
asymmetric_algorithms =
    "RSA" ∷ "DSA" ∷ "ECDSA" ∷ "ECDH" ∷ "ED25519" ∷ "ED448" ∷ "EDDSA" ∷ "X25519" ∷ "X448" ∷ "DH"
    ∷ "DIFFIE-HELLMAN" ∷ "ECC" ∷ "ELGAMAL" ∷ []

abbrev pub pqc_algorithms : List String
pqc_algorithms =
    "ML-KEM" ∷ "ML-DSA" ∷ "SLH-DSA" ∷ "KYBER" ∷ "DILITHIUM" ∷ "FALCON" ∷ "SPHINCS+" ∷ "XMSS" ∷ "LMS"
    ∷ []

abbrev pub symmetric_algorithms : List String
symmetric_algorithms = "AES" ∷ "CHACHA20" ∷ "3DES" ∷ "DES" ∷ "BLOWFISH" ∷ "RC4" ∷ "ARC4" ∷ []

abbrev pub hash_algorithms : List String
hash_algorithms =
    "SHA-1" ∷ "SHA-224" ∷ "SHA-256" ∷ "SHA-384" ∷ "SHA-512" ∷ "SHA-3" ∷ "SHA3-224" ∷ "SHA3-256"
    ∷ "SHA3-384" ∷ "SHA3-512" ∷ "SHAKE128" ∷ "SHAKE256" ∷ "SM3" ∷ "MD5" ∷ "BLAKE2B" ∷ "BLAKE2S" ∷ []

abbrev pub legacy_hash_algorithms : List String
legacy_hash_algorithms = "SHA-1" ∷ "MD5" ∷ "MD4" ∷ []
