-- ===== src/Advisor/Clues.antt =====
-- The words that hint at a purpose: the tables of cryptiq/app/engine/context/extractor.py.
use cryptiq.Shared.{String, List, [], ◌∷◌}

abbrev pub content_addressing_clues : List String
content_addressing_clues =
    "tile" ∷ "tiles" ∷ "cache" ∷ "cache_key" ∷ "dedup" ∷ "deduplicate" ∷ "content"
    ∷ "content_address" ∷ "content_hash" ∷ "etag" ∷ "chunk" ∷ "fingerprint" ∷ "object_id"
    ∷ "storage" ∷ "memo" ∷ "memoize" ∷ "asset" ∷ "media" ∷ []

abbrev pub data_integrity_clues : List String
data_integrity_clues =
    "checksum" ∷ "integrity" ∷ "verify_checksum" ∷ "file_hash" ∷ "sha256sum" ∷ "md5sum"
    ∷ "payload_hash" ∷ "tamper" ∷ []

abbrev pub firmware_signing_clues : List String
firmware_signing_clues =
    "firmware" ∷ "firmware_update" ∷ "ota" ∷ "bootloader" ∷ "boot" ∷ "manifest" ∷ "release"
    ∷ "package_sign" ∷ "authenticity" ∷ "secure_boot" ∷ []

abbrev pub key_establishment_clues : List String
key_establishment_clues =
    "handshake" ∷ "exchange" ∷ "session" ∷ "shared_secret" ∷ "ecdh" ∷ "x25519" ∷ "ephemeral"
    ∷ "peer" ∷ "negotiate" ∷ "key_agreement" ∷ "transport" ∷ []

abbrev pub password_clues : List String
password_clues =
    "password" ∷ "passwd" ∷ "credential" ∷ "kdf" ∷ "pbkdf2" ∷ "salt" ∷ "hash_pw" ∷ "user_pass" ∷ []
