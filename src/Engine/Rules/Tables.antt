-- ===== src/Engine/Rules/Tables.antt =====
-- The tables of the rules: rsa.py, ecdsa.py, ed25519.py, ecdh.py and x25519.py of
-- cryptiq/app/engine/rules.
use cryptiq.Shared.{[], ◌∷◌}
use cryptiq.Engine.Match.{KeyKind, CryptoOperation}
use cryptiq.Engine.Resolution.{NamespaceSpec}
use cryptiq.Engine.Rules.KeyPair.{KeyPairRule}
use cryptiq.Engine.Rules.Marker.{MarkerRule}

abbrev pub rsa_spec : NamespaceSpec
rsa_spec = record {
  modules = "cryptography.hazmat.primitives.asymmetric.rsa" ∷ [];
  classes =
      ("RSAPrivateKey", KeyKind.private_key)
      ∷ ("RSAPrivateKeyWithSerialization", KeyKind.private_key)
      ∷ ("RSAPublicKey", KeyKind.public_key)
      ∷ ("RSAPublicKeyWithSerialization", KeyKind.public_key)
      ∷ [];
  constructors = ("generate_private_key", KeyKind.private_key) ∷ [];
  derivations = ("public_key", (KeyKind.private_key, KeyKind.public_key)) ∷ [];
}

abbrev pub rsa_rule : KeyPairRule
rsa_rule = record {
  rule_id = "PY-CRYPTO-RSA";
  algorithm = "RSA";
  primitive = "RSA";
  prefix = "rsa";
  spec = rsa_spec;
  module_operations = ("generate_private_key", CryptoOperation.key_generation) ∷ [];
  method_operations =
      ("sign", (CryptoOperation.sign, KeyKind.private_key))
      ∷ ("decrypt", (CryptoOperation.decrypt, KeyKind.private_key))
      ∷ ("verify", (CryptoOperation.verify, KeyKind.public_key))
      ∷ ("encrypt", (CryptoOperation.encrypt, KeyKind.public_key))
      ∷ [];
  canonical_class =
      (KeyKind.private_key, "RSAPrivateKey") ∷ (KeyKind.public_key, "RSAPublicKey") ∷ [];
}

abbrev pub ecdsa_rule : MarkerRule
ecdsa_rule = record {
  rule_id = "PY-CRYPTO-ECDSA";
  algorithm = "ECDSA";
  primitive = "ECDSA";
  marker = "cryptography.hazmat.primitives.asymmetric.ec.ECDSA";
  method_operations = ("sign", CryptoOperation.sign) ∷ ("verify", CryptoOperation.verify) ∷ [];
}

abbrev pub ecdh_rule : MarkerRule
ecdh_rule = record {
  rule_id = "PY-CRYPTO-ECDH";
  algorithm = "ECDH";
  primitive = "ECDH";
  marker = "cryptography.hazmat.primitives.asymmetric.ec.ECDH";
  method_operations = ("exchange", CryptoOperation.key_establishment) ∷ [];
}

abbrev pub ed25519_spec : NamespaceSpec
ed25519_spec = record {
  modules = "cryptography.hazmat.primitives.asymmetric.ed25519" ∷ [];
  classes =
      ("Ed25519PrivateKey", KeyKind.private_key) ∷ ("Ed25519PublicKey", KeyKind.public_key) ∷ [];
  constructors =
      ("Ed25519PrivateKey.generate", KeyKind.private_key)
      ∷ ("Ed25519PrivateKey.from_private_bytes", KeyKind.private_key)
      ∷ ("Ed25519PublicKey.from_public_bytes", KeyKind.public_key)
      ∷ [];
  derivations = ("public_key", (KeyKind.private_key, KeyKind.public_key)) ∷ [];
}

abbrev pub ed25519_rule : KeyPairRule
ed25519_rule = record {
  rule_id = "PY-CRYPTO-ED25519";
  algorithm = "Ed25519";
  primitive = "Ed25519";
  prefix = "ed25519";
  spec = ed25519_spec;
  module_operations = ("Ed25519PrivateKey.generate", CryptoOperation.key_generation) ∷ [];
  method_operations =
      ("sign", (CryptoOperation.sign, KeyKind.private_key))
      ∷ ("verify", (CryptoOperation.verify, KeyKind.public_key))
      ∷ [];
  canonical_class =
      (KeyKind.private_key, "Ed25519PrivateKey") ∷ (KeyKind.public_key, "Ed25519PublicKey") ∷ [];
}

abbrev pub x25519_spec : NamespaceSpec
x25519_spec = record {
  modules = "cryptography.hazmat.primitives.asymmetric.x25519" ∷ [];
  classes =
      ("X25519PrivateKey", KeyKind.private_key) ∷ ("X25519PublicKey", KeyKind.public_key) ∷ [];
  constructors =
      ("X25519PrivateKey.generate", KeyKind.private_key)
      ∷ ("X25519PrivateKey.from_private_bytes", KeyKind.private_key)
      ∷ ("X25519PublicKey.from_public_bytes", KeyKind.public_key)
      ∷ [];
  derivations = ("public_key", (KeyKind.private_key, KeyKind.public_key)) ∷ [];
}

abbrev pub x25519_rule : KeyPairRule
x25519_rule = record {
  rule_id = "PY-CRYPTO-X25519";
  algorithm = "X25519";
  primitive = "X25519";
  prefix = "x25519";
  spec = x25519_spec;
  module_operations = ("X25519PrivateKey.generate", CryptoOperation.key_generation) ∷ [];
  method_operations = ("exchange", (CryptoOperation.key_establishment, KeyKind.private_key)) ∷ [];
  canonical_class =
      (KeyKind.private_key, "X25519PrivateKey") ∷ (KeyKind.public_key, "X25519PublicKey") ∷ [];
}
