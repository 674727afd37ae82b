-- ===== src/Proto/Bits.antt =====
-- The bits of `x509.KeyUsage`, in the order of crypto/x509.
use Prim.Native.Nat.{ℕ}

abbrev pub digital_signature : ℕ
digital_signature = 1

abbrev pub content_commitment : ℕ
content_commitment = 2

abbrev pub key_encipherment : ℕ
key_encipherment = 4

abbrev pub data_encipherment : ℕ
data_encipherment = 8

abbrev pub key_agreement : ℕ
key_agreement = 16

abbrev pub cert_sign : ℕ
cert_sign = 32

abbrev pub crl_sign : ℕ
crl_sign = 64

abbrev pub encipher_only : ℕ
encipher_only = 128

abbrev pub decipher_only : ℕ
decipher_only = 256
