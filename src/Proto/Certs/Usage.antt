-- ===== src/Proto/Certs/Usage.antt =====
-- `keyUsage` of proto/cert_info.go against the bits and the extended usages of the certificate.
use cli.Base.{ℕ, ◌≡◌, ◌≢◌, refl, ◌↔◌, ◌⊎◌, inl, inr, true, false, List, [], ◌∷◌, arith}
use cli.Base.Lists.{In}
use cli.Proto.Bits
use cli.Proto.Certs.{
  KeyUsage, ExtKeyUsage, server_auth, client_auth, other, has_bit, ext_usages, key_usage,
}

-- The flags that the loop over the extended usages leaves alone.
abbrev pub SameBits : KeyUsage → KeyUsage → Type 0
SameBits a b =
    (a.digital_signature ≡ b.digital_signature)
    × (a.content_commitment ≡ b.content_commitment)
    × (a.key_encipherment ≡ b.key_encipherment)
    × (a.data_encipherment ≡ b.data_encipherment)
    × (a.key_agreement ≡ b.key_agreement)
    × (a.cert_sign ≡ b.cert_sign)
    × (a.crl_sign ≡ b.crl_sign)
    × (a.encipher_only ≡ b.encipher_only)
    × (a.decipher_only ≡ b.decipher_only)

ext_usages-client_auth :
    (usage : KeyUsage) (ext : List ExtKeyUsage)
    → ((ext_usages usage ext).client_auth ≡ true)
      ↔ ((usage.client_auth ≡ true) ⊎ In client_auth ext)
unfolding ext_usages
ext_usages-client_auth usage [] = (inl, elim [ inl h ↦ h | inr h ↦ absurd h ])
ext_usages-client_auth usage (client_auth ∷ ext) =
    let ih = ext_usages-client_auth (record usage { client_auth = true }) ext in
    (λ h. inr (inl refl), λ h. ih.1 (inl refl))
ext_usages-client_auth usage (server_auth ∷ ext) =
    let ih = ext_usages-client_auth (record usage { server_auth = true }) ext in
    (ground (arith, ih), ground (arith, ih))
ext_usages-client_auth usage (other u ∷ ext) =
    let ih = ext_usages-client_auth usage ext in (ground (arith, ih), ground (arith, ih))

ext_usages-server_auth :
    (usage : KeyUsage) (ext : List ExtKeyUsage)
    → ((ext_usages usage ext).server_auth ≡ true)
      ↔ ((usage.server_auth ≡ true) ⊎ In server_auth ext)
unfolding ext_usages
ext_usages-server_auth usage [] = (inl, elim [ inl h ↦ h | inr h ↦ absurd h ])
ext_usages-server_auth usage (server_auth ∷ ext) =
    let ih = ext_usages-server_auth (record usage { server_auth = true }) ext in
    (λ h. inr (inl refl), λ h. ih.1 (inl refl))
ext_usages-server_auth usage (client_auth ∷ ext) =
    let ih = ext_usages-server_auth (record usage { client_auth = true }) ext in
    (ground (arith, ih), ground (arith, ih))
ext_usages-server_auth usage (other u ∷ ext) =
    let ih = ext_usages-server_auth usage ext in (ground (arith, ih), ground (arith, ih))

SameBits-ext_usages :
    (usage : KeyUsage) (ext : List ExtKeyUsage) → SameBits (ext_usages usage ext) usage
unfolding ext_usages
SameBits-ext_usages usage [] = (refl, refl, refl, refl, refl, refl, refl, refl, refl)
SameBits-ext_usages usage (client_auth ∷ ext) =
    SameBits-ext_usages (record usage { client_auth = true }) ext
SameBits-ext_usages usage (server_auth ∷ ext) =
    SameBits-ext_usages (record usage { server_auth = true }) ext
SameBits-ext_usages usage (other u ∷ ext) = SameBits-ext_usages usage ext

-- Whatever the order and the repetitions of the extended usages, the two flags for client and
-- server authentication are set exactly when the usage stands in the list, and the nine flags
-- that come from the bits do not depend on the list.
pub key_usage-ext :
    (src : ℕ) (ext : List ExtKeyUsage)
    → (((key_usage src ext).client_auth ≡ true) ↔ In client_auth ext)
      × (((key_usage src ext).server_auth ≡ true) ↔ In server_auth ext)
      × SameBits (key_usage src ext) (key_usage src [])
unfolding key_usage
key_usage-ext src ext =
    let usage = key_usage src [] in
    let c = ext_usages-client_auth usage ext in
    let s = ext_usages-server_auth usage ext in
    (
      ((λ h. elim (c.0 h) [ inl e ↦ absurd (cc) | inr m ↦ m ]), λ m. c.1 (inr m)),
      ((λ h. elim (s.0 h) [ inl e ↦ absurd (cc) | inr m ↦ m ]), λ m. s.1 (inr m)),
      SameBits-ext_usages usage ext,
    )

-- A certificate whose key may encipher keys but not data is reported with the wrong flag: the
-- message's flag for key encipherment differs from the certificate's bit.
pub key_usage-loses_key_encipherment :
    (src : ℕ) (ext : List ExtKeyUsage)
    → has_bit src Bits.key_encipherment ≡ true
    → has_bit src Bits.data_encipherment ≡ false
    → (key_usage src ext).key_encipherment ≢ has_bit src Bits.key_encipherment
unfolding key_usage
key_usage-loses_key_encipherment src ext k d e = cc ((SameBits-ext_usages (key_usage src []) ext).2)
