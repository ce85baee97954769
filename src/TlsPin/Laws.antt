-- ===== src/TlsPin/Laws.antt =====
-- A pin that is captured has the form that the settings keep.
use mathlib.Core.Path.{subst}
use meraki_openconnect.Prelude.{
  ℕ, ◌*◌, ◌/◌, ◌%◌, ◌≡◌, refl, ◌∙◌, true, ◌||◌, [], ◌∷◌, Text, ok, arith, all, length, ltb, ◌==◌,
  bind_ok, require_ok, raise_if_ok, ok_injective, inr,
}
use meraki_openconnect.Settings.Checks.{is_lower_hex}
use meraki_openconnect.Settings.Base64.{encode}
use meraki_openconnect.Settings.Base64.Laws.{are_bytes}
use meraki_openconnect.Settings.Pin.{normalize_server_cert_pin}
use meraki_openconnect.Settings.Pin.Laws.{canonical-fixed}
use meraki_openconnect.Settings.Pin.Encoded.{encode-is_spki}
use meraki_openconnect.TlsPin.{
  Bytes, Run, invalid_hostname, incomplete, TlsPeerEvidence, gateway_tls_evidence, hexdigest,
  hex_digit, is_hostname, verified, certificate_command, public_key_command,
  certificate_der_command, public_key_der_command,
}

-- What SHA-256 gives: 32 bytes.
pub record IsDigest (digest : Bytes) : Type 0 where
  pub size : length digest ≡ 32
  pub bytes : are_bytes digest ≡ true

-- What is captured: a pin that the settings would leave as it is, and a fingerprint of 64 digits.
pub record IsEvidence (evidence : TlsPeerEvidence) : Type 0 where
  is_normal : normalize_server_cert_pin evidence.spki_pin ≡ ok evidence.spki_pin
  leaf_size : length evidence.leaf_sha256 ≡ 64
  leaf_hex : all is_lower_hex evidence.leaf_sha256 ≡ true

hex_digit-is_hex : (v : ℕ) → ltb v 16 ≡ true → is_lower_hex (hex_digit v) ≡ true
hex_digit-is_hex v h = ground arith

length-hexdigest : (bs : Bytes) → length (hexdigest bs) ≡ 2 * length bs
unfolding hexdigest
length-hexdigest [] = omega arith
length-hexdigest (b ∷ bs) = omega (arith, length-hexdigest bs)

hexdigest-is_hex : (bs : Bytes) → are_bytes bs ≡ true → all is_lower_hex (hexdigest bs) ≡ true
unfolding hexdigest
hexdigest-is_hex [] h = refl
hexdigest-is_hex (b ∷ bs) h =
    rw (hex_digit-is_hex (b / 16) (ground arith), hex_digit-is_hex (b % 16) (ground arith))
      (hexdigest-is_hex bs (ground arith))

-- Evidence of a gateway has a pin that `normalize_server_cert_pin` leaves as it is, and a leaf
-- fingerprint of 64 lower-case hexadecimal digits, where the digest gives 32 bytes.
pub gateway_tls_evidence-IsEvidence :
    (sha256 : Bytes → Bytes) (run : Run) (gateway : Text) (evidence : TlsPeerEvidence)
    → ((bs : Bytes) → IsDigest (sha256 bs))
    → gateway_tls_evidence sha256 run gateway ≡ ok evidence
    → IsEvidence evidence
unfolding gateway_tls_evidence
gateway_tls_evidence-IsEvidence sha256 run gateway evidence digest h =
    let (a, rest) = require_ok (is_hostname gateway) invalid_hostname _ evidence h in
    let (certificate, b, keys) =
      bind_ok (verified (run (certificate_command gateway) [])) _ evidence rest in
    let (key, c, ders) = bind_ok (verified (run public_key_command certificate)) _ evidence keys in
    let (der, d, last) =
      bind_ok (verified (run certificate_der_command certificate)) _ evidence ders in
    let (key_der, e, end) = bind_ok (verified (run public_key_der_command key)) _ evidence last in
    let (f, done) =
      raise_if_ok (length key_der == 0 || length der == 0) incomplete _ evidence end in
    subst IsEvidence (ok_injective _ evidence done) (record {
      is_normal = canonical-fixed _ (
          inr (
            inr (
              encode (sha256 key_der),
              refl,
              encode-is_spki _ (digest key_der).size (digest key_der).bytes,
            )));
      leaf_size = length-hexdigest (sha256 der) ∙ omega (arith, (digest der).size);
      leaf_hex = hexdigest-is_hex (sha256 der) (digest der).bytes;
    })
