-- ===== src/TlsPin.antt =====
-- The public-key pin of the gateway: pin.py. The runs of openssl and the digest are parameters.
pub mod Laws
use meraki_openconnect.Prelude.{
  ℕ, ◌+◌, ◌-◌, ◌*◌, ◌/◌, ◌%◌, Bool, false, ◌&&◌, ◌||◌, Option, none, some, List, [], ◌∷◌, ◌++◌,
  Text, codes, Result, ok, err, ◌>>=◌, ◌>>◌, require, raise_if, length, all, leb, ltb, ◌==◌,
  is_digit, is_lower, is_upper, if◌then◌else◌,
}
use meraki_openconnect.Settings.Base64.{encode}

-- `PinError`, by its message
pub data PinError : Type 0 where
  invalid_hostname not_verified incomplete : PinError

pub record TlsPeerEvidence : Type 0 where
  pub spki_pin : Text
  pub leaf_sha256 : Text

-- `[a-z]` under `re.IGNORECASE`: the letters of ASCII, and four that fold to one of them.
abbrev is_folded : ℕ → Bool
is_folded c = is_lower c || is_upper c || c == 0x130 || c == 0x131 || c == 0x17f || c == 0x212a

abbrev is_host_char : ℕ → Bool
is_host_char c = is_folded c || is_digit c

-- `_HOSTNAME`
pub is_hostname : Text → Bool
is_hostname [] = false
is_hostname (c ∷ s) =
    is_host_char c && all (λ x. is_host_char x || x == b'.' || x == b'-') s && leb (length s) 252

abbrev pub openssl : Text
openssl = codes "/opt/homebrew/bin/openssl"

abbrev pub Bytes : Type 0
Bytes = List ℕ

-- `subprocess.run(command, input=…, capture_output=True, check=True).stdout`, `none` where it raises.
abbrev pub Run : Type 0
Run = List Text → Bytes → Option Bytes

abbrev pub verified : Option Bytes → Result PinError Bytes
verified none = err not_verified
verified (some output) = ok output

pub certificate_command : Text → List Text
certificate_command gateway =
    openssl
    ∷ codes "s_client"
    ∷ codes "-connect"
    ∷ (gateway ++ codes ":443")
    ∷ codes "-servername"
    ∷ gateway
    ∷ codes "-verify_hostname"
    ∷ gateway
    ∷ codes "-verify_return_error"
    ∷ []

abbrev pub public_key_command : List Text
public_key_command = openssl ∷ codes "x509" ∷ codes "-pubkey" ∷ codes "-noout" ∷ []

abbrev pub certificate_der_command : List Text
certificate_der_command = openssl ∷ codes "x509" ∷ codes "-outform" ∷ codes "DER" ∷ []

abbrev pub public_key_der_command : List Text
public_key_der_command =
    openssl ∷ codes "pkey" ∷ codes "-pubin" ∷ codes "-outform" ∷ codes "DER" ∷ []

-- `hexdigest()`
abbrev pub hex_digit : ℕ → ℕ
hex_digit v = if ltb v 10 then b'0' + v else b'a' + (v - 10)

pub hexdigest : Bytes → Text
hexdigest [] = []
hexdigest (b ∷ bs) = hex_digit (b / 16) ∷ hex_digit (b % 16) ∷ hexdigest bs

module _ (sha256 : Bytes → Bytes) (run : Run) where
  unfoldable pub gateway_tls_evidence : Text → Result PinError TlsPeerEvidence
  unfolding is_hostname certificate_command hexdigest
  gateway_tls_evidence gateway = do
    require (is_hostname gateway) invalid_hostname
    certificate ← verified (run (certificate_command gateway) [])
    public_key ← verified (run public_key_command certificate)
    certificate_der ← verified (run certificate_der_command certificate)
    public_key_der ← verified (run public_key_der_command public_key)
    raise_if (length public_key_der == 0 || length certificate_der == 0) incomplete
    ok (record {
      spki_pin = codes "pin-sha256:" ++ encode (sha256 public_key_der);
      leaf_sha256 = hexdigest (sha256 certificate_der);
    })

  -- `gateway_tls_pin`
  unfoldable pub gateway_tls_pin : Text → Result PinError Text
  unfolding gateway_tls_evidence
  gateway_tls_pin gateway = do evidence ← gateway_tls_evidence gateway; ok evidence.spki_pin
