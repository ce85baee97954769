-- ===== src/Saml/Tests.antt =====
-- The theorem on the redirect, applied to one URL, with a decompressor that stores its text.
use meraki_openconnect.Prelude.{
  ◌≡◌, refl, true, false, Option, some, [], ◌∷◌, Text, codes, ok, length, take, ltb,
}
use meraki_openconnect.Url.{urlsplit, urlunsplit, hostname, port, has_username, has_password}
use meraki_openconnect.Query.{parse_qsl, urlencode}
use meraki_openconnect.Query.Utf8.{encode_utf8, decode_utf8}
use meraki_openconnect.Settings.Base64.{encode, decode}
use meraki_openconnect.Ip.{parts, split, decimal_value}
use meraki_openconnect.Saml.{Bytes, SamlPolicy, Zlib, Root, authn_request_tag, rewrite_force_authn}
use meraki_openconnect.Saml.Redirect.{IsRewritten, rewrite_force_authn-IsRewritten}

abbrev pub stored : Zlib
stored = record {
  decompress = λ bytes limit. some (record {
    data_of = take limit bytes;
    has_tail = ltb limit (length bytes);
    eof = true;
    has_unused = false;
  });
  flush = λ bytes limit n.
      some (record { data_of = []; has_tail = false; eof = true; has_unused = false });
  compress = λ bytes. bytes;
}

abbrev pub policy : SamlPolicy
policy = record {
  entra_host = codes "login.example.com";
  issuer = codes "https://sts.example.com/1";
  destination = codes "https://login.example.com/saml";
}

abbrev pub parsed_request : Bytes → Option Root
parsed_request xml = some (record {
  tag = authn_request_tag;
  destination = some policy.destination;
  issuer = some (some policy.issuer);
  has_signature = false;
  force_authn = codes "true" ∷ [];
})

abbrev pub request_url : Text
request_url =
    codes "https://login.example.com/saml?SAMLRequest=PGEgRm9yY2VBdXRobj0idHJ1ZSI%2B&RelayState=a+b"

abbrev pub rewritten_url : Text
rewritten_url =
    codes
      "https://login.example.com/saml?SAMLRequest=PGEgRm9yY2VBdXRobj0iZmFsc2UiPg%3D%3D&RelayState=a+b"

pub url_accepted : rewrite_force_authn stored parsed_request policy request_url ≡ ok rewritten_url
unfolding rewrite_force_authn urlsplit urlunsplit hostname port has_username has_password parse_qsl
    urlencode encode decode parts split encode_utf8 decode_utf8 decimal_value
url_accepted = refl

rewrite_force_authn-IsRewritten_example :
    IsRewritten stored parsed_request policy request_url rewritten_url
rewrite_force_authn-IsRewritten_example =
    rewrite_force_authn-IsRewritten stored parsed_request policy request_url rewritten_url
      url_accepted
