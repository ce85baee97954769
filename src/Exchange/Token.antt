-- ===== src/Exchange/Token.antt =====
-- The messages of TokenCallback, in `_serve` of callback.py.
use meraki_openconnect.Prelude.{
  Bool, false, ◌&&◌, Option, none, some, List, [], ◌∷◌, Text, codes, length, text_eq, one_of, all,
  ◌==◌, if◌then◌else◌,
}
use meraki_openconnect.Json.{Json, text, object, Fields, end, field, keys, get}
use meraki_openconnect.Exchange.Server.{Protocol}

-- `set(message) == names`
abbrev pub has_keys : Fields → List Text → Bool
has_keys fs names = all (λ k. one_of k names) (keys fs) && all (λ k. one_of k (keys fs)) names

-- `message == {"type": kind}`
abbrev pub is_only_type : Text → Fields → Bool
is_only_type kind (field k (text t) end) = text_eq k (codes "type") && text_eq t kind
is_only_type kind fs = false

-- `message.get(key) == value` for a string
abbrev is_text : Text → Option Json → Bool
is_text value (some (text t)) = text_eq t value
is_text value v = false

abbrev pub holds : Fields → Text → Text → Bool
holds fs key value = is_text value (get key fs)

abbrev non_empty : Option Json → Option Text
non_empty (some (text t)) = if length t == 0 then none else some t
non_empty v = none

-- The token of a token request
pub accept_token : Fields → Option Text
accept_token fs =
    if has_keys fs (codes "type" ∷ codes "token" ∷ []) && holds fs (codes "type") (codes "token")
    then non_empty (get (codes "token") fs)
    else none

unfoldable pub token_protocol : Fields → Protocol Text
unfolding accept_token
token_protocol bootstrap = record {
  is_request = is_only_type (codes "bootstrap");
  reply =
      field (codes "type") (text (codes "bootstrap"))
        (field (codes "bootstrap") (object bootstrap) end);
  accept = accept_token;
}
