-- ===== src/Profile/Parse/Clean.antt =====
-- What the checks of a profile keep out of it: control characters, which end the lines of the
-- privileged policy.
use meraki_openconnect.Prelude.{
  ◌≡◌, refl, Bool, false, Option, none, some, List, [], ◌∷◌, Text, Result, ok, err, arith, any, All,
  Holds, holds_ok, raise_if, ◌==◌, ◌>>=◌, ◌>>◌, codes, length,
}
use meraki_openconnect.Json.{Json, text, object}
use meraki_openconnect.Settings.Checks.{is_control}
use meraki_openconnect.Profile.Model.{SplitDnsRule, AuthenticationPolicy, OrganizationProfile}
use meraki_openconnect.Profile.Checks.{
  ProfileError, invalid_dns_rule, Library, as_array, value_of, require_keys, check_string,
  check_hostname, check_cookie_name, check_address, check_path, address_of,
}
use meraki_openconnect.Profile.Parse.{
  traverse, parse_gateway, parse_authentication, parse_rule, parse_split_dns, load,
}

abbrev pub IsPlain : Text → Type 0
IsPlain s = any is_control s ≡ false

abbrev pub IsPlainRule : SplitDnsRule → Type 0
IsPlainRule rule = IsPlain rule.domain × All IsPlain rule.nameservers

-- The texts of a profile that stand in the policy.
abbrev pub IsPlainProfile : OrganizationProfile → Type 0
IsPlainProfile profile =
    IsPlain profile.gateway.host
    × IsPlain profile.authentication.login_path
    × IsPlain profile.authentication.final_path
    × IsPlain profile.authentication.token_cookie_name
    × All IsPlainRule profile.split_dns

check_string-IsPlain : (v : Json) → Holds IsPlain (check_string v)
unfolding check_string
check_string-IsPlain (text t) = ground arith
check_string-IsPlain _ = tt

check_hostname-IsPlain : (b : Bool) (v : Json) → Holds IsPlain (check_hostname b v)
unfolding check_hostname
check_hostname-IsPlain b v = ground (arith, check_string-IsPlain v)

check_cookie_name-IsPlain : (v : Json) → Holds IsPlain (check_cookie_name v)
unfolding check_cookie_name
check_cookie_name-IsPlain v = ground (arith, check_string-IsPlain v)

parse_gateway-IsPlain : (v : Json) → Holds IsPlain (parse_gateway v)
unfolding parse_gateway
parse_gateway-IsPlain (object fs) =
    ground (arith, check_hostname-IsPlain false (value_of fs (codes "host")))
parse_gateway-IsPlain _ = tt

module _ {A B : Type 0} (P : B → Type 0) (f : A → Result ProfileError B) where
  both :
      (r : Result ProfileError B) (rs : Result ProfileError (List B))
      → Holds P r
      → Holds (All P) rs
      → Holds (All P) (r >>= λ y. rs >>= λ ys. ok (y ∷ ys))
  both (ok y) (ok ys) h hs = (h, hs)
  both (ok y) (err e) h hs = tt
  both (err e) rs h hs = tt

  traverse-All : ((x : A) → Holds P (f x)) → (xs : List A) → Holds (All P) (traverse f xs)
  unfolding traverse
  traverse-All step [] = tt
  traverse-All step (x ∷ xs) = both (f x) (traverse f xs) (step x) (traverse-All step xs)

-- An address is written with the characters of the text that it was read from, hexadecimal digits,
-- points and colons.
abbrev pub AddressesArePlain : Library → Type 0
AddressesArePlain library =
    (s t : Text) → IsPlain s → library.canonical_address s ≡ some t → IsPlain t

module _ (library : Library) where
  check_path-IsPlain : (v : Json) → Holds IsPlain (check_path library v)
  unfolding check_path
  check_path-IsPlain v = ground (arith, check_string-IsPlain v)

  abbrev IsPlainPolicy : AuthenticationPolicy → Type 0
  IsPlainPolicy a = IsPlain a.login_path × IsPlain a.final_path × IsPlain a.token_cookie_name

  parse_authentication-IsPlain : (v : Json) → Holds IsPlainPolicy (parse_authentication library v)
  unfolding parse_authentication
  parse_authentication-IsPlain (object fs) = ground (
    arith,
    check_path-IsPlain (value_of fs (codes "login_path")),
    check_path-IsPlain (value_of fs (codes "final_path")),
    check_cookie_name-IsPlain (value_of fs (codes "token_cookie_name")),
  )
  parse_authentication-IsPlain _ = tt

  module _ (plain : AddressesArePlain library) where
    address_of-IsPlain :
        (s : Text) (o : Option Text)
        → IsPlain s
        → library.canonical_address s ≡ o
        → Holds IsPlain (address_of o)
    address_of-IsPlain s none h e = tt
    address_of-IsPlain s (some t) h e = plain s t h e

    read-IsPlain :
        (r : Result ProfileError Text)
        → Holds IsPlain r
        → Holds IsPlain (r >>= λ s. address_of (library.canonical_address s))
    read-IsPlain (ok s) h = address_of-IsPlain s _ h refl
    read-IsPlain (err e) h = tt

    check_address-IsPlain : (v : Json) → Holds IsPlain (check_address library v)
    unfolding check_address
    check_address-IsPlain v = read-IsPlain (check_string v) (check_string-IsPlain v)

    addresses-IsPlain :
        (vs : List Json) → Holds (All IsPlain) (traverse (λ s. check_address library s) vs)
    addresses-IsPlain = traverse-All IsPlain _ check_address-IsPlain

    rule_of :
        (k : Result ProfileError (Unit {0})) (servers : Result ProfileError (List Json))
        (name : Result ProfileError Text)
        → Holds IsPlain name
        → Holds IsPlainRule (do
          k
          s ← servers
          raise_if (length s == 0) invalid_dns_rule
          domain ← name
          nameservers ← traverse (λ s. check_address library s) s
          ok (record { domain = domain; nameservers = nameservers }))
    rule_of (err e) servers name h = tt
    rule_of (ok u) (err e) name h = tt
    rule_of (ok u) (ok servers) name h = ground (arith, h, addresses-IsPlain servers)

    parse_rule-IsPlain : (v : Json) → Holds IsPlainRule (parse_rule library v)
    unfolding parse_rule
    parse_rule-IsPlain (object fs) =
        rule_of (require_keys fs (codes "domain" ∷ codes "nameservers" ∷ []))
          (as_array 3 (value_of fs (codes "nameservers")))
          (check_hostname false (value_of fs (codes "domain")))
          (check_hostname-IsPlain false (value_of fs (codes "domain")))
    parse_rule-IsPlain _ = tt

    rules-IsPlain :
        (items : Result ProfileError (List Json))
        → Holds (All IsPlainRule) (items >>= λ xs. traverse (λ x. parse_rule library x) xs)
    rules-IsPlain (ok xs) = traverse-All IsPlainRule _ parse_rule-IsPlain xs
    rules-IsPlain (err e) = tt

    parse_split_dns-IsPlain : (v : Json) → Holds (All IsPlainRule) (parse_split_dns library v)
    unfolding parse_split_dns
    parse_split_dns-IsPlain v = rules-IsPlain (as_array 16 v)

    load-Holds : (v : Json) → Holds IsPlainProfile (load library v)
    unfolding load
    load-Holds (object fs) = ground (
      arith,
      parse_gateway-IsPlain (value_of fs (codes "gateway")),
      parse_authentication-IsPlain (value_of fs (codes "authentication")),
      parse_split_dns-IsPlain (value_of fs (codes "split_dns")),
    )
    load-Holds _ = tt

    -- A profile that was loaded has no control character in any text that the policy holds.
    pub load-IsPlainProfile :
        (v : Json) (profile : OrganizationProfile)
        → load library v ≡ ok profile
        → IsPlainProfile profile
    load-IsPlainProfile v profile h =
        holds_ok IsPlainProfile (load library v) profile (load-Holds v) h
