-- ===== src/Url.antt =====
-- `urllib.parse.urlsplit`, and the properties of its result that the client reads.
pub mod Cut
pub mod Parts
pub mod Unsplit
pub mod Host
use meraki_openconnect.Prelude.{
  ℕ, ◌+◌, Bool, false, not, ◌&&◌, ◌||◌, Option, none, some, [], ◌∷◌, ◌++◌, map, Text, codes, length,
  all, any, leb, ◌==◌, is_digit, is_lower, is_upper, starts_with, take, drop, if◌then◌else◌,
}
use meraki_openconnect.Ip.{is_hex, is_ipv6, decimal_value}

pub record SplitResult : Type 0 where
  pub scheme : Text
  pub netloc : Text
  pub path : Text
  pub query : Text
  pub fragment : Text

-- What stands before the first character of a kind, and from it on.
unfoldable pub break_at : (ℕ → Bool) → Text → Text × Text
break_at p [] = ([], [])
break_at p (c ∷ s) =
    let (before, rest) = break_at p s in if p c then ([], c ∷ s) else (c ∷ before, rest)

abbrev pub drop_first : Text × Text → Text × Option Text
drop_first (before, []) = (before, none)
drop_first (before, _ ∷ behind) = (before, some behind)

-- `s.partition(c)`, with `none` where `c` does not occur.
unfoldable pub partition : ℕ → Text → Text × Option Text
unfolding break_at
partition c s = drop_first (break_at (λ x. x == c) s)

-- `s.rpartition(c)`, with `none` where `c` does not occur.
pub rpartition : ℕ → Text → Option Text × Text
rpartition c [] = (none, [])
rpartition c (x ∷ s) =
    let (before, behind) = rpartition c s in
    elim before [
      | some front ↦ (some (x ∷ front), behind)
      | none ↦ if x == c then (some [], s) else (none, x ∷ s)
    ]

abbrev is_letter : ℕ → Bool
is_letter c = is_lower c || is_upper c

abbrev is_scheme_char : ℕ → Bool
is_scheme_char c = is_letter c || is_digit c || c == b'+' || c == b'-' || c == b'.'

-- `str.lower` on ASCII letters.
abbrev pub lower : ℕ → ℕ
lower c = if is_upper c then c + 32 else c

pub skip_blanks : Text → Text
skip_blanks [] = []
skip_blanks (c ∷ s) = let rest = skip_blanks s in if leb c 0x20 then rest else c ∷ s

pub remove_breaks : Text → Text
remove_breaks [] = []
remove_breaks (c ∷ s) =
    let rest = remove_breaks s in if c == 0x09 || c == 0x0a || c == 0x0d then rest else c ∷ rest

-- The scheme, if what stands before the first colon can be one.
abbrev pub at_colon : Text → Text × Option Text → Text × Text
at_colon url (before, none) = ([], url)
at_colon url (before, some behind) =
    if any is_letter (take 1 before) && all is_scheme_char before
    then (map lower before, behind)
    else ([], url)

pub split_scheme : Text → Text × Text
unfolding partition
split_scheme url = at_colon url (partition b':' url)

-- `v[a-fA-F0-9]+\..+\Z` behind the `v`; a text without line breaks, which have been removed.
future_tail : Text → Bool
unfolding break_at
future_tail s =
    let (version, rest) = break_at (λ c. c == b'.') s in
    leb 1 (length version) && all is_hex version && leb 2 (length rest)

-- `_check_bracketed_host`
pub is_bracketed_host : Text → Bool
unfolding future_tail
is_bracketed_host [] = false
is_bracketed_host (c ∷ s) = if c == b'v' then future_tail s else is_ipv6 (c ∷ s)

pub hostinfo : Text → Text
unfolding rpartition
hostinfo netloc = let (userinfo, host) = rpartition b'@' netloc in host

-- `_hostinfo`: the host, and the port if it is not empty.
abbrev nonempty : Option Text → Option Text
nonempty none = none
nonempty (some []) = none
nonempty (some (c ∷ s)) = some (c ∷ s)

abbrev pub or_empty : Option Text → Text
or_empty none = []
or_empty (some s) = s

pub at_bracket : Text × Option Text → Text × Option Text
unfolding partition
at_bracket (before, some bracketed) =
    let (host, behind) = partition b']' bracketed in
    let (_, port) = partition b':' (or_empty behind) in (host, nonempty port)
at_bracket (before, none) = let (host, port) = partition b':' before in (host, nonempty port)

pub host_and_port : Text → Text × Option Text
unfolding partition hostinfo at_bracket
host_and_port netloc = at_bracket (partition b'[' (hostinfo netloc))

-- `_check_bracketed_netloc`
pub is_bracketed_netloc : Text → Bool
unfolding partition hostinfo is_bracketed_host
is_bracketed_netloc netloc =
    let (before, bracket) = partition b'[' (hostinfo netloc) in
    elim bracket [
      | some bracketed ↦
          let (host, behind) = partition b']' bracketed in
          length before == 0
          && (length (or_empty behind) == 0 || any (λ c. c == b':') (take 1 (or_empty behind)))
          && is_bracketed_host host
      | none ↦ let (host, _) = partition b':' before in is_bracketed_host host
    ]

abbrev pub has : ℕ → Text → Bool
has c s = any (λ x. x == c) s

-- The tests on the brackets of a netloc; the failure is a `ValueError`.
pub brackets_ok : Text → Bool
unfolding is_bracketed_netloc
brackets_ok netloc =
    if has b'[' netloc then has b']' netloc && is_bracketed_netloc netloc else not (has b']' netloc)

pub split_query : Text → Text → Text → SplitResult
unfolding partition
split_query scheme netloc url =
    let (front, fragment) = partition b'#' url in
    let (path, query) = partition b'?' front in
    record {
      scheme = scheme;
      netloc = netloc;
      path = path;
      query = or_empty query;
      fragment = or_empty fragment;
    }

-- What ends a netloc
abbrev pub is_end : ℕ → Bool
is_end c = c == b'/' || c == b'?' || c == b'#'

pub with_netloc : Text → Text × Text → Option SplitResult
unfolding brackets_ok split_query
with_netloc scheme (netloc, rest) =
    if brackets_ok netloc then some (split_query scheme netloc rest) else none

pub split_netloc : Text → Text → Option SplitResult
unfolding break_at with_netloc
split_netloc scheme url =
    if starts_with url (codes "//")
    then with_netloc scheme (break_at is_end (drop 2 url))
    else some (split_query scheme [] url)

-- `urlsplit(url)` of an ASCII text; `none` is the `ValueError`. (`_checknetloc` passes ASCII.)
unfoldable pub urlsplit : Text → Option SplitResult
unfolding skip_blanks remove_breaks split_scheme split_netloc
urlsplit url =
    let (scheme, rest) = split_scheme (remove_breaks (skip_blanks url)) in split_netloc scheme rest

pub lowered_name : Text → Option Text
unfolding break_at
lowered_name host =
    let (address, zone) = break_at (λ c. c == b'%') host in
    if length host == 0 then none else some (map lower address ++ zone)

-- `parsed.hostname`; a zone behind `%` keeps its case.
unfoldable pub hostname : SplitResult → Option Text
unfolding host_and_port lowered_name
hostname parsed = lowered_name (host_and_port parsed.netloc).0

pub data Port : Type 0 where
  -- no port is given
  default : Port
  number : ℕ → Port
  -- the `ValueError`
  invalid : Port

-- `parsed.port`
unfoldable pub port : SplitResult → Port
unfolding host_and_port decimal_value
port parsed =
    let (_, text) = host_and_port parsed.netloc in
    elim text [
      | none ↦ default
      | some digits ↦
          if all is_digit digits && leb (decimal_value 0 digits) 65535
          then number (decimal_value 0 digits)
          else invalid
    ]

-- `parsed.username is None`, and `parsed.password is None`: there is no `@`; a password needs one.
unfoldable pub has_username : SplitResult → Bool
has_username parsed = has b'@' parsed.netloc

unfoldable pub has_password : SplitResult → Bool
unfolding rpartition
has_password parsed =
    let (before, _) = rpartition b'@' parsed.netloc in
    elim before [ none ↦ false | some userinfo ↦ has b':' userinfo ]

abbrev pub with_slash : Text → Text
with_slash [] = []
with_slash (c ∷ s) = if c == b'/' then c ∷ s else b'/' ∷ c ∷ s

abbrev pub with_query : Text → Text → Text
with_query url [] = url
with_query url (c ∷ query) = url ++ b'?' ∷ c ∷ query

-- `urlunsplit((scheme, netloc, path, query, ""))` where the scheme and the netloc are not empty
unfoldable pub urlunsplit : Text → Text → Text → Text → Text
urlunsplit scheme netloc path query =
    with_query (scheme ++ (b':' ∷ b'/' ∷ b'/' ∷ (netloc ++ with_slash path))) query
