-- ===== src/Ip.antt =====
-- `ipaddress.ip_address` as far as the client asks it: which texts are addresses, of which version.
use meraki_openconnect.Prelude.{
  ℕ, suc, ◌+◌, ◌-◌, ◌*◌, Bool, false, not, ◌&&◌, ◌||◌, Option, none, some, List, [], ◌∷◌, ◌++◌,
  Text, codes, length, all, any, leb, ◌==◌, is_digit, if◌then◌else◌,
}

-- `s.split(sep)` at a separator of one character: the parts, of which there is one at least.
unfoldable pub split : ℕ → Text → Text × List Text
split sep [] = ([], [])
split sep (c ∷ s) =
    let (part, more) = split sep s in if c == sep then ([], part ∷ more) else (c ∷ part, more)

unfoldable pub parts : ℕ → Text → List Text
parts sep s = let (part, more) = split sep s in part ∷ more

unfoldable pub decimal_value : ℕ → Text → ℕ
decimal_value n [] = n
decimal_value n (c ∷ s) = decimal_value (n * 10 + (c - b'0')) s

-- `_parse_octet`: one to three digits, no leading zero, at most 255.
pub is_octet : Text → Bool
is_octet [] = false
is_octet (c ∷ s) =
    all is_digit (c ∷ s)
    && leb (length s) 2
    && not (c == b'0' && leb 1 (length s))
    && leb (decimal_value 0 (c ∷ s)) 255

unfoldable pub is_ipv4 : Text → Bool
unfolding is_octet parts split decimal_value
is_ipv4 s = length (parts b'.' s) == 4 && all is_octet (parts b'.' s)

abbrev pub is_hex : ℕ → Bool
is_hex c = is_digit c || leb b'A' c && leb c b'F' || leb b'a' c && leb c b'f'

-- `_parse_hextet`
pub is_hextet : Text → Bool
is_hextet s = leb 1 (length s) && leb (length s) 4 && all is_hex s

abbrev is_empty : Text → Bool
is_empty s = length s == 0

abbrev before_empty : Text → Option (List Text × List Text) → Option (List Text × List Text)
before_empty p none = none
before_empty p (some (hi, lo)) = some (p ∷ hi, lo)

-- The parts before the first empty one and behind it, if there is one.
pub around_empty : List Text → Option (List Text × List Text)
around_empty [] = none
around_empty (p ∷ ps) =
    let rest = around_empty ps in if is_empty p then some ([], ps) else before_empty p rest

-- All but the last of a list that begins with p, and the last.
pub init_last : Text → List Text → List Text × Text
init_last p [] = ([], p)
init_last p (q ∷ qs) = let (front, last) = init_last q qs in (p ∷ front, last)

-- Hextets on one side of `::`, whose outermost is `edge`: their number, or `none` if malformed. An
-- empty edge must stand directly beside the colons.
pub side : Text → List Text → Option ℕ
unfolding is_hextet
side edge inner =
    if is_empty edge
    then (if length inner == 0 then some 0 else none)
    else if is_hextet edge && all is_hextet inner
    then some (suc (length inner))
    else none

-- `::` stands for one hextet at least.
abbrev fits_in_eight : Option ℕ → Option ℕ → Bool
fits_in_eight (some h) (some l) = leb (h + l) 7
fits_in_eight _ _ = false

-- `_ip_int_from_string`, on the parts between the colons.
pub are_ipv6_parts : Text → List Text → Text → Bool
unfolding side around_empty
are_ipv6_parts first interior last = elim (around_empty interior) [
  | none ↦ length interior == 6 && is_hextet first && all is_hextet interior && is_hextet last
  | some (hi, lo) ↦ not (any is_empty lo) && fits_in_eight (side first hi) (side last lo)
]

-- A dotted tail stands for two hextets.
pub expand_tail : List Text × Text → List Text × Option Text
expand_tail (front, last) =
    if any (λ c. c == b'.') last
    then (front ++ codes "0" ∷ [], if is_ipv4 last then some (codes "0") else none)
    else (front, some last)

pub are_parts : List Text × Option Text → Bool
unfolding are_ipv6_parts
are_parts ([], last) = false
are_parts (first ∷ interior, none) = false
are_parts (first ∷ interior, some last) = are_ipv6_parts first interior last

-- `_split_scope_id`: at most one `%`, with something behind it.
pub without_scope : List Text → Option Text
without_scope (address ∷ []) = some address
without_scope (address ∷ scope ∷ []) = if is_empty scope then none else some address
without_scope _ = none

pub is_ipv6_address : Text → Bool
unfolding init_last expand_tail are_parts
is_ipv6_address s = let (part, more) = split b':' s in are_parts (expand_tail (init_last part more))

unfoldable pub is_ipv6 : Text → Bool
unfolding without_scope is_ipv6_address parts split
is_ipv6 s = not (any (λ c. c == b'/') s) && (elim (without_scope (parts b'%' s)) [
  | none ↦ false
  | some address ↦ is_ipv6_address address
])
