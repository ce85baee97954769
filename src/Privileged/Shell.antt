-- ===== src/Privileged/Shell.antt =====
-- `_shell_literal` and `shlex.quote`, and how a shell reads what they write.
use meraki_openconnect.Prelude.{
  ℕ, ◌≡◌, refl, ap, ◌∙◌, sym, Bool, true, false, ◌||◌, Option, none, some, [], ◌∷◌, ◌++◌, Text,
  Result, ok, err, arith, length, any, all, ltb, ◌==◌, is_digit, is_lower, is_upper, Bool-cases,
  not, ◌&&◌, ==_iff, all-joined, inl, inr, if◌then◌else◌, codes,
}

-- The failures of privileged.py, where `not_ascii` is an encoding error and not a `PrivilegedError`.
pub data PrivilegedError : Type 0 where
  unsafe_value wrong_gateway wrong_profile invalid_username not_ascii : PrivilegedError
  invalid_settings marker_invalid inspection_failed malformed_rpath : PrivilegedError
  unsupported_rpath libraries_missing unsupported_dependency : PrivilegedError
  dependency_missing names_collide not_linked both_required : PrivilegedError

-- `[\w@%+=:,./-]`, of ASCII
pub is_safe : ℕ → Bool
is_safe c =
    is_lower c
    || is_upper c
    || is_digit c
    || c == b'_'
    || c == b'@'
    || c == b'%'
    || c == b'+'
    || c == b'='
    || c == b':'
    || c == b','
    || c == b'.'
    || c == b'/'
    || c == b'-'

-- A character between single quotes: a quote becomes `'"'"'`.
abbrev escaped : Bool → ℕ → Text → Text
escaped true c s = b'\'' ∷ b'"' ∷ b'\'' ∷ b'"' ∷ b'\'' ∷ s
escaped false c s = c ∷ s

-- `s.replace("'", "'\"'\"'")`
pub escape : Text → Text
escape [] = []
escape (c ∷ s) = escaped (c == b'\'') c (escape s)

-- `shlex.quote`
pub quote : Text → Text
unfolding escape is_safe
quote [] = codes "''"
quote (c ∷ s) = if all is_safe (c ∷ s) then c ∷ s else b'\'' ∷ (escape (c ∷ s) ++ b'\'' ∷ [])

-- `_shell_literal`
unfoldable pub shell_literal : Text → Result PrivilegedError Text
unfolding quote
shell_literal value =
    if length value == 0 || any (λ c. ltb c 0x20 || ltb 0x7e c) value
    then err unsafe_value
    else ok (quote value)

pub data Quoting : Type 0 where
  bare single double : Quoting

-- What a shell makes of a text as one word: in single quotes each character stands for itself, in
-- double quotes all but `$`, a backquote, a backslash and `!`, without quotes only those that have
-- no meaning to it. There is no word where a character with a meaning occurs or a quote stays open.
pub word : Quoting → Text → Option Text
word bare [] = some []
word single [] = none
word double [] = none
word bare (c ∷ s) =
    if c == b'\''
    then word single s
    else if c == b'"'
    then word double s
    else if is_safe c
    then (elim (word bare s) [ none ↦ none | some w ↦ some (c ∷ w) ])
    else none
word single (c ∷ s) =
    if c == b'\''
    then word bare s
    else (elim (word single s) [ none ↦ none | some w ↦ some (c ∷ w) ])
word double (c ∷ s) =
    if c == b'"'
    then word bare s
    else if c == b'$' || c == b'`' || c == b'\\' || c == b'!'
    then none
    else (elim (word double s) [ none ↦ none | some w ↦ some (c ∷ w) ])

is_safe-not_quote : (c : ℕ) → is_safe c ≡ true → ((c == b'\'') ≡ false) × ((c == b'"') ≡ false)
unfolding is_safe
is_safe-not_quote c h = ground arith

pub is_safe-no_return : (c : ℕ) → is_safe c ≡ true → not (c == 0x0d) ≡ true
unfolding is_safe
is_safe-no_return c h = ground arith

-- What holds of the characters that quoting adds, and of those that stand without quotes, holds of all
-- characters of a quoted text as of those of the text.
escape-all : (p : ℕ → Bool) (s : Text) → p b'\'' ≡ true → p b'"' ≡ true → all p (escape s) ≡ all p s
unfolding escape
escape-all p [] h k = refl
escape-all p (c ∷ s) h k = elim (Bool-cases (c == b'\'')) [
  | inl y ↦
      let e : p c ≡ true = ap p ((==_iff c b'\'').0 y) ∙ h in
      rw y (ground (arith, h, k, e, escape-all p s h k))
  | inr n ↦ rw n (ap (λ b. p c && b) (escape-all p s h k))
]

pub quote-all :
    (p : ℕ → Bool) (s : Text)
    → p b'\'' ≡ true
    → p b'"' ≡ true
    → ((c : ℕ) → is_safe c ≡ true → p c ≡ true)
    → all p (quote s) ≡ all p s
unfolding quote
quote-all p [] h k f = ground (arith, h)
quote-all p (c ∷ s) h k f = elim (Bool-cases (all is_safe (c ∷ s))) [
  | inl y ↦ rw y refl
  | inr n ↦
      rw n (ground (arith, h, escape-all p (c ∷ s) h k, all-joined p (escape (c ∷ s)) (b'\'' ∷ [])))
]

word-safe : (s : Text) → all is_safe s ≡ true → word bare s ≡ some s
unfolding word
word-safe [] h = refl
word-safe (c ∷ s) h =
    let safe : is_safe c ≡ true = ground (arith, h) in
    ground (arith, h, is_safe-not_quote c safe, word-safe s)

reopened :
    (c : ℕ) (t r : Text)
    → (c == b'\'') ≡ true
    → word single t ≡ some r
    → word single (b'\'' ∷ b'"' ∷ b'\'' ∷ b'"' ∷ b'\'' ∷ t) ≡ some (c ∷ r)
unfolding word
reopened c t r q h = ground (arith, q, h)

within :
    (c : ℕ) (t r : Text)
    → (c == b'\'') ≡ false
    → word single t ≡ some r
    → word single (c ∷ t) ≡ some (c ∷ r)
unfolding word
within c t r n h = ground (arith, n, h)

word-escaped :
    (c : ℕ) (t u r : Text) (b : Bool)
    → (c == b'\'') ≡ b
    → word single (t ++ u) ≡ some r
    → word single (escaped b c t ++ u) ≡ some (c ∷ r)
word-escaped c t u r true q h = reopened c (t ++ u) r q h
word-escaped c t u r false q h = within c (t ++ u) r q h

word-quote_end : word single (b'\'' ∷ []) ≡ some []
unfolding word
word-quote_end = refl

word-escape : (s : Text) → word single (escape s ++ b'\'' ∷ []) ≡ some s
unfolding escape
word-escape [] = word-quote_end
word-escape (c ∷ s) = word-escaped c (escape s) (b'\'' ∷ []) s (c == b'\'') refl (word-escape s)

word-quote : (s : Text) → word bare (quote s) ≡ some s
unfolding quote word
word-quote [] = refl
word-quote (c ∷ s) = elim (Bool-cases (all is_safe (c ∷ s))) [
  | inl y ↦ ground (arith, y, word-safe (c ∷ s) y)
  | inr n ↦ ground (arith, n, word-escape (c ∷ s))
]

-- A shell reads a literal as one word, the value that it was made of: no value can end the word or
-- start an expansion or a command.
pub word-shell_literal :
    (value literal : Text) → shell_literal value ≡ ok literal → word bare literal ≡ some value
unfolding shell_literal
word-shell_literal value literal h =
    let e : quote value ≡ literal = ground (arith, h) in ap (word bare) (sym e) ∙ word-quote value
