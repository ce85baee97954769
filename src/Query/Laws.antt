-- ===== src/Query/Laws.antt =====
-- A query is read back from its print.
use meraki_openconnect.Prelude.{
  ℕ, ◌≡◌, refl, ap, ◌∙◌, Bool, true, false, ◌&&◌, ◌||◌, some, List, [], ◌∷◌, ◌++◌, Text, map, arith,
  all, ◌==◌, Option-cases, all-append, all-map, inl, inr,
}
use meraki_openconnect.Ip.{parts, split}
use meraki_openconnect.Url.{partition}
use meraki_openconnect.Url.Cut.{lacks, partition-joined}
use meraki_openconnect.Query.{
  unquote_from, plus_to_space, unquote_plus, quote_plus, quote_pair, Pair, parse_field,
  parse_fields, parse_qsl, urlencode,
}
use meraki_openconnect.Query.Utf8.{is_scalar}
use meraki_openconnect.Query.Utf8.Sound.{decode_utf8-IsScalar}
use meraki_openconnect.Query.Quote.{unquote_plus-quote_plus, is_query_char, quote_plus-safe}

query-lacks :
    (c : ℕ) (s : Text) → is_query_char c ≡ false → all is_query_char s ≡ true → lacks c s ≡ true
query-lacks c s h k = all-map is_query_char _ s (λ x q. ground arith) k

split-joined : (c : ℕ) (s t : Text) → lacks c s ≡ true → split c (s ++ c ∷ t) ≡ (s, parts c t)
unfolding split parts
split-joined c [] t h = ground arith
split-joined c (x ∷ s) t h = rw (split-joined c s t (ground arith)) (ground arith)

split-whole : (c : ℕ) (s : Text) → lacks c s ≡ true → split c s ≡ (s, [])
unfolding split
split-whole c [] h = refl
split-whole c (x ∷ s) h = rw (split-whole c s (ground arith)) (ground arith)

quote_plus-lacks :
    (c : ℕ) (s : Text)
    → is_query_char c ≡ false
    → all is_scalar s ≡ true
    → lacks c (quote_plus s) ≡ true
quote_plus-lacks c s h k = query-lacks c (quote_plus s) h (quote_plus-safe s k)

-- Names and values that can be encoded.
abbrev pub all_scalar : List Pair → Bool
all_scalar = all (λ p. all is_scalar p.0 && all is_scalar p.1)

parse_field-quote_pair :
    (name value : Text)
    → all is_scalar name ≡ true
    → all is_scalar value ≡ true
    → parse_field (quote_pair (name, value)) ≡ some (name, value)
unfolding parse_field quote_pair
parse_field-quote_pair name value h k =
    let e =
      partition-joined b'=' (quote_plus name) (quote_plus value) (quote_plus-lacks _ name refl h) in
    rw (parse_field, e)
      (ap (λ r. some (unquote_plus r.0, unquote_plus (quote_plus value))) e
        ∙ rw (unquote_plus-quote_plus name h, unquote_plus-quote_plus value k) refl)

pair-lacks :
    (name value : Text)
    → all is_scalar name ≡ true
    → all is_scalar value ≡ true
    → lacks b'&' (quote_pair (name, value)) ≡ true
unfolding quote_pair
pair-lacks name value h k =
    all-append _ (quote_plus name) _ (quote_plus-lacks _ name refl h)
      (quote_plus-lacks _ value refl k)

-- The parts of a printed query are the printed pairs.
parts-urlencode :
    (p : Pair) (ps : List Pair)
    → all_scalar (p ∷ ps) ≡ true
    → parts b'&' (urlencode (p ∷ ps)) ≡ map quote_pair (p ∷ ps)
unfolding parts urlencode
parts-urlencode (name, value) [] h =
    rw (split-whole b'&' _ (pair-lacks name value (ground arith) (ground arith))) refl
parts-urlencode (name, value) (q ∷ qs) h =
    rw
      (split-joined b'&' _ (urlencode (q ∷ qs))
        (pair-lacks name value (ground arith) (ground arith)))
      (ap (λ x. quote_pair (name, value) ∷ x) (parts-urlencode q qs (ground arith)))

parse_fields-map :
    (ps : List Pair) → all_scalar ps ≡ true → parse_fields (map quote_pair ps) ≡ some ps
unfolding parse_fields
parse_fields-map [] h = refl
parse_fields-map ((name, value) ∷ ps) h =
    rw
      (
        parse_fields,
        parse_field-quote_pair name value (ground arith) (ground arith),
        parse_fields-map ps (ground arith),
      )
      refl

nonempty-parse :
    (s a : Text) (c : ℕ) (t : Text) → s ≡ a ++ c ∷ t → parse_qsl s ≡ parse_fields (parts b'&' s)
unfolding parse_qsl
nonempty-parse [] [] c t h = cc
nonempty-parse [] (x ∷ a) c t h = cc
nonempty-parse (x ∷ s) a c t h = refl

urlencode-nonempty :
    (p : Pair) (ps : List Pair)
    → parse_qsl (urlencode (p ∷ ps)) ≡ parse_fields (parts b'&' (urlencode (p ∷ ps)))
unfolding urlencode quote_pair
urlencode-nonempty (name, value) [] =
    nonempty-parse _ (quote_plus name) b'=' (quote_plus value) refl
urlencode-nonempty (name, value) (q ∷ qs) =
    nonempty-parse _ (quote_pair (name, value)) b'&' (urlencode (q ∷ qs)) refl

-- A query that `urlencode` printed is read back as the same pairs.
pub parse_qsl-urlencode :
    (ps : List Pair) → all_scalar ps ≡ true → parse_qsl (urlencode ps) ≡ some ps
unfolding parse_qsl urlencode
parse_qsl-urlencode [] h = refl
parse_qsl-urlencode (p ∷ ps) h =
    urlencode-nonempty p ps ∙ ap parse_fields (parts-urlencode p ps h) ∙ parse_fields-map (p ∷ ps) h

abbrev pub is_url_char : ℕ → Bool
is_url_char c = is_query_char c || c == b'=' || c == b'&'

quote-safe : (s : Text) → all is_scalar s ≡ true → all is_url_char (quote_plus s) ≡ true
quote-safe s h =
    all-map is_query_char is_url_char (quote_plus s) (λ c k. ground arith) (quote_plus-safe s h)

pair-safe :
    (p : Pair)
    → (all is_scalar p.0 && all is_scalar p.1) ≡ true
    → all is_url_char (quote_pair p) ≡ true
unfolding quote_pair
pair-safe (name, value) h =
    all-append _ (quote_plus name) _ (quote-safe name (ground arith))
      (quote-safe value (ground arith))

pub urlencode-safe : (ps : List Pair) → all_scalar ps ≡ true → all is_url_char (urlencode ps) ≡ true
unfolding urlencode
urlencode-safe [] h = refl
urlencode-safe (p ∷ []) h = pair-safe p (ground arith)
urlencode-safe (p ∷ q ∷ qs) h =
    all-append _ (quote_pair p) _ (pair-safe p (ground arith))
      (urlencode-safe (q ∷ qs) (ground arith))

parse_field-IsScalar :
    (s : Text) (p : Pair) → parse_field s ≡ some p → all is_scalar p.0 && all is_scalar p.1 ≡ true
unfolding parse_field unquote_plus
parse_field-IsScalar s (name, value) h = elim (Option-cases (partition b'=' s).1) [
  | inl e ↦ ground arith
  | inr (behind, e) ↦
      let left = decode_utf8-IsScalar (unquote_from 0 (map plus_to_space (partition b'=' s).0)) in
      let right = decode_utf8-IsScalar (unquote_from 0 (map plus_to_space behind)) in ground arith
]

parse_fields-IsScalar :
    (ss : List Text) (ps : List Pair) → parse_fields ss ≡ some ps → all_scalar ps ≡ true
unfolding parse_fields
parse_fields-IsScalar [] ps h = ground arith
parse_fields-IsScalar (s ∷ ss) ps h = elim (Option-cases (parse_field s)) [
  | inl e ↦ ground arith
  | inr (p, e) ↦ elim (Option-cases (parse_fields ss)) [
    | inl k ↦ ground arith
    | inr (qs, k) ↦ ground (arith, parse_field-IsScalar s p e, parse_fields-IsScalar ss qs k)
  ]
]

-- What a query is read as can be encoded.
pub parse_qsl-IsScalar : (q : Text) (ps : List Pair) → parse_qsl q ≡ some ps → all_scalar ps ≡ true
unfolding parse_qsl
parse_qsl-IsScalar [] ps h = ground arith
parse_qsl-IsScalar (c ∷ q) ps h = parse_fields-IsScalar (parts b'&' (c ∷ q)) ps h
