-- ===== src/Url/Unsplit.antt =====
-- A URL that was split and joined is split the same way.
use mathlib.Core.List.{append_assoc}
use meraki_openconnect.Prelude.{
  ℕ, ◌≡◌, ◌≢◌, refl, ap, ◌∙◌, Bool, true, not, ◌&&◌, some, [], ◌∷◌, ◌++◌, Text, arith, all, ◌==◌,
  codes, map, any, take, leb, all-append,
}
use meraki_openconnect.Url.{
  SplitResult, hostname, host_and_port, hostinfo, rpartition, with_query, with_slash, urlunsplit,
  at_colon, is_letter, is_scheme_char, lower, break_at, partition, urlsplit, split_scheme,
  split_netloc, split_query, brackets_ok, with_netloc, is_end, skip_blanks, remove_breaks,
}
use meraki_openconnect.Url.Cut.{lacks, starts_in, break-split, partition-joined, partition-whole}
use meraki_openconnect.Url.Parts.{no_breaks, IsSplit, remove_breaks-id}

-- The query that is joined to a path is split off again.
query-whole :
    (scheme netloc path query : Text)
    → lacks b'#' path ≡ true
    → lacks b'?' path ≡ true
    → lacks b'#' query ≡ true
    → split_query scheme netloc (with_query path query)
      ≡ record { scheme = scheme; netloc = netloc; path = path; query = query; fragment = [] }
unfolding split_query
query-whole scheme netloc path [] h k l =
    rw (partition-whole b'#' path h, partition-whole b'?' path k) refl
query-whole scheme netloc path (c ∷ query) h k l =
    rw
      (
        partition-whole b'#' (path ++ b'?' ∷ c ∷ query) (all-append _ path _ h l),
        partition-joined b'?' path (c ∷ query) k,
      )
      refl

slash_id : (path : Text) → starts_in (λ c. c == b'/') path ≡ true → with_slash path ≡ path
slash_id [] h = refl
slash_id (c ∷ path) h = rw h refl

-- A scheme as `urlsplit` gives it.
pub record IsScheme (scheme : Text) : Type 0 where
  pub letters : (any is_letter (take 1 scheme) && all is_scheme_char scheme) ≡ true
  pub lowered : map lower scheme ≡ scheme
  pub no_colon : lacks b':' scheme ≡ true
  pub breaks : no_breaks scheme ≡ true
  pub leading : starts_in (λ c. not (leb c 0x20)) scheme ≡ true

pub https-IsScheme : IsScheme (codes "https")
https-IsScheme = record {
  letters = refl;
  lowered = refl;
  no_colon = refl;
  breaks = refl;
  leading = refl;
}

abbrev joined : Text → Text → Text
joined scheme s = scheme ++ b':' ∷ b'/' ∷ b'/' ∷ s

-- The query stands behind the path.
query-behind :
    (scheme netloc path query : Text)
    → with_query (joined scheme (netloc ++ path)) query
      ≡ joined scheme (netloc ++ with_query path query)
query-behind scheme netloc path [] = refl
query-behind scheme netloc path (c ∷ query) =
    append_assoc scheme (b':' ∷ b'/' ∷ b'/' ∷ (netloc ++ path)) (b'?' ∷ c ∷ query)
    ∙ ap (joined scheme) (append_assoc netloc path (b'?' ∷ c ∷ query))

query-starts :
    (path query : Text)
    → starts_in (λ c. c == b'/') path ≡ true
    → starts_in is_end (with_query path query) ≡ true
query-starts [] [] h = refl
query-starts [] (c ∷ query) h = refl
query-starts (c ∷ path) [] h = ground arith
query-starts (c ∷ path) (d ∷ query) h = ground arith

query-all :
    (q : ℕ → Bool) (path query : Text)
    → q b'?' ≡ true
    → all q path ≡ true
    → all q query ≡ true
    → all q (with_query path query) ≡ true
query-all q path [] m h k = h
query-all q path (c ∷ query) m h k = all-append q path _ h (ground arith)

blanks-joined :
    (scheme s : Text) → IsScheme scheme → skip_blanks (joined scheme s) ≡ joined scheme s
unfolding skip_blanks
blanks-joined [] s h = refl
blanks-joined (c ∷ scheme) s h = ground (arith, h.leading)

scheme-joined :
    (scheme s : Text) → IsScheme scheme → split_scheme (joined scheme s) ≡ (scheme, b'/' ∷ b'/' ∷ s)
unfolding split_scheme
scheme-joined scheme s h =
    ap (at_colon (joined scheme s)) (partition-joined b':' scheme (b'/' ∷ b'/' ∷ s) h.no_colon)
    ∙ rw (h.letters, h.lowered) refl

split_netloc-joined :
    (scheme netloc tail : Text)
    → all (λ c. not (is_end c)) netloc ≡ true
    → brackets_ok netloc ≡ true
    → starts_in is_end tail ≡ true
    → split_netloc scheme (b'/' ∷ b'/' ∷ netloc ++ tail) ≡ some (split_query scheme netloc tail)
unfolding split_netloc with_netloc
split_netloc-joined scheme netloc tail a b c =
    ap (with_netloc scheme) (break-split is_end netloc tail a c) ∙ rw b refl

urlsplit-joined :
    (scheme netloc tail : Text)
    → IsScheme scheme
    → all (λ c. not (is_end c)) netloc ≡ true
    → no_breaks netloc ≡ true
    → brackets_ok netloc ≡ true
    → starts_in is_end tail ≡ true
    → no_breaks tail ≡ true
    → urlsplit (joined scheme (netloc ++ tail)) ≡ some (split_query scheme netloc tail)
unfolding urlsplit
urlsplit-joined scheme netloc tail s a b c d e =
    let text = netloc ++ tail in
    let clean =
      remove_breaks-id (joined scheme text)
        (all-append _ scheme _ s.breaks (all-append _ netloc tail b e)) in
    ap (λ u. split_netloc (split_scheme u).0 (split_scheme u).1)
      (ap remove_breaks (blanks-joined scheme text s) ∙ clean)
    ∙ ap (λ r. split_netloc r.0 r.1) (scheme-joined scheme text s)
    ∙ split_netloc-joined scheme netloc tail a c d

-- A URL that was split, and is joined with another query, is split to the same parts.
pub urlsplit-urlunsplit :
    (parsed : SplitResult) (query : Text)
    → IsScheme parsed.scheme
    → IsSplit parsed
    → lacks b'#' query ≡ true
    → no_breaks query ≡ true
    → urlsplit (urlunsplit parsed.scheme parsed.netloc parsed.path query)
      ≡ some (record parsed { query = query; fragment = [] })
unfolding urlunsplit
urlsplit-urlunsplit parsed query s p h k =
    let tail = with_query parsed.path query in
    rw (slash_id parsed.path p.path_starts) (
      ap urlsplit (query-behind parsed.scheme parsed.netloc parsed.path query)
      ∙ urlsplit-joined parsed.scheme parsed.netloc tail s p.netloc_ends p.netloc_breaks p.brackets
          (query-starts parsed.path query p.path_starts)
          (query-all _ parsed.path query refl p.path_breaks k)
      ∙ ap some (
          query-whole parsed.scheme parsed.netloc parsed.path query p.path_fragment p.path_query h))

-- A URL with a hostname has a netloc.
pub hostname-netloc :
    (parsed : SplitResult) (host : Text) → hostname parsed ≡ some host → parsed.netloc ≢ []
unfolding hostname host_and_port hostinfo partition break_at rpartition
hostname-netloc parsed host h e = let k = ap (λ n. hostname (record parsed { netloc = n })) e in cc
