-- ===== src/Url/Parts.antt =====
-- What `urlsplit` gives of a URL with a netloc.
use mathlib.Core.Path.{subst}
use meraki_openconnect.Prelude.{
  ℕ, ◌≡◌, ◌≢◌, refl, ap, sym, ◌∙◌, Bool, true, not, ◌&&◌, ◌||◌, Option, none, some, [], ◌∷◌, Text,
  arith, all, ◌==◌, codes, drop, starts_with, Bool-cases, some_injective, zero, suc, any, take, inl,
  inr,
}
use meraki_openconnect.Url.{
  SplitResult, at_colon, is_letter, is_scheme_char, break_at, partition, urlsplit, split_scheme,
  split_netloc, split_query, brackets_ok, with_netloc, is_end, skip_blanks, remove_breaks,
}
use meraki_openconnect.Url.Cut.{
  lacks, starts_in, before-all, behind-all, partition_front, partition_behind, starts_in-map,
  before-lacks, behind-starts, before-starts,
}

abbrev pub is_break : ℕ → Bool
is_break c = c == 0x09 || c == 0x0a || c == 0x0d

abbrev pub no_breaks : Text → Bool
no_breaks = all (λ c. not (is_break c))

-- What `urlsplit` gives of a URL with a netloc.
pub record IsSplit (parsed : SplitResult) : Type 0 where
  pub netloc_ends : all (λ c. not (is_end c)) parsed.netloc ≡ true
  pub netloc_breaks : no_breaks parsed.netloc ≡ true
  pub brackets : brackets_ok parsed.netloc ≡ true
  pub path_starts : starts_in (λ c. c == b'/') parsed.path ≡ true
  pub path_query : lacks b'?' parsed.path ≡ true
  pub path_fragment : lacks b'#' parsed.path ≡ true
  pub path_breaks : no_breaks parsed.path ≡ true

remove_breaks-no_breaks : (s : Text) → no_breaks (remove_breaks s) ≡ true
unfolding remove_breaks
remove_breaks-no_breaks [] = refl
remove_breaks-no_breaks (c ∷ s) = ground (arith, remove_breaks-no_breaks s)

pub remove_breaks-id : (s : Text) → no_breaks s ≡ true → remove_breaks s ≡ s
unfolding remove_breaks
remove_breaks-id [] h = refl
remove_breaks-id (c ∷ s) h = rw (remove_breaks-id s (ground arith)) (ground arith)

tail-all : (q : ℕ → Bool) (c : ℕ) (s : Text) → all q (c ∷ s) ≡ true → all q s ≡ true
tail-all q c s h = ground arith

at_colon-all :
    (q : ℕ → Bool) (url : Text) (r : Text × Option Text)
    → all q url ≡ true
    → ((behind : Text) → r.1 ≡ some behind → all q behind ≡ true)
    → all q (at_colon url r).1 ≡ true
at_colon-all q url (before, none) h f = h
at_colon-all q url (before, some behind) h f =
    elim (Bool-cases (any is_letter (take 1 before) && all is_scheme_char before)) [
      | inl e ↦ rw e (f behind refl)
      | inr e ↦ rw e h
    ]

split_scheme-all : (q : ℕ → Bool) (s : Text) → all q s ≡ true → all q (split_scheme s).1 ≡ true
unfolding split_scheme
split_scheme-all q s h =
    at_colon-all q s (partition b':' s) h (λ behind e. partition_behind q b':' s behind h e)

module _ (rest : Text) where
  abbrev front : Text
  front = (partition b'#' rest).0

  abbrev path_of : Text
  path_of = (partition b'?' front).0

  path_starts : starts_in is_end rest ≡ true → starts_in (λ c. c == b'/') path_of ≡ true
  path_starts d =
      rw (partition_front b'?' front, partition_front b'#' rest)
        (starts_in-map (λ x. is_end x && not (x == 35) && not (x == 63)) (λ x. x == 47)
          (break_at (λ x. x == 63) (break_at (λ x. x == 35) rest).0).0 (λ c h. ground arith)
          (before-starts (λ x. x == b'?') (λ x. is_end x && not (x == 35))
            (break_at (λ x. x == 35) rest).0 (before-starts (λ x. x == b'#') is_end rest d)))

  path_all : (q : ℕ → Bool) → all q rest ≡ true → all q path_of ≡ true
  path_all q h =
      rw (partition_front b'?' front, partition_front b'#' rest)
        (before-all _ q _ (before-all _ q rest h))

  path-no_query : lacks b'?' path_of ≡ true
  path-no_query = rw (partition_front b'?' front) (before-lacks _ front)

  path-no_fragment : lacks b'#' path_of ≡ true
  path-no_fragment =
      rw (partition_front b'?' front, partition_front b'#' rest)
        (before-all _ _ _ (before-lacks (λ x. x == b'#') rest))

split_query-IsSplit :
    (scheme netloc rest : Text)
    → all (λ c. not (is_end c)) netloc ≡ true
    → no_breaks netloc ≡ true
    → brackets_ok netloc ≡ true
    → starts_in is_end rest ≡ true
    → no_breaks rest ≡ true
    → IsSplit (split_query scheme netloc rest)
unfolding split_query
split_query-IsSplit scheme netloc rest a b c d e = record {
  netloc_ends = a;
  netloc_breaks = b;
  brackets = c;
  path_starts = path_starts rest d;
  path_query = path-no_query rest;
  path_fragment = path-no_fragment rest;
  path_breaks = path_all rest _ e;
}

with_netloc-IsSplit :
    (scheme netloc rest : Text) (parsed : SplitResult)
    → all (λ c. not (is_end c)) netloc ≡ true
    → no_breaks netloc ≡ true
    → starts_in is_end rest ≡ true
    → no_breaks rest ≡ true
    → with_netloc scheme (netloc, rest) ≡ some parsed
    → IsSplit parsed
unfolding with_netloc
with_netloc-IsSplit scheme netloc rest parsed a b c d e = elim (Bool-cases (brackets_ok netloc)) [
  | inr n ↦ ground arith
  | inl y ↦
      subst IsSplit (some_injective _ parsed (ground arith))
        (split_query-IsSplit scheme netloc rest a b y c d)
]

no_netloc : (scheme url : Text) → (split_query scheme [] url).netloc ≡ []
unfolding split_query
no_netloc scheme url = refl

drop-all : (q : ℕ → Bool) (n : ℕ) (s : Text) → all q s ≡ true → all q (drop n s) ≡ true
drop-all q zero s h = h
drop-all q (suc n) [] h = refl
drop-all q (suc n) (c ∷ s) h = drop-all q n s (tail-all q c s h)

split_netloc-IsSplit :
    (scheme url : Text) (parsed : SplitResult)
    → no_breaks url ≡ true
    → split_netloc scheme url ≡ some parsed
    → parsed.netloc ≢ []
    → IsSplit parsed
unfolding split_netloc
split_netloc-IsSplit scheme url parsed h split n =
    elim (Bool-cases (starts_with url (codes "//"))) [
      | inr k ↦
          let e = some_injective (split_query scheme [] url) parsed (ground arith) in
          elim (n (ap (λ p. p.netloc) (sym e) ∙ no_netloc scheme url)) [ ]
      | inl k ↦
          let rest = drop-all (λ c. not (is_break c)) 2 url h in
          with_netloc-IsSplit scheme (break_at is_end (drop 2 url)).0
            (break_at is_end (drop 2 url)).1 parsed (before-lacks is_end (drop 2 url))
            (before-all is_end _ (drop 2 url) rest) (behind-starts is_end (drop 2 url))
            (behind-all is_end _ (drop 2 url) rest) (ground arith)
    ]

pub urlsplit-IsSplit :
    (url : Text) (parsed : SplitResult)
    → urlsplit url ≡ some parsed
    → parsed.netloc ≢ []
    → IsSplit parsed
unfolding urlsplit
urlsplit-IsSplit url parsed h n =
    let cleaned = remove_breaks (skip_blanks url) in
    split_netloc-IsSplit (split_scheme cleaned).0 (split_scheme cleaned).1 parsed
      (split_scheme-all _ cleaned (remove_breaks-no_breaks (skip_blanks url))) h n
