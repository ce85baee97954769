-- ===== src/Url/Host.antt =====
-- A netloc that is a hostname alone.
use mathlib.Core.List.{append-nil}
use meraki_openconnect.Prelude.{
  ℕ, ◌≡◌, refl, ap, ◌∙◌, Bool, true, false, not, ◌&&◌, none, some, [], ◌∷◌, ◌++◌, Text, arith, all,
  all-map, length, ◌==◌, map,
}
use meraki_openconnect.Url.{
  partition, rpartition, hostinfo, host_and_port, hostname, has, has_username, has_password,
  brackets_ok, port, default, lower, nonempty, at_bracket, lowered_name,
}
use meraki_openconnect.Url.Cut.{lacks, partition-whole, break-whole}

-- No character that parts a netloc
abbrev pub is_plain : ℕ → Bool
is_plain c =
    not (c == b'@') && not (c == b':') && not (c == b'[') && not (c == b']') && not (c == b'%')

plain-lacks : (c : ℕ) (s : Text) → is_plain c ≡ false → all is_plain s ≡ true → lacks c s ≡ true
plain-lacks c s h k = all-map is_plain (λ x. not (x == c)) s (λ x p. ground arith) k

has-lacks : (c : ℕ) (s : Text) → lacks c s ≡ true → has c s ≡ false
has-lacks c [] h = refl
has-lacks c (x ∷ s) h = ground (arith, has-lacks c s (ground arith))

rpartition-whole : (c : ℕ) (s : Text) → lacks c s ≡ true → rpartition c s ≡ (none, s)
unfolding rpartition
rpartition-whole c [] h = refl
rpartition-whole c (x ∷ s) h = rw (rpartition-whole c s (ground arith)) (ground arith)

module _ (netloc : Text) (h : all is_plain netloc ≡ true) where
  plain-hostinfo : hostinfo netloc ≡ netloc
  unfolding hostinfo
  plain-hostinfo = ap (λ r. r.1) (rpartition-whole b'@' netloc (plain-lacks b'@' netloc refl h))

  plain-host_and_port : host_and_port netloc ≡ (netloc, none)
  unfolding host_and_port at_bracket
  plain-host_and_port =
      ap at_bracket (
        ap (partition b'[') plain-hostinfo
        ∙ partition-whole b'[' netloc (plain-lacks b'[' netloc refl h))
      ∙ ap (λ r. (r.0, nonempty r.1)) (partition-whole b':' netloc (plain-lacks b':' netloc refl h))

  -- The name is the netloc, in lower case.
  pub plain-hostname :
      (scheme path query fragment : Text)
      → (length netloc == 0) ≡ false
      → hostname (record {
        scheme = scheme;
        netloc = netloc;
        path = path;
        query = query;
        fragment = fragment;
      })
        ≡ some (map lower netloc)
  unfolding hostname lowered_name
  plain-hostname scheme path query fragment k =
      ap (λ r. lowered_name r.0) plain-host_and_port
      ∙ rw k (
          ap (λ r. some (map lower r.0 ++ r.1))
            (break-whole (λ c. c == b'%') netloc (plain-lacks b'%' netloc refl h))
          ∙ ap some (append-nil (map lower netloc)))

  pub plain-no_user :
      (scheme path query fragment : Text)
      → (has_username (record {
        scheme = scheme;
        netloc = netloc;
        path = path;
        query = query;
        fragment = fragment;
      })
          ≡ false)
        × (has_password (record {
          scheme = scheme;
          netloc = netloc;
          path = path;
          query = query;
          fragment = fragment;
        })
            ≡ false)
  unfolding has_username has_password
  plain-no_user scheme path query fragment =
      let none_found = plain-lacks b'@' netloc refl h in
      (
        has-lacks b'@' netloc none_found,
        rw (has_password, rpartition-whole b'@' netloc none_found) refl,
      )

  pub plain-port :
      (scheme path query fragment : Text)
      → port (record {
        scheme = scheme;
        netloc = netloc;
        path = path;
        query = query;
        fragment = fragment;
      })
        ≡ default
  unfolding port
  plain-port scheme path query fragment = rw (port, plain-host_and_port) refl

  pub plain-brackets_ok : brackets_ok netloc ≡ true
  unfolding brackets_ok
  plain-brackets_ok =
      rw
        (
          has-lacks b'[' netloc (plain-lacks b'[' netloc refl h),
          has-lacks b']' netloc (plain-lacks b']' netloc refl h),
        )
        refl
