-- ===== src/Saml/Request.antt =====
-- Where the request stands among the pairs of a query that `rewrite_force_authn` of
-- `src/meraki_openconnect/saml.py` changes.
use mathlib.Core.Path.{subst}
use meraki_openconnect.Prelude.{
  ℕ, inl, inr, suc, ◌+◌, ◌≡◌, refl, ap, sym, ◌∙◌, true, false, not, ◌&&◌, List, [], ◌∷◌, ◌++◌, Text,
  codes, text_eq, text_eq_iff, arith, all, any, Bool-cases, all-append, all-parts,
}
use meraki_openconnect.Query.{Pair}
use meraki_openconnect.Query.Utf8.{is_scalar}
use meraki_openconnect.Query.Laws.{all_scalar}
use meraki_openconnect.Saml.{is_request, is_signed, request_indexes, value_at, set_at}

-- The one request of a query, between pairs that are none and none of which is a signature.
pub record IsRequest (pairs new : List Pair) (request rewritten : Text) : Type 0 where
  pub before : List Pair
  pub after : List Pair
  pub was : pairs ≡ before ++ (codes "SAMLRequest", request) ∷ after
  pub is_now : new ≡ before ++ (codes "SAMLRequest", rewritten) ∷ after
  pub is_only : all (λ p. not (is_request p) && not (is_signed p)) (before ++ after) ≡ true

-- Where the requests of a query are
no-request :
    (n : ℕ) (ps : List Pair)
    → request_indexes n ps ≡ []
    → any is_signed ps ≡ false
    → all (λ p. not (is_request p) && not (is_signed p)) ps ≡ true
unfolding request_indexes
no-request n [] h s = refl
no-request n (p ∷ ps) h s = elim (Bool-cases (is_request p)) [
  | inl e ↦ ground arith
  | inr e ↦ ground (arith, no-request (suc n) ps (ground arith) (ground arith))
]

abbrev pub Found : List Pair → Text → ℕ → ℕ → Type 0
Found ps new n i =
    (k : ℕ) × (i ≡ n + k)
    × IsRequest ps (set_at k (codes "SAMLRequest", new) ps) (value_at k ps) new

pub one-request :
    (n i : ℕ) (ps : List Pair) (new : Text)
    → request_indexes n ps ≡ i ∷ []
    → any is_signed ps ≡ false
    → Found ps new n i
unfolding request_indexes
one-request n i [] new h s = cc
one-request n i ((key, value) ∷ ps) new h s =
    elim (Bool-cases (text_eq key (codes "SAMLRequest"))) [
      | inl e ↦
          let rest : request_indexes (suc n) ps ≡ [] = ground arith in
          (
            0,
            ground arith,
            record {
              before = [];
              after = ps;
              was = ap (λ x. (x, value) ∷ ps) ((text_eq_iff _ _).0 e);
              is_now = refl;
              is_only = no-request (suc n) ps rest (ground arith);
            },
          )
      | inr e ↦
          let (k, at, found) = one-request (suc n) i ps new (ground arith) (ground arith) in
          (
            suc k,
            omega arith,
            record {
              before = (key, value) ∷ found.before;
              after = found.after;
              was = ap (λ x. (key, value) ∷ x) found.was;
              is_now = ap (λ x. (key, value) ∷ x) found.is_now;
              is_only = ground (arith, found.is_only);
            },
          )
    ]

pub placed :
    (pairs : List Pair) (i : ℕ) (new : Text)
    → Found pairs new 0 i
    → IsRequest pairs (set_at i (codes "SAMLRequest", new) pairs) (value_at i pairs) new
placed pairs i new (k, at, found) =
    subst (λ j. IsRequest pairs (set_at j (codes "SAMLRequest", new) pairs) (value_at j pairs) new)
      (omega arith) found

pub request-scalar :
    (pairs new : List Pair) (request rewritten : Text)
    → IsRequest pairs new request rewritten
    → all is_scalar rewritten ≡ true
    → all_scalar pairs ≡ true
    → all_scalar new ≡ true
request-scalar pairs new request rewritten r h k =
    let parts = all-parts _ r.before _ (ap all_scalar (sym r.was) ∙ k) in
    ap all_scalar r.is_now
    ∙ all-append _ r.before ((codes "SAMLRequest", rewritten) ∷ r.after) parts.0
        (ground (arith, parts.1))
