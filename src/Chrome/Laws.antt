-- ===== src/Chrome/Laws.antt =====
-- A page that is built is one that is opened.
use meraki_openconnect.Prelude.{
  ℕ, ◌≡◌, refl, ap, sym, ◌∙◌, Bool, true, not, ◌&&◌, ◌||◌, List, [], ◌∷◌, Text, codes, Result, ok,
  err, ◌>>=◌, ◌>>◌, require, arith, all, Bool-cases, inl, inr, leb, ◌==◌, map, if◌then◌else◌,
  all-map, one_of,
}
use meraki_openconnect.Url.{SplitResult, is_end, urlunsplit, urlsplit, lower}
use meraki_openconnect.Url.Cut.{starts_in}
use meraki_openconnect.Url.Parts.{is_break, IsSplit}
use meraki_openconnect.Url.Unsplit.{IsScheme, urlsplit-urlunsplit}
use meraki_openconnect.Url.Host.{is_plain, plain-brackets_ok, plain-hostname, plain-no_user}
use meraki_openconnect.Settings.Checks.{is_extension_id}
use meraki_openconnect.Chrome.{
  ChromeError, invalid_extension_id, not_opened, open_command, page_url, open_in_chrome, is_page,
  build_extension_start_url, build_extension_setup_url,
}

chrome-IsScheme : IsScheme (codes "chrome-extension")
chrome-IsScheme = record {
  letters = refl;
  lowered = refl;
  no_colon = refl;
  breaks = refl;
  leading = refl;
}

abbrev is_id_char : ℕ → Bool
is_id_char c = leb b'a' c && leb c b'p'

lower-id : (s : Text) → all is_id_char s ≡ true → map lower s ≡ s
lower-id [] h = refl
lower-id (c ∷ s) h = rw (lower-id s (ground arith)) (ground arith)

abbrev parts_of : Text → Text → SplitResult
parts_of extension_id page = record {
  scheme = codes "chrome-extension";
  netloc = extension_id;
  path = page;
  query = [];
  fragment = [];
}

page_chars :
    (page : Text)
    → (starts_in (λ c. c == b'/') page && all (λ c. not (is_end c || is_break c) || c == b'/') page)
      ≡ true
    → all (λ c. not (is_end c || is_break c) || c == b'/') page ≡ true
page_chars page k = ground arith

module _ (id : Text) (h : is_extension_id id ≡ true) where
  letters_of : all is_id_char id ≡ true
  letters_of = ground arith

  plain_of : all is_plain id ≡ true
  plain_of = all-map is_id_char is_plain id (λ c k. ground arith) letters_of

  parts-IsSplit :
      (page : Text)
      → (starts_in (λ c. c == b'/') page
          && all (λ c. not (is_end c || is_break c) || c == b'/') page)
        ≡ true
      → IsSplit (parts_of id page)
  parts-IsSplit page k = record {
    netloc_ends = all-map is_id_char (λ c. not (is_end c)) id (λ c m. ground arith) letters_of;
    netloc_breaks = all-map is_id_char (λ c. not (is_break c)) id (λ c m. ground arith) letters_of;
    brackets = plain-brackets_ok id plain_of;
    path_starts = ground arith;
    path_query = all-map _ (λ c. not (c == b'?')) page (λ c m. ground arith) (page_chars page k);
    path_fragment = all-map _ (λ c. not (c == b'#')) page (λ c m. ground arith) (page_chars page k);
    path_breaks = all-map _ (λ c. not (is_break c)) page (λ c m. ground arith) (page_chars page k);
  }

  page-is_page :
      (page : Text)
      → one_of page (codes "/start.html" ∷ codes "/setup.html" ∷ []) ≡ true
      → is_page (parts_of id page) ≡ true
  unfolding is_page
  page-is_page page k =
      let name = plain-hostname id plain_of (codes "chrome-extension") page [] [] (ground arith) in
      let user = plain-no_user id plain_of (codes "chrome-extension") page [] [] in
      rw (name, user.0, user.1, lower-id id letters_of, h, k) refl

  open-page :
      (run : List Text → Bool) (page : Text)
      → IsSplit (parts_of id page)
      → one_of page (codes "/start.html" ∷ codes "/setup.html" ∷ []) ≡ true
      → urlunsplit (codes "chrome-extension") id page [] ≡ page_url id page
      → open_in_chrome run (page_url id page)
        ≡ require (run (open_command (page_url id page))) not_opened
  unfolding open_in_chrome
  open-page run page p k e =
      let split =
        ap urlsplit (sym e)
        ∙ urlsplit-urlunsplit (parts_of id page) [] chrome-IsScheme p refl refl in
      rw (split, page-is_page page k) refl

-- What the command of the start page gives, if the identifier has its form.
abbrev pub opened : (List Text → Bool) → Text → Text → Result ChromeError (Unit {0})
opened run id page =
    if is_extension_id id
    then require (run (open_command (page_url id page))) not_opened
    else err invalid_extension_id

opened_lem :
    (run : List Text → Bool) (id page : Text)
    → ((h : is_extension_id id ≡ true)
        → open_in_chrome run (page_url id page)
          ≡ require (run (open_command (page_url id page))) not_opened)
    → (require (is_extension_id id) invalid_extension_id >> ok (page_url id page))
        >>= open_in_chrome run
      ≡ opened run id page
opened_lem run id page f = elim (Bool-cases (is_extension_id id)) [
  | inl e ↦ rw (e) (f e)
  | inr e ↦ rw e refl
]

-- A page of the extension that is built from an identifier of its form passes the checks of the
-- opening, whose result is then that of the command; from any other identifier no page is built.
pub build-open_in_chrome :
    (run : List Text → Bool) (id : Text)
    → (build_extension_start_url id >>= open_in_chrome run ≡ opened run id (codes "/start.html"))
      × (build_extension_setup_url id >>= open_in_chrome run ≡ opened run id (codes "/setup.html"))
unfolding build_extension_start_url build_extension_setup_url urlunsplit
build-open_in_chrome run id = (
  opened_lem run id (codes "/start.html") (λ h.
      open-page id h run (codes "/start.html") (parts-IsSplit id h (codes "/start.html") refl) refl
        refl),
  opened_lem run id (codes "/setup.html") (λ h.
      open-page id h run (codes "/setup.html") (parts-IsSplit id h (codes "/setup.html") refl) refl
        refl),
)
