-- ===== src/Chrome.antt =====
-- The pages of the extension, and their opening: chrome.py.
pub mod Laws
use meraki_openconnect.Prelude.{
  Bool, true, false, not, ◌&&◌, ◌||◌, Option, none, some, List, [], ◌∷◌, ◌++◌, Text, codes, one_of,
  Result, ok, err, ◌>>=◌, ◌>>◌, require, length, ◌==◌,
}
use meraki_openconnect.Url.{SplitResult, urlsplit, hostname, or_empty, has_username, has_password}
use meraki_openconnect.Settings.Checks.{is_extension_id}

pub data ChromeError : Type 0 where
  -- `ChromeLaunchError`, by its message
  invalid_extension_id not_a_page not_opened : ChromeError
  -- the `ValueError` of urllib.parse
  invalid_url : ChromeError

abbrev pub chrome_binary : Text
chrome_binary = codes "/Applications/Google Chrome.app/Contents/MacOS/Google Chrome"

-- `chrome_installation_status`, where the parameters tell of a path whether it is a file, and whether it can be executed.
pub chrome_installation_status : (Text → Bool) → (Text → Bool) → Text → Bool
chrome_installation_status is_file is_executable binary = is_file binary && is_executable binary

abbrev pub page_url : Text → Text → Text
page_url extension_id page = codes "chrome-extension://" ++ extension_id ++ page

unfoldable pub build_extension_start_url : Text → Result ChromeError Text
build_extension_start_url extension_id = do
  require (is_extension_id extension_id) invalid_extension_id
  ok (page_url extension_id (codes "/start.html"))

unfoldable pub build_extension_setup_url : Text → Result ChromeError Text
build_extension_setup_url extension_id = do
  require (is_extension_id extension_id) invalid_extension_id
  ok (page_url extension_id (codes "/setup.html"))

abbrev pub split_or_fail : Option SplitResult → Result ChromeError SplitResult
split_or_fail none = err invalid_url
split_or_fail (some parsed) = ok parsed

-- The command of `open_in_chrome`; the parameter tells whether it ends well, and in time.
abbrev pub open_command : Text → List Text
open_command url =
    codes "/usr/bin/open" ∷ codes "-a" ∷ codes "/Applications/Google Chrome.app" ∷ url ∷ []

pub is_page : SplitResult → Bool
is_page parsed =
    one_of parsed.scheme (codes "chrome-extension" ∷ [])
    && is_extension_id (or_empty (hostname parsed))
    && one_of parsed.path (codes "/start.html" ∷ codes "/setup.html" ∷ [])
    && length parsed.query == 0
    && length parsed.fragment == 0
    && not (has_username parsed)
    && not (has_password parsed)

unfoldable pub open_in_chrome : (List Text → Bool) → Text → Result ChromeError (Unit {0})
unfolding is_page
open_in_chrome run url = do
  parsed ← split_or_fail (urlsplit url)
  require (is_page parsed) not_a_page
  require (run (open_command url)) not_opened
