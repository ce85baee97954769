-- ===== src/Exchange/Endpoint.antt =====
-- The state file and the socket of an exchange: `_prepare_state_directory`, `_prepare_socket_directory`,
-- `_clear_stale_state`, `_publish_state` and `__enter__` of callback.py and extension_setup.py, which
-- differ in the names of the files and in where the socket stands.
pub mod Found
use meraki_openconnect.Prelude.{
  ℕ, Bool, true, false, not, ◌&&◌, ◌||◌, Option, none, some, List, [], ◌∷◌, ◌++◌, Text, codes,
  text_eq, Result, ok, err, ◌>>=◌, ◌>>◌, require, raise_if, any, ltb, ◌==◌, if◌then◌else◌,
}
use meraki_openconnect.Json.{Json, int, text, object, Fields, end, field, get}
use meraki_openconnect.Exchange.Token.{has_keys}

-- What `lstat` tells of a path, where the permissions `0o600` are 384 and `0o700` are 448: a symbolic link has a target that exists or not.
pub data Kind : Type 0 where
  regular directory socket special : Kind
  link : (has_target : Bool) → Kind

pub record Entry : Type 0 where
  pub kind : Kind
  pub owner : ℕ
  pub permissions : ℕ

-- What reading a file of UTF-8 text and `json.loads` give.
pub data Reading : Type 0 where
  unreadable undecodable : Reading
  value : Json → Reading

pub record Files : Type 0 where
  pub lstat : Text → Option Entry
  pub contents : Text → Reading

-- `os.kill(pid, 0)`
pub data Liveness : Type 0 where
  running forbidden gone : Liveness

pub data HandoffError : Type 0 where
  directory_unsafe other_active file_unsafe file_invalid owned_by_another still_active socket_unsafe
        socket_failed :
      HandoffError

unfoldable pub set : {A : Type 0} → Text → A → (Text → A) → Text → A
set path a f x = if text_eq path x then a else f x

abbrev pub is_there : Option Entry → Bool
is_there none = false
is_there (some e) = elim e.kind [ link has_target ↦ has_target | _ ↦ true ]

-- `path.exists()`, which follows a link
unfoldable pub exists : Files → Text → Bool
exists files path = is_there (files.lstat path)

abbrev pub is_regular : Kind → Bool
is_regular regular = true
is_regular _ = false

abbrev pub is_directory : Kind → Bool
is_directory directory = true
is_directory _ = false

abbrev pub is_socket : Kind → Bool
is_socket socket = true
is_socket _ = false

-- The tests on metadata, of a path that is there.
abbrev pub satisfies : (Entry → Bool) → Option Entry → Bool
satisfies p none = false
satisfies p (some e) = p e

abbrev pub private_file : ℕ → Entry → Bool
private_file uid e = is_regular e.kind && e.owner == uid && e.permissions == 384

abbrev pub private_directory : ℕ → Entry → Bool
private_directory uid e = is_directory e.kind && e.owner == uid && e.permissions == 448

abbrev pub own_directory : ℕ → Entry → Bool
own_directory uid e = is_directory e.kind && e.owner == uid

abbrev pub own_socket : ℕ → Entry → Bool
own_socket uid e = is_socket e.kind && e.owner == uid

-- `Path(name).name == name`
abbrev pub is_plain_name : Text → Bool
is_plain_name name = not (any (λ c. c == b'/') name) && not (text_eq name (codes "."))

-- The process and the socket of a state file
abbrev pub entries : Option Json → Option Json → Option (ℕ × Text)
entries (some (int pid)) (some (text name)) = if ltb 1 pid then some (pid, name) else none
entries _ _ = none

abbrev pub state_of : Reading → Option (ℕ × Text)
state_of (value (object fs)) =
    if has_keys fs (codes "pid" ∷ codes "socket" ∷ [])
    then entries (get (codes "pid") fs) (get (codes "socket") fs)
    else none
state_of _ = none

abbrev pub state_file : ℕ → Text → Fields
state_file pid name = field (codes "pid") (int pid) (field (codes "socket") (text name) end)

abbrev pub in_directory : Text → Text → Text
in_directory base name = base ++ b'/' ∷ name

abbrev pub auth_file : Text
auth_file = codes "authentication.json"

abbrev pub setup_file : Text
setup_file = codes "extension-setup.json"

-- `f"authentication-{secrets.token_hex(8)}.sock"` and `f"setup-{secrets.token_hex(8)}.sock"`
abbrev pub auth_socket : Text → Text
auth_socket hex = codes "authentication-" ++ (hex ++ codes ".sock")

abbrev pub setup_socket : Text → Text
setup_socket hex = codes "setup-" ++ (hex ++ codes ".sock")

module _ (uid : ℕ) (kill : ℕ → Liveness) where
  -- `unlink`
  abbrev pub remove : Text → Files → Files
  remove path files = record files { lstat = set path none files.lstat }

  abbrev pub clear_socket : Text → Files → Result HandoffError Files
  clear_socket path files =
      if not (exists files path)
      then ok files
      else if satisfies (own_socket uid) (files.lstat path)
      then ok (remove path files)
      else err socket_unsafe

  abbrev pub dead : Liveness → Result HandoffError (Unit {0})
  dead running = err still_active
  dead forbidden = err owned_by_another
  dead gone = ok tt

  abbrev pub clear_state : Text → Text → Files → Option (ℕ × Text) → Result HandoffError Files
  clear_state state_directory own files none = err file_invalid
  clear_state state_directory own files (some (pid, name)) = do
    require (is_plain_name name) file_invalid
    dead (kill pid)
    cleared ← clear_socket (in_directory state_directory name) files
    ok (remove (in_directory state_directory own) cleared)

  abbrev pub clear_own : Text → Text → Files → Result HandoffError Files
  clear_own state_directory own files = do
    require (satisfies (private_file uid) (files.lstat (in_directory state_directory own)))
        file_unsafe
    clear_state state_directory own files
        (state_of (files.contents (in_directory state_directory own)))

  -- `_clear_stale_state`
  unfoldable pub clear_stale_state : Text → Text → Text → Files → Result HandoffError Files
  unfolding exists
  clear_stale_state state_directory own other files = do
    raise_if (exists files (in_directory state_directory other)) other_active
    if exists files (in_directory state_directory own)
        then clear_own state_directory own files
        else ok files

  abbrev pub put : Text → Entry → Files → Files
  put path e files = record files { lstat = set path (some e) files.lstat }

  abbrev pub made_private : Text → Option Entry → Files → Result HandoffError Files
  made_private path none files =
      ok (put path (record { kind = directory; owner = uid; permissions = 448 }) files)
  made_private path (some e) files =
      if own_directory uid e
      then ok (put path (record e { permissions = 448 }) files)
      else err directory_unsafe

  -- `_prepare_state_directory`
  unfoldable pub prepare_state_directory : Text → Files → Result HandoffError Files
  prepare_state_directory path files = made_private path (files.lstat path) files

  abbrev pub checked_private : Text → Option Entry → Files → Result HandoffError Files
  checked_private path none files = made_private path none files
  checked_private path (some e) files =
      if private_directory uid e then ok files else err directory_unsafe

  -- `_prepare_socket_directory`
  unfoldable pub prepare_socket_directory : Text → Files → Result HandoffError Files
  prepare_socket_directory path files = checked_private path (files.lstat path) files

  -- `_publish_state`
  unfoldable pub publish_state : ℕ → Text → Text → Files → Files
  publish_state pid path name files =
      record (put path (record { kind = regular; owner = uid; permissions = 384 }) files) {
        contents = set path (value (object (state_file pid name))) files.contents;
      }

  -- The socket, bound or not, and its publication
  abbrev pub open_socket : Bool → ℕ → Text → Text → Text → Files → Result HandoffError Files
  open_socket false pid socket_path state_path name files = err socket_failed
  open_socket true pid socket_path state_path name files = ok (
      publish_state pid state_path name
        (put socket_path (record { kind = socket; owner = uid; permissions = 384 }) files))

  -- `TokenCallback.__enter__`, with the random part of the socket's name, up to the start of the thread
  unfoldable pub enter_authentication : Text → ℕ → Text → Bool → Files → Result HandoffError Files
  enter_authentication state_directory pid hex bound files = do
    prepared ← prepare_state_directory state_directory files
    cleared ← clear_stale_state state_directory auth_file setup_file prepared
    open_socket bound pid (in_directory state_directory (auth_socket hex))
        (in_directory state_directory auth_file) (auth_socket hex) cleared

  -- `ExtensionSetupCallback.__enter__`
  unfoldable pub enter_setup : Text → Text → ℕ → Text → Bool → Files → Result HandoffError Files
  enter_setup state_directory socket_directory pid hex bound files = do
    prepared ← prepare_state_directory state_directory files
    cleared ← clear_stale_state state_directory setup_file auth_file prepared
    secured ← prepare_socket_directory socket_directory cleared
    open_socket bound pid (in_directory socket_directory (setup_socket hex))
        (in_directory state_directory setup_file) (in_directory socket_directory (setup_socket hex))
        secured

  -- `__exit__` on the files: the state file and the socket, if it has been named, are removed.
  unfoldable pub exit_files : Text → Option Text → Files → Files
  exit_files state_path none files = remove state_path files
  exit_files state_path (some socket_path) files = remove socket_path (remove state_path files)
