-- ===== src/NativeHost/Endpoint.antt =====
-- `_load_socket_path` of native_host.py: the socket of the one exchange that is active.
pub mod Finds
use meraki_openconnect.Prelude.{
  ℕ, Bool, true, false, not, ◌&&◌, ◌||◌, Option, none, some, List, [], ◌∷◌, ◌++◌, Text, codes,
  text_eq, starts_with, Result, ok, err, ◌>>=◌, ◌>>◌, require, length, ◌==◌, if◌then◌else◌,
}
use meraki_openconnect.Ip.{parts}
use meraki_openconnect.Paths.{kept_parts, last_part, parent_text, has_plain_root}
use meraki_openconnect.Exchange.Endpoint.{
  Files, Entry, Liveness, running, Reading, unreadable, undecodable, value, exists, private_file,
  private_directory, is_socket, is_plain_name, state_of, in_directory, auth_file, setup_file,
}
use meraki_openconnect.NativeHost.Message.{
  NativeHostError, directory_unsafe, unavailable, state_unsafe, state_invalid,
  socket_directory_unsafe, socket_unsafe,
}
use meraki_openconnect.NativeHost.Bridge.{Mode, authentication, setup}

-- `socket_value.parent == socket_directory` and `socket_value.name == socket_name.rsplit("/", 1)[-1]`
unfoldable pub is_directly_in : Text → Text → Bool
unfolding kept_parts last_part parent_text
is_directly_in socket_directory s =
    has_plain_root s
    && text_eq (parent_text (kept_parts (parts b'/' s))) socket_directory
    && text_eq (last_part (kept_parts (parts b'/' s))) (last_part (parts b'/' s))

abbrev pub absolute : Text → Bool
absolute s = starts_with s (codes "/")

module _ (uid : ℕ) (kill : ℕ → Liveness) where
  abbrev active_mode : Bool → Bool → Result NativeHostError Mode
  active_mode true false = ok authentication
  active_mode false true = ok setup
  active_mode _ _ = err unavailable

  abbrev pub state_path : Text → Mode → Text
  state_path state_directory authentication = in_directory state_directory auth_file
  state_path state_directory setup = in_directory state_directory setup_file

  abbrev pub read_state : Reading → Result NativeHostError (ℕ × Text)
  read_state unreadable = err unavailable
  read_state undecodable = err unavailable
  read_state (value v) = elim (state_of (value v)) [
    | none ↦ err state_invalid
    | some state ↦ ok state
  ]

  abbrev plain_socket : Text → Text → Result NativeHostError Text
  plain_socket state_directory name =
      if is_plain_name name then ok (in_directory state_directory name) else err state_invalid

  -- A test on the metadata of a path; a path that is missing is an OSError.
  abbrev pub examine :
      NativeHostError → (Entry → Bool) → Option Entry → Result NativeHostError (Unit {0})
  examine e p none = err unavailable
  examine e p (some entry) = require (p entry) e

  -- The path of the socket of the state file
  unfoldable pub socket_path_of : Text → Text → Mode → Files → Text → Result NativeHostError Text
  socket_path_of state_directory socket_directory authentication files name =
      plain_socket state_directory name
  socket_path_of state_directory socket_directory setup files name =
      if absolute name
      then (do
        examine socket_directory_unsafe
            (λ e. is_directly_in socket_directory name && private_directory uid e)
            (files.lstat socket_directory)
        ok (in_directory socket_directory (last_part (parts b'/' name))))
      else plain_socket state_directory name

  abbrev alive : Liveness → Bool
  alive running = true
  alive _ = false

  abbrev pub private_socket : Entry → Bool
  private_socket e = is_socket e.kind && e.owner == uid && e.permissions == 384

  -- `_load_socket_path`
  unfoldable pub load_socket_path : Text → Text → Files → Result NativeHostError (Mode × Text × ℕ)
  unfolding exists
  load_socket_path state_directory socket_directory files = do
    examine directory_unsafe (private_directory uid) (files.lstat state_directory)
    mode ←
        active_mode (exists files (in_directory state_directory auth_file))
          (exists files (in_directory state_directory setup_file))
    examine state_unsafe (private_file uid) (files.lstat (state_path state_directory mode))
    state ← read_state (files.contents (state_path state_directory mode))
    path ← socket_path_of state_directory socket_directory mode files state.1
    require (alive (kill state.0)) unavailable
    examine socket_unsafe private_socket (files.lstat path)
    ok (mode, path, state.0)
