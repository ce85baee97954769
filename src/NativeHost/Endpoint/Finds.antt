-- ===== src/NativeHost/Endpoint/Finds.antt =====
-- The host finds the exchange that the client has started.
use meraki_openconnect.Prelude.{
  ℕ, ◌<◌, ◌≡◌, refl, ap, Bool, true, false, Option, none, some, [], ◌∷◌, ◌++◌, Text, codes, ok, any,
  all, ltb, ◌==◌, arith, holds_ok,
}
use meraki_openconnect.Settings.Checks.{is_lower_hex}
use meraki_openconnect.Json.{object}
use meraki_openconnect.Exchange.Endpoint.{
  Files, Entry, value, Liveness, running, exists, satisfies, private_directory, is_plain_name,
  state_file, in_directory, auth_file, setup_file, auth_socket, enter_authentication, is_there,
}
use meraki_openconnect.Exchange.Endpoint.Found.{IsPublished, enter_authentication-IsPublished}
use meraki_openconnect.NativeHost.Message.{NativeHostError, directory_unsafe}
use meraki_openconnect.NativeHost.Bridge.{authentication}
use meraki_openconnect.NativeHost.Endpoint.{load_socket_path, examine, socket_path_of, read_state}

any_slash-append :
    (s t : Text)
    → any (λ c. c == b'/') s ≡ false
    → any (λ c. c == b'/') t ≡ false
    → any (λ c. c == b'/') (s ++ t) ≡ false
any_slash-append [] t h k = k
any_slash-append (c ∷ s) t h k = ground (arith, any_slash-append s t (ground arith) k)

any_slash-hex : (hex : Text) → all is_lower_hex hex ≡ true → any (λ c. c == b'/') hex ≡ false
any_slash-hex [] h = refl
any_slash-hex (c ∷ hex) h = ground (arith, any_slash-hex hex (ground arith))

auth_socket-plain :
    (hex : Text) → all is_lower_hex hex ≡ true → is_plain_name (auth_socket hex) ≡ true
auth_socket-plain hex h =
    ground (arith, any_slash-append hex (codes ".sock") (any_slash-hex hex h) refl)

examine_lem :
    (uid : ℕ) (kill : ℕ → Liveness) (e : NativeHostError) (p : Entry → Bool) (o : Option Entry)
    → satisfies p o ≡ true
    → examine uid kill e p o ≡ ok tt
examine_lem uid kill e p none h = cc
examine_lem uid kill e p (some entry) h = rw h refl

module _ (uid : ℕ) (kill : ℕ → Liveness) (state_directory socket_directory : Text) where
  published_lem :
      (pid : ℕ) (name : Text) (files : Files)
      → IsPublished uid pid state_directory auth_file setup_file
          (in_directory state_directory name)
          name
          files
      → is_plain_name name ≡ true
      → 1 < pid
      → kill pid ≡ running
      → load_socket_path uid kill state_directory socket_directory files
        ≡ ok (authentication, in_directory state_directory name, pid)
  unfolding load_socket_path socket_path_of exists
  published_lem pid name files p plain big alive =
      let there : is_there (files.lstat (in_directory state_directory auth_file)) ≡ true =
        ap is_there p.state_entry in
      let entered : examine uid kill directory_unsafe (private_directory uid)
            (files.lstat state_directory)
          ≡ ok tt =
        examine_lem uid kill directory_unsafe (private_directory uid) (files.lstat state_directory)
          p.prepared in
      let owned : (uid == uid) ≡ true = ground arith in
      let other_process : ltb 1 pid ≡ true = ground (arith, big) in
      let state : read_state uid kill (value (object (state_file pid name))) ≡ ok (pid, name) =
        ground (arith, other_process) in
      rw
        (
          entered, there, p.alone, p.state_entry, owned, p.state_contents, state, plain, alive,
          p.socket_entry, owned,
        )
        refl

  -- Where an authentication has started and its process runs, the host finds it: the mode, the path of
  -- its socket and its process, whatever the other files are.
  pub load_socket_path-enter_authentication :
      (pid : ℕ) (hex : Text) (bound : Bool) (files after : Files)
      → enter_authentication uid kill state_directory pid hex bound files ≡ ok after
      → all is_lower_hex hex ≡ true
      → 1 < pid
      → kill pid ≡ running
      → load_socket_path uid kill state_directory socket_directory after
        ≡ ok (authentication, in_directory state_directory (auth_socket hex), pid)
  load_socket_path-enter_authentication pid hex bound files after e h big alive =
      let p =
        holds_ok
          (IsPublished uid pid state_directory auth_file setup_file
            (in_directory state_directory (auth_socket hex)) (auth_socket hex))
          (enter_authentication uid kill state_directory pid hex bound files) after
          (enter_authentication-IsPublished uid kill state_directory pid hex bound files) e in
      published_lem pid (auth_socket hex) after p (auth_socket-plain hex h) big alive
