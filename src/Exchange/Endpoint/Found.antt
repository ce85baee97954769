-- ===== src/Exchange/Endpoint/Found.antt =====
-- What a started exchange publishes.
use meraki_openconnect.Prelude.{
  ℕ, ◌≡◌, refl, sym, ap, ◌∙◌, Bool, true, false, Option, none, some, [], ◌∷◌, ◌++◌, Text, text_eq,
  text_eq_refl, text_eq_iff, arith, Bool-cases, inl, inr, Holds, bind-Holds, each-Holds,
  require-Holds, raise_if-Holds,
}
use meraki_openconnect.Json.{object}
use meraki_openconnect.Exchange.Endpoint.{
  regular, directory, socket, Entry, value, Files, set, Liveness, exists, is_there, satisfies,
  private_directory, is_plain_name, state_of, state_file, in_directory, auth_file, setup_file,
  auth_socket, clear_stale_state, prepare_state_directory, publish_state, enter_authentication,
  clear_socket, clear_state, dead, made_private, remove, own_directory, file_invalid, file_unsafe,
  other_active, clear_own, open_socket,
}

text_eq-append : (front s t : Text) → text_eq (front ++ s) (front ++ t) ≡ text_eq s t
text_eq-append [] s t = refl
text_eq-append (c ∷ front) s t = ground (arith, text_eq-append front s t)

in_directory-other : (base name : Text) → text_eq (in_directory base name) base ≡ false
in_directory-other [] name = refl
in_directory-other (c ∷ base) name = ground (arith, in_directory-other base name)

-- Which files a started exchange leaves: its own state file, no other one, and its socket.
pub record IsPublished (uid pid : ℕ) (state_directory own other socket_path name : Text)
    (files : Files) : Type 0 where
  pub prepared : satisfies (private_directory uid) (files.lstat state_directory) ≡ true
  pub state_entry :
      files.lstat (in_directory state_directory own)
      ≡ some (record { kind = regular; owner = uid; permissions = 384 })
  pub state_contents :
      files.contents (in_directory state_directory own) ≡ value (object (state_file pid name))
  pub alone : exists files (in_directory state_directory other) ≡ false
  pub socket_entry :
      files.lstat socket_path ≡ some (record { kind = socket; owner = uid; permissions = 384 })

module _ (uid : ℕ) (kill : ℕ → Liveness) (state_directory : Text) where
  -- The directory is private, and the file of the other exchange does not exist.
  IsReady : Text → Files → Type 0
  IsReady rival files =
      (satisfies (private_directory uid) (files.lstat state_directory) ≡ true)
      × (exists files (in_directory state_directory rival) ≡ false)

  IsPrepared : Files → Type 0
  IsPrepared files = satisfies (private_directory uid) (files.lstat state_directory) ≡ true

  put-other :
      {A : Type 0} (path x : Text) (a : A) (f : Text → A)
      → text_eq path x ≡ false
      → set path a f x ≡ f x
  unfolding set
  put-other path x a f h = ground (arith, h)

  put-same : {A : Type 0} (path : Text) (a : A) (f : Text → A) → set path a f path ≡ a
  unfolding set
  put-same path a f = ground (arith, text_eq_refl path)

  made_private-IsPrepared :
      (o : Option Entry) (files : Files)
      → Holds IsPrepared (made_private uid kill state_directory o files)
  unfolding IsPrepared
  made_private-IsPrepared none files =
      ap (satisfies (private_directory uid)) (
        put-same state_directory
          (some (record { kind = directory; owner = uid; permissions = 448 })) files.lstat)
      ∙ ground arith
  made_private-IsPrepared (some e) files = elim (Bool-cases (own_directory uid e)) [
    | inl y ↦ rw y (
        ap (satisfies (private_directory uid))
          (put-same state_directory (some (record e { permissions = 448 })) files.lstat)
        ∙ ground arith)
    | inr n ↦ rw n tt
  ]

  put-absent :
      (path x : Text) (files : Files)
      → exists files x ≡ false
      → exists (remove uid kill path files) x ≡ false
  unfolding exists
  put-absent path x files h = elim (Bool-cases (text_eq path x)) [
    | inl y ↦ ap is_there (
        ap (λ t. set path none files.lstat t) (sym ((text_eq_iff path x).0 y))
        ∙ put-same path none files.lstat)
    | inr n ↦ ap is_there (put-other path x none files.lstat n) ∙ h
  ]

  remove-IsReady :
      (rival name : Text) (files : Files)
      → IsReady rival files
      → IsReady rival (remove uid kill (in_directory state_directory name) files)
  unfolding IsReady
  remove-IsReady rival name files h = (
    ap (satisfies (private_directory uid)) (
          put-other (in_directory state_directory name) state_directory none files.lstat
            (in_directory-other state_directory name))
        ∙ h.0,
    put-absent (in_directory state_directory name) (in_directory state_directory rival) files h.1,
  )

  clear_socket-IsReady :
      (rival name : Text) (files : Files)
      → IsReady rival files
      → Holds (IsReady rival) (clear_socket uid kill (in_directory state_directory name) files)
  clear_socket-IsReady rival name files h = ground (arith, h, remove-IsReady rival name files h)

  clear_state-IsReady :
      (own rival : Text) (files : Files) (state : Option (ℕ × Text))
      → IsReady rival files
      → Holds (IsReady rival) (clear_state uid kill state_directory own files state)
  clear_state-IsReady own rival files none h = tt
  clear_state-IsReady own rival files (some (pid, name)) h =
      require-Holds (IsReady rival) (is_plain_name name) file_invalid _ (λ plain.
        each-Holds (IsReady rival) (dead uid kill (kill pid)) _ (λ u.
          bind-Holds (IsReady rival) (IsReady rival)
            (clear_socket uid kill (in_directory state_directory name) files) _
            (clear_socket-IsReady rival name files h)
            (λ cleared k. remove-IsReady rival own cleared k)))

  clear_own-IsReady :
      (own rival : Text) (files : Files)
      → IsReady rival files
      → Holds (IsReady rival) (clear_own uid kill state_directory own files)
  clear_own-IsReady own rival files h = require-Holds (IsReady rival) _ file_unsafe _ (λ p.
      clear_state-IsReady own rival files
        (state_of (files.contents (in_directory state_directory own))) h)

  clear_stale_state-IsReady :
      (own rival : Text) (files : Files)
      → IsPrepared files
      → Holds (IsReady rival) (clear_stale_state uid kill state_directory own rival files)
  unfolding clear_stale_state IsReady IsPrepared
  clear_stale_state-IsReady own rival files p =
      raise_if-Holds (IsReady rival) (exists files (in_directory state_directory rival))
        other_active _
        (λ n. elim (Bool-cases (exists files (in_directory state_directory own))) [
          | inl y ↦ rw y (clear_own-IsReady own rival files (p, n))
          | inr m ↦ rw m (p, n)
        ])

  -- The state file of an exchange whose socket stands apart from the state files.
  publish-IsPublished :
      (pid : ℕ) (own rival socket_path name : Text) (files : Files)
      → IsReady rival files
      → text_eq own rival ≡ false
      → text_eq (in_directory state_directory own) socket_path ≡ false
      → text_eq socket_path (in_directory state_directory rival) ≡ false
      → text_eq socket_path state_directory ≡ false
      → Holds
          (IsPublished uid pid state_directory own rival socket_path name)
          (open_socket uid kill true pid socket_path (in_directory state_directory own) name files)
  unfolding publish_state IsReady exists
  publish-IsPublished pid own rival socket_path name files h d o r b =
      let state_path = in_directory state_directory own in
      let rival_path = in_directory state_directory rival in
      let socket_entry = some (record { kind = socket; owner = uid; permissions = 384 }) in
      let state_entry = some (record { kind = regular; owner = uid; permissions = 384 }) in
      let bound : Text → Option Entry = set socket_path socket_entry files.lstat in
      record {
        prepared =
            ap (satisfies (private_directory uid)) (
              put-other state_path state_directory state_entry bound
                (in_directory-other state_directory own)
              ∙ put-other socket_path state_directory socket_entry files.lstat b)
            ∙ h.0;
        state_entry = put-same state_path state_entry bound;
        state_contents = put-same state_path (value (object (state_file pid name))) files.contents;
        alone =
            ap is_there (
              put-other state_path rival_path state_entry bound
                (text_eq-append state_directory (b'/' ∷ own) (b'/' ∷ rival) ∙ d)
              ∙ put-other socket_path rival_path socket_entry files.lstat r)
            ∙ h.1;
        socket_entry =
            put-other state_path socket_path state_entry bound o
            ∙ put-same socket_path socket_entry files.lstat;
      }

  -- A started authentication has a private state directory, its state file with its process and its
  -- socket, and no setup is active beside it.
  pub enter_authentication-IsPublished :
      (pid : ℕ) (hex : Text) (bound : Bool) (files : Files)
      → Holds
          (IsPublished uid pid state_directory auth_file setup_file
            (in_directory state_directory (auth_socket hex))
            (auth_socket hex))
          (enter_authentication uid kill state_directory pid hex bound files)
  unfolding enter_authentication prepare_state_directory
  enter_authentication-IsPublished pid hex false files =
      each-Holds _ (prepare_state_directory uid kill state_directory files) _ (λ prepared.
        each-Holds _ (clear_stale_state uid kill state_directory auth_file setup_file prepared) _
          (λ cleared. tt))
  enter_authentication-IsPublished pid hex true files =
      bind-Holds IsPrepared _ (prepare_state_directory uid kill state_directory files) _
        (made_private-IsPrepared (files.lstat state_directory) files)
        (λ prepared p.
          bind-Holds (IsReady setup_file) _
            (clear_stale_state uid kill state_directory auth_file setup_file prepared) _
            (clear_stale_state-IsReady auth_file setup_file prepared p)
            (λ cleared k.
              publish-IsPublished pid auth_file setup_file
                (in_directory state_directory (auth_socket hex)) (auth_socket hex) cleared k refl
                (text_eq-append state_directory (b'/' ∷ auth_file) (b'/' ∷ auth_socket hex))
                (text_eq-append state_directory (b'/' ∷ auth_socket hex) (b'/' ∷ setup_file))
                (in_directory-other state_directory (auth_socket hex))))
