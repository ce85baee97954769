-- ===== src/NativeHost/Manifest.antt =====
-- `configure_native_host` and `native_host_configured`: the manifest that lets one extension start the
-- host, and the wrapper that Chrome runs. They are given the paths of the two files.
use meraki_openconnect.Prelude.{
  ℕ, ◌≡◌, refl, ap, Bool, true, false, not, ◌&&◌, Option, none, some, [], ◌∷◌, ◌++◌, Text, codes,
  text_eq, text_eq_refl, starts_with, any, Result, ok, err, ◌>>=◌, ◌>>◌, require, ◌==◌,
  if◌then◌else◌, arith, Bool-cases, inl, inr, all, all-joined, sym, ◌∙◌, text_eq_iff, Holds,
  holds_ok, bind-Holds, require-Holds,
}
use meraki_openconnect.Json.{Json, text, array, nil, item, object, Fields, end, field, get}
use meraki_openconnect.Settings.Checks.{is_extension_id}
use meraki_openconnect.Privileged.Shell.{quote, quote-all, is_safe-no_return}
use meraki_openconnect.Exchange.Token.{has_keys, holds}
use meraki_openconnect.Exchange.Endpoint.{
  Entry, Kind, regular, directory, socket, special, link, Reading, value, satisfies, private_file,
  private_directory, is_directory, is_regular,
}

-- What stands at the paths of the host, and what is in its two files: the value of the one, and the
-- text of the other as it was written.
pub record Host : Type 0 where
  pub manifest_directory : Option Entry
  pub wrapper_directory : Option Entry
  pub manifest : Option Entry
  pub wrapper : Option Entry
  pub manifest_content : Reading
  pub wrapper_content : Option Text

pub data ConfigureError : Type 0 where
  invalid_extension_id unsafe_executable os_error : ConfigureError

-- `_wrapper_text`
unfoldable pub wrapper_text : Text → Text
wrapper_text executable =
    codes "#!/bin/sh\nexec " ++ (quote executable ++ codes " -m meraki_openconnect.native_host\n")

abbrev host_name : Text
host_name = codes "io.github.k0nkupa.meraki_openconnect"

abbrev description : Text
description = codes "Meraki OpenConnect private authentication bridge"

abbrev pub origin_of : Text → Text
origin_of extension_id = codes "chrome-extension://" ++ (extension_id ++ codes "/")

-- The manifest, with its keys in order
unfoldable pub manifest_of : Text → Text → Fields
manifest_of wrapper_path extension_id =
    field (codes "allowed_origins") (array (item (text (origin_of extension_id)) nil)) (
      field (codes "description") (text description) (
        field (codes "name") (text host_name) (
          field (codes "path") (text wrapper_path)
            (field (codes "type") (text (codes "stdio")) end))))

abbrev is_only_origin : Text → Option Json → Bool
is_only_origin extension_id (some (array (item (text t) nil))) = text_eq t (origin_of extension_id)
is_only_origin extension_id v = false

-- `manifest == {…}`
unfoldable pub is_manifest : Text → Text → Reading → Bool
is_manifest wrapper_path extension_id (value (object fs)) =
    has_keys fs (
      codes "name"
      ∷ codes "description"
      ∷ codes "path"
      ∷ codes "type"
      ∷ codes "allowed_origins"
      ∷ [])
    && holds fs (codes "name") host_name
    && holds fs (codes "description") description
    && holds fs (codes "path") wrapper_path
    && holds fs (codes "type") (codes "stdio")
    && is_only_origin extension_id (get (codes "allowed_origins") fs)
is_manifest wrapper_path extension_id v = false

abbrev is_absolute : Text → Bool
is_absolute path = starts_with path (codes "/")

-- How `read_text` reads a file that `write_text` has written: a carriage return, with the line feed
-- behind it if there is one, is one line feed.
unfoldable pub read_text : Text → Text
read_text [] = []
read_text (c ∷ s) =
    let rest = read_text s in
    if c == 0x0d then (if starts_with s (0x0a ∷ []) then rest else 0x0a ∷ rest) else c ∷ rest

abbrev pub no_return : Text → Bool
no_return t = all (λ c. not (c == 0x0d)) t

no_return-read_text : (t : Text) → no_return (read_text t) ≡ true
unfolding read_text
no_return-read_text [] = refl
no_return-read_text (c ∷ s) = ground (arith, no_return-read_text s)

read_text_same : (t : Text) → no_return t ≡ true → read_text t ≡ t
unfolding read_text
read_text_same [] h = refl
read_text_same (c ∷ s) h = ground (arith, read_text_same s (ground arith))

no_return-wrapper_text : (e : Text) → no_return (wrapper_text e) ≡ no_return e
unfolding wrapper_text
no_return-wrapper_text e =
    let p = λ (c : ℕ). not (c == 0x0d) in
    let module_part = codes " -m meraki_openconnect.native_host\n" in
    ground (
      arith,
      all-joined p (quote e) module_part,
      all-joined p (codes "#!/bin/sh\nexec ") (quote e ++ module_part),
      quote-all p e refl refl is_safe-no_return,
    )

-- The wrapper is read as it was written exactly where the executable has no carriage return.
wrapper-read : (e : Text) → text_eq (read_text (wrapper_text e)) (wrapper_text e) ≡ no_return e
wrapper-read e = elim (Bool-cases (no_return e)) [
  | inl y ↦
      ap (λ t. text_eq t (wrapper_text e))
        (read_text_same (wrapper_text e) (no_return-wrapper_text e ∙ y))
      ∙ text_eq_refl (wrapper_text e)
      ∙ sym y
  | inr n ↦ elim (Bool-cases (text_eq (read_text (wrapper_text e)) (wrapper_text e))) [
    | inr m ↦ m ∙ sym n
    | inl m ↦
        let same = (text_eq_iff (read_text (wrapper_text e)) (wrapper_text e)).0 m in
        let a : no_return (wrapper_text e) ≡ true =
          ap no_return (sym same) ∙ no_return-read_text (wrapper_text e) in
        let b = sym (no_return-wrapper_text e) ∙ a in ground arith
  ]
]

abbrev is_text : Text → Option Text → Bool
is_text expected none = false
is_text expected (some t) = text_eq (read_text t) expected

module _ (uid : ℕ) (wrapper_path extension_id executable : Text) where
  -- `mkdir(exist_ok=True)` and `chmod(0o700)`. A link to a directory stays, and its target is changed.
  abbrev make_kind : Kind → Entry → Result ConfigureError (Option Entry)
  make_kind (link has_target) e = if has_target then ok (some e) else err os_error
  make_kind directory e =
      if e.owner == uid then ok (some (record e { permissions = 448 })) else err os_error
  make_kind _ e = err os_error

  abbrev make_private : Option Entry → Result ConfigureError (Option Entry)
  make_private none = ok (some (record { kind = directory; owner = uid; permissions = 448 }))
  make_private (some e) = make_kind e.kind e

  -- `configure_native_host`
  unfoldable pub configure_native_host : Host → Result ConfigureError Host
  configure_native_host host = do
    require (is_extension_id extension_id) invalid_extension_id
    require (is_absolute executable && not (any (λ c. c == 0x0a) executable)) unsafe_executable
    wrapper_directory ← make_private host.wrapper_directory
    manifest_directory ← make_private host.manifest_directory
    ok (record {
      manifest_directory = manifest_directory;
      wrapper_directory = wrapper_directory;
      manifest = some (record { kind = regular; owner = uid; permissions = 384 });
      wrapper = some (record { kind = regular; owner = uid; permissions = 448 });
      manifest_content = value (object (manifest_of wrapper_path extension_id));
      wrapper_content = some (wrapper_text executable);
    })

  abbrev private_executable : Entry → Bool
  private_executable e = is_regular e.kind && e.owner == uid && e.permissions == 448

  -- `native_host_configured`. A file that cannot be read is no manifest and no wrapper.
  unfoldable pub native_host_configured : Host → Bool
  native_host_configured host =
      is_extension_id extension_id
      && is_absolute executable
      && satisfies (private_directory uid) host.manifest_directory
      && satisfies (private_directory uid) host.wrapper_directory
      && satisfies (private_file uid) host.manifest
      && satisfies private_executable host.wrapper
      && is_text (wrapper_text executable) host.wrapper_content
      && is_manifest wrapper_path extension_id host.manifest_content

  abbrev is_no_link : Kind → Bool
  is_no_link (link has_target) = false
  is_no_link _ = true

  -- A path where nothing or no link stands.
  abbrev pub no_link : Option Entry → Bool
  no_link none = true
  no_link (some e) = is_no_link e.kind

  IsMade : Option Entry → Type 0
  IsMade o = satisfies (private_directory uid) o ≡ true

  make_kind-IsMade :
      (kind : Kind) (e : Entry)
      → e.kind ≡ kind
      → is_no_link kind ≡ true
      → Holds IsMade (make_kind kind e)
  unfolding IsMade
  make_kind-IsMade (link has_target) e k h = cc
  make_kind-IsMade directory e k h = elim (Bool-cases (e.owner == uid)) [
    | inl y ↦ rw y (ground (arith, ap is_directory k, y))
    | inr n ↦ rw n tt
  ]
  make_kind-IsMade regular e k h = tt
  make_kind-IsMade socket e k h = tt
  make_kind-IsMade special e k h = tt

  new-IsMade : IsMade (some (record { kind = directory; owner = uid; permissions = 448 }))
  unfolding IsMade
  new-IsMade = ground arith

  make_private-IsMade : (o : Option Entry) → no_link o ≡ true → Holds IsMade (make_private o)
  make_private-IsMade none h = new-IsMade
  make_private-IsMade (some e) h = make_kind-IsMade e.kind e refl h

  is_manifest-manifest_of :
      is_manifest wrapper_path extension_id (value (object (manifest_of wrapper_path extension_id)))
      ≡ true
  unfolding is_manifest manifest_of
  is_manifest-manifest_of =
      ground (arith, text_eq_refl wrapper_path, text_eq_refl (extension_id ++ b'/' ∷ []))

  complete :
      (wd md : Option Entry)
      → is_extension_id extension_id ≡ true
      → is_absolute executable && not (any (λ c. c == 0x0a) executable) ≡ true
      → IsMade wd
      → IsMade md
      → native_host_configured (record {
        manifest_directory = md;
        wrapper_directory = wd;
        manifest = some (record { kind = regular; owner = uid; permissions = 384 });
        wrapper = some (record { kind = regular; owner = uid; permissions = 448 });
        manifest_content = value (object (manifest_of wrapper_path extension_id));
        wrapper_content = some (wrapper_text executable);
      })
        ≡ no_return executable
  unfolding native_host_configured IsMade
  complete wd md i x a b =
      let owned : (uid == uid) ≡ true = ground arith in
      rw (i, b, a, owned, wrapper-read executable, is_manifest-manifest_of) (ground (arith, x))

  configured_lem :
      (host : Host)
      → no_link host.wrapper_directory ≡ true
      → no_link host.manifest_directory ≡ true
      → Holds (λ h. native_host_configured h ≡ no_return executable) (configure_native_host host)
  unfolding configure_native_host native_host_configured
  configured_lem host w m = require-Holds _ (is_extension_id extension_id) _ _ (λ i.
      require-Holds _ (is_absolute executable && not (any (λ c. c == 0x0a) executable)) _ _ (λ x.
        bind-Holds IsMade _ (make_private host.wrapper_directory) _
          (make_private-IsMade host.wrapper_directory w)
          (λ wd a.
            bind-Holds IsMade _ (make_private host.manifest_directory) _
              (make_private-IsMade host.manifest_directory m) (λ md b. complete wd md i x a b))))

  -- Where a host is configured whose two directories are no links, it is reported as configured for the
  -- same extension, executable and user exactly if the path of the executable has no carriage return,
  -- which the reading of the wrapper would translate.
  pub configure_native_host-configured :
      (host after : Host)
      → no_link host.wrapper_directory ≡ true
      → no_link host.manifest_directory ≡ true
      → configure_native_host host ≡ ok after
      → native_host_configured after ≡ no_return executable
  configure_native_host-configured host after w m e =
      holds_ok (λ h. native_host_configured h ≡ no_return executable) (configure_native_host host)
        after (configured_lem host w m) e
