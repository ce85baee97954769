-- ===== src/Lib.antt =====
-- Meraki OpenConnect: the controller of a VPN tunnel on macOS, its setup and its configuration.
--
-- The program. An organization profile (src/meraki_openconnect/profile.py) names the gateway, the
-- login and the name servers. Setup (setup.py) confirms it, probes the gateway's certificate,
-- lets the Chrome extension ask for its permission, authenticates once, has the privileged
-- policy (root_policy.py) installed and saves the profile and the settings (settings.py). A
-- connection (tunnel.py) tests what setup left (readiness.py), starts the privileged worker and
-- speaks with it in frames: it answers login requests with a token from the browser, verifies the
-- connected process, has the resolver set up, checks the tunnel (health.py) and cleans up however
-- it ends. The token and the extension's permission come from Chrome over a private socket
-- (callback.py, extension_setup.py), behind a native messaging host (native_host.py). The root-owned
-- helper, its resolver files and its installation are scripts that privileged.py writes. The login
-- itself is service.py over authenticator.py: the pin of the gateway is captured (pin.py), the
-- gateway's redirect is rewritten so that it does not force a new sign-in (saml.py), Chrome is opened
-- on a page of the extension (chrome.py), and the pin is compared again. The command line is cli.py.
--
-- The files.
--   Prelude: shared names, texts as code points, lists, and results of code that may raise.
--   Json, Ip, Url, Query: the parts of Python's json, ipaddress and urllib.parse that the program
--     uses.
--   Settings: Checks (_string, _extension_id, _digest), Origin (_hostname, _gateway_origin), Pin and
--     Base64 (normalize_server_cert_pin), Machine (_require_keys, _validated, _from_payload,
--     _payload), Store (SettingsStore).
--   Profile: Model (the dataclasses), Checks and Parse (OrganizationProfile.load), Canonical
--     (canonical_bytes, profile_digest).
--   RootPolicy: compute_policy_digest and render_root_policy.
--   Readiness: the receipts; Readiness/Collect: collect_readiness and Readiness.ready.
--   Health: run_health_checks.
--   Tunnel: Stream (_read_exact), Frame (Frame, write_frame, read_frame), Session (TunnelSession,
--     _session_from_frame, _webview_url_is_allowed), World (what a run acts on), Helper (the
--     processes and the state file), Store (TunnelStore.load, load_verified, disconnect_tunnel), Run
--     (run_tunnel; Run/Startup: its tests before the start; Run/Known and Run/Sound: what it knows of
--     the resolver files).
--   Setup: Steps (what setup does), Summary (what it shows), Run (run_setup) and
--     Command (validate_profile_command).
--   Exchange: Message (_read_message, _write_message), Server (_serve and wait of both callbacks, which
--     differ in their messages), Token (TokenCallback), Permission and Receipt
--     (ExtensionSetupCallback), Endpoint (__enter__, the stale state and the state file).
--   NativeHost: Message (Chrome's frames), Endpoint (_load_socket_path), Bridge (run_native_host) and
--     Manifest (configure_native_host, native_host_configured).
--   Paths: the parts of pathlib that are used.
--   Privileged: Shell (_shell_literal), Resolver (dns-connect and dns-disconnect of the helper, from
--     _resolver_functions and _helper_text), Install (_install_script), Plan (build_install_plan,
--     _sudoers_text, installed_policy_digest, _installation_input), Bundle (_bundle_native_runtime),
--     Loader (_otool_dependencies, _otool_rpaths, _validate_bundled_dependencies) and Uninstall
--     (_uninstall_script).
--   Saml: the checks and the rewriting of the redirect (saml.py); Saml/Redirect: what it is read as,
--     Saml/Request: where its request stands among the pairs of the query.
--   Authentication: the capture of the redirect (authenticator.py), Service (service.py).
--   TlsPin: gateway_tls_evidence (pin.py). Chrome: the pages and their opening (chrome.py).
--   Cli: main with its commands (cli.py).
--   Tests, and the modules called Tests: the inputs at which the theorems are applied.
--
-- State. A run of tunnel.py is an action on a World: the events that the worker's pipe still has, the
-- history of effects with the latest first, the state file, and the local variables that the
-- `finally` of run_tunnel reads; besides it, whether files of the helper's rules may stand in the
-- resolver directory, which follows from the exits of the helper alone. An action may raise and keeps what it did. The answers of the
-- system (processes, pipes, files, the browser) are an Environment, functions of the history.
-- Setup is modelled in the same way on a history of steps, each with whether it succeeded. Threads and processes are not modelled:
-- their interleavings are the events. The serving thread of an exchange is a state that takes the
-- events of its socket; the bridge talks to it as to any controller, a function from the line that is
-- written to the text that comes back. A shell script is the list of its statements, of which a
-- signal or a failure may leave any number done; its traps run after that.
--
-- Fuel. _read_exact gets as many rounds as bytes, since each takes one at least; decimal gets one
-- more than the number, since each divides by ten; read_all, which reads frames up to the end of
-- a stream, gets more than the number of frames; the lines of the payload get as many rounds as
-- characters, since each takes one at least; the loop over the pending libraries gets any fuel, and a
-- theorem says how much is enough. All else is structural recursion.
--
-- Parameters. SHA-256, the writing and reading of JSON in the exchanges, what otool reads, the
-- canonical form of an address, unquote and isprintable are arguments, and so are the raw-DEFLATE
-- streams of zlib, the XML parser, urljoin, the runs of openssl, the HTTP session and what the
-- package's authenticator does with its hooks; a theorem that relies on them says how. Texts of URLs
-- are taken to be ASCII where Python's NFKC test would look at them.
--
-- Not modelled: the worker itself, the starting and stopping of processes by the helper, the
-- reading of arguments by argparse, the authenticator of the openconnect-saml
-- package, the HTTP adapter that holds the leaf certificate, and the atomic replacement of files by a
-- rename.
pub mod Authentication
pub mod Chrome
pub mod Cli
pub mod Exchange
pub mod Health
pub mod Ip
pub mod Json
pub mod NativeHost
pub mod Paths
pub mod Prelude
pub mod Privileged
pub mod Profile
pub mod Query
pub mod Readiness
pub mod RootPolicy
pub mod Saml
pub mod Settings
pub mod Setup
pub mod Tests
pub mod TlsPin
pub mod Tunnel
pub mod Url
