-- ===== src/Tests/Data.antt =====
-- A machine, its profile and its settings, and runs of the controller.
use meraki_openconnect.Prelude.{ℕ, true, false, none, some, List, [], ◌∷◌, ◌++◌, codes, ok}
use meraki_openconnect.Health.{CheckType}
use meraki_openconnect.Profile.Model.{OrganizationProfile, HealthCheck}
use meraki_openconnect.Settings.Checks.{MachineSettings}
use meraki_openconnect.Tunnel.Frame.{Frame, stage, connected, disconnected}
use meraki_openconnect.Tunnel.Session.{TunnelSession}
use meraki_openconnect.Tunnel.World.{World, Event, arrives, silence, absent, holds}
use meraki_openconnect.Tunnel.Helper.{
  Environment, exited, Sending, Saving, Clearing, Closing, native_path,
}
use meraki_openconnect.Tunnel.Run.Startup.{Machine}

abbrev pub example_profile : OrganizationProfile
example_profile = record {
  organization = record { display_name = codes "Example" };
  gateway = record { host = codes "vpn.example.com" };
  authentication = record {
    idp_host = codes "login.example.com";
    issuer = codes "https://sts.example.com/1";
    destination = codes "https://login.example.com/saml";
    login_path = codes "/saml/login";
    final_path = codes "/saml/final";
    token_cookie_name = codes "token";
  };
  split_dns = [];
  health_checks = HealthCheck.tcp (codes "intranet.example.com") 443 ∷ [];
}

abbrev pub example_settings : MachineSettings
example_settings = record {
  schema_version = 1;
  extension_id = codes "abcdefghijklmnopabcdefghijklmnop";
  extension_gateway_origin = codes "https://vpn.example.com";
  extension_profile_digest = codes "sha256:0";
  server_cert_pin = codes "sha1:0123456789012345678901234567890123456789";
  installed_policy_digest = codes "sha256:1";
}

-- Every process of the machine works, and the worker is genuine.
abbrev pub working : Environment
working = record {
  privileged = λ h operation. exited 0 [];
  ps = λ h pid. (codes "    0 " ++ native_path ++ codes "\n", true);
  send = λ h frame. Sending.delivered;
  save = λ h session. Saving.done;
  clear_legacy = λ h. true;
  clear = λ h. Clearing.done;
  browser_token = λ h url. ok (codes "token");
  health = λ h interface. ok (
      (record { type = CheckType.tcp; target = codes "intranet.example.com:443"; passed = true })
      ∷ []);
  report = λ h session. ok tt;
  close = λ h. Closing.done;
}

-- No operation of the helper succeeds, so that the resolver files stay.
abbrev pub stuck : Environment
stuck = record working { privileged = λ h operation. exited 2 [] }

abbrev pub connected_frame : Frame
connected_frame = record {
  type = connected;
  fields = codes "4321" ∷ codes "utun4" ∷ codes "10.0.0.2" ∷ codes "dtls" ∷ [];
}

abbrev pub stage_frame : Frame
stage_frame = record { type = stage; fields = codes "auth" ∷ [] }

abbrev pub last_frame : Frame
last_frame = record { type = disconnected; fields = [] }

abbrev pub session : TunnelSession
session = record {
  pid = 4321;
  gateway = codes "vpn.example.com";
  interface = some (codes "utun4");
  address = some (codes "10.0.0.2");
  transport = some (codes "dtls");
}

-- A world in which the given events are still to come.
abbrev pub ahead : List Event → World
ahead events = record {
  inbox = events;
  history = [];
  file = absent;
  connected = none;
  completed = false;
  resolver_installed = false;
  resolver_files = false;
}

abbrev pub whole_session : World
whole_session =
    ahead (arrives stage_frame ∷ silence ∷ arrives connected_frame ∷ arrives last_frame ∷ [])

-- A world with a session that has set up the resolver.
abbrev pub recorded : World
recorded = record (ahead []) {
  file = holds session;
  connected = some session;
  resolver_installed = true;
  resolver_files = true;
}

abbrev pub machine : Machine
machine = record {
  helper_digest = some (codes "sha256:1");
  helper_installed = true;
  native_installed = true;
  tls_pin = λ host. ok (codes "sha1:0123456789012345678901234567890123456789");
  starts = true;
}

abbrev pub constant_digest : List ℕ → List ℕ
constant_digest bytes = codes "00"
