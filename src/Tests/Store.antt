-- ===== src/Tests/Store.antt =====
-- The theorems on the state file, applied to a recorded session.
use meraki_openconnect.Prelude.{codes, some}
use meraki_openconnect.Tunnel.Store.{
  Loaded, load_verified, load_verified-Loaded, Disconnected, disconnect_tunnel,
  disconnect_tunnel-Disconnected,
}
use meraki_openconnect.Tests.Data.{working, recorded}

load_verified-Loaded_example :
    Loaded working
      (some (codes "vpn.example.com"))
      recorded
      (load_verified working (some (codes "vpn.example.com")) recorded).0
      (load_verified working (some (codes "vpn.example.com")) recorded).1
load_verified-Loaded_example =
    load_verified-Loaded working (some (codes "vpn.example.com")) recorded

disconnect_tunnel-Disconnected_example :
    Disconnected working recorded
      (disconnect_tunnel working recorded).0
      (disconnect_tunnel working recorded).1
disconnect_tunnel-Disconnected_example = disconnect_tunnel-Disconnected working recorded
