-- ===== src/Privileged/Resolver/Tests.antt =====
-- The resolver operations of the privileged helper on concrete inputs.
use meraki_openconnect.Prelude.{◌≡◌, ◌≢◌, ◌⊎◌, refl, true, false, List, [], ◌∷◌, Text, codes, ok}
use meraki_openconnect.Profile.Model.{SplitDnsRule}
use meraki_openconnect.RootPolicy.{unlines}
use meraki_openconnect.Tunnel.World.{dns_connect}
use meraki_openconnect.Tunnel.Helper.{exited, outcome}
use meraki_openconnect.Tests.Data.{constant_digest}
use meraki_openconnect.Privileged.Shell.{shell_literal}
use meraki_openconnect.Privileged.Resolver.{
  Rule, State, passed, Removals, Node, absent, file, resolver_rules, resolver_rule,
  resolver_content, dns_disconnect, literals, install_rules, set, install_rule, place,
}
use meraki_openconnect.Privileged.Resolver
use meraki_openconnect.Privileged.Resolver.Connect.{dns_connect-foreign}
use meraki_openconnect.Privileged.Resolver.Disconnect.{is_removable, dns_disconnect-removable}
use meraki_openconnect.Privileged.Resolver.RoundTrip.{connect-disconnect}
use meraki_openconnect.Privileged.Resolver.Report.{Reported, dns_connect-Reported}

abbrev splits : List SplitDnsRule
splits =
    record { domain = codes "a.example"; nameservers = codes "10.0.0.53" ∷ [] }
    ∷ record { domain = codes "b.example"; nameservers = codes "10.0.0.54" ∷ [] }
    ∷ []

abbrev rules : List Rule
rules =
    record {
      path = codes "/private/etc/resolver/a.example";
      content = codes "# meraki-openconnect managed resolver\nnameserver 10.0.0.53\n";
    }
    ∷ record {
      path = codes "/private/etc/resolver/b.example";
      content = codes "# meraki-openconnect managed resolver\nnameserver 10.0.0.54\n";
    }
    ∷ []

rules_of_splits : resolver_rules splits ≡ ok rules
unfolding resolver_rules resolver_rule resolver_content literals shell_literal unlines
rules_of_splits = refl

-- One file of another owner.
abbrev machine_files : State
machine_files = record {
  node = set (codes "/private/etc/resolver/c.example") (file (codes "theirs")) (λ x. absent);
  directory = false;
  temp = λ x. false;
  touched = [];
}

abbrev working_removals : Removals
working_removals = record { file = λ x. true; temp = λ x. true }

exits_with_zero :
    (Resolver.dns_connect constant_digest working_removals true passed rules 20 machine_files).0 ≡ 0
unfolding Resolver.dns_connect install_rules install_rule place set
exits_with_zero = refl

abbrev other_path : Text
other_path = codes "/private/etc/resolver/c.example"

abbrev first_path : Text
first_path = codes "/private/etc/resolver/a.example"

connect-disconnect_example :
    (let connected =
        (Resolver.dns_connect constant_digest working_removals true passed rules 20
          machine_files).1 in
      let cleared = dns_disconnect constant_digest working_removals true true rules connected in
      (cleared.0 ≡ true)
      × ((x : Text) → cleared.1.node x ≡ machine_files.node x)
      × (cleared.1.directory ≡ true))
connect-disconnect_example =
    connect-disconnect constant_digest working_removals (λ x. refl) splits rules rules_of_splits
      true passed 20 machine_files exits_with_zero

dns_connect-Reported_example :
    (let (code, t) =
        Resolver.dns_connect constant_digest working_removals true passed rules 4 machine_files in
      Reported rules machine_files t (outcome dns_connect (exited code (codes "stopped"))))
dns_connect-Reported_example =
    dns_connect-Reported constant_digest working_removals true passed rules 4 machine_files
      (codes "stopped")

theirs : machine_files.node other_path ≢ absent
unfolding set
theirs h = cc

dns_connect-foreign_example :
    (Resolver.dns_connect constant_digest working_removals true passed rules 4 machine_files).1.node
      other_path
    ≡ machine_files.node other_path
dns_connect-foreign_example =
    dns_connect-foreign constant_digest working_removals other_path true passed rules 4
      machine_files theirs

dns_disconnect-removable_example :
    ((dns_disconnect constant_digest working_removals true true rules machine_files).1.node
        other_path
      ≡ machine_files.node other_path)
    ⊎ (is_removable constant_digest working_removals other_path rules
          (machine_files.node other_path)
        ≡ true)
dns_disconnect-removable_example =
    dns_disconnect-removable constant_digest working_removals other_path true true rules
      machine_files
