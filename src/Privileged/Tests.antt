-- ===== src/Privileged/Tests.antt =====
-- The privileged helper and its installation on concrete inputs.
use meraki_openconnect.Prelude.{
  ℕ, ◌+◌, ◌*◌, ◌≡◌, ◌⊎◌, refl, Bool, true, false, none, some, List, [], ◌∷◌, Text, codes, ok, take,
}
use meraki_openconnect.Tests.Data.{constant_digest}
use meraki_openconnect.Privileged.Resolver.{Rule, Node, is_managed, first_line}
use meraki_openconnect.Privileged.Uninstall.{Gates, Helper, Nodes, uninstall}
use meraki_openconnect.Privileged.Uninstall.Laws.{is_owned, uninstall-foreign}
use meraki_openconnect.Privileged.Shell.{shell_literal, word, bare, word-shell_literal, quote}
use meraki_openconnect.Privileged.Install.{Component, Slot, install, script, is_committed}
use meraki_openconnect.Privileged.Install.Laws.{IsRestored, IsInstalled, install-IsAtomic}

abbrev value : Text
value = codes "it's $HOME"

literal_of_value : shell_literal value ≡ ok (quote value)
unfolding shell_literal
literal_of_value = refl

word-shell_literal_example : word bare (quote value) ≡ some value
word-shell_literal_example = word-shell_literal value (quote value) literal_of_value

abbrev old_slots : Component → Slot ℕ
old_slots c = record {
  current = some 1;
  backup = none;
  temp = some 7;
  backed_up = false;
  activated = false;
}

abbrev placed_over : ℕ → ℕ → ℕ
placed_over stale new = 10 * stale + new

install-IsAtomic_example :
    ((is_committed (take 9 script) ≡ false)
      × IsRestored placed_over (λ c. 2) old_slots (install placed_over (λ c. 2) 9 old_slots))
    ⊎ ((is_committed (take 9 script) ≡ true)
        × IsInstalled placed_over (λ c. 2) old_slots (install placed_over (λ c. 2) 9 old_slots))
install-IsAtomic_example = install-IsAtomic placed_over (λ c. 2) old_slots 9

abbrev foreign_path : Text
foreign_path = codes "/private/etc/resolver/a.example"

abbrev foreign : Node
foreign = Node.file (codes "nameserver 10.0.0.1\n")

abbrev removed_rules : List Rule
removed_rules =
    record {
      path = foreign_path;
      content = codes "# meraki-openconnect managed resolver\nnameserver 10.0.0.53\n";
    }
    ∷ []

abbrev around : Nodes
around path = foreign

abbrev all_open : Gates
all_open = record {
  runtime_is_plain = true;
  runtime_is_made = true;
  is_locked = true;
  runtime_is_cleared = true;
  etc_is_linked = true;
  resolver_is_plain = true;
  libraries_are_removed = true;
  runtime_is_removed = true;
}

-- A helper of the same rules.
abbrev old_helper : Helper
old_helper = record { rules = removed_rules; stops = true; is_safe = true; is_restored = true }

foreign-not_owned : is_owned constant_digest removed_rules foreign_path foreign ≡ false
unfolding is_managed first_line
foreign-not_owned = refl

abbrev any_path : Text → Bool
any_path path = true

uninstall-foreign_example :
    (uninstall constant_digest any_path all_open (some old_helper) removed_rules around).1
      foreign_path
    ≡ around foreign_path
uninstall-foreign_example =
    uninstall-foreign constant_digest any_path foreign_path all_open (some old_helper) removed_rules
      around refl refl refl refl foreign-not_owned foreign-not_owned
