-- ===== src/Privileged/Resolver.antt =====
-- The resolver files of the privileged helper, from `_resolver_content`, `_resolver_functions` and
-- `_helper_text`: `dns-connect` with its rollback, and `dns-disconnect`.
pub mod Files
pub mod Directory
pub mod Connect
pub mod Placed
pub mod RoundTrip
pub mod Report
pub mod Tests
pub mod Disconnect
use meraki_openconnect.Prelude.{
  ℕ, zero, suc, Bool, true, false, not, ◌&&◌, ◌||◌, Option, none, some, List, [], ◌∷◌, ◌++◌, Text,
  codes, text_eq, Result, ok, err, ltb, any, ◌==◌, if◌then◌else◌, ◌>>=◌, ◌>>◌,
}
use meraki_openconnect.Profile.Model.{SplitDnsRule}
use meraki_openconnect.RootPolicy.{unlines}
use meraki_openconnect.Privileged.Shell.{PrivilegedError, not_ascii, shell_literal}

-- A rule of the helper: the path of a resolver file and the content that it is given.
pub record Rule : Type 0 where
  pub path : Text
  pub content : Text

abbrev resolver_marker : Text
resolver_marker = codes "# meraki-openconnect managed resolver"

abbrev nameserver_lines : List Text → List Text
nameserver_lines [] = []
nameserver_lines (server ∷ rest) = (codes "nameserver " ++ server) ∷ nameserver_lines rest

-- `_resolver_content`, which encodes its text.
pub resolver_content : List Text → Result PrivilegedError Text
resolver_content nameservers =
    let text = unlines (resolver_marker ∷ nameserver_lines nameservers) in
    if any (λ c. ltb 0x7f c) text then err not_ascii else ok text

-- Each line as a literal of the script.
literals : List Text → Result PrivilegedError (List Text)
literals [] = ok []
literals (line ∷ lines) = do
  literal ← shell_literal line
  rest ← literals lines
  ok (literal ∷ rest)

-- The rule of a split DNS rule, in `_resolver_functions`, where the nameservers hold no line break, as
-- addresses do not.
pub resolver_rule : SplitDnsRule → Result PrivilegedError Rule
resolver_rule split = do
  let path = codes "/private/etc/resolver/" ++ split.domain
  literal ← shell_literal path
  content ← resolver_content split.nameservers
  lines ← literals (resolver_marker ∷ nameserver_lines split.nameservers)
  ok (record { path = path; content = content })

unfoldable pub resolver_rules : List SplitDnsRule → Result PrivilegedError (List Rule)
resolver_rules [] = ok []
resolver_rules (split ∷ splits) = do
  rule ← resolver_rule split
  rules ← resolver_rules splits
  ok (rule ∷ rules)

-- What stands at a path. A directory, a device and the like are `other`.
pub data Node : Type 0 where
  absent link other : Node
  file : Text → Node

pub record State : Type 0 where
  -- what stands at a path in the resolver directory or anywhere else, but for that directory itself
  pub node : Text → Node
  -- whether /private/etc/resolver is a directory
  pub directory : Bool
  -- whether the temporary file of a resolver path stands
  pub temp : Text → Bool
  -- the rules whose flag is set, the latest first
  pub touched : List Rule

unfoldable pub set : {A : Type 0} → Text → A → (Text → A) → Text → A
set path a f x = if text_eq path x then a else f x

unfoldable pub first_line : Text → Text
first_line [] = []
first_line (c ∷ s) = let rest = first_line s in if c == 0x0a then [] else c ∷ rest

abbrev pub touch : Rule → State → State
touch rule s = record s { touched = rule ∷ s.touched }

abbrev pub write : Rule → State → State
write rule s = record s { temp = set rule.path true s.temp }

abbrev pub move : Rule → State → State
move rule s = record s {
  node = set rule.path (file rule.content) s.node;
  temp = set rule.path false s.temp;
}

-- The statements of `install_dns_rule_…` behind its tests, where a number of statements is done
-- before a command fails or a signal arrives: what is left of the number, or none at the end.
pub place : Rule → ℕ → State → Option ℕ × State
place rule zero s = (none, s)
place rule (suc zero) s = (none, touch rule s)
place rule (suc (suc zero)) s = (none, write rule (touch rule s))
place rule (suc (suc (suc n))) s = (some n, move rule (touch rule s))

abbrev pub is_absent : Node → Bool
is_absent absent = true
is_absent _ = false

-- `install_dns_rule_…`
pub install_rule : Rule → ℕ → State → Option ℕ × State
install_rule rule n s =
    if is_absent (s.node rule.path) && not (s.temp rule.path) then place rule n s else (none, s)

-- How `install_dns_resolvers` ends before its calls: a test refuses, or a test or a command fails once
-- the resolver directory is there, or it is there and safe.
pub data Directories : Type 0 where
  refused made passed : Directories

-- The files at the first call, with the flags unset.
abbrev pub begun : Bool → State → State
begun directory s = record s { touched = []; directory = directory }

-- What is left to do, when all statements so far were done.
abbrev pub following : (ℕ → State → Option ℕ × State) → Option ℕ × State → Option ℕ × State
following k (none, s) = (none, s)
following k (some n, s) = k n s

-- The calls of `install_dns_resolvers`
pub install_rules : List Rule → ℕ → State → Option ℕ × State
install_rules [] n s = (some n, s)
install_rules (rule ∷ rules) n s = following (install_rules rules) (install_rule rule n s)

-- Which removals of a file, and of a temporary file, succeed.
pub record Removals : Type 0 where
  pub file : Text → Bool
  pub temp : Text → Bool

module _ (sha256_hex : List ℕ → Text) where
  -- `resolver_is_managed`
  unfoldable pub is_managed : Text → Node → Bool
  unfolding first_line
  is_managed content (file found) =
      text_eq (first_line found) resolver_marker && text_eq (sha256_hex found) (sha256_hex content)
  is_managed content _ = false

  module _ (removals : Removals) where
    -- The end of a rollback of one rule, once its temporary file is gone.
    pub roll_back_file : Rule → Node → State → Bool × State
    roll_back_file rule absent s = (true, s)
    roll_back_file rule found s =
        if is_managed rule.content found && removals.file rule.path
        then (true, record s { node = set rule.path absent s.node })
        else (false, s)

    -- `rollback_dns_rule_…` of a rule whose flag is set
    pub roll_back_rule : Rule → State → Bool × State
    roll_back_rule rule s =
        if removals.temp rule.path
        then (let s' = record s { temp = set rule.path false s.temp } in
            roll_back_file rule (s'.node rule.path) s')
        else (false, s)

    -- `rollback_dns_resolvers`, over the rules whose flag is set, the latest first
    pub roll_back : List Rule → State → Bool × State
    roll_back [] s = (true, s)
    roll_back (rule ∷ rules) s =
        let (done, s') = roll_back_rule rule s in
        let (rest, s'') = roll_back rules s' in (done && rest, s'')

    abbrev status_of : Bool × State → ℕ × State
    status_of (true, s) = (1, s)
    status_of (false, s) = (2, s)

    -- `dns_connect_exit` and `dns_connect_signal` before the commit
    abbrev pub abort : State → ℕ × State
    abort s = status_of (roll_back s.touched s)

    -- What follows the calls, with what is left of the number: a signal before the commit, a signal
    -- behind it, or the end.
    abbrev pub conclude : Option ℕ × State → ℕ × State
    conclude (none, s) = abort s
    conclude (some zero, s) = abort s
    conclude (some (suc zero), s) = (2, s)
    conclude (some (suc (suc n)), s) = (0, s)

    -- `dns_connect`: its exit code and the files, where the flag is the verification of the worker.
    unfoldable pub dns_connect : Bool → Directories → List Rule → ℕ → State → ℕ × State
    dns_connect false safe rules stop s = (1, s)
    dns_connect true refused rules stop s = abort (begun s.directory s)
    dns_connect true made rules stop s = abort (begun true s)
    dns_connect true passed rules stop s = conclude (install_rules rules stop (begun true s))

    -- `cleanup_dns_rule_…`: whether it returns
    pub clean_rule : Rule → State → Bool × State
    clean_rule rule s =
        if is_absent (s.node rule.path)
        then (true, s)
        else if is_managed rule.content (s.node rule.path) && removals.file rule.path
        then (true, record s { node = set rule.path absent s.node })
        else (false, s)

    pub clean_rules : List Rule → State → Bool × State
    clean_rules [] s = (true, s)
    clean_rules (rule ∷ rules) s =
        let (done, s') = clean_rule rule s in
        let rest = clean_rules rules s' in if done then rest else (false, s')

    -- `dns_disconnect`, with the verification of the directories and that of the restored state
    unfoldable pub dns_disconnect : Bool → Bool → List Rule → State → Bool × State
    dns_disconnect false restored rules s = (false, s)
    dns_disconnect true restored rules s =
        let (done, s') = clean_rules rules s in (done && restored, s')
