-- ===== src/Privileged/Install.antt =====
-- The transaction of `_install_script`: what it does to the six installed components, from the
-- removal of old backups on. What stands before that in the script changes none of them.
pub mod Laws
use meraki_openconnect.Prelude.{
  ℕ, Bool, true, false, ◌||◌, Option, none, some, List, [], ◌∷◌, ◌++◌, take, is_some, if◌then◌else◌,
}

pub data Component : Type 0 where
  helper library vpnc native policy sudoers : Component

-- One component: what stands at its path, at its backup and at its temporary path, and its two flags.
pub record Slot (Content : Type 0) : Type 0 where
  pub current : Option Content
  pub backup : Option Content
  pub temp : Option Content
  pub backed_up : Bool
  pub activated : Bool

-- The statements of the script, each of which is done or not: a rename is atomic, and a copy that
-- fails leaves at most a temporary file. `move_away` and `mark_backed_up` stand under a test that the
-- component is there.
pub data Statement : Type 0 where
  clear_backups : Statement
  mark_backed_up move_away stage mark_activated move_in : Component → Statement
  commit : Statement

abbrev backup_order : List Component
backup_order = helper ∷ library ∷ vpnc ∷ native ∷ policy ∷ sudoers ∷ []

abbrev stage_order : List Component
stage_order = helper ∷ native ∷ vpnc ∷ library ∷ policy ∷ sudoers ∷ []

abbrev activation_order : List Component
activation_order = library ∷ vpnc ∷ native ∷ policy ∷ sudoers ∷ helper ∷ []

abbrev for_each : (Component → List Statement) → List Component → List Statement
for_each f [] = []
for_each f (c ∷ cs) = f c ++ for_each f cs

-- The statements up to `COMMITTED=1`.
abbrev pub prepare : List Statement
prepare =
    clear_backups
    ∷ (for_each (λ c. mark_backed_up c ∷ move_away c ∷ []) backup_order
        ++ for_each (λ c. stage c ∷ []) stage_order
        ++ for_each (λ c. mark_activated c ∷ move_in c ∷ []) activation_order)

-- The whole script.
abbrev pub script : List Statement
script = prepare ++ commit ∷ clear_backups ∷ []

abbrev is_same : Component → Component → Bool
is_same helper helper = true
is_same library library = true
is_same vpnc vpnc = true
is_same native native = true
is_same policy policy = true
is_same sudoers sudoers = true
is_same _ _ = false

module _ {Content : Type 0} (over : Content → Content → Content) where
  abbrev moved_away : Bool → Slot Content → Slot Content
  moved_away true s = record s { backup = s.current; current = none }
  moved_away false s = s

  -- What is staged: a file takes the place of what stands at the temporary path, but `install -d` leaves
  -- a directory there as it is, and the new libraries are placed over its files.
  abbrev pub staged : Component → Content → Option Content → Content
  staged library new (some stale) = over stale new
  staged _ new stale = new

  -- What a statement does to one component, whose new content is given.
  pub act : Content → Component → Statement → Slot Content → Slot Content
  act new d clear_backups s = record s { backup = none }
  act new d (mark_backed_up c) s =
      if is_same c d then record s { backed_up = is_some s.current } else s
  act new d (move_away c) s = if is_same c d then moved_away s.backed_up s else s
  act new d (stage c) s = if is_same c d then record s { temp = some (staged d new s.temp) } else s
  act new d (mark_activated c) s = if is_same c d then record s { activated = true } else s
  act new d (move_in c) s = if is_same c d then record s { current = s.temp; temp = none } else s
  act new d commit s = s

  pub perform : Content → Component → List Statement → Slot Content → Slot Content
  perform new d [] s = s
  perform new d (statement ∷ rest) s = perform new d rest (act new d statement s)

  abbrev restored : Bool → Option Content → Slot Content → Slot Content
  restored true (some old) s = record s { current = some old; backup = none }
  restored _ _ s = s

  -- `rollback_install` on one component, before the commit and after it, and the removal of the
  -- temporary file.
  pub roll_back : Slot Content → Slot Content
  roll_back s =
      let s' = (if s.activated then record s { current = none } else s) in
      record (restored s.backed_up s.backup s') { temp = none }

  pub keep_new : Slot Content → Slot Content
  keep_new s = record s { backup = none; temp = none }

abbrev pub is_commit : Statement → Bool
is_commit commit = true
is_commit _ = false

pub is_committed : List Statement → Bool
is_committed [] = false
is_committed (statement ∷ rest) = is_commit statement || is_committed rest

-- A run of the script that ends behind the given number of statements, by a command that fails, a
-- signal or its own end, and then runs `rollback_install`. What stands at the backup and at the
-- temporary path before may be left from an earlier run; the first argument is the content of a
-- directory where files are placed over those that it holds.
pub install :
    {Content : Type 0}
    → (Content → Content → Content)
    → (Component → Content)
    → ℕ
    → (Component → Slot Content)
    → Component
    → Slot Content
unfolding perform roll_back keep_new is_committed
install over payload stop before c =
    let start = record (before c) { backed_up = false; activated = false } in
    let s = perform over (payload c) c (take stop script) start in
    if is_committed (take stop script) then keep_new over s else roll_back over s
