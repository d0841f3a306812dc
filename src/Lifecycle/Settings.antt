-- ===== src/Lifecycle/Settings.antt =====
-- `install` and `uninstall` of src/mybench/hooks/lifecycle.py on the settings that the file holds. Both
-- write the file if an event has changed.
pub mod Installed
pub mod Own
pub mod Removed
pub mod Foreign
use mybench.Base.{
  Bool, List, Option, Result, [], ascii, bytes_eq, err, false, if◌then◌else◌, lifecycle_error, none,
  not, ok, some, true, ℕ, ◌&&◌, ◌++◌, ◌+◌, ◌==◌, ◌>>=◌, ◌>>◌, ◌||◌, ◌∷◌,
}
use mybench.Json.{
  Json, boolean, natural, text, array, object, Items, nil, cons, Members, end, member, get,
  object_of, array_of, has_text, set_member, without,
}
use mybench.Ledger.{Text}
use mybench.Sessions.{is_empty}

abbrev pub hook_events : List Text
hook_events = ascii "SessionStart" ∷ ascii "SessionEnd" ∷ ascii "PreCompact" ∷ []

abbrev pub hook_args : List Text
hook_args = ascii "-m" ∷ ascii "mybench.hooks" ∷ ascii "lifecycle" ∷ ascii "run" ∷ []

abbrev pub items_of : List Text → Items
items_of [] = nil
items_of (t ∷ ts) = cons (text t) (items_of ts)

-- A list of texts, and no other value.
unfoldable pub items_are : List Text → Items → Bool
items_are [] nil = true
items_are [] (cons v vs) = false
items_are (t ∷ ts) nil = false
items_are (t ∷ ts) (cons (text u) vs) = bytes_eq u t && items_are ts vs
items_are (t ∷ ts) (cons _ vs) = false

abbrev pub value_is : List Text → Option Json → Bool
value_is ts (some (array vs)) = items_are ts vs
value_is ts _ = false

-- `_handler`
abbrev pub handler : Text → Json
handler python_executable = object (
    member (ascii "type") (text (ascii "command")) (
      member (ascii "command") (text python_executable) (
        member (ascii "args") (array (items_of hook_args))
          (member (ascii "async") (boolean true) (member (ascii "timeout") (natural 1) end)))))

-- `_is_lifecycle_handler`
unfoldable pub is_lifecycle_handler : Json → Bool
is_lifecycle_handler (object h) =
    has_text (ascii "type") (ascii "command") h && value_is hook_args (get (ascii "args") h)
is_lifecycle_handler _ = false

unfoldable pub some_handler : Items → Bool
some_handler nil = false
some_handler (cons h hs) = is_lifecycle_handler h || some_handler hs

abbrev pub handlers_of : Option Items → Bool
handlers_of none = false
handlers_of (some hs) = some_handler hs

abbrev pub handlers_in : Option Members → Bool
handlers_in none = false
handlers_in (some g) = handlers_of (array_of (get (ascii "hooks") g))

-- `_group_has_lifecycle_handler`
abbrev pub group_has_lifecycle_handler : Json → Bool
group_has_lifecycle_handler g = handlers_in (object_of (some g))

unfoldable pub some_group : Items → Bool
some_group nil = false
some_group (cons g gs) = group_has_lifecycle_handler g || some_group gs

unfoldable pub append_item : Items → Json → Items
append_item nil v = cons v nil
append_item (cons u vs) v = cons u (append_item vs v)

-- Members, and the events that were changed.
abbrev pub Changed : Type 0
Changed = Members × List Text

abbrev pub own_group : Text → Json
own_group python_executable = object (
    member (ascii "matcher") (text (ascii "*"))
      (member (ascii "hooks") (array (cons (handler python_executable) nil)) end))

abbrev pub install_array : Text → Text → Members → Option Items → Result Changed
install_array python_executable name hooks none = err lifecycle_error
install_array python_executable name hooks (some gs) =
    if some_group gs
    then ok (hooks, [])
    else ok
        (set_member name (array (append_item gs (own_group python_executable))) hooks, name ∷ [])

-- `hooks.setdefault(event_name, [])`
abbrev pub install_groups : Text → Text → Members → Option Json → Result Changed
install_groups python_executable name hooks none =
    install_array python_executable name hooks (some nil)
install_groups python_executable name hooks (some v) =
    install_array python_executable name hooks (array_of (some v))

unfoldable pub install_events : Text → List Text → Members → Result Changed
install_events python_executable [] hooks = ok (hooks, [])
install_events python_executable (name ∷ names) hooks = do
  first ← install_groups python_executable name hooks (get name hooks)
  others ← install_events python_executable names first.0
  ok (others.0, first.1 ++ others.1)

-- `settings.setdefault("hooks", {})`
abbrev pub hooks_of : Option Json → Result Members
hooks_of none = ok end
hooks_of (some (object h)) = ok h
hooks_of (some _) = err lifecycle_error

unfoldable pub install : Text → Members → Result Changed
install python_executable settings = do
  hooks ← hooks_of (get (ascii "hooks") settings)
  changed ← install_events python_executable hook_events hooks
  ok (set_member (ascii "hooks") (object changed.0) settings, changed.1)

-- The handlers of a group that are not the program's.
unfoldable pub kept_handlers : Items → Items
kept_handlers nil = nil
kept_handlers (cons h hs) =
    let others = kept_handlers hs in if is_lifecycle_handler h then others else cons h others

unfoldable pub item_count : Items → ℕ
item_count nil = 0
item_count (cons v vs) = item_count vs + 1

-- The groups that are kept, and whether a handler was removed.
abbrev pub Kept : Type 0
Kept = Items × Bool

abbrev pub keep_handlers : Members → Items → Items → Kept → Kept
keep_handlers g hs nil (others, removed) =
    (others, not (item_count nil == item_count hs) || removed)
keep_handlers g hs (cons k ks) (others, removed) = (
  cons (object (set_member (ascii "hooks") (array (cons k ks)) g)) others,
  not (item_count (cons k ks) == item_count hs) || removed,
)

abbrev pub keep_hooks : Members → Option Items → Kept → Kept
keep_hooks g none (others, removed) = (cons (object g) others, removed)
keep_hooks g (some hs) rest = keep_handlers g hs (kept_handlers hs) rest

abbrev pub keep_group : Json → Option Members → Kept → Kept
keep_group v none (others, removed) = (cons v others, removed)
keep_group v (some g) rest = keep_hooks g (array_of (get (ascii "hooks") g)) rest

unfoldable pub keep_groups : Items → Kept
keep_groups nil = (nil, false)
keep_groups (cons g gs) = keep_group g (object_of (some g)) (keep_groups gs)

abbrev pub replace_groups : Text → Members → Kept → Changed
replace_groups name hooks (groups, false) = (hooks, [])
replace_groups name hooks (nil, true) = (without name hooks, name ∷ [])
replace_groups name hooks (cons g gs, true) = (set_member name (array (cons g gs)) hooks, name ∷ [])

abbrev pub uninstall_groups : Text → Members → Option Items → Changed
uninstall_groups name hooks none = (hooks, [])
uninstall_groups name hooks (some gs) = replace_groups name hooks (keep_groups gs)

unfoldable pub uninstall_events : List Text → Members → Changed
uninstall_events [] hooks = (hooks, [])
uninstall_events (name ∷ names) hooks =
    let (next, first) = uninstall_groups name hooks (array_of (get name hooks)) in
    let (last, others) = uninstall_events names next in (last, first ++ others)

abbrev pub store_hooks : Members → Changed → Changed
store_hooks settings (hooks, []) = (settings, [])
store_hooks settings (end, name ∷ names) = (without (ascii "hooks") settings, name ∷ names)
store_hooks settings (member k v rest, name ∷ names) =
    (set_member (ascii "hooks") (object (member k v rest)) settings, name ∷ names)

abbrev pub uninstall_hooks : Members → Option Members → Changed
uninstall_hooks settings none = (settings, [])
uninstall_hooks settings (some hooks) = store_hooks settings (uninstall_events hook_events hooks)

unfoldable pub uninstall : Members → Changed
uninstall settings = uninstall_hooks settings (object_of (get (ascii "hooks") settings))
