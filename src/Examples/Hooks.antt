-- ===== src/Examples/Hooks.antt =====
-- The settings of a user with a hook of their own, before and after `install`.
use mybench.Base.{[], ascii, bytes_eq, ok, refl, ◌≡◌}
use mybench.Json.{
  Json, text, array, object, nil, cons, Members, end, member, get, set_member, without,
}
use mybench.Lifecycle.Settings.{
  hook_events, own_group, items_are, is_lifecycle_handler, some_handler, some_group, append_item,
  install_events, install, kept_handlers, item_count, keep_groups, uninstall_events, uninstall,
}
use mybench.Lifecycle.Settings.Installed.{install_twice}
use mybench.Lifecycle.Settings.Own.{Without}
use mybench.Lifecycle.Settings.Removed.{handlers_for}
use mybench.Lifecycle.Settings.Foreign.{uninstall-removes}

abbrev user_group : Json
user_group = object (
    member (ascii "hooks")
      (array (cons (object (member (ascii "type") (text (ascii "command")) end)) nil)) end)

-- One event has a group, the other two have none.
abbrev settings : Members
settings = member (ascii "model") (text (ascii "opus")) (
    member (ascii "hooks") (object (member (ascii "SessionEnd") (array (cons user_group nil)) end))
      end)

abbrev groups_of : Json → Json
groups_of g = array (cons g nil)

abbrev hooked : Members
hooked = member (ascii "model") (text (ascii "opus")) (
    member (ascii "hooks")
      (object (
        member (ascii "SessionEnd")
          (array (cons user_group (cons (own_group (ascii "python3")) nil)))
          (member (ascii "SessionStart") (groups_of (own_group (ascii "python3")))
            (member (ascii "PreCompact") (groups_of (own_group (ascii "python3"))) end))))
      end)

install-settings : install (ascii "python3") settings ≡ ok (hooked, hook_events)
unfolding install install_events get set_member append_item some_group some_handler
    is_lifecycle_handler items_are bytes_eq
install-settings = refl

-- What was there is there again.
uninstall-hooked : uninstall hooked ≡ (settings, hook_events)
unfolding uninstall uninstall_events get set_member without keep_groups kept_handlers item_count
    is_lifecycle_handler items_are bytes_eq
uninstall-hooked = refl

install_twice_example : install (ascii "python4") hooked ≡ ok (hooked, [])
install_twice_example =
    install_twice (ascii "python3") (ascii "python4") settings (hooked, hook_events)
      install-settings

uninstall-removes_example :
    Without
      (handlers_for (ascii "SessionEnd") hooked)
      (handlers_for (ascii "SessionEnd") (uninstall hooked).0)
unfolding bytes_eq
uninstall-removes_example = uninstall-removes hooked (ascii "SessionEnd")
