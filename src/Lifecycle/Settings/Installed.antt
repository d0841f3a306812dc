-- ===== src/Lifecycle/Settings/Installed.antt =====
-- What `install` and `uninstall` of src/mybench/hooks/lifecycle.py leave in the settings.
use mybench.Base.{
  >>=-eq-ok, All, Bool, Bool-cases, List, Option, [], ap, arith, ascii, bytes_eq, bytes_eq_sound,
  false, if◌then◌else◌, inl, inr, none, ok, ok_injective, refl, some, subst, sym, true, ◌++◌, ◌>>=◌,
  ◌∙◌, ◌∷◌, ◌≡◌,
}
use mybench.Json.{Json, array, object, Items, nil, cons, Members, get, array_of, set_member}
use mybench.Json.Lookup.{get-set_member, get-set_member-other, set_member-same}
use mybench.Ledger.{Text}
use mybench.Lifecycle.Settings.{
  hook_events, items_are, is_lifecycle_handler, some_handler, group_has_lifecycle_handler,
  some_group, append_item, Changed, own_group, install_array, install_groups, install_events,
  hooks_of, install,
}

-- The event has a handler of the program.
abbrev pub in_groups : Option Items → Bool
in_groups none = false
in_groups (some gs) = some_group gs

abbrev pub is_installed : Option Json → Bool
is_installed found = in_groups (array_of found)

some_group-append_item :
    (gs : Items) (g : Json)
    → group_has_lifecycle_handler g ≡ true
    → some_group (append_item gs g) ≡ true
unfolding some_group append_item
some_group-append_item nil g h = rw h refl
some_group-append_item (cons f gs) g h = ground (arith, some_group-append_item gs g h)

own_group-handled : (p : Text) → group_has_lifecycle_handler (own_group p) ≡ true
unfolding some_handler is_lifecycle_handler get items_are bytes_eq
own_group-handled p = refl

-- One event: it is installed, and the others stay what they are.
abbrev Installs : Text → Members → Members → Type 0
Installs name hooks next =
    (is_installed (get name next) ≡ true)
    × ((other : Text)
        → is_installed (get other hooks) ≡ true
        → is_installed (get other next) ≡ true)

set_member-Installs :
    (name : Text) (gs : Items) (hooks : Members)
    → some_group gs ≡ true
    → Installs name hooks (set_member name (array gs) hooks)
set_member-Installs name gs hooks h =
    let own : is_installed (get name (set_member name (array gs) hooks)) ≡ true =
      ap is_installed (get-set_member name (array gs) hooks) ∙ h in
    (
      own,
      λ other was. elim (Bool-cases (bytes_eq name other)) [
        | inl same ↦
            subst (λ z. is_installed (get z (set_member name (array gs) hooks)) ≡ true)
              (bytes_eq_sound name other same) own
        | inr differ ↦
            ap is_installed (get-set_member-other name other (array gs) hooks differ) ∙ was
      ],
    )

install_array-Installs :
    (p name : Text) (hooks : Members) (gs : Items) (out : Changed)
    → (some_group gs ≡ true → is_installed (get name hooks) ≡ true)
    → install_array p name hooks (some gs) ≡ ok out
    → Installs name hooks out.0
install_array-Installs p name hooks gs out e h = there (some_group gs) refl h
  where
    there :
        (b : Bool)
        → some_group gs ≡ b
        → (if b
            then ok (hooks, [])
            else ok (set_member name (array (append_item gs (own_group p))) hooks, name ∷ []))
          ≡ ok out
        → Installs name hooks out.0
    there true g k =
        subst (λ o. Installs name hooks o.0) (ok_injective (hooks, []) out k)
          (e g, λ other was. was)
    there false g k =
        subst (λ o. Installs name hooks o.0) (ok_injective _ out k)
          (set_member-Installs name (append_item gs (own_group p)) hooks
            (some_group-append_item gs (own_group p) (own_group-handled p)))

install_groups-Installs :
    (p name : Text) (hooks : Members) (found : Option Json) (out : Changed)
    → get name hooks ≡ found
    → install_groups p name hooks found ≡ ok out
    → Installs name hooks out.0
unfolding some_group
install_groups-Installs p name hooks none out e h =
    install_array-Installs p name hooks nil out (λ g. cc) h
install_groups-Installs p name hooks (some v) out e h = listed (array_of (some v)) refl h
  where
    listed :
        (l : Option Items)
        → array_of (some v) ≡ l
        → install_array p name hooks l ≡ ok out
        → Installs name hooks out.0
    listed none k g = cc
    listed (some gs) k g =
        install_array-Installs p name hooks gs out
          (λ has. ap is_installed e ∙ (ap in_groups k ∙ has)) g

install_events-Installs :
    (p : Text) (names : List Text) (hooks : Members) (out : Changed)
    → install_events p names hooks ≡ ok out
    → All (λ name. is_installed (get name out.0) ≡ true) names
      × ((other : Text)
          → is_installed (get other hooks) ≡ true
          → is_installed (get other out.0) ≡ true)
unfolding install_events
install_events-Installs p [] hooks out h = (
  tt,
  λ other was. ap (λ o. is_installed (get other o.0)) (sym (ok_injective (hooks, []) out h)) ∙ was,
)
install_events-Installs p (name ∷ names) hooks out h =
    let (first, one, more) = >>=-eq-ok (install_groups p name hooks (get name hooks)) _ h in
    let (others, all, made) = >>=-eq-ok (install_events p names first.0) _ more in
    let (own, kept) = install_groups-Installs p name hooks (get name hooks) first refl one in
    let (rest, later) = install_events-Installs p names first.0 others all in
    subst
      (λ o.
        All (λ n. is_installed (get n o.0) ≡ true) (name ∷ names)
        × ((other : Text)
            → is_installed (get other hooks) ≡ true
            → is_installed (get other o.0) ≡ true))
      (ok_injective (others.0, first.1 ++ others.1) out made)
      ((later name own, rest), λ other was. later other (kept other was))

install_array-again :
    (p name : Text) (hooks : Members) (found : Option Items)
    → in_groups found ≡ true
    → install_array p name hooks found ≡ ok (hooks, [])
install_array-again p name hooks none h = cc
install_array-again p name hooks (some gs) h = rw h refl

install_groups-again :
    (p name : Text) (hooks : Members) (found : Option Json)
    → is_installed found ≡ true
    → install_groups p name hooks found ≡ ok (hooks, [])
install_groups-again p name hooks none h = cc
install_groups-again p name hooks (some v) h =
    install_array-again p name hooks (array_of (some v)) h

install_events-again :
    (p : Text) (names : List Text) (hooks : Members)
    → All (λ name. is_installed (get name hooks) ≡ true) names
    → install_events p names hooks ≡ ok (hooks, [])
unfolding install_events
install_events-again p [] hooks all = refl
install_events-again p (name ∷ names) hooks all =
    rw
      (
        install_groups-again p name hooks (get name hooks) all.0,
        install_events-again p names hooks all.1,
      )
      refl

-- After an `install` that returns, another one, also for another interpreter, returns the same
-- settings and no changed event.
pub install_twice :
    (p q : Text) (settings : Members) (out : Changed)
    → install p settings ≡ ok out
    → install q out.0 ≡ ok (out.0, [])
unfolding install
install_twice p q settings out h =
    let (hooks, _, more) = >>=-eq-ok (hooks_of (get (ascii "hooks") settings)) _ h in
    let (changed, all, made) = >>=-eq-ok (install_events p hook_events hooks) _ more in
    let next = set_member (ascii "hooks") (object changed.0) settings in
    let held : get (ascii "hooks") next ≡ some (object changed.0) =
      get-set_member (ascii "hooks") (object changed.0) settings in
    let again =
      install_events-again q hook_events changed.0
        (install_events-Installs p hook_events hooks changed all).0 in
    subst (λ s. install q s ≡ ok (s, [])) (ap (λ o. o.0) (ok_injective (next, changed.1) out made))
      (ap
          (λ o. hooks_of o >>= λ hooks. install_events q hook_events hooks >>= λ changed.
            ok (set_member (ascii "hooks") (object changed.0) next, changed.1))
          held
        ∙ (ap
              (λ r.
                r >>= λ changed. ok (set_member (ascii "hooks") (object changed.0) next, changed.1))
              again
            ∙ ap (λ m. ok (m, [])) (set_member-same (ascii "hooks") (object changed.0) next held)))
