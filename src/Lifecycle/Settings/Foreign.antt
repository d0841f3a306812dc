-- ===== src/Lifecycle/Settings/Foreign.antt =====
-- `uninstall` of src/mybench/hooks/lifecycle.py removes the handlers of the program and no other.
use mybench.Base.{
  Bool, Bool-cases, List, Option, [], ap, ascii, bytes_eq, bytes_eq_sound, false, inl, inr, none,
  refl, some, subst, sym, true, ◌++◌, ◌||◌, ◌∙◌, ◌∷◌, ◌≡◌,
}
use mybench.Json.{
  Json, array, object, Items, nil, cons, Members, end, member, get, object_of, array_of, set_member,
  without,
}
use mybench.Json.Lookup.{get-set_member, get-set_member-other, get-without, get-without-other}
use mybench.Ledger.{Text}
use mybench.Lifecycle.Settings.Own.{Without, without_own, without_own-Without, without_own_twice}
use mybench.Lifecycle.Settings.Removed.{
  listed_handlers, event_handlers, handlers_for, Cleans, is_listed, cleaned, Keeps,
  keep_groups-Keeps,
}
use mybench.Lifecycle.Settings.{
  hook_events, Changed, Kept, keep_groups, replace_groups, uninstall_groups, uninstall_events,
  store_hooks, uninstall_hooks, uninstall,
}

-- One event has what is left of its handlers, and every other event what it had.
by_name :
    (name key : Text) (hooks next : Members)
    → listed_handlers (array_of (get name next))
      ≡ without_own (listed_handlers (array_of (get name hooks)))
    → (bytes_eq name key ≡ false → get key next ≡ get key hooks)
    → event_handlers key (some next) ≡ cleaned (bytes_eq name key) (event_handlers key (some hooks))
by_name name key hooks next own others = elim (Bool-cases (bytes_eq name key)) [
  | inl same ↦
      subst (λ z. event_handlers z (some next) ≡ without_own (event_handlers z (some hooks)))
        (bytes_eq_sound name key same) own
      ∙ ap (λ b. cleaned b (event_handlers key (some hooks))) (sym same)
  | inr differ ↦
      ap (λ o. listed_handlers (array_of o)) (others differ)
      ∙ ap (λ b. cleaned b (event_handlers key (some hooks))) (sym differ)
]

handlers-replace_groups :
    (name key : Text) (hooks : Members) (gs : Items) (kept : Kept)
    → array_of (get name hooks) ≡ some gs
    → Keeps gs kept
    → event_handlers key (some (replace_groups name hooks kept).0)
      ≡ cleaned (bytes_eq name key) (event_handlers key (some hooks))
handlers-replace_groups name key hooks gs (groups, false) e h =
    by_name name key hooks hooks
      (ap listed_handlers e ∙ (sym (h.1 refl) ∙ ap (λ o. without_own (listed_handlers o)) (sym e)))
      (λ differ. refl)
handlers-replace_groups name key hooks gs (nil, true) e h =
    by_name name key hooks (without name hooks)
      (ap (λ o. listed_handlers (array_of o)) (get-without name hooks)
        ∙ (h.0 ∙ ap (λ o. without_own (listed_handlers o)) (sym e)))
      (get-without-other name key hooks)
handlers-replace_groups name key hooks gs (cons k ks, true) e h =
    by_name name key hooks (set_member name (array (cons k ks)) hooks)
      (ap (λ o. listed_handlers (array_of o)) (get-set_member name (array (cons k ks)) hooks)
        ∙ (h.0 ∙ ap (λ o. without_own (listed_handlers o)) (sym e)))
      (get-set_member-other name key (array (cons k ks)) hooks)

handlers-uninstall_groups :
    (name key : Text) (hooks : Members) (found : Option Items)
    → array_of (get name hooks) ≡ found
    → event_handlers key (some (uninstall_groups name hooks found).0)
      ≡ cleaned (bytes_eq name key) (event_handlers key (some hooks))
handlers-uninstall_groups name key hooks none e =
    by_name name key hooks hooks
      (ap listed_handlers e ∙ ap (λ o. without_own (listed_handlers o)) (sym e)) (λ differ. refl)
handlers-uninstall_groups name key hooks (some gs) e =
    handlers-replace_groups name key hooks gs (keep_groups gs) e (keep_groups-Keeps gs)

cleaned-cleaned : (a b : Bool) (hs : List Json) → cleaned b (cleaned a hs) ≡ cleaned (a || b) hs
cleaned-cleaned true true hs = without_own_twice hs
cleaned-cleaned true false hs = refl
cleaned-cleaned false b hs = refl

handlers-uninstall_events :
    (key : Text) (names : List Text) (hooks : Members)
    → event_handlers key (some (uninstall_events names hooks).0)
      ≡ cleaned (is_listed names key) (event_handlers key (some hooks))
unfolding uninstall_events
handlers-uninstall_events key [] hooks = refl
handlers-uninstall_events key (name ∷ names) hooks =
    handlers-uninstall_events key names (uninstall_groups name hooks (array_of (get name hooks))).0
    ∙ (ap (cleaned (is_listed names key))
          (handlers-uninstall_groups name key hooks (array_of (get name hooks)) refl)
        ∙ cleaned-cleaned (bytes_eq name key) (is_listed names key)
            (event_handlers key (some hooks)))

replace_groups-unchanged :
    (name : Text) (hooks : Members) (kept : Kept)
    → (replace_groups name hooks kept).1 ≡ []
    → (replace_groups name hooks kept).0 ≡ hooks
replace_groups-unchanged name hooks (groups, false) h = refl
replace_groups-unchanged name hooks (nil, true) h = cc
replace_groups-unchanged name hooks (cons k ks, true) h = cc

uninstall_groups-unchanged :
    (name : Text) (hooks : Members) (found : Option Items)
    → (uninstall_groups name hooks found).1 ≡ []
    → (uninstall_groups name hooks found).0 ≡ hooks
uninstall_groups-unchanged name hooks none h = refl
uninstall_groups-unchanged name hooks (some gs) h =
    replace_groups-unchanged name hooks (keep_groups gs) h

nil-both : (xs ys : List Text) → xs ++ ys ≡ [] → (xs ≡ []) × (ys ≡ [])
nil-both [] ys h = (refl, h)
nil-both (x ∷ xs) ys h = cc

uninstall_events-unchanged :
    (names : List Text) (hooks : Members)
    → (uninstall_events names hooks).1 ≡ []
    → (uninstall_events names hooks).0 ≡ hooks
unfolding uninstall_events
uninstall_events-unchanged [] hooks h = refl
uninstall_events-unchanged (name ∷ names) hooks h =
    let first = uninstall_groups name hooks (array_of (get name hooks)) in
    let (own, rest) = nil-both first.1 (uninstall_events names first.0).1 h in
    uninstall_events-unchanged names first.0 rest
    ∙ uninstall_groups-unchanged name hooks (array_of (get name hooks)) own

handlers-store_hooks :
    (key : Text) (b : Bool) (settings hooks : Members) (changed : Changed)
    → object_of (get (ascii "hooks") settings) ≡ some hooks
    → (changed.1 ≡ [] → changed.0 ≡ hooks)
    → event_handlers key (some changed.0) ≡ cleaned b (event_handlers key (some hooks))
    → handlers_for key (store_hooks settings changed).0 ≡ cleaned b (handlers_for key settings)
unfolding get
handlers-store_hooks key b settings hooks (next, []) e same h =
    ap (event_handlers key) e
    ∙ (ap (λ m. event_handlers key (some m)) (sym (same refl))
        ∙ (h ∙ ap (λ o. cleaned b (event_handlers key o)) (sym e)))
handlers-store_hooks key b settings hooks (end, n ∷ ns) e same h =
    ap (λ o. event_handlers key (object_of o)) (get-without (ascii "hooks") settings)
    ∙ (h ∙ ap (λ o. cleaned b (event_handlers key o)) (sym e))
handlers-store_hooks key b settings hooks (member k v rest, n ∷ ns) e same h =
    ap (λ o. event_handlers key (object_of o))
      (get-set_member (ascii "hooks") (object (member k v rest)) settings)
    ∙ (h ∙ ap (λ o. cleaned b (event_handlers key o)) (sym e))

handlers-uninstall_hooks :
    (key : Text) (settings : Members) (found : Option Members)
    → object_of (get (ascii "hooks") settings) ≡ found
    → handlers_for key (uninstall_hooks settings found).0
      ≡ cleaned (is_listed hook_events key) (handlers_for key settings)
handlers-uninstall_hooks key settings none e =
    ap (event_handlers key) e
    ∙ (empty (is_listed hook_events key)
        ∙ ap (λ o. cleaned (is_listed hook_events key) (event_handlers key o)) (sym e))
  where
    empty : (b : Bool) → [] ≡ cleaned b []
    empty true = refl
    empty false = refl
handlers-uninstall_hooks key settings (some hooks) e =
    handlers-store_hooks key (is_listed hook_events key) settings hooks
      (uninstall_events hook_events hooks) e (uninstall_events-unchanged hook_events hooks)
      (handlers-uninstall_events key hook_events hooks)

cleaned-Cleans : (b : Bool) (hs ks : List Json) → ks ≡ cleaned b hs → Cleans b hs ks
cleaned-Cleans true hs ks e = subst (Without hs) (sym e) (without_own-Without hs)
cleaned-Cleans false hs ks e = e

-- After `uninstall`, an event of the program has its handlers in their order without those that are
-- commands with exactly the program's arguments, and every other event has the handlers it had.
pub uninstall-removes :
    (settings : Members) (key : Text)
    → Cleans
        (is_listed hook_events key)
        (handlers_for key settings)
        (handlers_for key (uninstall settings).0)
unfolding uninstall
uninstall-removes settings key =
    cleaned-Cleans (is_listed hook_events key) (handlers_for key settings) _
      (handlers-uninstall_hooks key settings (object_of (get (ascii "hooks") settings)) refl)
