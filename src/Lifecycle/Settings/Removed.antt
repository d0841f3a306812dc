-- ===== src/Lifecycle/Settings/Removed.antt =====
-- The settings that `uninstall` of src/mybench/hooks/lifecycle.py leaves, by the handlers of each event.
use mybench.Base.{
  Bool, Bool-cases, List, Option, [], ap, ap₂, arith, ascii, bytes_eq, false, if◌then◌else◌, inl,
  inr, none, not, refl, some, subst, sym, true, ℕ, ◌++◌, ◌+◌, ◌==◌, ◌||◌, ◌∙◌, ◌∷◌, ◌≡◌, ◌≤◌,
}
use mybench.Json.{
  Json, null, boolean, natural, negative, real, text, array, object, Items, nil, cons, Members, get,
  object_of, array_of,
}
use mybench.Json.Lookup.{get-set_member}
use mybench.Ledger.{Text}
use mybench.Lifecycle.Settings.Own.{Without, without_own, without_own-append}
use mybench.Lifecycle.Settings.{
  is_lifecycle_handler, kept_handlers, item_count, Kept, keep_handlers, keep_hooks, keep_groups,
}

-- All handlers of an event of the settings, in their order. A group that is not a dictionary with a
-- list of hooks has none.
abbrev pub values_of : Items → List Json
values_of nil = []
values_of (cons v vs) = v ∷ values_of vs

abbrev pub values_at : Option Items → List Json
values_at none = []
values_at (some vs) = values_of vs

abbrev pub group_handlers : Option Members → List Json
group_handlers none = []
group_handlers (some g) = values_at (array_of (get (ascii "hooks") g))

abbrev pub all_handlers : Items → List Json
all_handlers nil = []
all_handlers (cons g gs) = group_handlers (object_of (some g)) ++ all_handlers gs

abbrev pub listed_handlers : Option Items → List Json
listed_handlers none = []
listed_handlers (some gs) = all_handlers gs

abbrev pub event_handlers : Text → Option Members → List Json
event_handlers name none = []
event_handlers name (some hooks) = listed_handlers (array_of (get name hooks))

abbrev pub handlers_for : Text → Members → List Json
handlers_for name settings = event_handlers name (object_of (get (ascii "hooks") settings))

-- Of an event of the program, its own handlers go; no other event changes.
abbrev pub Cleans : Bool → List Json → List Json → Type 0
Cleans true before after = Without before after
Cleans false before after = after ≡ before

abbrev pub is_listed : List Text → Text → Bool
is_listed [] key = false
is_listed (name ∷ names) key = bytes_eq name key || is_listed names key

abbrev pub cleaned : Bool → List Json → List Json
cleaned b hs = if b then without_own hs else hs

values_of-kept_handlers : (hs : Items) → values_of (kept_handlers hs) ≡ without_own (values_of hs)
unfolding kept_handlers
values_of-kept_handlers nil = refl
values_of-kept_handlers (cons h hs) = elim (Bool-cases (is_lifecycle_handler h)) [
  | inl y ↦ rw y (values_of-kept_handlers hs)
  | inr n ↦ rw n (ap (λ l. h ∷ l) (values_of-kept_handlers hs))
]

item_count-kept_handlers : (hs : Items) → item_count (kept_handlers hs) ≤ item_count hs
unfolding item_count kept_handlers
item_count-kept_handlers nil = omega arith
item_count-kept_handlers (cons h hs) = ground (arith, item_count-kept_handlers hs)

-- Where no handler goes, none was the program's.
kept_handlers-all :
    (hs : Items)
    → item_count (kept_handlers hs) ≡ item_count hs
    → without_own (values_of hs) ≡ values_of hs
unfolding item_count kept_handlers
kept_handlers-all nil h = refl
kept_handlers-all (cons h hs) e = here (is_lifecycle_handler h) e (kept_handlers-all hs)
  where
    here :
        (b : Bool)
        → item_count (if b then kept_handlers hs else cons h (kept_handlers hs)) ≡ item_count hs + 1
        → (item_count (kept_handlers hs) ≡ item_count hs
            → without_own (values_of hs) ≡ values_of hs)
        → (if b then without_own (values_of hs) else h ∷ without_own (values_of hs))
          ≡ h ∷ values_of hs
    here true g later = absurd (omega (arith, g, item_count-kept_handlers hs))
    here false g later = ap (λ l. h ∷ l) (later (omega (arith, g)))

none-left : (a b : Bool) → (a || b) ≡ false → (a ≡ false) × (b ≡ false)
none-left false b h = (refl, h)
none-left true b h = cc

same_count : (m n : ℕ) → not (m == n) ≡ false → m ≡ n
same_count m n h = ground arith

-- The groups have what is left of their handlers; if none was removed, that is all of them.
abbrev pub Keeps : Items → Kept → Type 0
Keeps gs kept =
    (all_handlers kept.0 ≡ without_own (all_handlers gs))
    × (kept.1 ≡ false → without_own (all_handlers gs) ≡ all_handlers gs)

-- A group with these handlers in front.
keep-Keeps :
    (own : List Json) (new : Items) (before removed : Bool) (gs others : Items)
    → Keeps gs (others, removed)
    → all_handlers new ≡ without_own own ++ all_handlers others
    → (before ≡ false → without_own own ≡ own)
    → (all_handlers new ≡ without_own (own ++ all_handlers gs))
      × ((before || removed) ≡ false
          → without_own (own ++ all_handlers gs) ≡ own ++ all_handlers gs)
keep-Keeps own new before removed gs others h e kept = (
  e ∙ (ap (λ l. without_own own ++ l) h.0 ∙ sym (without_own-append own (all_handlers gs))),
  λ left.
      let (a, b) = none-left before removed left in
      without_own-append own (all_handlers gs) ∙ ap₂ ◌++◌ (kept a) (h.1 b),
)

keep_handlers-Keeps :
    (g : Members) (hs ks : Items) (kept : Kept) (gs : Items)
    → array_of (get (ascii "hooks") g) ≡ some hs
    → ks ≡ kept_handlers hs
    → Keeps gs kept
    → Keeps (cons (object g) gs) (keep_handlers g hs ks kept)
keep_handlers-Keeps g hs ks (others, removed) gs held e h =
    subst
      (λ l.
        (all_handlers (result ks).0 ≡ without_own (l ++ all_handlers gs))
        × ((result ks).1 ≡ false → without_own (l ++ all_handlers gs) ≡ l ++ all_handlers gs))
      (sym (ap values_at held)) (by_kept ks e)
  where
    result : Items → Kept
    result ks = keep_handlers g hs ks (others, removed)

    all_kept :
        (ks : Items)
        → ks ≡ kept_handlers hs
        → not (item_count ks == item_count hs) ≡ false
        → without_own (values_of hs) ≡ values_of hs
    all_kept ks e n =
        kept_handlers-all hs (ap item_count (sym e) ∙ same_count (item_count ks) (item_count hs) n)

    by_kept :
        (ks : Items)
        → ks ≡ kept_handlers hs
        → (all_handlers (result ks).0 ≡ without_own (values_of hs ++ all_handlers gs))
          × ((result ks).1 ≡ false
              → without_own (values_of hs ++ all_handlers gs) ≡ values_of hs ++ all_handlers gs)
    by_kept nil e =
        keep-Keeps (values_of hs) others (not (item_count nil == item_count hs)) removed gs others h
          (ap (λ l. l ++ all_handlers others) (ap values_of e ∙ values_of-kept_handlers hs))
          (all_kept nil e)
    by_kept (cons k ks) e =
        keep-Keeps (values_of hs) (result (cons k ks)).0
          (not (item_count (cons k ks) == item_count hs)) removed gs others h
          (ap (λ o. values_at (array_of o) ++ all_handlers others)
              (get-set_member (ascii "hooks") (array (cons k ks)) g)
            ∙ ap (λ l. l ++ all_handlers others) (ap values_of e ∙ values_of-kept_handlers hs))
          (all_kept (cons k ks) e)

keep_hooks-Keeps :
    (g : Members) (found : Option Items) (kept : Kept) (gs : Items)
    → array_of (get (ascii "hooks") g) ≡ found
    → Keeps gs kept
    → Keeps (cons (object g) gs) (keep_hooks g found kept)
keep_hooks-Keeps g none kept gs e h =
    subst
      (λ l.
        (l ++ all_handlers kept.0 ≡ without_own (l ++ all_handlers gs))
        × (kept.1 ≡ false → without_own (l ++ all_handlers gs) ≡ l ++ all_handlers gs))
      (sym (ap values_at e)) h
keep_hooks-Keeps g (some hs) kept gs e h =
    keep_handlers-Keeps g hs (kept_handlers hs) kept gs e refl h

pub keep_groups-Keeps : (gs : Items) → Keeps gs (keep_groups gs)
unfolding keep_groups
keep_groups-Keeps nil = (refl, λ left. refl)
keep_groups-Keeps (cons (object g) gs) =
    keep_hooks-Keeps g (array_of (get (ascii "hooks") g)) (keep_groups gs) gs refl
      (keep_groups-Keeps gs)
keep_groups-Keeps (cons null gs) = keep_groups-Keeps gs
keep_groups-Keeps (cons (boolean x) gs) = keep_groups-Keeps gs
keep_groups-Keeps (cons (natural x) gs) = keep_groups-Keeps gs
keep_groups-Keeps (cons (negative x) gs) = keep_groups-Keeps gs
keep_groups-Keeps (cons (real x t) gs) = keep_groups-Keeps gs
keep_groups-Keeps (cons (text x) gs) = keep_groups-Keeps gs
keep_groups-Keeps (cons (array x) gs) = keep_groups-Keeps gs
