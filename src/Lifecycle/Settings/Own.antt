-- ===== src/Lifecycle/Settings/Own.antt =====
-- The handlers of the program among others, for src/mybench/hooks/lifecycle.py.
use mybench.Base.{
  Bool, Bool-cases, List, Option, [], ap, ap₂, ascii, bytes_eq, bytes_eq_refl, bytes_eq_sound,
  false, if◌then◌else◌, inl, inr, none, refl, some, sym, true, ◌&&◌, ◌++◌, ◌∙◌, ◌∷◌, ◌≡◌,
}
use mybench.Json.{
  Json, null, boolean, natural, negative, real, text, array, object, Items, nil, cons, Members, get,
  text_of, has_text,
}
use mybench.Ledger.{Text}
use mybench.Sessions.{text_is}
use mybench.Lifecycle.Settings.{hook_args, items_of, items_are, value_is, is_lifecycle_handler}

-- A handler of the program: a command with exactly its arguments.
abbrev pub IsOwn : Json → Type 0
IsOwn h =
    (m : Members) × (h ≡ object m)
    × (get (ascii "type") m ≡ some (text (ascii "command")))
    × (get (ascii "args") m ≡ some (array (items_of hook_args)))

-- What is left of handlers without those of the program: each of the others, and nothing else.
pub data Without : List Json → List Json → Type 0 where
  nothing : Without [] []
  own : {h : Json} {hs ks : List Json} → IsOwn h → Without hs ks → Without (h ∷ hs) ks
  other : {h : Json} {hs ks : List Json} → (IsOwn h → ⊥) → Without hs ks → Without (h ∷ hs) (h ∷ ks)

and-both : (a b : Bool) → (a && b) ≡ true → (a ≡ true) × (b ≡ true)
and-both true b h = (refl, h)
and-both false b h = cc

items_are_sound : (ts : List Text) (vs : Items) → items_are ts vs ≡ true → vs ≡ items_of ts
unfolding items_are
items_are_sound [] nil h = refl
items_are_sound [] (cons v vs) h = cc
items_are_sound (t ∷ ts) nil h = cc
items_are_sound (t ∷ ts) (cons (text u) vs) h =
    let (first, rest) = and-both (bytes_eq u t) (items_are ts vs) h in
    ap₂ (λ u vs. cons (text u) vs) (bytes_eq_sound u t first) (items_are_sound ts vs rest)
items_are_sound (t ∷ ts) (cons null vs) h = cc
items_are_sound (t ∷ ts) (cons (boolean x) vs) h = cc
items_are_sound (t ∷ ts) (cons (natural x) vs) h = cc
items_are_sound (t ∷ ts) (cons (negative x) vs) h = cc
items_are_sound (t ∷ ts) (cons (real x u) vs) h = cc
items_are_sound (t ∷ ts) (cons (array x) vs) h = cc
items_are_sound (t ∷ ts) (cons (object x) vs) h = cc

items_are_refl : (ts : List Text) → items_are ts (items_of ts) ≡ true
unfolding items_are
items_are_refl [] = refl
items_are_refl (t ∷ ts) = rw (bytes_eq_refl t, items_are_refl ts) refl

text_is_sound : (t : Text) (o : Option Json) → text_is (text_of o) t ≡ true → o ≡ some (text t)
text_is_sound t (some (text u)) h = ap (λ u. some (text u)) (bytes_eq_sound u t h)
text_is_sound t none h = cc
text_is_sound t (some null) h = cc
text_is_sound t (some (boolean x)) h = cc
text_is_sound t (some (natural x)) h = cc
text_is_sound t (some (negative x)) h = cc
text_is_sound t (some (real x u)) h = cc
text_is_sound t (some (array x)) h = cc
text_is_sound t (some (object x)) h = cc

value_is_sound :
    (ts : List Text) (o : Option Json) → value_is ts o ≡ true → o ≡ some (array (items_of ts))
value_is_sound ts (some (array vs)) h = ap (λ vs. some (array vs)) (items_are_sound ts vs h)
value_is_sound ts none h = cc
value_is_sound ts (some null) h = cc
value_is_sound ts (some (boolean x)) h = cc
value_is_sound ts (some (natural x)) h = cc
value_is_sound ts (some (negative x)) h = cc
value_is_sound ts (some (real x u)) h = cc
value_is_sound ts (some (text x)) h = cc
value_is_sound ts (some (object x)) h = cc

is_lifecycle_handler-IsOwn : (h : Json) → is_lifecycle_handler h ≡ true → IsOwn h
unfolding is_lifecycle_handler
is_lifecycle_handler-IsOwn (object m) h =
    let (kind, args) =
      and-both (has_text (ascii "type") (ascii "command") m)
        (value_is hook_args (get (ascii "args") m)) h in
    (
      m,
      refl,
      text_is_sound (ascii "command") (get (ascii "type") m) kind,
      value_is_sound hook_args (get (ascii "args") m) args,
    )
is_lifecycle_handler-IsOwn null h = cc
is_lifecycle_handler-IsOwn (boolean x) h = cc
is_lifecycle_handler-IsOwn (natural x) h = cc
is_lifecycle_handler-IsOwn (negative x) h = cc
is_lifecycle_handler-IsOwn (real x u) h = cc
is_lifecycle_handler-IsOwn (text x) h = cc
is_lifecycle_handler-IsOwn (array x) h = cc

IsOwn-is_lifecycle_handler : (h : Json) → IsOwn h → is_lifecycle_handler h ≡ true
unfolding is_lifecycle_handler
IsOwn-is_lifecycle_handler h (m, e, kind, args) =
    ap is_lifecycle_handler e
    ∙ (ap (λ o. text_is (text_of o) (ascii "command") && value_is hook_args (get (ascii "args") m))
          kind
        ∙ (ap (λ b. b && value_is hook_args (get (ascii "args") m))
              (bytes_eq_refl (ascii "command"))
            ∙ (ap (value_is hook_args) args ∙ items_are_refl hook_args)))

-- What the program keeps of a list of handlers.
abbrev pub without_own : List Json → List Json
without_own [] = []
without_own (h ∷ hs) = if is_lifecycle_handler h then without_own hs else h ∷ without_own hs

pub without_own-Without : (hs : List Json) → Without hs (without_own hs)
without_own-Without [] = nothing
without_own-Without (h ∷ hs) = go (is_lifecycle_handler h) refl (without_own-Without hs)
  where
    go :
        (b : Bool)
        → is_lifecycle_handler h ≡ b
        → Without hs (without_own hs)
        → Without (h ∷ hs) (if b then without_own hs else h ∷ without_own hs)
    go true e rest = own (is_lifecycle_handler-IsOwn h e) rest
    go false e rest =
        other (λ is_own. not_both (sym (IsOwn-is_lifecycle_handler h is_own) ∙ e)) rest
      where
        not_both : true ≡ false → ⊥
        not_both x = cc

pub without_own-append :
    (hs ks : List Json) → without_own (hs ++ ks) ≡ without_own hs ++ without_own ks
without_own-append [] ks = refl
without_own-append (h ∷ hs) ks = elim (Bool-cases (is_lifecycle_handler h)) [
  | inl y ↦ rw y (without_own-append hs ks)
  | inr n ↦ rw n (ap (λ l. h ∷ l) (without_own-append hs ks))
]

pub without_own_twice : (hs : List Json) → without_own (without_own hs) ≡ without_own hs
without_own_twice [] = refl
without_own_twice (h ∷ hs) = elim (Bool-cases (is_lifecycle_handler h)) [
  | inl y ↦ rw y (without_own_twice hs)
  | inr n ↦ rw (n, n) (ap (λ l. h ∷ l) (without_own_twice hs))
]
