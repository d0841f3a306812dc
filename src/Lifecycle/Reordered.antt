-- ===== src/Lifecycle/Reordered.antt =====
-- `_validate_queue_record` of src/mybench/hooks/lifecycle.py does not read the order of the keys, which
-- `json.dumps` with sorted keys changes.
use mybench.Base.{
  Bool, List, ap, ascii, bytes_eq, bytes_eq_refl, bytes_eq_sound, false, if◌then◌else◌, not, refl,
  some, subst, sym, true, ◌&&◌, ◌++◌, ◌∙◌, ◌≡◌,
}
use mybench.Json.{Json, Members, end, member, get}
use mybench.Ledger.{Text}
use mybench.Sessions.{is_none}
use mybench.Lifecycle.Record.{
  required_keys, provenance_keys, mem_text, has_key, keys_among, check_head, check_provenance,
  QueueHost, validate_members,
}

has_key-head : (k : Text) (v : Json) (m : Members) → has_key k (member k v m) ≡ true
unfolding get
has_key-head k v m = rw (bytes_eq_refl k) refl

has_key-tail :
    (key k : Text) (v : Json) (m : Members)
    → has_key key m ≡ true
    → has_key key (member k v m) ≡ true
unfolding get
has_key-tail key k v m h = here (bytes_eq k key)
  where
    here : (b : Bool) → not (is_none (if b then some v else get key m)) ≡ true
    here true = refl
    here false = h

keys_among-mem_text :
    (allowed : List Text) (m : Members) (key : Text)
    → keys_among allowed m ≡ true
    → has_key key m ≡ true
    → mem_text allowed key ≡ true
unfolding get
keys_among-mem_text allowed end key a h = cc
keys_among-mem_text allowed (member k v m) key a h =
    let (first, rest) = both (mem_text allowed k) (keys_among allowed m) a in
    here (bytes_eq k key) refl h first (keys_among-mem_text allowed m key rest)
  where
    both : (a b : Bool) → (a && b) ≡ true → (a ≡ true) × (b ≡ true)
    both true b h = (refl, h)
    both false b h = cc

    here :
        (b : Bool)
        → bytes_eq k key ≡ b
        → not (is_none (if b then some v else get key m)) ≡ true
        → mem_text allowed k ≡ true
        → (has_key key m ≡ true → mem_text allowed key ≡ true)
        → mem_text allowed key ≡ true
    here true e h first later =
        subst (λ z. mem_text allowed z ≡ true) (bytes_eq_sound k key e) first
    here false e h first later = later h

mem_text-keys_among :
    (allowed : List Text) (m : Members)
    → ((key : Text) → has_key key m ≡ true → mem_text allowed key ≡ true)
    → keys_among allowed m ≡ true
mem_text-keys_among allowed end h = refl
mem_text-keys_among allowed (member k v m) h =
    rw
      (
        h k (has_key-head k v m),
        mem_text-keys_among allowed m (λ key has. h key (has_key-tail key k v m has)),
      )
      refl

-- Two dictionaries with the same value, or none, under every key.
abbrev pub SameLookups : Members → Members → Type 0
SameLookups m other = (key : Text) → get key other ≡ get key m

keys_among-same :
    (allowed : List Text) (m other : Members)
    → SameLookups m other
    → keys_among allowed other ≡ keys_among allowed m
keys_among-same allowed m other same =
    implied (keys_among allowed other) (keys_among allowed m)
      (λ a. mem_text-keys_among allowed m λ key has.
        keys_among-mem_text allowed other key a (ap (λ o. not (is_none o)) (same key) ∙ has))
      (λ a. mem_text-keys_among allowed other λ key has.
        keys_among-mem_text allowed m key a (ap (λ o. not (is_none o)) (sym (same key)) ∙ has))
  where
    implied : (a b : Bool) → (a ≡ true → b ≡ true) → (b ≡ true → a ≡ true) → a ≡ b
    implied true b h k = sym (h refl)
    implied false true h k = k refl
    implied false false h k = refl

module _ (codec : QueueHost) where
  pub validate_members-same :
      (m other : Members)
      → SameLookups m other
      → validate_members codec other ≡ validate_members codec m
  unfolding validate_members check_provenance check_head
  validate_members-same m other same =
      rw
        (
          keys_among-same (required_keys ++ provenance_keys) m other same,
          keys_among-same required_keys m other same,
          same (ascii "queue_version"),
          same (ascii "ts"),
          same (ascii "event_kind"),
          same (ascii "trigger"),
          same (ascii "session_id"),
          same (ascii "harness"),
          same (ascii "repo_id"),
          same (ascii "worktree_id"),
          same (ascii "head_before"),
          same (ascii "head_after"),
        )
        refl
