-- ===== src/Verifier/Identities.antt =====
-- `_load_identities` of src/mybench/verify/cli.py. `json.loads` is a parameter, which has none where it
-- raises a ValueError.
use mybench.Base.{
  Bool, Bytes, Error, List, Option, Result, [], ascii, attribute_error, bytes_eq, err, false,
  identity_error, if◌then◌else◌, key_error, none, ok, some, true, type_error, value_error, ℕ, ◌++◌,
  ◌>>=◌, ◌>>◌, ◌∷◌,
}
use mybench.Hex.{fromhex}
use mybench.Json.{Json, text, array, object, Members, get, has_text}
use mybench.Ledger.{Text}
use mybench.Identity.{IdentityHost, text_argument, identity_id_for, verify_record}

-- One entry of `failures`.
pub data Failure : Type 0 where
  unexpected_files : List Text → Failure
  missing_genesis : Text → Failure
  bad_record : Text → Text → Failure
  wrong_fingerprint : Text → Failure
  bad_event : Text → Failure
  wrong_path : Text → Failure
  unknown_identity : Text → Failure
  unbound_device : Text → Failure
  broken_continuity : Text → Text → Failure
  bad_proof : Text → Failure
  unbound_proof : Text → Failure
  explorers_disagree : ℕ → Failure
  wrong_header : Text → ℕ → Failure

-- Device keys that are texts: no other value equals the key of an event.
pub record Info : Type 0 where
  pub identity_pub : Text
  pub devices : List Text
  pub handles : List Json

abbrev pub File : Type 0
File = Text × Bytes

-- A directory under identities/, and its files with the suffix .json in the order of their names.
abbrev pub IdentityDir : Type 0
IdentityDir = Text × List File

abbrev pub lookup {ℓ} : {A : Type ℓ} → Text → List (Text × A) → Option A
lookup key [] = none
lookup key ((k, a) ∷ rest) = let later = lookup key rest in if bytes_eq k key then some a else later

-- What `except (ValueError, KeyError, IdentityError)` catches of these.
abbrev pub is_caught : Error → Bool
is_caught value_error = true
is_caught key_error = true
is_caught identity_error = true
is_caught _ = false

-- `value[key]`
abbrev pub item_at : Text → Members → Result Json
item_at key m = elim (get key m) [ none ↦ err key_error | some v ↦ ok v ]

-- A set takes no list and no dictionary.
abbrev pub add_device : Json → Info → Result Info
add_device (text d) i = ok (record i { devices = i.devices ++ (d ∷ []) })
add_device (array _) i = err type_error
add_device (object _) i = err type_error
add_device _ i = ok i

-- `identities[iid] = info`
abbrev pub keep_info : Text → Option Info → List (Text × Info) → List (Text × Info)
keep_info iid none ids = ids
keep_info iid (some i) ids = (iid, i) ∷ ids

-- A failure beside what was found so far, or an exception that nothing catches.
abbrev pub Found {ℓ} : Type ℓ → Type ℓ
Found A = Result (List Failure × A)

-- A failure that is caught, where the rest of the code goes on with the value.
abbrev pub catch {ℓ} : {A : Type ℓ} → Failure → A → Error → Found A
catch f a e = if is_caught e then ok ((f ∷ []), a) else err e

abbrev pub with_failures {ℓ} : {A : Type ℓ} → List Failure → List Failure × A → Found A
with_failures first (others, a) = ok (first ++ others, a)

-- A record whose signature verifies is added by its type.
unfoldable pub bind_record : Members → Info → Result Info
bind_record m i =
    if has_text (ascii "type") (ascii "device-binding") m
    then (item_at (ascii "device_pub") m >>= λ d. add_device d i)
    else if has_text (ascii "type") (ascii "handle-binding") m
    then (item_at (ascii "handle") m >>= λ h. ok (record i { handles = i.handles ++ (h ∷ []) }))
    else ok i

abbrev pub load_verified : Text → Text → Members → Info → Result (Unit {0}) → Found Info
load_verified iid name m i (err e) = catch (bad_record iid name) i e
load_verified iid name m i (ok passed) = bind_record m i >>= λ bound. ok ([], bound)

-- `json.loads` and the key of a genesis record.
abbrev pub genesis_key : Option Json → Result (Members × Json)
genesis_key none = err value_error
genesis_key (some (object m)) = item_at (ascii "identity_pub") m >>= λ key. ok (m, key)
genesis_key (some _) = err type_error

module _ (host : IdentityHost) (loads : Bytes → Option Json) where
  -- One of the records beside the genesis record.
  abbrev pub load_value : Text → Text → Info → Option Json → Found Info
  load_value iid name i none = ok ((bad_record iid name ∷ []), i)
  load_value iid name i (some (object m)) =
      load_verified iid name m i (verify_record host m (text i.identity_pub))
  load_value iid name i (some _) = err attribute_error

  abbrev pub load_record : Text → File → Info → Found Info
  load_record iid (name, content) i =
      if bytes_eq name (ascii "genesis.json")
      then ok ([], i)
      else load_value iid name i (loads content)

  unfoldable pub load_records : Text → List File → Info → Found Info
  load_records iid [] i = ok ([], i)
  load_records iid (f ∷ fs) i = do
    first ← load_record iid f i
    others ← load_records iid fs first.1
    with_failures first.0 others

  -- The key of a genesis record that verifies under it.
  unfoldable pub load_genesis : Bytes → Result Text
  load_genesis content = do
    genesis ← genesis_key (loads content)
    verify_record host genesis.0 genesis.1
    text_argument genesis.1

  -- The records of an identity by its fingerprint.
  abbrev pub load_named : Text → List File → Text → Bool → Found (Option Info)
  load_named iid files identity_pub false = ok ((wrong_fingerprint iid ∷ []), none)
  load_named iid files identity_pub true = do
    loaded ←
        load_records iid files (record { identity_pub = identity_pub; devices = []; handles = [] })
    ok (loaded.0, some loaded.1)

  abbrev pub load_info : Text → List File → Result Text → Found (Option Info)
  load_info iid files (err e) = catch (bad_record iid (ascii "genesis.json")) none e
  load_info iid files (ok identity_pub) = do
    raw ← fromhex identity_pub
    fingerprint ← identity_id_for host raw
    load_named iid files identity_pub (bytes_eq fingerprint iid)

  abbrev pub load_dir : Text → List File → Option Bytes → Found (Option Info)
  load_dir iid files none = ok ((missing_genesis iid ∷ []), none)
  load_dir iid files (some content) = load_info iid files (load_genesis content)

  unfoldable pub load_identities : List IdentityDir → Found (List (Text × Info))
  load_identities [] = ok ([], [])
  load_identities ((iid, files) ∷ ds) = do
    first ← load_dir iid files (lookup (ascii "genesis.json") files)
    others ← load_identities ds
    with_failures first.0 (others.0, keep_info iid first.1 others.1)
