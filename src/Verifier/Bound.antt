-- ===== src/Verifier/Bound.antt =====
-- `_load_identities` of src/mybench/verify/cli.py: the records beside a genesis record bind device keys.
use mybench.Base.{
  >>=-eq-ok, All, All-append, Bool, Bytes, Error, List, Option, Result, [], ap, ascii, bytes_eq,
  err, err-ne-ok, false, if◌then◌else◌, key_error, none, ok, ok_injective, refl, some, subst, sym,
  true, ◌++◌, ◌>>=◌, ◌∷◌, ◌≡◌,
}
use mybench.Hex.{fromhex}
use mybench.Json.{
  Json, text, natural, negative, real, null, boolean, array, object, Members, get, has_text,
}
use mybench.Ledger.{Text}
use mybench.Identity.{IdentityHost, identity_id_for, verify_record}
use mybench.Verifier.Identities.{
  Failure, bad_record, Info, File, item_at, add_device, Found, catch, with_failures, is_caught,
  bind_record, load_verified, load_value, load_record, load_records,
}

-- What holds of the value of a step holds of what the step returns.
pub ok-keeps {ℓ κ} :
    {A : Type ℓ} (Q : A → Type κ) (fs : List Failure) (a : A) (out : List Failure × A)
    → Q a
    → ◌≡◌ {A = Found A} (ok (fs, a)) (ok out)
    → Q out.1
ok-keeps Q fs a out q h = subst (λ o. Q o.1) (ok_injective (fs, a) out h) q

pub catch-keeps {ℓ κ} :
    {A : Type ℓ} (Q : A → Type κ) (f : Failure) (a : A) (e : Error) (out : List Failure × A)
    → Q a
    → catch f a e ≡ ok out
    → Q out.1
catch-keeps {A = A} Q f a e out q h = go (is_caught e) h
  where
    go : (b : Bool) → ◌≡◌ {A = Found A} (if b then ok ((f ∷ []), a) else err e) (ok out) → Q out.1
    go true g = ok-keeps Q (f ∷ []) a out q g
    go false g = absurd (err-ne-ok e out g)

module _ (host : IdentityHost) (loads : Bytes → Option Json) where
  -- A record that verifies under the key and binds the device.
  pub record IsBinding (identity_pub device : Text) : Type 0 where
    pub binding : Members
    pub verifies : verify_record host binding (text identity_pub) ≡ ok tt
    pub kind : has_text (ascii "type") (ascii "device-binding") binding ≡ true
    pub names : get (ascii "device_pub") binding ≡ some (text device)

  -- A key whose fingerprint is the identity.
  pub record IsGenesis (iid identity_pub : Text) : Type 0 where
    pub key : Bytes
    pub parsed : fromhex identity_pub ≡ ok key
    pub fingerprint : identity_id_for host key ≡ ok iid

  abbrev pub IsInfo : Text × Info → Type 0
  IsInfo (iid, i) = IsGenesis iid i.identity_pub × All (IsBinding i.identity_pub) i.devices

  -- Of what a step finds: the key stays, and every device is bound.
  abbrev pub Binds : Text → Info → Type 0
  Binds identity_pub i = (i.identity_pub ≡ identity_pub) × All (IsBinding identity_pub) i.devices

  add_device-Binds :
      (pub_text : Text) (m : Members) (d : Json) (i bound : Info)
      → verify_record host m (text pub_text) ≡ ok tt
      → has_text (ascii "type") (ascii "device-binding") m ≡ true
      → get (ascii "device_pub") m ≡ some d
      → Binds pub_text i
      → add_device d i ≡ ok bound
      → Binds pub_text bound
  add_device-Binds p m (text d) i bound v k g b h = subst (Binds p) (ok_injective _ bound h) (
    b.0,
    All-append (IsBinding p) i.devices (d ∷ []) b.1
        (record { binding = m; verifies = v; kind = k; names = g }, tt),
  )
  add_device-Binds p m (array a) i bound v k g b h = cc
  add_device-Binds p m (object o) i bound v k g b h = cc
  add_device-Binds p m null i bound v k g b h = subst (Binds p) (ok_injective i bound h) b
  add_device-Binds p m (boolean x) i bound v k g b h = subst (Binds p) (ok_injective i bound h) b
  add_device-Binds p m (natural x) i bound v k g b h = subst (Binds p) (ok_injective i bound h) b
  add_device-Binds p m (negative x) i bound v k g b h = subst (Binds p) (ok_injective i bound h) b
  add_device-Binds p m (real x t) i bound v k g b h = subst (Binds p) (ok_injective i bound h) b

  item_at-ok : (key : Text) (m : Members) (v : Json) → item_at key m ≡ ok v → get key m ≡ some v
  item_at-ok key m v h = found (get key m) h
    where
      found :
          (o : Option Json) → elim o [ none ↦ err key_error | some v ↦ ok v ] ≡ ok v → o ≡ some v
      found none h = cc
      found (some w) h = cc

  bind_record-Binds :
      (p : Text) (m : Members) (i bound : Info)
      → verify_record host m (text p) ≡ ok tt
      → Binds p i
      → bind_record m i ≡ ok bound
      → Binds p bound
  unfolding bind_record
  bind_record-Binds p m i bound v b h =
      by_type (has_text (ascii "type") (ascii "device-binding") m)
        (has_text (ascii "type") (ascii "handle-binding") m) refl h
    where
      device : Result Info
      device = item_at (ascii "device_pub") m >>= λ d. add_device d i

      handle : Result Info
      handle = item_at (ascii "handle") m >>= λ h. ok (record i { handles = i.handles ++ (h ∷ []) })

      by_type :
          (x y : Bool)
          → has_text (ascii "type") (ascii "device-binding") m ≡ x
          → (if x then device else if y then handle else ok i) ≡ ok bound
          → Binds p bound
      by_type true y k g =
          let (d, at, added) = >>=-eq-ok (item_at (ascii "device_pub") m) (λ d. add_device d i) g in
          add_device-Binds p m d i bound v k (item_at-ok (ascii "device_pub") m d at) b added
      by_type false true k g =
          let (w, _, made) =
            >>=-eq-ok (item_at (ascii "handle") m)
              (λ h. ok (record i { handles = i.handles ++ (h ∷ []) })) g in
          subst (Binds p) (ok_injective (record i { handles = i.handles ++ (w ∷ []) }) bound made) b
      by_type false false k g = subst (Binds p) (ok_injective i bound g) b

  load_verified-Binds :
      (iid name p : Text) (m : Members) (i : Info) (r : Result (Unit {0}))
      (out : List Failure × Info)
      → Binds p i
      → verify_record host m (text p) ≡ r
      → load_verified iid name m i r ≡ ok out
      → Binds p out.1
  load_verified-Binds iid name p m i (err e) out b v h =
      catch-keeps (Binds p) (bad_record iid name) i e out b h
  load_verified-Binds iid name p m i (ok passed) out b v h =
      let (bound, made, kept) = >>=-eq-ok (bind_record m i) (λ bound. ok ([], bound)) h in
      ok-keeps (Binds p) [] bound out (bind_record-Binds p m i bound v b made) kept

  load_value-Binds :
      (iid name p : Text) (i : Info) (v : Option Json) (out : List Failure × Info)
      → Binds p i
      → load_value host loads iid name i v ≡ ok out
      → Binds p out.1
  load_value-Binds iid name p i none out b h =
      ok-keeps (Binds p) (bad_record iid name ∷ []) i out b h
  load_value-Binds iid name p i (some (object m)) out b h =
      load_verified-Binds iid name p m i (verify_record host m (text i.identity_pub)) out b
        (ap (λ t. verify_record host m (text t)) (sym b.0)) h
  load_value-Binds iid name p i (some null) out b h = cc
  load_value-Binds iid name p i (some (boolean x)) out b h = cc
  load_value-Binds iid name p i (some (natural x)) out b h = cc
  load_value-Binds iid name p i (some (negative x)) out b h = cc
  load_value-Binds iid name p i (some (real x t)) out b h = cc
  load_value-Binds iid name p i (some (text x)) out b h = cc
  load_value-Binds iid name p i (some (array x)) out b h = cc

  load_record-Binds :
      (iid p : Text) (f : File) (i : Info) (out : List Failure × Info)
      → Binds p i
      → load_record host loads iid f i ≡ ok out
      → Binds p out.1
  load_record-Binds iid p (name, content) i out b h = named (bytes_eq name (ascii "genesis.json")) h
    where
      named :
          (same : Bool)
          → (if same then ok ([], i) else load_value host loads iid name i (loads content)) ≡ ok out
          → Binds p out.1
      named true g = ok-keeps (Binds p) [] i out b g
      named false g = load_value-Binds iid name p i (loads content) out b g

  pub load_records-Binds :
      (iid p : Text) (fs : List File) (i : Info) (out : List Failure × Info)
      → Binds p i
      → load_records host loads iid fs i ≡ ok out
      → Binds p out.1
  unfolding load_records
  load_records-Binds iid p [] i out b h = ok-keeps (Binds p) [] i out b h
  load_records-Binds iid p (f ∷ fs) i out b h =
      let (first, one, more) = >>=-eq-ok (load_record host loads iid f i) _ h in
      let (others, all, made) =
        >>=-eq-ok (load_records host loads iid fs first.1) (with_failures first.0) more in
      ok-keeps (Binds p) (first.0 ++ others.0) others.1 out
        (load_records-Binds iid p fs first.1 others (load_record-Binds iid p f i first b one) all)
        made
