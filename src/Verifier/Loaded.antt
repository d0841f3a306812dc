-- ===== src/Verifier/Loaded.antt =====
-- `_load_identities` of src/mybench/verify/cli.py: what stands behind an identity that is loaded.
use mybench.Base.{
  >>=-eq-ok, All, Bool, Bytes, List, Option, Result, [], ap, ascii, bytes_eq, bytes_eq_sound, err,
  false, if◌then◌else◌, none, ok, refl, some, subst, sym, true, ◌++◌, ◌||◌, ◌∙◌, ◌∷◌, ◌≡◌,
}
use mybench.Hex.{fromhex}
use mybench.Json.{Json}
use mybench.Ledger.{Text}
use mybench.Identity.{IdentityHost, identity_id_for}
use mybench.Lifecycle.Record.{mem_text}
use mybench.Verifier.Identities.{
  Failure, bad_record, wrong_fingerprint, missing_genesis, Info, File, IdentityDir, lookup,
  load_records, load_genesis, load_named, load_info, load_dir, keep_info, load_identities,
}
use mybench.Verifier.Bound.{ok-keeps, catch-keeps, IsBinding, IsGenesis, IsInfo, load_records-Binds}

module _ (host : IdentityHost) (loads : Bytes → Option Json) where
  -- An identity that is loaded.
  abbrev pub Loaded : Text → Option Info → Type 0
  Loaded iid none = Unit
  Loaded iid (some i) = IsInfo host loads (iid, i)

  load_named-Loaded :
      (iid p : Text) (fs : List File) (same : Bool) (out : List Failure × Option Info)
      → (same ≡ true → IsGenesis host loads iid p)
      → load_named host loads iid fs p same ≡ ok out
      → Loaded iid out.1
  load_named-Loaded iid p fs false out g h =
      ok-keeps (Loaded iid) (wrong_fingerprint iid ∷ []) none out tt h
  load_named-Loaded iid p fs true out g h =
      let fresh : Info = record { identity_pub = p; devices = []; handles = [] } in
      let (loaded, all, kept) = >>=-eq-ok (load_records host loads iid fs fresh) _ h in
      let (same, bound) = load_records-Binds host loads iid p fs fresh loaded (refl, tt) all in
      ok-keeps (Loaded iid) loaded.0 (some loaded.1) out
        (subst (λ t. IsGenesis host loads iid t × All (IsBinding host loads t) loaded.1.devices)
          (sym same) (g refl, bound))
        kept

  load_info-Loaded :
      (iid : Text) (fs : List File) (key : Result Text) (out : List Failure × Option Info)
      → load_info host loads iid fs key ≡ ok out
      → Loaded iid out.1
  load_info-Loaded iid fs (err e) out h =
      catch-keeps (Loaded iid) (bad_record iid (ascii "genesis.json")) none e out tt h
  load_info-Loaded iid fs (ok p) out h =
      let (raw, parsed, rest) = >>=-eq-ok (fromhex p) _ h in
      let (name, made, last) = >>=-eq-ok (identity_id_for host raw) _ rest in
      load_named-Loaded iid p fs (bytes_eq name iid) out
        (λ e. record {
          key = raw;
          parsed = parsed;
          fingerprint = made ∙ ap ok (bytes_eq_sound name iid e);
        })
        last

  load_dir-Loaded :
      (iid : Text) (fs : List File) (found : Option Bytes) (out : List Failure × Option Info)
      → load_dir host loads iid fs found ≡ ok out
      → Loaded iid out.1
  load_dir-Loaded iid fs none out h = ok-keeps (Loaded iid) (missing_genesis iid ∷ []) none out tt h
  load_dir-Loaded iid fs (some content) out h =
      load_info-Loaded iid fs (load_genesis host loads content) out h

  keep_info-IsInfo :
      (iid : Text) (o : Option Info) (ids : List (Text × Info))
      → Loaded iid o
      → All (IsInfo host loads) ids
      → All (IsInfo host loads) (keep_info iid o ids)
  keep_info-IsInfo iid none ids l all = all
  keep_info-IsInfo iid (some i) ids l all = (l, all)

  pub load_identities-IsInfo :
      (ds : List IdentityDir) (out : List Failure × List (Text × Info))
      → load_identities host loads ds ≡ ok out
      → All (IsInfo host loads) out.1
  unfolding load_identities
  load_identities-IsInfo [] out h = ok-keeps (All (IsInfo host loads)) [] [] out tt h
  load_identities-IsInfo ((iid, files) ∷ ds) out h =
      let (first, one, more) =
        >>=-eq-ok (load_dir host loads iid files (lookup (ascii "genesis.json") files)) _ h in
      let (others, all, made) = >>=-eq-ok (load_identities host loads ds) _ more in
      ok-keeps (All (IsInfo host loads)) (first.0 ++ others.0) (keep_info iid first.1 others.1) out
        (keep_info-IsInfo iid first.1 others.1
          (load_dir-Loaded iid files (lookup (ascii "genesis.json") files) first one)
          (load_identities-IsInfo ds others all))
        made

  -- An identity that is found by its name.
  pub lookup-IsInfo :
      (iid : Text) (ids : List (Text × Info)) (i : Info)
      → All (IsInfo host loads) ids
      → lookup iid ids ≡ some i
      → IsInfo host loads (iid, i)
  lookup-IsInfo iid [] i all h = cc
  lookup-IsInfo iid ((k, j) ∷ rest) i all h =
      here (bytes_eq k iid) refl h (lookup-IsInfo iid rest i all.1)
    where
      same-info : (a b : Info) → ◌≡◌ {A = Option Info} (some a) (some b) → a ≡ b
      same-info a b g = cc

      here :
          (b : Bool)
          → bytes_eq k iid ≡ b
          → (if b then some j else lookup iid rest) ≡ some i
          → (lookup iid rest ≡ some i → IsInfo host loads (iid, i))
          → IsInfo host loads (iid, i)
      here true e g later =
          subst (λ x. IsInfo host loads (iid, x)) (same-info j i g)
            (subst (λ k. IsInfo host loads (k, j)) (bytes_eq_sound k iid e) all.0)
      here false e g later = later g

  -- A device that is listed is bound.
  pub mem_text-IsBinding :
      (p d : Text) (ds : List Text)
      → All (IsBinding host loads p) ds
      → mem_text ds d ≡ true
      → IsBinding host loads p d
  mem_text-IsBinding p d [] all h = cc
  mem_text-IsBinding p d (u ∷ us) all h =
      here (bytes_eq d u) refl h (mem_text-IsBinding p d us all.1)
    where
      here :
          (b : Bool)
          → bytes_eq d u ≡ b
          → (b || mem_text us d) ≡ true
          → (mem_text us d ≡ true → IsBinding host loads p d)
          → IsBinding host loads p d
      here true e g later = subst (IsBinding host loads p) (sym (bytes_eq_sound d u e)) all.0
      here false e g later = later g
