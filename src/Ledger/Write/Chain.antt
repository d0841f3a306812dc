-- ===== src/Ledger/Write/Chain.antt =====
-- Every appending method keeps the ledger a chain that goes on from the old one, on every outcome,
-- and returns the row that is now the newest.
use mybench.Base.{
  List, Option, Result, [], ap, append_assoc, err, err-ne-ok, false, inl, inr, last?, last?-append,
  none, ok, ok_injective, refl, some, subst, sym, true, ◌++◌, ◌+◌, ◌∙◌, ◌∷◌, ◌≡◌,
}
use mybench.Effect.{continue}
use mybench.Ledger.{
  Text, Version, v1, v2, Provenance, SessionColumns, BindingColumns, Body, session, binding, Fields,
  Row, Host, IsHost, Disk, is_genesis, is_boundary, is_v3,
}
use mybench.Ledger.Read.Chain.{passed, onto}
use mybench.Ledger.Write.{
  append_behind, session_columns, evidence_version, prepare, append_session, append_binding,
}
use mybench.Ledger.Write.Step.{Holds, hashed, Appends, append_behind-Appends}
use mybench.Ledger.Write.Prepare.{HasPassed, IsReady, Prepares, prepare-Prepares}

-- The disk holds a chain that goes on from `rs`, and a returned row is its newest, with the body
-- and the time of the call.
pub record Records (host : Host) (rs : List Row) (ts : Text) (body : Body) (d : Disk)
    (out : Result Row × Disk) : Type 0 where
  pub added : List Row
  pub held : Holds host out.1 (rs ++ added)
  pub quarantine : out.1.quarantine ≡ d.quarantine
  pub returned :
      (row : Row)
      → out.0 ≡ ok row
      → (last? (rs ++ added) ≡ some row) × (row.body ≡ body) × (row.ts ≡ ts)

module _ (host : Host) (laws : IsHost host) where
  -- The evidence row behind rows that are ready for it.
  pub evidence-Records :
      (rs ex : List Row) (p : Option Provenance) (version : Version) (ts : Text) (body : Body)
      (d d' : Disk) (added : List Row)
      → ex ≡ rs ++ added
      → IsReady p ex
      → is_genesis body ≡ false
      → is_boundary body ≡ false
      → (is_v3 version ≡ true → passed (onto ex []) ≡ true)
      → Holds host d' (rs ++ added)
      → d'.quarantine ≡ d.quarantine
      → Records host rs ts body d (append_behind host ex version ts body d')
  evidence-Records rs ex p version ts body d d' added same ready no_genesis no_boundary behind held
        q =
      finish (append_behind host ex version ts body d') (
        append_behind-Appends host laws ex ready.last version ts body d'
          (subst (Holds host d') (sym same) held) ready.newest_row no_genesis
          (λ h. absurd (true-ne-false h)) (λ _ v. behind v))
    where
      true-ne-false : is_boundary body ≡ true → ⊥
      true-ne-false h = cc

      f : Fields
      f = record {
        version = version;
        i = ready.last.i + 1;
        ts = ts;
        prev = ready.last.h;
        body = body;
      }

      finish :
          (out : Result Row × Disk)
          → Appends host ex (hashed host f) d' out
          → Records host rs ts body d out
      finish out (inl refused) = rw refused (record {
        added = added;
        held = held;
        quarantine = q;
        returned = λ row h. absurd (err-ne-ok _ _ h);
      })
      finish out (inr (done, held', q')) =
          let assoc : ex ++ (hashed host f ∷ []) ≡ rs ++ (added ++ (hashed host f ∷ [])) =
            ap (λ z. z ++ (hashed host f ∷ [])) same ∙ append_assoc rs added (hashed host f ∷ []) in
          record {
            added = added ++ (hashed host f ∷ []);
            held = subst (Holds host out.1) assoc held';
            quarantine = q' ∙ q;
            returned = λ row h.
                let e : hashed host f ≡ row = ok_injective _ _ (sym done ∙ h) in
                (
                  ap last? (sym assoc) ∙ (last?-append ex (hashed host f) ∙ ap some e),
                  ap (λ (r : Row). r.body) (sym e),
                  ap (λ (r : Row). r.ts) (sym e),
                );
          }

  -- The common shape of `append_session` and `append_binding`.
  pub prepared-Records :
      (rs : List Row) (p : Option Provenance) (default : Version) (ts : Text) (body : Body)
      (d : Disk)
      → is_genesis body ≡ false
      → is_boundary body ≡ false
      → is_v3 default ≡ false
      → (out : Result (List Row) × Disk) → Prepares host rs p d out
      → Records host rs ts body d
          (continue out.0 (λ ex. append_behind host ex (evidence_version default p) ts body) out.1)
  prepared-Records rs p default ts body d g b v (err e, d') r = record {
    added = r.added;
    held = r.held;
    quarantine = r.quarantine;
    returned = λ row h. absurd (err-ne-ok _ _ h);
  }
  prepared-Records rs p default ts body d g b v (ok ex, d') r =
      let (same, ready) = r.returned ex refl in
      evidence-Records rs ex p (evidence_version default p) ts body d d' r.added same ready g b
        (behind p ready.boundary) r.held r.quarantine
    where
      behind :
          (p : Option Provenance)
          → HasPassed p ex
          → is_v3 (evidence_version default p) ≡ true
          → passed (onto ex []) ≡ true
      behind none h w = cc
      behind (some q) h w = h

  -- `append_session` on a ledger that is a chain: whatever the outcome, the ledger on the disk is a
  -- chain that goes on from the old rows, and a returned row is the newest and carries the session.
  pub append_session-Records :
      (c : SessionColumns) (ts : Text) (d : Disk) (rs : List Row)
      → Holds host d rs
      → Records host rs ts (session (session_columns c)) d (append_session host c ts d)
  unfolding append_session
  append_session-Records c ts d rs held =
      rw (held.read, append_session)
        (prepared-Records rs c.provenance v2 ts (session (session_columns c)) d refl refl refl
          (prepare host rs ts c.provenance d)
          (prepare-Prepares host laws rs ts c.provenance d held))

  -- The same of `append_binding`.
  pub append_binding-Records :
      (c : BindingColumns) (ts : Text) (d : Disk) (rs : List Row)
      → Holds host d rs
      → Records host rs ts (binding c) d (append_binding host c ts d)
  unfolding append_binding
  append_binding-Records c ts d rs held =
      rw (held.read, append_binding)
        (prepared-Records rs c.provenance v1 ts (binding c) d refl refl refl
          (prepare host rs ts c.provenance d)
          (prepare-Prepares host laws rs ts c.provenance d held))
