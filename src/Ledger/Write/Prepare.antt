-- ===== src/Ledger/Write/Prepare.antt =====
-- What stands in front of an evidence row: the genesis row, and the schema boundary where the row
-- has a provenance.
use mybench.Base.{
  Bool-cases, Error, List, Option, Result, [], ap, append-nil, append_assoc, arith, err, err-ne-ok,
  inl, inr, last?, last?-append, ledger_error, length, ltb, none, ok, ok_injective, refl, refuse,
  some, subst, sym, true, ◌++◌, ◌+◌, ◌∙◌, ◌∷◌, ◌≡◌,
}
use mybench.Effect.{continue}
use mybench.Ledger.{
  Text, v1, v3, Provenance, genesis, schema_version, Fields, Row, Host, IsHost, genesis_prev, Disk,
  is_boundary,
}
use mybench.Ledger.Read.Chain.{passed, IsLinked, onto}
use mybench.Ledger.Read.Append.{onto-snoc}
use mybench.Ledger.Write.{
  append_row, append_behind, newest, any, boundaries, precedes, ensure_genesis, ensure_boundary,
  prepare_provenance_rows, prepare,
}
use mybench.Ledger.Write.Step.{Holds, hashed, Appends, append_row-Appends, append_behind-Appends}

-- Rows behind which an evidence row with this provenance may stand.
abbrev pub HasPassed : Option Provenance → List Row → Type 0
HasPassed none ex = Unit
HasPassed (some p) ex = passed (onto ex []) ≡ true

pub record IsReady (p : Option Provenance) (ex : List Row) : Type 0 where
  pub last : Row
  pub newest_row : last? ex ≡ some last
  pub boundary : HasPassed p ex

-- Whatever the outcome, the disk holds a chain that goes on from `rs`; what is returned is that
-- chain, ready for the evidence row.
pub record Prepares (host : Host) (rs : List Row) (p : Option Provenance) (d : Disk)
    (out : Result (List Row) × Disk) : Type 0 where
  pub added : List Row
  pub held : Holds host out.1 (rs ++ added)
  pub quarantine : out.1.quarantine ≡ d.quarantine
  pub returned : (ex : List Row) → out.0 ≡ ok ex → (ex ≡ rs ++ added) × IsReady p ex

passed-onto : (rs us : List Row) → passed us ≡ true → passed (onto rs us) ≡ true
passed-onto [] us h = h
passed-onto (r ∷ rs) us h = passed-onto rs (r ∷ us) (ground arith)

boundaries-nil : (rs us : List Row) → boundaries rs ≡ [] → passed (onto rs us) ≡ passed us
boundaries-nil [] us h = refl
boundaries-nil (r ∷ rs) us h = elim (Bool-cases (is_boundary r.body)) [
  | inl y ↦ cc (rw y at h)
  | inr n ↦ boundaries-nil rs (r ∷ us) (rw n at h) ∙ rw n
]

boundaries-cons :
    (rs us : List Row) (t : Row) (ts : List Row)
    → boundaries rs ≡ t ∷ ts
    → passed (onto rs us) ≡ true
boundaries-cons [] us t ts h = cc
boundaries-cons (r ∷ rs) us t ts h = elim (Bool-cases (is_boundary r.body)) [
  | inl y ↦ passed-onto rs (r ∷ us) (rw y)
  | inr n ↦ boundaries-cons rs (r ∷ us) t ts (rw n at h)
]

last?-cons : (r : Row) (rs : List Row) → (x : Row) × (last? (r ∷ rs) ≡ some x)
last?-cons r [] = (r, refl)
last?-cons r (s ∷ rs) = last?-cons s rs

module _ (host : Host) (laws : IsHost host) where
  abbrev genesis_fields : Text → Fields
  genesis_fields ts = record { version = v1; i = 0; ts = ts; prev = genesis_prev; body = genesis }

  genesis-IsLinked : (ts : Text) → IsLinked host (hashed host (genesis_fields ts)) []
  genesis-IsLinked ts = record {
    index = refl;
    genesis_first = refl;
    prev = refl;
    hash = refl;
    order = (λ h. cc, λ a b. cc);
  }

  ensure_genesis-Prepares :
      (rs : List Row) (ts : Text) (d : Disk)
      → Holds host d rs
      → Prepares host rs none d (ensure_genesis host rs ts d)
  unfolding ensure_genesis
  ensure_genesis-Prepares (r ∷ rs) ts d held = record {
    added = [];
    held = subst (Holds host d) (sym (append-nil (r ∷ rs))) held;
    quarantine = refl;
    returned = λ ex h.
        let same : ex ≡ r ∷ rs = sym (ok_injective _ _ h) in
        let (x, e) = last?-cons r rs in
        (
          same ∙ sym (append-nil (r ∷ rs)),
          record { last = x; newest_row = ap last? same ∙ e; boundary = tt },
        );
  }
  ensure_genesis-Prepares [] ts d held =
      finish (append_row host (genesis_fields ts) d)
        (append_row-Appends host laws (genesis_fields ts) d [] held (genesis-IsLinked ts))
    where
      finish :
          (out : Result Row × Disk)
          → Appends host [] (hashed host (genesis_fields ts)) d out
          → Prepares host [] none d (continue out.0 (λ row. λ s. (ok (row ∷ []), s)) out.1)
      finish out (inl refused) = rw refused (record {
        added = [];
        held = held;
        quarantine = refl;
        returned = λ ex h. absurd (err-ne-ok _ _ h);
      })
      finish out (inr (done, held', q)) = rw done (record {
        added = hashed host (genesis_fields ts) ∷ [];
        held = held';
        quarantine = q;
        returned = λ ex h. (
          sym (ok_injective _ _ h),
          record {
            last = hashed host (genesis_fields ts);
            newest_row = ap last? (sym (ok_injective _ _ h));
            boundary = tt;
          },
        );
      })

  ensure_boundary-Prepares :
      (ex transitions : List Row) (ts : Text) (p : Provenance) (d : Disk)
      → boundaries ex ≡ transitions
      → Holds host d ex
      → IsReady none ex
      → Prepares host ex (some p) d (ensure_boundary host transitions ex ts p d)
  unfolding ensure_boundary newest
  ensure_boundary-Prepares ex (t ∷ more) ts p d found held ready = record {
    added = [];
    held = subst (Holds host d) (sym (append-nil ex)) held;
    quarantine = refl;
    returned = λ ex' h.
        let same : ex' ≡ ex = sym (ok_injective _ _ h) in
        (
          same ∙ sym (append-nil ex),
          record {
            last = ready.last;
            newest_row = ap last? same ∙ ready.newest_row;
            boundary = ap (λ z. passed (onto z [])) same ∙ boundaries-cons ex [] t more found;
          },
        );
  }
  ensure_boundary-Prepares ex [] ts p d found held ready =
      rw (ready.newest_row, newest, ensure_boundary)
        (finish (append_row host f d) (
          unfold append_behind newest in
          rw (ready.newest_row, append_behind, newest) at
            (append_behind-Appends host laws ex ready.last v3 ts (schema_version p) d held
              ready.newest_row refl (λ _. boundaries-nil ex [] found) (λ a b. cc))))
    where
      f : Fields
      f = record {
        version = v3;
        i = ready.last.i + 1;
        ts = ts;
        prev = ready.last.h;
        body = schema_version p;
      }

      finish :
          (out : Result Row × Disk)
          → Appends host ex (hashed host f) d out
          → Prepares host ex
              (some p)
              d
              (continue out.0 (λ row. λ s. (ok (ex ++ (row ∷ [])), s)) out.1)
      finish out (inl refused) = rw refused (record {
        added = [];
        held = subst (Holds host d) (sym (append-nil ex)) held;
        quarantine = refl;
        returned = λ ex' h. absurd (err-ne-ok _ _ h);
      })
      finish out (inr (done, held', q)) = rw done (record {
        added = hashed host f ∷ [];
        held = held';
        quarantine = q;
        returned = λ ex' h.
            let same : ex' ≡ ex ++ (hashed host f ∷ []) = sym (ok_injective _ _ h) in
            (
              same,
              record {
                last = hashed host f;
                newest_row = ap last? same ∙ last?-append ex (hashed host f);
                boundary =
                    ap (λ z. passed (onto z [])) same ∙ ap passed (onto-snoc ex [] (hashed host f));
              },
            );
      })

  -- Raising keeps what the disk holds.
  raise-Prepares :
      (rs ex : List Row) (q : Option Provenance) (e : Error) (d d' : Disk)
      → (added : List Row) → Holds host d' (rs ++ added)
      → d'.quarantine ≡ d.quarantine
      → Prepares host rs q d (err e, d')
  raise-Prepares rs ex q e d d' added held kept = record {
    added = added;
    held = held;
    quarantine = kept;
    returned = λ ex' h. absurd (err-ne-ok _ _ h);
  }

  prepare_provenance_rows-Prepares :
      (rs : List Row) (ts : Text) (p : Provenance) (d : Disk)
      → Holds host d rs
      → Prepares host rs (some p) d (prepare_provenance_rows host rs ts p d)
  unfolding prepare_provenance_rows
  prepare_provenance_rows-Prepares rs ts p d held =
      finish (ensure_genesis host rs ts d) (ensure_genesis-Prepares rs ts d held)
    where
      tail :
          (ex : List Row) (d' : Disk) (added : List Row)
          → ex ≡ rs ++ added
          → IsReady none ex
          → Holds host d' (rs ++ added)
          → d'.quarantine ≡ d.quarantine
          → (a b : Result (Unit {0}))
          → Prepares host rs (some p) d (
              continue a
                (λ _. λ s. continue b (λ _. ensure_boundary host (boundaries ex) ex ts p) s)
                d')
      tail ex d' added same ready h q (err e) b = raise-Prepares rs ex (some p) e d d' added h q
      tail ex d' added same ready h q (ok u) (err e) =
          raise-Prepares rs ex (some p) e d d' added h q
      tail ex d' added same ready h q (ok u) (ok v) =
          let r =
            ensure_boundary-Prepares ex (boundaries ex) ts p d' refl
              (subst (Holds host d') (sym same) h) ready in
          let assoc : ex ++ r.added ≡ rs ++ (added ++ r.added) =
            ap (λ z. z ++ r.added) same ∙ append_assoc rs added r.added in
          record {
            added = added ++ r.added;
            held =
                subst (Holds host (ensure_boundary host (boundaries ex) ex ts p d').1) assoc r.held;
            quarantine = r.quarantine ∙ q;
            returned = λ ex' e. let (s, w) = r.returned ex' e in (s ∙ assoc, w);
          }

      finish :
          (out : Result (List Row) × Disk)
          → Prepares host rs none d out
          → Prepares host rs (some p) d (
              continue out.0
                (λ ex. λ s.
                  continue
                    (refuse (ltb 1 (length (boundaries ex))) ledger_error)
                    (λ _. λ s'.
                      continue
                        (refuse (any (precedes (boundaries ex)) ex) ledger_error)
                        (λ _. ensure_boundary host (boundaries ex) ex ts p)
                        s')
                    s)
                out.1)
      finish (err e, d') r = raise-Prepares rs rs (some p) e d d' r.added r.held r.quarantine
      finish (ok ex, d') r =
          let (same, ready) = r.returned ex refl in
          tail ex d' r.added same ready r.held r.quarantine
            (refuse (ltb 1 (length (boundaries ex))) ledger_error)
            (refuse (any (precedes (boundaries ex)) ex) ledger_error)

  pub prepare-Prepares :
      (rs : List Row) (ts : Text) (p : Option Provenance) (d : Disk)
      → Holds host d rs
      → Prepares host rs p d (prepare host rs ts p d)
  unfolding prepare
  prepare-Prepares rs ts none d held = ensure_genesis-Prepares rs ts d held
  prepare-Prepares rs ts (some p) d held = prepare_provenance_rows-Prepares rs ts p d held
