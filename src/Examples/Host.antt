-- ===== src/Examples/Host.antt =====
-- A concrete host: a digest that is no hash function, and the codec in place of JSON.
use mybench.Base.{
  Bytes, Option, [], ap, append-nil, arith, if◌then◌else◌, length, length-replicate, none, refl,
  replicate, some, suc, sym, true, zero, ℕ, ◌%◌, ◌++◌, ◌+◌, ◌<◌, ◌==◌, ◌∙◌, ◌∷◌, ◌≡◌,
}
use mybench.Hex.{IsBytes}
use mybench.Ledger.{
  Text, Version, v1, v2, v3, Provenance, imported, live, SessionColumns, BindingColumns,
  EventColumns, ReceiptColumns, Body, genesis, schema_version, session, binding, event,
  anchor_receipt, Fields, Row, Parsed, unparseable, parsed, Host, IsHost,
}
use mybench.Ledger.Read.Tip.{IsFaithful}
use mybench.Examples.Codec.{Codec, number, text, optional, items, ◌&◌, via}

abbrev sum : Bytes → ℕ
sum [] = 0
sum (b ∷ bs) = b + sum bs

-- 32 bytes that depend on the sum of the input.
abbrev pub digest : Bytes → Bytes
digest bs = replicate 32 (sum bs % 256)

pub digest-length : (bs : Bytes) → length (digest bs) ≡ 32
digest-length bs = length-replicate 32 (sum bs % 256)

replicate-IsBytes : (n b : ℕ) → b < 256 → IsBytes (replicate n b)
replicate-IsBytes zero b h = tt
replicate-IsBytes (suc n) b h = (h, replicate-IsBytes n b h)

pub digest-IsBytes : (bs : Bytes) → IsBytes (digest bs)
digest-IsBytes bs = replicate-IsBytes 32 (sum bs % 256) (omega arith)

abbrev version_code : Version → ℕ
version_code v1 = 1
version_code v2 = 2
version_code v3 = 3

abbrev version_of : ℕ → Version
version_of n = if n == 1 then v1 else if n == 2 then v2 else v3

pub version_back : (v : Version) → version_of (version_code v) ≡ v
version_back v1 = refl
version_back v2 = refl
version_back v3 = refl

abbrev version : Codec Version
version = via number version_code version_of version_back

abbrev provenance_code : Provenance → ℕ
provenance_code imported = 0
provenance_code live = 1

abbrev provenance_of : ℕ → Provenance
provenance_of n = if n == 0 then imported else live

pub provenance_back : (p : Provenance) → provenance_of (provenance_code p) ≡ p
provenance_back imported = refl
provenance_back live = refl

abbrev provenance : Codec Provenance
provenance = via number provenance_code provenance_of provenance_back

abbrev Texts : Type 0
Texts = Text × Text × Text

abbrev session_parts : Codec SessionColumns
session_parts =
    via
      (text
        & text
        & number
        & text
        & optional provenance
        & items text
        & optional text
        & optional text
        & optional number
        & optional number
        & optional number
        & optional number
        & optional text)
      (λ c. (
        c.session_id,
        (
          c.session_root,
          (
            c.item_count,
            (
              c.source,
              (
                c.provenance,
                (
                  c.models_seen,
                  (
                    c.provider,
                    (
                      c.effort,
                      (
                        c.input_tokens,
                        (
                          c.output_tokens,
                          (
                            c.cache_creation_input_tokens,
                            (c.cache_read_input_tokens, c.harness_version),
                          ),
                        ),
                      ),
                    ),
                  ),
                ),
              ),
            ),
          ),
        ),
      ))
      (λ t. record {
        session_id = t.0;
        session_root = t.1.0;
        item_count = t.1.1.0;
        source = t.1.1.1.0;
        provenance = t.1.1.1.1.0;
        models_seen = t.1.1.1.1.1.0;
        provider = t.1.1.1.1.1.1.0;
        effort = t.1.1.1.1.1.1.1.0;
        input_tokens = t.1.1.1.1.1.1.1.1.0;
        output_tokens = t.1.1.1.1.1.1.1.1.1.0;
        cache_creation_input_tokens = t.1.1.1.1.1.1.1.1.1.1.0;
        cache_read_input_tokens = t.1.1.1.1.1.1.1.1.1.1.1.0;
        harness_version = t.1.1.1.1.1.1.1.1.1.1.1.1;
      })
      (λ c. refl)

abbrev binding_parts : Codec BindingColumns
binding_parts =
    via (text & text & text & optional provenance)
      (λ c. (c.commit_hash, (c.commit_ts, (c.repo_id, c.provenance))))
      (λ t. record {
        commit_hash = t.0;
        commit_ts = t.1.0;
        repo_id = t.1.1.0;
        provenance = t.1.1.1;
      })
      (λ c. refl)

abbrev event_parts : Codec EventColumns
event_parts =
    via
      (text
        & text
        & text
        & number
        & text
        & optional text
        & optional text
        & optional text
        & optional text
        & optional text
        & optional text
        & optional text
        & optional text)
      (λ c. (
        c.event_kind,
        (
          c.trigger,
          (
            c.session_id,
            (
              c.context_gen,
              (
                c.harness,
                (
                  c.parent_session_id,
                  (
                    c.harness_version,
                    (
                      c.model,
                      (c.effort, (c.repo_id, (c.worktree_id, (c.head_before, c.head_after)))),
                    ),
                  ),
                ),
              ),
            ),
          ),
        ),
      ))
      (λ t. record {
        event_kind = t.0;
        trigger = t.1.0;
        session_id = t.1.1.0;
        context_gen = t.1.1.1.0;
        harness = t.1.1.1.1.0;
        parent_session_id = t.1.1.1.1.1.0;
        harness_version = t.1.1.1.1.1.1.0;
        model = t.1.1.1.1.1.1.1.0;
        effort = t.1.1.1.1.1.1.1.1.0;
        repo_id = t.1.1.1.1.1.1.1.1.1.0;
        worktree_id = t.1.1.1.1.1.1.1.1.1.1.0;
        head_before = t.1.1.1.1.1.1.1.1.1.1.1.0;
        head_after = t.1.1.1.1.1.1.1.1.1.1.1.1;
      })
      (λ c. refl)

abbrev receipt_parts : Codec ReceiptColumns
receipt_parts =
    via (number & number & text & text & text & text)
      (λ c. (
        c.anchor_row_start,
        (c.anchor_row_end, (c.anchor_root, (c.anchor_chain_tip, (c.receipt_ts, c.receipt_id)))),
      ))
      (λ t. record {
        anchor_row_start = t.0;
        anchor_row_end = t.1.0;
        anchor_root = t.1.1.0;
        anchor_chain_tip = t.1.1.1.0;
        receipt_ts = t.1.1.1.1.0;
        receipt_id = t.1.1.1.1.1;
      })
      (λ c. refl)

-- A body as one list for each constructor, of which one has an item.
abbrev Parts : Type 0
Parts =
    Option Provenance
    × (Option SessionColumns
        × (Option BindingColumns × (Option EventColumns × Option ReceiptColumns)))

abbrev to_parts : Body → Parts
to_parts genesis = (none, (none, (none, (none, none))))
to_parts (schema_version p) = (some p, (none, (none, (none, none))))
to_parts (session c) = (none, (some c, (none, (none, none))))
to_parts (binding c) = (none, (none, (some c, (none, none))))
to_parts (event c) = (none, (none, (none, (some c, none))))
to_parts (anchor_receipt c) = (none, (none, (none, (none, some c))))

abbrev pick :
    Option Provenance
    → Option SessionColumns
    → Option BindingColumns
    → Option EventColumns
    → Option ReceiptColumns
    → Body
pick (some p) s b e r = schema_version p
pick none (some c) b e r = session c
pick none none (some c) e r = binding c
pick none none none (some c) r = event c
pick none none none none (some c) = anchor_receipt c
pick none none none none none = genesis

pub body_back :
    (b : Body)
    → pick
        (to_parts b).0
        (to_parts b).1.0
        (to_parts b).1.1.0
        (to_parts b).1.1.1.0
        (to_parts b).1.1.1.1
      ≡ b
body_back genesis = refl
body_back (schema_version p) = refl
body_back (session c) = refl
body_back (binding c) = refl
body_back (event c) = refl
body_back (anchor_receipt c) = refl

abbrev body : Codec Body
body =
    via
      (optional provenance
        & optional session_parts
        & optional binding_parts
        & optional event_parts
        & optional receipt_parts)
      to_parts (λ t. pick t.0 t.1.0 t.1.1.0 t.1.1.1.0 t.1.1.1.1) body_back

abbrev fields : Codec Fields
fields =
    via (version & number & text & text & body) (λ f. (f.version, (f.i, (f.ts, (f.prev, f.body)))))
      (λ t. record { version = t.0; i = t.1.0; ts = t.1.1.0; prev = t.1.1.1.0; body = t.1.1.1.1 })
      (λ f. refl)

abbrev row : Codec Row
row = via (fields & text) (λ r. (r.fields, r.h)) (λ t. record { fields = t.0; h = t.1 }) (λ r. refl)

-- The line must be read to its end.
abbrev to_parsed : Option (Row × Bytes) → Parsed
to_parsed none = unparseable
to_parsed (some (r, [])) = parsed r
to_parsed (some (r, c ∷ cs)) = unparseable

abbrev pub host : Host
host = record {
  sha256 = digest;
  canonical = fields.enc;
  dumps = row.enc;
  read_line = λ line. to_parsed (row.dec line);
  conforms = λ r. true;
}

pub host-IsHost : IsHost host
host-IsHost = record {
  read_line-dumps =
      λ r h. ap to_parsed (ap row.dec (sym (append-nil (row.enc r))) ∙ row.dec-enc r []);
  dumps-IsLine = row.no_newline;
}

abbrev first_part : Option (Fields × Bytes) → Fields → Fields
first_part none d = d
first_part (some (f, rest)) d = f

pub host-IsFaithful : IsFaithful host
host-IsFaithful = record {
  sha256_bytes = digest-IsBytes;
  canonical_injective = λ f g e.
      ap (λ o. first_part o f)
        (sym (fields.dec-enc f []) ∙ (ap (λ b. fields.dec (b ++ [])) e ∙ fields.dec-enc g []));
}
