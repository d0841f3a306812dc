-- ===== src/Anchor/Receipt/Built.antt =====
-- An event that is built from a batch of the ledger's rows has its receipt accepted.
use mybench.Base.{
  ==_iff, ==_refl, >>=-eq-ok, Bool, Bytes, List, Result, [], anchor_error, ap, arith, bytes_eq, err,
  false, length, le→ltb_false, none, not, ok, ok_injective, refl, refuse, refuse-eq-ok, some, subst,
  sym, true, ℕ, ◌==◌, ◌>>=◌, ◌>>◌, ◌∙◌, ◌∷◌, ◌≡◌, ◌≤◌,
}
use mybench.Hex.{hex, fromhex, fromhex-hex}
use mybench.Commitment.{day_root, merkle_root, tree_root}
use mybench.Ledger.{Text, Row, Host}
use mybench.Ledger.Write.{newest}
use mybench.Anchor.Batch.{
  Batch, Signed, Device, session_leaves, covered_rows, check_covered, verify_batch,
}
use mybench.Anchor.Batch.Verified.{IsDevice, verify_batch-check_covered}
use mybench.Anchor.Event.{
  Event, SignedEvent, EventHost, item_sum, project, sign_event, build_event, validate_event,
  verify_event,
}
use mybench.Anchor.Receipt.{ReceiptHost, newest_time, check_slice}

module _ (host : Host) (device : Device) where
  -- What the check of a batch says of the rows that it covers.
  record IsCovered (b : Batch) (rs : List Row) : Type 0 where
    leaves : List Bytes
    root : Bytes
    last : Row
    leaves_of : session_leaves rs ≡ ok leaves
    count : length leaves ≡ b.session_count
    some_leaf : (length leaves == 0) ≡ false
    root_of : day_root host.sha256 leaves ≡ ok root
    root_is : bytes_eq (hex root) b.root ≡ true
    last_of : newest rs ≡ ok last
    tip_is : bytes_eq last.h b.chain_tip ≡ true

  not-eq-false : (b : Bool) → not b ≡ false → b ≡ true
  not-eq-false true h = refl
  not-eq-false false h = cc

  day_root-nonempty :
      (leaves : List Bytes) (root : Bytes)
      → day_root host.sha256 leaves ≡ ok root
      → (length leaves == 0) ≡ false
  unfolding day_root merkle_root tree_root
  day_root-nonempty [] root h = cc
  day_root-nonempty (l ∷ ls) root h = ground arith

  check_covered-IsCovered :
      (b : Batch) (rs : List Row) → check_covered host device b rs ≡ ok tt → IsCovered b rs
  unfolding check_covered
  check_covered-IsCovered b rs h =
      let (_, h1) = refuse-eq-ok (not (length rs == b.row_count)) anchor_error _ h in
      let (leaves, e, h2) = >>=-eq-ok (session_leaves rs) _ h1 in
      let (count, h3) = refuse-eq-ok (not (length leaves == b.session_count)) anchor_error _ h2 in
      let (root, r, h4) = >>=-eq-ok (day_root host.sha256 leaves) _ h3 in
      let (match, h5) = refuse-eq-ok (not (bytes_eq (hex root) b.root)) anchor_error _ h4 in
      let (last, l, h6) = >>=-eq-ok (newest rs) _ h5 in
      record {
        leaves = leaves;
        root = root;
        last = last;
        leaves_of = e;
        count = (==_iff (length leaves) b.session_count).0 (not-eq-false _ count);
        some_leaf = day_root-nonempty leaves root r;
        root_of = r;
        root_is = not-eq-false _ match;
        last_of = l;
        tip_is = not-eq-false _ (refused _ h6);
      }
    where
      refused : (b : Bool) → refuse b anchor_error ≡ ok tt → b ≡ false
      refused true h = cc
      refused false h = refl

  module _ (clock : ReceiptHost) (events : EventHost) where
    slice-accepted :
        (b : Batch) (e : SignedEvent) (covered : List Row) (receipt_time append_time m : ℕ)
        → IsCovered b covered
        → e.root ≡ b.root
        → e.chain_tip ≡ b.chain_tip
        → e.session_count ≡ b.session_count
        → e.item_count ≡ item_sum covered
        → newest_time clock 0 covered ≡ ok m
        → m ≤ receipt_time
        → receipt_time ≤ append_time
        → check_slice clock host e receipt_time append_time covered ≡ ok tt
    unfolding check_slice
    slice-accepted b e covered receipt_time append_time m c er et es ei timed late later =
        rw
          (
            c.leaves_of,
            c.some_leaf,
            c.root_of,
            ap (bytes_eq (hex c.root)) er ∙ c.root_is,
            c.last_of,
            ap (bytes_eq c.last.h) et ∙ c.tip_is,
            ap (λ n. length c.leaves == n) (es ∙ sym c.count) ∙ ==_refl (length c.leaves),
            ap (λ n. item_sum covered == n) ei ∙ ==_refl (item_sum covered),
            timed,
            le→ltb_false receipt_time m late,
          )
          (rw (le→ltb_false append_time receipt_time later) refl)

    signed-verified :
        (laws : IsDevice device) (e : Event)
        → e.device_pub ≡ hex device.public_key
        → validate_event device events (sign_event device events e) ≡ ok tt
        → verify_event device events (sign_event device events e) ≡ ok tt
    unfolding verify_event sign_event
    signed-verified laws e pub_is valid =
        ap (λ m. m >> rest) valid
        ∙ (ap (λ text. read (fromhex text)) pub_is
            ∙ (ap read (fromhex-hex device.public_key laws.key_bytes)
                ∙ (ap
                      (λ sig. judged (
                        sig >>= λ sig.
                        ok (device.verify device.public_key sig (events.signed_bytes e))))
                      (fromhex-hex (device.sign (events.signed_bytes e))
                        (laws.sign_bytes (events.signed_bytes e)))
                    ∙ ap (λ good. refuse (not good) anchor_error)
                        (laws.signed (events.signed_bytes e)))))
      where
        judged : Result Bool → Result (Unit {0})
        judged m = elim m [
          | err raised ↦ err anchor_error
          | ok good ↦ refuse (not good) anchor_error
        ]

        read : Result Bytes → Result (Unit {0})
        read key = judged (
            key >>= λ key. fromhex (hex (device.sign (events.signed_bytes e))) >>= λ sig.
            ok (device.verify key sig (events.signed_bytes e)))

        rest : Result (Unit {0})
        rest = read (fromhex e.device_pub)

    -- For a batch under the device's key that `verify_batch` accepts with the rows of its range: the
    -- event that `build_event` returns passes `verify_event`, and what `append_anchor_receipt` checks
    -- of those rows, with a receipt time that is not before the newest of them and not after the
    -- append.
    pub build_event-accepted :
        (laws : IsDevice device) (b : Signed) (rs : List Row) (date : Text) (e : SignedEvent)
        (receipt_time append_time m : ℕ)
        → b.device_pub ≡ hex device.public_key
        → verify_batch host device b (some (covered_rows b.row_start b.row_end rs)) ≡ ok tt
        → build_event device events host b rs date ≡ ok e
        → newest_time clock 0 (covered_rows b.row_start b.row_end rs) ≡ ok m
        → m ≤ receipt_time
        → receipt_time ≤ append_time
        → (verify_event device events e ≡ ok tt)
          × (check_slice clock host e receipt_time append_time
                (covered_rows e.row_start e.row_end rs)
              ≡ ok tt)
    unfolding build_event sign_event project
    build_event-accepted laws b rs date e receipt_time append_time m pub_is verified built timed
          late later =
        let covered : List Row = covered_rows b.row_start b.row_end rs in
        let made : Event = project device events b date covered in
        let (_, _, h1) = >>=-eq-ok (verify_batch host device b none) _ built in
        let (_, h2) = refuse-eq-ok (not (length covered == b.row_count)) anchor_error _ h1 in
        let (u, valid, h3) =
          >>=-eq-ok (validate_event device events (sign_event device events made)) _ h2 in
        let same : sign_event device events made ≡ e = ok_injective _ _ h3 in
        subst
          (λ (x : SignedEvent).
            (verify_event device events x ≡ ok tt)
            × (check_slice clock host x receipt_time append_time
                  (covered_rows x.row_start x.row_end rs)
                ≡ ok tt))
          same
          (
            signed-verified laws made pub_is valid,
            slice-accepted b.batch (sign_event device events made) covered receipt_time append_time
                m
                (check_covered-IsCovered b.batch covered
                  (verify_batch-check_covered host device b covered verified))
                refl refl refl refl timed late later,
          )
