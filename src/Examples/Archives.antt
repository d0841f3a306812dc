-- ===== src/Examples/Archives.antt =====
-- Witnesses and tests of the private archive.
use mybench.Base.{
  Bytes, List, [], arith, ascii, bytes_eq, false, ok, refl, replicate, some, ◌++◌, ◌∷◌, ◌≡◌, ◌⊎◌,
}
use mybench.Lines.{newline, split_lines, join_lines}
use mybench.Hex.{hex, fromhex}
use mybench.Commitment.{
  leaf_commitment, to_bytes, be_digits, session_root, merkle_root, tree_root, node_hash, check_hash,
  split, split_loop,
}
use mybench.Commitment.Binding.{Collision}
use mybench.Archive.{
  ArchiveFile, ArchiveCall, serialized_items, items_from_readback, parse_root, commit_items,
  root_for, check_items, verified_items, read_file, read_verified_items, archive_session,
}
use mybench.Archive.Commit.{read_verified_items-binding}
use mybench.Archive.Kept.{Extends, archive_session-Extends}
use mybench.Archive.Resume.{IsPreimage, Completes, archive_session-Completes}
use mybench.Examples.Host.{digest, digest-IsBytes}

abbrev two_items : List Bytes
two_items = ascii "a" ∷ ascii "b" ∷ []

abbrev two_nonces : List Bytes
two_nonces = replicate 32 0 ∷ replicate 32 0 ∷ []

abbrev two_root : Bytes
two_root = digest (229 ∷ [])

two_root-root_for : root_for digest two_items two_nonces ≡ ok two_root
unfolding root_for commit_items leaf_commitment to_bytes be_digits session_root merkle_root
    tree_root node_hash check_hash split split_loop
two_root-root_for = refl

abbrev whole : ArchiveFile
whole = record { loose = false; content = ascii "a" ++ (newline ∷ (ascii "b" ++ (newline ∷ []))) }

-- What a crash has left of the second line is nothing, and of the first one no newline.
abbrev front : ArchiveFile
front = record { loose = false; content = ascii "a" }

abbrev call : ArchiveCall
call = record {
  source_items = two_items;
  nonces = two_nonces;
  expected_item_count = 2;
  expected_session_root = hex two_root;
}

read_whole : read_verified_items digest two_nonces 2 (hex two_root) (some whole) ≡ ok two_items
unfolding read_verified_items read_file verified_items check_items items_from_readback parse_root
    fromhex hex split_lines bytes_eq root_for commit_items leaf_commitment to_bytes be_digits
    session_root merkle_root tree_root node_hash check_hash split split_loop
read_whole = refl

read_verified_items-binding_example : (two_items ≡ two_items) ⊎ Collision digest
read_verified_items-binding_example =
    read_verified_items-binding digest two_nonces 2 (hex two_root) (some whole) (some whole)
      two_items two_items read_whole read_whole

archive_session-Extends_example :
    Extends digest call (some front) (archive_session digest call (some front))
archive_session-Extends_example = archive_session-Extends digest call (some front)

call-IsPreimage : IsPreimage digest call two_root
call-IsPreimage = record {
  named = refl;
  root_bytes = digest-IsBytes (229 ∷ []);
  root_length = refl;
  some_item = omega arith;
  count = refl;
  enough = omega arith;
  lines = ((omega arith, tt), ((omega arith, tt), tt));
  committed = two_root-root_for;
}

archive_session-Completes_example : Completes call (archive_session digest call (some front))
unfolding serialized_items join_lines
archive_session-Completes_example =
    archive_session-Completes digest call two_root call-IsPreimage (some front)
      (refl, newline ∷ (ascii "b" ++ (newline ∷ [])), refl)
