-- ===== src/Verifier/Paths.antt =====
-- The patterns of src/mybench/verify/cli.py for the paths of an anchors log. The characters that `\d`
-- matches are a parameter; `$` also matches before a final newline.
use mybench.Base.{
  Bool, Bytes, List, Option, [], ascii, bytes_eq, drop, false, if◌then◌else◌, leb, none, not,
  replicate, some, take, true, ℕ, ◌&&◌, ◌++◌, ◌==◌, ◌||◌, ◌∷◌,
}
use mybench.Ledger.{Text}

-- One place of a pattern of fixed length.
pub data Place : Type 0 where
  hex_place : Place
  decimal_place : Place
  exactly : ℕ → Place

abbrev pub literal : Bytes → List Place → List Place
literal [] rest = rest
literal (c ∷ cs) rest = exactly c ∷ literal cs rest

abbrev pub hex_places : ℕ → List Place → List Place
hex_places n rest = replicate n hex_place ++ rest

-- `(\d{4})/(\d{2})/(\d{2})\.json`
abbrev pub day_places : List Place
day_places =
    replicate 4 decimal_place
    ++ (exactly b'/'
        ∷ decimal_place
        ∷ decimal_place
        ∷ exactly b'/'
        ∷ decimal_place
        ∷ decimal_place
        ∷ literal (ascii ".json") [])

abbrev pub event_places : List Place
event_places = literal (ascii "anchors/") (hex_places 64 (exactly b'/' ∷ day_places))

abbrev pub genesis_places : List Place
genesis_places = literal (ascii "identities/") (hex_places 64 (literal (ascii "/genesis.json") []))

abbrev pub handle_places : List Place
handle_places = literal (ascii "identities/") (
    hex_places 64
      (literal (ascii "/handle-") (replicate 4 decimal_place ++ literal (ascii ".json") [])))

abbrev pub device_places : List Place
device_places =
    literal (ascii "identities/")
      (hex_places 64 (literal (ascii "/device-") (hex_places 8 (literal (ascii ".json") []))))

-- `[0-9a-f]`
abbrev pub is_lower_hex : ℕ → Bool
is_lower_hex c = (leb b'0' c && leb c b'9') || (leb b'a' c && leb c b'f')

-- `$`
abbrev pub at_line_end : Text → Bool
at_line_end [] = true
at_line_end (c ∷ []) = c == 10
at_line_end (c ∷ d ∷ t) = false

-- `.+` or `.*` before a literal and `$`, where `.` is any character but a newline.
abbrev pub dots_then : Bytes → Text → Bool
dots_then suffix [] = bytes_eq suffix []
dots_then suffix (c ∷ t) =
    let later = dots_then suffix t in
    bytes_eq suffix (c ∷ t) || (bytes_eq (suffix ++ (10 ∷ [])) (c ∷ t) || (not (c == 10) && later))

-- What is left behind a literal.
abbrev pub strip : Bytes → Text → Option Text
strip [] t = some t
strip (k ∷ ks) [] = none
strip (k ∷ ks) (c ∷ t) = let rest = strip ks t in if c == k then rest else none

-- `.+` and a literal
abbrev pub some_dots_then : Bytes → Text → Bool
some_dots_then suffix [] = false
some_dots_then suffix (c ∷ t) = not (c == 10) && dots_then suffix t

abbrev pub stripped : (Text → Bool) → Option Text → Bool
stripped test none = false
stripped test (some t) = test t

-- `TOLERATED_RE`
unfoldable pub is_tolerated : Text → Bool
is_tolerated t =
    stripped at_line_end (strip (ascii "README.md") t)
    || (stripped (dots_then []) (strip (ascii "LICENSE") t)
        || (stripped (some_dots_then (ascii ".md")) (strip (ascii "schema/") t)
            || stripped (some_dots_then (ascii ".json")) (strip (ascii "checkpoints/") t)))

-- What the groups of `EVENT_RE` hold: the identity, and the date of the three others with dashes.
pub record EventPath : Type 0 where
  pub iid : Text
  pub date : Text

abbrev pub event_groups : Text → EventPath
event_groups t = record {
  iid = take 64 (drop 8 t);
  date = take 4 (drop 73 t) ++ (b'-' ∷ take 2 (drop 78 t) ++ (b'-' ∷ take 2 (drop 81 t)));
}

module _ (is_decimal : ℕ → Bool) where
  abbrev pub place_takes : Place → ℕ → Bool
  place_takes hex_place c = is_lower_hex c
  place_takes decimal_place c = is_decimal c
  place_takes (exactly k) c = c == k

  unfoldable pub places_fit : List Place → Text → Bool
  places_fit [] t = at_line_end t
  places_fit (p ∷ ps) [] = false
  places_fit (p ∷ ps) (c ∷ t) = place_takes p c && places_fit ps t

  -- `EVENT_RE`
  unfoldable pub event_path : Text → Option EventPath
  event_path t = if places_fit event_places t then some (event_groups t) else none

  -- `PROOF_RE`
  unfoldable pub is_proof_path : Text → Bool
  is_proof_path = places_fit (event_places ++ literal (ascii ".ots") [])

  -- `RECORD_RE`
  unfoldable pub is_record_path : Text → Bool
  is_record_path t =
      places_fit genesis_places t || (places_fit handle_places t || places_fit device_places t)

  -- Of a path: it belongs to an anchors-only log.
  unfoldable pub is_expected : Text → Bool
  is_expected t =
      not (elim (event_path t) [ none ↦ true | some p ↦ false ])
      || (is_proof_path t || (is_record_path t || is_tolerated t))
