-- ===== src/Metadata/Closed.antt =====
-- The metadata of any records is closed: only whitelisted texts come out of them.
use mybench.Base.{All, Bool, Option, none, some, true, ◌≡◌}
use mybench.Json.{Json}
use mybench.Ledger.{Text}
use mybench.Timing.Order.{IsIncreasing}
use mybench.Capture.{Metadata}
use mybench.Metadata.{is_model, is_version, is_one_of, providers, efforts, Seen}

-- A text that is there passes a test.
abbrev pub Passes : (Text → Bool) → Option Text → Type 0
Passes test none = Unit {0}
Passes test (some t) = test t ≡ true

pub record IsClosed (m : Metadata) : Type 0 where
  pub models : All (λ t. is_model t ≡ true) m.models_seen
  pub increasing : IsIncreasing m.models_seen
  pub provider : Passes (is_one_of providers) m.provider
  pub effort : Passes (is_one_of efforts) m.effort
  pub version : Passes is_version m.harness_version

-- The same of what has been seen.
record IsSeen (s : Seen) : Type 0 where
  models : All (λ t. is_model t ≡ true) s.models
  increasing : IsIncreasing s.models
  provider : Passes (is_one_of providers) s.provider
  effort : Passes (is_one_of efforts) s.effort
  version : Passes is_version s.harness_version
