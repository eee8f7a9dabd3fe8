-- ===== src/Harness/Run/Total.antt =====
-- When `run` ends with a report.
use shikomi.Prelude.{◌≡◌, Bool, true, Option, is_some}
use shikomi.Json.{Number, Json}
use shikomi.Harness.Compare.{Comparison}
use shikomi.Harness.Run.{TestCase, Processes, Validator}

module _ (number : Number) (micro : Number.N number) (finite : Number.N number → Bool) where
  open number use {N}

  module _ (p : Processes N) (c : Comparison N) (v : Option (Validator number micro finite))
      (sends stop : Bool) where
    open p use {State}

    -- Every message is sent and answered with a line, an end of the pipe, or silence.
    pub record Reachable : Type 0 where
      pub launched : (s : State) → is_some (p.launch s) ≡ true
      pub sent : (tc : TestCase N) (s : State) → is_some (p.send tc s) ≡ true
