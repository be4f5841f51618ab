-- ===== src/Timer/Tests.antt =====
-- The timer as `kmain` sets it up, at 10 Hz, and at 100 Hz.
use lkd.Prelude.{[], false}
use lkd.Timer.{Pit}

abbrev stopped : Pit
stopped = record { init = false; ticks = 9; ports = record { written = []; reads = 0 } }
