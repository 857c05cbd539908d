-- ===== src/Examples/SystemPools.antt =====
-- A spread over the Windows thread pool, which refuses a chunk, on which the theorem of SystemPools
-- holds.
mod Fire
use sweater.Prelude.{not, ◌==◌}
use sweater.SystemPools.{SystemPool, windows}

abbrev refuses_third : SystemPool
refuses_third = windows (λ i. not (i == 2))
