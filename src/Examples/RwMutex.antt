-- ===== src/Examples/RwMutex.antt =====
-- Runs of threading/futex_rw_mutex.cpp, on which its theorems hold.
use sweater.Prelude.{◌+◌, ◌^◌, ◌<◌, ◌≤◌, ◌≡◌, ◌⊎◌, refl, arith, true, [], ◌∷◌}
use sweater.Threads.{weigh}
use sweater.RwMutex.Word.{
  reader_count, reader_parked, writer_waiting, writer_locked, admits, is_free,
}
use sweater.RwMutex.Futex.{
  reading, rw_parked, System, Reach, new, step, run, acquire_ro, ro_load, ro_admit, acquire_rw,
  rw_load, rw_announce, rw_park,
}
use sweater.RwMutex.Invariant.{is_reading, is_writing}
use sweater.RwMutex.Safety.{exclusive, parked_only_behind_holders}

-- One thread reads, and a writer announced itself and parked.
abbrev writer_behind_reader : System
writer_behind_reader = record { state_ = 2 ^ 30 + 1; threads = reading ∷ rw_parked ∷ [] }

writer_behind_reader-Reach : Reach true 2 writer_behind_reader
unfolding reader_count reader_parked writer_waiting writer_locked admits is_free
writer_behind_reader-Reach =
    step
      (step
        (step
          (step
            (step (step (step new (run 0 refl acquire_ro)) (run 0 refl ro_load))
              (run 0 refl (ro_admit refl refl)))
            (run 1 refl acquire_rw))
          (run 1 refl rw_load))
        (run 1 refl (rw_announce refl refl refl)))
      (run 1 refl (rw_park refl refl refl))

exclusive_example :
    (weigh is_writing writer_behind_reader.threads ≤ 1)
    × ((weigh is_writing writer_behind_reader.threads ≡ 0)
        ⊎ (weigh is_reading writer_behind_reader.threads ≡ 0))
    × (reader_count writer_behind_reader.state_ ≡ weigh is_reading writer_behind_reader.threads)
    × (writer_locked writer_behind_reader.state_ ≡ weigh is_writing writer_behind_reader.threads)
exclusive_example =
    exclusive {wp = true} {n = 2} {s = writer_behind_reader} (omega arith)
      writer_behind_reader-Reach

parked_only_behind_holders_example :
    0
    < weigh is_reading writer_behind_reader.threads + weigh is_writing writer_behind_reader.threads
unfolding weigh
parked_only_behind_holders_example =
    parked_only_behind_holders {wp = true} {n = 2} {s = writer_behind_reader} (omega arith)
      writer_behind_reader-Reach refl (omega arith)
