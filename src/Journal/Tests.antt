-- ===== src/Journal/Tests.antt =====
-- A journal of segments of 1 MiB on a fresh directory.
use ume.Prelude.{◌^◌, refl, [], arith}
use ume.Event.Samples.{created, created-valid}
use ume.Journal.Disk.{Os, all_succeed}
use ume.Journal.Writer.{append}
use ume.Journal.Append.{
  Appends, no_contents, opened_writer, opened_disk, opened-Logs, append-Appends,
}

abbrev os : Os
os i = all_succeed

append-Appends_example :
    Appends
      (opened_writer (2 ^ 20))
      (opened_disk 5 (2 ^ 20) [])
      no_contents
      created
      (append os 6 created (opened_writer (2 ^ 20)) (opened_disk 5 (2 ^ 20) []))
append-Appends_example =
    append-Appends os 6 (opened_writer (2 ^ 20)) (opened_disk 5 (2 ^ 20) []) no_contents created
      created-valid.0 (opened-Logs 5 (2 ^ 20) [] (omega arith) (omega arith) (λ i. refl))
      (omega arith) refl
