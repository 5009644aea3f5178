-- ===== src/Evidence/Tests.antt =====
-- banc-host/src/evidence.rs: a short log.
use banc.Common.{List, [], ◌∷◌}
use banc.Common.Text.{codes}
use banc.Evidence.{Entry, new}
use banc.Evidence.Cap.{record_all, record_all-new, Retains}

abbrev log : List Entry
log =
    record { at_us = 10; source = codes "runner"; line = codes "start" }
    ∷ record { at_us = 25; source = codes "rtt"; line = codes "boot" }
    ∷ []

record_all-new_example : Retains (codes "boots") log (record_all (new (codes "boots")) log)
record_all-new_example = record_all-new (codes "boots") log
