-- ===== src/Probe/Flashing.antt =====
-- banc-probe/src/remote.rs and banc-probe/src/lib.rs: which device is opened, and what flashing a
-- remote one means.
use banc.Common.{◌≡◌, ◌⊎◌, true, false, err, Result, ok}
use banc.Common.Text.{Text}
use banc.Probe.Target.{Command, Output, RemoteError, spawning, ended_badly}

module _ {E S : Type 0} (exec : Command → S → Result E Output × S) where
  -- A command that is run from one state to another and ends with success.
  abbrev pub Succeeds : Command → S → S → Type 0
  Succeeds cmd s s' = (o : Output) × (exec cmd s ≡ (ok o, s')) × (o.success ≡ true)

  -- A command that cannot be started, or ends without success, and what is said of it.
  abbrev pub Fails : Command → (what : Text) → S → RemoteError E → S → Type 0
  Fails cmd what s x s' =
      ((e : E) × (exec cmd s ≡ (err e, s')) × (x ≡ spawning what e))
      ⊎ ((o : Output) × (exec cmd s ≡ (ok o, s')) × (o.success ≡ false) × (x ≡ ended_badly what o))
