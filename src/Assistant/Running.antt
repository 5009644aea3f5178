-- ===== src/Assistant/Running.antt =====
-- banc-assistant/src/main.rs: the monitor tasks from their reply on, and the steps of the firmware.
use banc.Common.{
  ℕ, ◌+◌, ◌%◌, ◌^◌, ◌≡◌, Bool, Option, none, some, List, ◌∷◌, ◌++◌, if◌then◌else◌, put,
}
use banc.Common.Text.{Text}
use banc.Icd.{PinEvent, Endpoint, RequestTy}
use banc.Assistant.{
  Board, Task, Device, At, replying, watching, publishing, returning, boot, dispatch, level_of,
}

module _ (B : Board) where
  open B use {Flex, Signal}

  -- What wakes a monitor task: its reply has gone out or has failed, the stop signal, an edge with the
  -- level and the time that are read after it, the end of a publication, the lock on the pins.
  pub data Wake : Type 0 where
    replied : (sent : Bool) → Wake
    stopped : Wake
    edge : (is_high : Flex → Bool) (now_us : ℕ) → Wake
    published : Wake
    locked : Wake

  -- What a task makes of it: the pins, the signals, what is left of the task, and the event that it
  -- publishes with its sequence number.
  pub record Woken : Type 0 where
    pub slots : ℕ → Option Flex
    pub stop : ℕ → Signal
    pub task : Option (Task B)
    pub event : Option (ℕ × PinEvent)

  goes_on : Device B → Task B → At → Option Woken
  goes_on d t at =
      some (record {
        slots = d.slots;
        stop = d.stop;
        task = some (record t { at = at });
        event = none;
      })

  -- `pin_monitor_handler` from its reply on; `none` where it does not wake up for this.
  unfoldable pub wake_at : Device B → Task B → At → Wake → Option Woken
  unfolding goes_on put
  wake_at d t replying (replied sent) = goes_on d t (if sent then watching 0 else returning)
  wake_at d t (watching seq) stopped = elim (B.wait (d.stop t.pin)) [
    | none ↦ none
    | some left ↦ some (record {
      slots = d.slots;
      stop = put d.stop t.pin left;
      task = some (record t { at = returning });
      event = none;
    })
  ]
  wake_at d t (watching seq) (edge is_high now_us) = some (record {
    slots = d.slots;
    stop = d.stop;
    task = some (record t { at = publishing seq });
    event =
        some
          (seq, record { pin = t.pin; level = level_of (is_high t.flex); timestamp_us = now_us });
  })
  wake_at d t (publishing seq) published = goes_on d t (watching ((seq + 1) % 2 ^ 16))
  wake_at d t returning locked =
      some (record {
        slots = put d.slots t.pin (some t.flex);
        stop = d.stop;
        task = none;
        event = none;
      })
  wake_at d t at w = none

  -- The tasks with what is left of one of them in its place.
  abbrev pub with_task : List (Task B) → Option (Task B) → List (Task B) → List (Task B)
  with_task before none after = before ++ after
  with_task before (some t) after = before ++ (t ∷ after)

  -- One step of the firmware: a request is dispatched, one of the tasks wakes up, or the chip resets.
  pub data Step (d : Device B) (d' : Device B) : Type 0 where
    request :
        (unique_id : ℕ) (version : Text) (is_high : Flex → Bool) (e : Endpoint) (rqst : RequestTy e)
        → (dispatch B unique_id version is_high d e rqst).1 ≡ d'
        → Step d d'
    wake :
        (before after : List (Task B)) (t : Task B) (w : Wake) (r : Woken)
        → d.tasks ≡ before ++ (t ∷ after)
        → wake_at d t t.at w ≡ some r
        → d' ≡ record { slots = r.slots; stop = r.stop; tasks = with_task before r.task after }
        → Step d d'
    sys_reset : (pads : ℕ → Flex) (stop : ℕ → Signal) → d' ≡ boot B pads stop → Step d d'

  -- The states that the firmware can come to.
  pub data Reach : Device B → Type 0 where
    booted : (pads : ℕ → Flex) (stop : ℕ → Signal) → Reach (boot B pads stop)
    later : {d d' : Device B} → Reach d → Step d d' → Reach d'
