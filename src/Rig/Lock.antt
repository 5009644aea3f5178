-- ===== src/Rig/Lock.antt =====
-- banc-host/src/rig.rs: the lock file and its note.
use banc.Common.{
  ℕ, ◌<◌, ◌≡◌, refl, true, false, Option, none, some, List, [], ◌∷◌, ◌++◌, arith, leb, ap, sym, ◌∙◌,
  ◌≤◌, if◌then◌else◌, ok, err, All, length, take,
}
use banc.Common.Time.{Instant}
use banc.Rig.{
  LockHolder, Attempt, taken, failed, held_over, read_lock_holder, take_loop, write_note, drop_lock,
  held, opened, flock_status,
}

module _ {E : Type 0} (from_str : List ℕ → Option LockHolder) (deadline : Instant) where
  -- A try that finds the lock held before the deadline.
  abbrev pub IsRefused : Attempt E → Type 0
  IsRefused a = (a.locked ≡ ok false) × (a.now < deadline)

  take_loop-refused :
      (before after : List (Attempt E))
      → All IsRefused before
      → take_loop from_str deadline (before ++ after) ≡ take_loop from_str deadline after
  unfolding take_loop
  take_loop-refused [] after h = refl
  take_loop-refused (a ∷ before) after h = ground (arith, take_loop-refused before after)

  -- After any number of tries that find the lock held before the deadline, the next one decides: the
  -- lock is taken if it is free then; an error is passed on; if it is held and the deadline is over, the
  -- wait ends and names the holder whose note is in the file.
  pub take_loop_next :
      (before after : List (Attempt E)) (a : Attempt E)
      → All IsRefused before
      → take_loop from_str deadline (before ++ (a ∷ after)) ≡ elim a.locked [
        | err e ↦ failed e
        | ok true ↦ taken
        | ok false ↦
            if leb deadline a.now
            then held_over (read_lock_holder from_str a.content)
            else take_loop from_str deadline after
      ]
  unfolding take_loop
  take_loop_next before after a h = take_loop-refused before (a ∷ after) h

take_all : (xs : List ℕ) → take (length xs) xs ≡ xs
take_all [] = refl
take_all (x ∷ xs) = rw (take_all xs) refl

-- The file once its holder has cut it and written all of the note, where that has a JSON text.
abbrev pub noted : Option (List ℕ) → List ℕ → List ℕ
noted none old = write_note true none 0 old
noted (some json) old = write_note true (some json) (length json) old

-- What is read of such a file: the note, or nobody.
abbrev pub IsNoteOf : (List ℕ → Option LockHolder) → Option (List ℕ) → Option LockHolder → Type 0
IsNoteOf from_str none who = who ≡ none
IsNoteOf from_str (some json) who =
    (note : LockHolder) × (who ≡ some note) × (from_str json ≡ some note)

noted-read :
    (from_str : List ℕ → Option LockHolder) (json : Option (List ℕ)) (old : List ℕ)
    (who : Option LockHolder)
    → IsNoteOf from_str json who
    → from_str [] ≡ none
    → from_str (noted json old) ≡ who
unfolding write_note
noted-read from_str none old who e k = k ∙ sym e
noted-read from_str (some json) old who (note, e, f) k = rw (take_all json) (f ∙ sym e)

-- What a process that asks for the lock in vain reads of its holder, and what `banc` reads.
abbrev pub Learns :
    {E : Type 0}
    → (List ℕ → Option LockHolder)
    → Instant
    → List (Attempt E)
    → List ℕ
    → Option LockHolder
    → Type 0
Learns {E} from_str deadline tries content who =
    (take_loop from_str deadline tries ≡ held_over who)
    × (flock_status {E = E} from_str (opened (ok false)) (some content) ≡ ok (held who))

-- A process that has the lock has cut the file and written its note, if the note has a JSON text,
-- from which JSON reads the note again, as it reads none from an empty file. Another that has tried
-- in vain before its deadline, and once at or after it, ends with the name of that note, or of nobody
-- where it was not written, and so does a look at the lock; after the drop the file names nobody.
pub contender_told :
    {E : Type 0} (from_str : List ℕ → Option LockHolder) (json : Option (List ℕ)) (old : List ℕ)
    (who : Option LockHolder) (deadline : Instant) (before after : List (Attempt E)) (a : Attempt E)
    → IsNoteOf from_str json who
    → from_str [] ≡ none
    → All (IsRefused from_str deadline) before
    → a.locked ≡ ok false
    → deadline ≤ a.now
    → a.content ≡ some (noted json old)
    → Learns from_str deadline (before ++ (a ∷ after)) (noted json old) who
      × (read_lock_holder from_str (some (drop_lock true (noted json old))) ≡ none)
unfolding flock_status drop_lock
contender_told from_str json old who deadline before after a e k h f le c =
    let r = noted-read from_str json old who e k in
    (
      (
        take_loop_next from_str deadline before after a h ∙ ground (arith, f, le, c, r),
        ap (λ w. ok (held w)) r,
      ),
      k,
    )
