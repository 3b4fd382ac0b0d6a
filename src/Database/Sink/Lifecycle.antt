-- ===== src/Database/Sink/Lifecycle.antt =====
-- Sequences of calls of the sink: closing behind a failed write, and calls behind an abort.
use cloudnan_agent.Base.{
  Bool, true, false, List, [], ◌∷◌, Option, none, some, if◌then◌else◌, Bytes, ◌≡◌, refl, sym, ap,
  subst, ◌∙◌, inl, inr, Bool-cases,
}
use cloudnan_agent.Database.Sink.{
  FileCalls, SinkError, write_error, Sink, write, close, finish, sticky, write_on_closed, abort,
  removed, shut, shut_by, Operation, writing, closing, aborting, step,
}

module _ {State OsError : Type 0} (calls : FileCalls State OsError) where
  -- Writes one behind the other, whatever each of them answers.
  unfoldable pub write_all : List Bytes → Sink State OsError → Sink State OsError
  unfolding write
  write_all [] s = s
  write_all (p ∷ ps) s = write_all ps (write calls p s).0

  failed_write :
      (p : Bytes) (s : Sink State OsError) (e : OsError)
      → s.write_err ≡ some e
      → (write calls p s).0 ≡ s
  unfolding write
  failed_write p s e h = elim (Bool-cases s.closed) [
    | inl c ↦ ap (λ b. (if b then (s, some write_on_closed) else sticky calls p s s.write_err).0) c
    | inr c ↦
        ap (λ b. (if b then (s, some write_on_closed) else sticky calls p s s.write_err).0) c
        ∙ ap (λ o. (sticky calls p s o).0) h
  ]

  write_all_failed :
      (ps : List Bytes) (s : Sink State OsError) (e : OsError)
      → s.write_err ≡ some e
      → write_all ps s ≡ s
  unfolding write_all
  write_all_failed [] s e h = refl
  write_all_failed (p ∷ ps) s e h =
      ap (write_all ps) (failed_write p s e h) ∙ write_all_failed ps s e h

  close_failed :
      (s : Sink State OsError) (e : OsError)
      → s.closed ≡ false
      → s.write_err ≡ some e
      → (close calls s).1 ≡ some (write_error e)
  unfolding close
  close_failed s e c h =
      ap (λ b. (if b then (s, none) else finish calls (record s { closed = true }) s.write_err).1) c
      ∙ ap (λ o. (finish calls (record s { closed = true }) o).1) h

  -- If a write leaves the sink open with an error kept, later writes of any texts leave the
  -- sink and its file as they are, and closing it then answers with that error.
  pub close-write :
      (p : Bytes) (ps : List Bytes) (s : Sink State OsError) (e : OsError)
      → (write calls p s).0.closed ≡ false
      → (write calls p s).0.write_err ≡ some e
      → (write_all ps (write calls p s).0 ≡ (write calls p s).0)
        × ((close calls (write_all ps (write calls p s).0)).1 ≡ some (write_error e))
  close-write p ps s e c h =
      let t = (write calls p s).0 in
      let same = write_all_failed ps t e h in
      (same, ap (λ x. (close calls x).1) same ∙ close_failed t e c h)

  unfoldable pub run : List (Operation calls) → Sink State OsError → Sink State OsError
  run [] s = s
  run (o ∷ os) s = run os (step calls o s).0

  Over : Sink State OsError → Type 0
  Over s = (s.closed ≡ true) × (s.aborted ≡ true)

  step-Over : (o : Operation calls) (s : Sink State OsError) → Over s → (step calls o s).0 ≡ s
  unfolding write close abort Over
  step-Over (writing p) s (c, a) =
      ap (λ b. (if b then (s, some write_on_closed) else sticky calls p s s.write_err).0) c
  step-Over closing s (c, a) =
      ap (λ b. (if b then (s, none) else finish calls (record s { closed = true }) s.write_err).0) c
  step-Over aborting s (c, a) =
      ap
        (λ b.
          (if b
            then (s, none)
            else removed calls (shut calls (record s { aborted = true }))
                (calls.remove_path (shut calls (record s { aborted = true })).file)).0)
        a

  run-Over : (os : List (Operation calls)) (s : Sink State OsError) → Over s → run os s ≡ s
  unfolding run
  run-Over [] s h = refl
  run-Over (o ∷ os) s h = ap (run os) (step-Over o s h) ∙ run-Over os s h

  removed-Over :
      (t : Sink State OsError) (r : State × Option OsError) → Over t → Over (removed calls t r).0
  unfolding Over
  removed-Over t (file, none) h = h
  removed-Over t (file, some e) h = elim (Bool-cases (calls.is_not_exist e)) [
    | inl n ↦ rw n h
    | inr n ↦ rw n h
  ]

  shut-Over :
      (b : Bool) (s : Sink State OsError)
      → s.closed ≡ b
      → Over (shut_by calls b (record s { aborted = true }))
  unfolding Over
  shut-Over true s c = (c, refl)
  shut-Over false s c = (refl, refl)

  abort-Over :
      (s : Sink State OsError) → (s.aborted ≡ true → s.closed ≡ true) → Over (abort calls s).0
  unfolding abort
  abort-Over s sound = elim (Bool-cases s.aborted) [
    | inl a ↦
        subst (λ b. Over (if b then (s, none) else aborted_now).0) (sym a)
          (unfold Over in (sound a, a))
    | inr a ↦
        subst (λ b. Over (if b then (s, none) else aborted_now).0) (sym a)
          (removed-Over t (calls.remove_path t.file) (shut-Over s.closed s refl))
  ]
    where
      t : Sink State OsError
      t = shut calls (record s { aborted = true })

      aborted_now : Sink State OsError × Option (SinkError OsError)
      aborted_now = removed calls t (calls.remove_path t.file)

  -- A sink that was aborted stays as it is, file included, whatever sequence of writes,
  -- closings and abortings follows, if it was closed in case it was aborted before.
  pub run-abort :
      (os : List (Operation calls)) (s : Sink State OsError)
      → (s.aborted ≡ true → s.closed ≡ true)
      → run os (abort calls s).0 ≡ (abort calls s).0
  run-abort os s sound = run-Over os (abort calls s).0 (abort-Over s sound)
