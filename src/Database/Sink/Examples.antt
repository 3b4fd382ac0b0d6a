-- ===== src/Database/Sink/Examples.antt =====
-- The sink on a disk that is full: 28 is the error number ENOSPC.
use cloudnan_agent.Base.{ℕ, false, [], ◌∷◌, none, some, ◌≡◌, refl}
use cloudnan_agent.Database.Sink.Lifecycle.{write_all, close-write, run, run-abort}
use cloudnan_agent.Database.Sink.{
  FileCalls, write_error, Sink, new_sink, write, close, abort, writing, closing, aborting,
}

-- The state counts the calls.
abbrev full_disk : FileCalls ℕ ℕ
full_disk = record {
  write_file = λ p n. (n, (0, some 28));
  sync_file = λ n. (n, none);
  close_file = λ n. (n, none);
  remove_path = λ n. (n, none);
  is_not_exist = λ e. false;
}

abbrev opened_sink : Sink ℕ ℕ
opened_sink = new_sink 7

still_open_test : (write full_disk (1 ∷ []) opened_sink).0.closed ≡ false
unfolding write
still_open_test = refl

kept_error_test : (write full_disk (1 ∷ []) opened_sink).0.write_err ≡ some 28
unfolding write
kept_error_test = refl

close-write_example :
    (write_all full_disk ((2 ∷ []) ∷ []) (write full_disk (1 ∷ []) opened_sink).0
      ≡ (write full_disk (1 ∷ []) opened_sink).0)
    × ((close full_disk
          (write_all full_disk ((2 ∷ []) ∷ []) (write full_disk (1 ∷ []) opened_sink).0)).1
        ≡ some (write_error 28))
close-write_example =
    close-write full_disk (1 ∷ []) ((2 ∷ []) ∷ []) opened_sink 28 still_open_test kept_error_test

run-abort_example :
    run full_disk (writing (1 ∷ []) ∷ closing ∷ aborting ∷ []) (abort full_disk opened_sink).0
    ≡ (abort full_disk opened_sink).0
run-abort_example =
    run-abort full_disk (writing (1 ∷ []) ∷ closing ∷ aborting ∷ []) opened_sink (λ h. h)
