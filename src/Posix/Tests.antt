-- ===== src/Posix/Tests.antt =====
-- Runs of the platform layer (main_posix.c), and the theorems about it at concrete inputs.
use gcfflashero.Base.{ℕ, ◌≡◌, ◌^◌, ◌-◌, refl, true, List, [], ◌∷◌, ◌++◌, arith, replicate}
use gcfflashero.Gcf.{Gcf, State}
use gcfflashero.Gcf.Sample.{platform, upload}
use gcfflashero.Posix.Core.{core, core-pl_loop}
use gcfflashero.Posix.Loop.{Host, Polled, quiet, ready, rounds}
use gcfflashero.Posix.Timer.{quiets, delivered, timeouts, rounds-delivered, rounds-NeverQuiet}
use gcfflashero.Posix.{disconnect, Posix, Written, accepted, interrupted, failed}
use gcfflashero.Posix.Queue.{Op, byte_put, flushed, connected, disconnected}

-- An open line whose positions are about to wrap.
abbrev line : Posix
line = record {
  timer = 0;
  is_open = true;
  running = true;
  txbuf = replicate 2048 0;
  tx_rp = 2 ^ 32 - 1;
  tx_wp = 2 ^ 32 - 1;
  sent = [];
}

abbrev ops : List Op
ops =
    byte_put 1
    ∷ byte_put 2
    ∷ byte_put 3
    ∷ flushed (interrupted ∷ accepted 2 ∷ failed ∷ [])
    ∷ byte_put 4
    ∷ flushed (accepted 2 ∷ [])
    ∷ disconnected
    ∷ connected true
    ∷ []

abbrev request : List ℕ
request = 0xC0 ∷ []

-- The frame has six bytes: two go, one after an interrupt, then the three left, then nothing is there.
abbrev slow : List (List Written)
slow =
    (accepted 2 ∷ [])
    ∷ (interrupted ∷ accepted 1 ∷ failed ∷ [])
    ∷ (accepted 3 ∷ [])
    ∷ replicate 3 (failed ∷ [])

-- The core waits until 1250.
abbrev waiting_core : Host Gcf
waiting_core = record {
  line = record line { timer = 1250 };
  inner = upload State.v3_program_upload [] 0;
  calls = [];
}

rounds-delivered_example :
    rounds (core platform []) (quiets (1249 ∷ 1250 ∷ []) ++ quiet 1251 ∷ []) waiting_core
    ≡ rounds (core platform []) [] (delivered (core platform []) 3 waiting_core)
rounds-delivered_example =
    rounds-delivered (core platform []) (1249 ∷ 1250 ∷ []) 1251 [] waiting_core
      (core-pl_loop platform []) refl (λ e. omega arith) (omega arith, (omega arith, tt))
      (omega arith)

-- No line, and a standard input at its end.
abbrev at_end : List Polled
at_end = replicate 3 (ready true true [] [])

rounds-NeverQuiet_example :
    timeouts
      (rounds (core platform []) at_end (record waiting_core { line = disconnect line })).0.calls
    ≡ 0
rounds-NeverQuiet_example =
    rounds-NeverQuiet (core platform []) at_end (record waiting_core { line = disconnect line }) tt
