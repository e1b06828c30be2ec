-- ===== src/Dos/Order.antt =====
-- The bytes received on DOS reach GCF_Received in order, whatever the order of interrupts and rounds
-- of the main loop.
use gcfflashero.Base.{
  ℕ, ◌+◌, ◌≤◌, ◌≡◌, refl, sym, ap, ◌∙◌, List, [], ◌∷◌, ◌++◌, length, append-nil, append_assoc,
}
use gcfflashero.Dos.{Dos, Happening, interrupted, polled, step, run, take_chars}
use gcfflashero.Dos.Ring.{IsRing, waiting, waiting_count, waiting-port_isr, take_chars-waiting}

-- The characters of all interrupts.
abbrev pub arrived : List Happening → List ℕ
arrived [] = []
arrived (interrupted chars ∷ hs) = chars ++ arrived hs
arrived (polled ∷ hs) = arrived hs

-- No interrupt makes more than 1023 bytes wait.
abbrev pub RoomFor : Dos → List Happening → Type 0
RoomFor dos [] = Unit
RoomFor dos (interrupted chars ∷ hs) =
    (waiting_count dos.rx + length chars ≤ 1023) × RoomFor (step dos (interrupted chars)) hs
RoomFor dos (polled ∷ hs) = RoomFor (step dos polled) hs

-- What GCF_Received has been given, and what it will be given.
abbrev pub all_received : Dos → List ℕ
all_received dos = dos.handed ++ waiting dos.rx

-- From a sound receive ring of DOS, whatever the order of interrupts and rounds of PL_Loop, what
-- GCF_Received has been given and what still waits make up what they were before and the characters
-- of the interrupts, in order, if no interrupt makes more than 1023 bytes wait.
pub run_in_order :
    (hs : List Happening) (dos : Dos)
    → IsRing dos.rx
    → RoomFor dos hs
    → all_received (run dos hs) ≡ all_received dos ++ arrived hs
run_in_order [] dos h room = sym (append-nil (all_received dos))
run_in_order (interrupted chars ∷ hs) dos h room =
    let (stored, kept) = waiting-port_isr chars dos.rx h room.0 in
    run_in_order hs (step dos (interrupted chars)) kept room.1
    ∙ ap (λ t. dos.handed ++ t ++ arrived hs) stored
    ∙ simp append_assoc refl
run_in_order (polled ∷ hs) dos h room =
    let (taken, kept) = take_chars-waiting 128 dos.rx h in
    run_in_order hs (step dos polled) kept room
    ∙ ap (λ t. t ++ arrived hs)
        (append_assoc dos.handed (take_chars 128 dos.rx).0 (waiting (take_chars 128 dos.rx).1)
          ∙ ap (λ t. dos.handed ++ t) taken)
