-- ===== src/Dos/Tests.antt =====
-- Runs of the receive ring of main_dos.c, and the theorem about it at concrete inputs.
use gcfflashero.Base.{◌≡◌, refl, arith, List, [], ◌∷◌, ◌++◌, replicate}
use gcfflashero.Dos.{Dos, Happening, interrupted, polled, run, port_isr, store_chars, take_chars}
use gcfflashero.Dos.Order.{all_received, run_in_order}
use gcfflashero.Dos.Ring.{slots}

-- The ring with its head and tail near the end.
abbrev near_end : Dos
near_end = record {
  rx = record { rx_buf = replicate 1022 0 ++ 7 ∷ 0 ∷ []; rx_head = 1022; rx_tail = 1023 };
  handed = 5 ∷ [];
}

abbrev happenings : List Happening
happenings = interrupted (8 ∷ 9 ∷ []) ∷ polled ∷ interrupted (10 ∷ []) ∷ []

round_the_end : (run near_end happenings).handed ≡ 5 ∷ 7 ∷ 8 ∷ 9 ∷ []
unfolding port_isr store_chars take_chars
round_the_end = refl

run_in_order_example : all_received (run near_end happenings) ≡ 5 ∷ 7 ∷ 8 ∷ 9 ∷ 10 ∷ []
unfolding port_isr store_chars take_chars slots
run_in_order_example =
    run_in_order happenings near_end
      (record { size = refl; head = omega arith; tail = omega arith })
      (omega arith, (omega arith, tt))
