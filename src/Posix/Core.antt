-- ===== src/Posix/Core.antt =====
-- The core (gcf.c) on the platform layer (main_posix.c): what the core asks for while it handles one
-- call is done on the line, in order.
use gcfflashero.Base.{suc, ◌≡◌, ap, Option, none, some, List, [], ◌∷◌, length, drop, drop-length}
use gcfflashero.Gcf.{
  Gcf, Platform, pl_loop, Effect, set_timeout, sleep, clear_timeout, disconnect, shut_down,
  ftdi_reset, rasp_bee_reset, connect_to, wrote, sent_flagged,
}
use gcfflashero.Gcf.Machine.{handle}
use gcfflashero.Gcf.Machine
use gcfflashero.Posix
use gcfflashero.Posix.{Posix, Written}
use gcfflashero.Posix.Loop.{Call, event, received}
use gcfflashero.Protocol.{send_flagged}

module _ (p : Platform) (results : List Written) where
  -- One call of the platform layer.
  abbrev pub apply : Effect → Posix → Posix
  apply (set_timeout ms) pl = Posix.set_timeout p.now ms pl
  apply (sleep ms) pl = pl
  apply clear_timeout pl = Posix.clear_timeout pl
  apply disconnect pl = Posix.disconnect pl
  apply shut_down pl = Posix.shut_down pl
  apply ftdi_reset pl = pl
  apply rasp_bee_reset pl = pl
  apply (connect_to path baudrate) pl = (Posix.connect p.connects pl).0
  apply (wrote bytes) pl = (Posix.write bytes results pl).0
  apply (sent_flagged payload) pl = elim (send_flagged (suc (length payload)) payload) [
    | none ↦ pl
    | some wire ↦ (Posix.write wire results pl).0
  ]

  abbrev pub apply_all : List Effect → Posix → Posix
  apply_all [] pl = pl
  apply_all (e ∷ es) pl = apply_all es (apply e pl)

  -- The new calls of the platform layer are those behind the ones made before.
  abbrev pub after : Posix × Gcf → Option Gcf → Posix × Gcf
  after s none = s
  after (pl, gcf) (some gcf') = (apply_all (drop (length gcf.effects) gcf'.effects) pl, gcf')

  -- GCF_HandleEvent and GCF_Received
  abbrev pub core : Call → Posix × Gcf → Posix × Gcf
  core (event e) (pl, gcf) = after (pl, gcf) (handle 7 p e gcf)
  core (received bytes) (pl, gcf) = after (pl, gcf) (Machine.received 7 p bytes gcf)

  -- The round's own event changes nothing.
  pub core-pl_loop : (s : Posix × Gcf) → core (event pl_loop) s ≡ s
  unfolding handle
  core-pl_loop (pl, gcf) = ap (λ es. (apply_all es pl, gcf)) (drop-length gcf.effects)
