-- ===== src/Gcf/Started.antt =====
-- What the command line of gcf.c leaves for the first state: a task of its own, or the end.
use gcfflashero.Base.{
  sym, subst, ◌∙◌, Bool, true, false, List, [], ◌∷◌, ◌++◌, Option, ℕ, ◌==◌, leb, get_or, drop, none,
  some, is_empty, not, ◌||◌, length, if◌then◌else◌,
}
use gcfflashero.Gcf.{
  Gcf, Platform, shut_down, State, Task, t_none, t_reset, t_program, t_list, t_connect, t_help,
}
use gcfflashero.Gcf.Clock.{Clock, clock, ActionAt, shut_down_over}
use gcfflashero.Gcf.CommandLine.{
  Outcome, success, failed, Parsed, go, stop, and_then, reset_fields, take_device, take_file,
  take_timeout, plain_option, argument_option, before_argument, wants_argument, parse_options,
  choose_task, process_commandline, finish_line, parsed_file, file_content, within_hour,
  is_accepted, is_stream_ok,
}
use gcfflashero.Gcf.PathType.{get_device_type}
use gcfflashero.Gcf.Kept.{get_devices-Kept, get_device_type-Kept}
use gcfflashero.GcfFile
use gcfflashero.GcfFile.{GcfFile}
use gcfflashero.Gcf.Reset.{get_devices}
use gcfflashero.SStream

-- The options have not yet set the first state, but for that of `-l`.
abbrev NotStarted : State → Type 0
NotStarted State.void = Unit
NotStarted State.list_devices = Unit
NotStarted _ = ⊥

abbrev AtList : State → Type 0
AtList State.list_devices = Unit
AtList _ = ⊥

abbrev TaskSound : Task → Outcome → State → Type 0
TaskSound t_none failed s = Unit
TaskSound t_none success s = ⊥
TaskSound t_list ret s = AtList s
TaskSound _ ret s = Unit

abbrev Sound : Outcome → State → Task → Type 0
Sound ret s t = NotStarted s × TaskSound t ret s

abbrev ParsedAt : Parsed → Type 0
ParsedAt (stop g) = Unit
ParsedAt (go ret g) = Sound ret g.state g.task

record ParsedSound (r : Parsed) : Type 0 where
  sound : ParsedAt r

stopped : {g : Gcf} → ParsedSound (stop g)
stopped = record { sound = tt }

goes : {ret : Outcome} {g : Gcf} → Sound ret g.state g.task → ParsedSound (go ret g)
goes s = record { sound = s }

pick_parsed :
    (b : Bool) {x y : Parsed} → ParsedSound x → ParsedSound y → ParsedSound (if b then x else y)
pick_parsed true hx hy = hx
pick_parsed false hx hy = hy

and_then-ParsedSound :
    (r : Parsed) (more : Outcome → Gcf → Parsed)
    → ParsedSound r
    → ((ret : Outcome) (g : Gcf) → Sound ret g.state g.task → ParsedSound (more ret g))
    → ParsedSound (and_then r more)
and_then-ParsedSound (stop g) more h next = stopped
and_then-ParsedSound (go ret g) more h next = next ret g h.sound

plain_option-ParsedSound :
    (letter : ℕ) (ret : Outcome) (g : Gcf)
    → Sound ret g.state g.task
    → ParsedSound (plain_option letter ret g)
unfolding plain_option
plain_option-ParsedSound letter ret g s = pick_parsed (letter == b'r') (goes (s.0, tt)) (
    pick_parsed (letter == b'c') (goes (s.0, tt)) (
      pick_parsed (letter == b'l') (goes (tt, tt))
        (pick_parsed (letter == b'?' || letter == b'h') (goes (s.0, tt)) stopped)))

take_device-ParsedSound :
    (arg : List ℕ) (ret : Outcome) (g : Gcf)
    → Sound ret g.state g.task
    → ParsedSound (elim (take_device arg g) [ none ↦ stop g | some g' ↦ go ret g' ])
unfolding take_device
take_device-ParsedSound arg ret g s = taken (leb 255 (length arg))
  where
    taken :
        (b : Bool)
        → ParsedSound (elim (if b then none else some (record g { devpath = arg })) [
          | none ↦ stop g
          | some g' ↦ go ret g'
        ])
    taken true = stopped
    taken false = goes s

parsed_file-ParsedSound :
    (ret : Outcome) (g : Gcf) (r : GcfFile.Status × GcfFile)
    → Sound ret g.state g.task
    → ParsedSound (parsed_file ret g r)
parsed_file-ParsedSound ret g (status, file) s = pick_parsed (is_accepted status) (goes s) stopped

file_content-ParsedSound :
    (arg : List ℕ) (ret : Outcome) (g : Gcf) (o : Option (List ℕ))
    → Sound ret g.state g.task
    → ParsedSound (file_content arg ret g o)
file_content-ParsedSound arg ret g none s = stopped
file_content-ParsedSound arg ret g (some bytes) s =
    pick_parsed (is_empty bytes) stopped (parsed_file-ParsedSound ret g _ s)

within_hour-ParsedSound :
    (ret : Outcome) (g : Gcf) (o : Option ℕ)
    → Sound ret g.state g.task
    → ParsedSound (within_hour ret g o)
within_hour-ParsedSound ret g none s = stopped
within_hour-ParsedSound ret g (some n) s = goes s

take_file-ParsedSound :
    (p : Platform) (arg : List ℕ) (ret : Outcome) (g : Gcf)
    → Sound ret g.state g.task
    → ParsedSound (take_file p arg ret g)
unfolding take_file
take_file-ParsedSound p arg ret g s =
    pick_parsed (leb 255 (length arg)) stopped
      (file_content-ParsedSound arg ret g (p.read_file arg) s)

take_timeout-ParsedSound :
    (arg : List ℕ) (ret : Outcome) (g : Gcf)
    → Sound ret g.state g.task
    → ParsedSound (take_timeout arg ret g)
unfolding take_timeout
take_timeout-ParsedSound arg ret g s =
    pick_parsed (is_stream_ok (SStream.get_long (SStream.init (some arg) (length arg))).0.status)
      (within_hour-ParsedSound ret g _ s) stopped

before_argument-Sound :
    (letter : ℕ) (ret : Outcome) (g : Gcf)
    → Sound ret g.state g.task
    → Sound ret (before_argument letter g).state (before_argument letter g).task
before_argument-Sound letter ret g s = chosen (letter == b'f')
  where
    chosen :
        (b : Bool)
        → Sound ret
            (if b then record g { task = t_program } else g).state
            (if b then record g { task = t_program } else g).task
    chosen true = (s.0, tt)
    chosen false = s

argument_option-ParsedSound :
    (p : Platform) (letter : ℕ) (arg : List ℕ) (ret : Outcome) (g : Gcf)
    → Sound ret g.state g.task
    → ParsedSound (argument_option p letter arg ret g)
unfolding argument_option
argument_option-ParsedSound p letter arg ret g s =
    pick_parsed (letter == b'd') (take_device-ParsedSound arg ret g s) (
      pick_parsed (letter == b'f') (take_file-ParsedSound p arg ret g s)
        (pick_parsed (letter == b't') (take_timeout-ParsedSound arg ret g s) (goes s)))

parse_options-ParsedSound :
    (p : Platform) (args : List (List ℕ)) (ret : Outcome) (g : Gcf)
    → Sound ret g.state g.task
    → ParsedSound (parse_options p args ret g)
unfolding parse_options
parse_options-ParsedSound p [] ret g s = goes s
parse_options-ParsedSound p (arg ∷ []) ret g s =
    pick_parsed (not (get_or arg 0 0 == b'-')) (goes s) (
      pick_parsed (wants_argument (get_or arg 1 0)) stopped
        (plain_option-ParsedSound (get_or arg 1 0) ret g s))
parse_options-ParsedSound p (arg ∷ next ∷ rest) ret g s =
    pick_parsed (not (get_or arg 0 0 == b'-')) (parse_options-ParsedSound p (next ∷ rest) ret g s) (
      pick_parsed (wants_argument (get_or arg 1 0))
        (pick_parsed (get_or next 0 0 == b'-') stopped (
          and_then-ParsedSound _ _
            (argument_option-ParsedSound p (get_or arg 1 0) next ret _
              (before_argument-Sound (get_or arg 1 0) ret g s))
            (parse_options-ParsedSound p rest)))
        (and_then-ParsedSound _ _ (plain_option-ParsedSound (get_or arg 1 0) ret g s)
          (parse_options-ParsedSound p (next ∷ rest))))

module _ (c0 : Clock) where
  abbrev ReadyAt : Outcome × Gcf → Type 0
  ReadyAt (failed, g) = Unit
  ReadyAt (success, g) = ActionAt (clock c0 g) g.state g.task

  -- What the command line leaves.
  pub record Ready (r : Outcome × Gcf) : Type 0 where
    pub ready : ReadyAt r

  pick-Ready : (b : Bool) {x y : Outcome × Gcf} → Ready x → Ready y → Ready (if b then x else y)
  pick-Ready true hx hy = hx
  pick-Ready false hx hy = hy

  listed-Ready :
      (ret : Outcome) (s : State) (g : Gcf)
      → AtList s
      → Ready (ret, record g { state = s; task = t_list })
  listed-Ready failed s g at = record { ready = tt }
  listed-Ready success State.list_devices g at = record { ready = tt }
  listed-Ready success _ g at = absurd at

  helped-Ready :
      (s : State) (g : Gcf)
      → NotStarted s
      → Ready
          (success, record g { state = s; task = t_help; effects = g.effects ++ shut_down ∷ [] })
  helped-Ready State.void g at = record { ready = shut_down_over c0 g.effects }
  helped-Ready State.list_devices g at = record { ready = tt }
  helped-Ready _ g at = absurd at

  choose_task-Ready :
      (ret : Outcome) (t : Task) (g : Gcf)
      → Sound ret g.state t
      → Ready (choose_task ret (record g { task = t }))
  unfolding choose_task
  choose_task-Ready ret t_program g s =
      pick-Ready (is_empty g.devpath || is_empty g.file.fname) (record { ready = tt })
        (record { ready = tt })
  choose_task-Ready ret t_connect g s =
      pick-Ready (is_empty g.devpath) (record { ready = tt }) (record { ready = tt })
  choose_task-Ready ret t_reset g s =
      pick-Ready (is_empty g.devpath) (record { ready = tt }) (record { ready = tt })
  choose_task-Ready ret t_help g s = helped-Ready g.state g s.0
  choose_task-Ready ret t_list g s = listed-Ready ret g.state g s.1
  choose_task-Ready failed t_none g s = record { ready = tt }
  choose_task-Ready success t_none g s = absurd s.1

  finish_line-Ready : (p : Platform) (r : Parsed) → ParsedSound r → Ready (finish_line p r)
  finish_line-Ready p (stop g) h = record { ready = tt }
  finish_line-Ready p (go ret g) h =
      let g' = get_device_type (get_devices p g) in
      let k = get_devices-Kept p g in
      let k' = get_device_type-Kept (get_devices p g) in
      choose_task-Ready ret g'.task g' (
        subst (λ s. Sound ret s g'.task) (sym (k'.same_state ∙ k.same_state))
          (subst (λ t. Sound ret g.state t) (sym (k'.same_task ∙ k.same_task)) h.sound))

  start_sound : (b : Bool) → TaskSound (if b then t_help else t_none) failed State.void
  start_sound true = tt
  start_sound false = tt

  -- gcfProcessCommandline leaves a state that EV_ACTION may be sent to, or it fails.
  pub process_commandline-Ready : (p : Platform) (g : Gcf) → Ready (process_commandline p g)
  unfolding process_commandline
  process_commandline-Ready p g =
      finish_line-Ready p (parse_options p (drop 1 g.argv) failed (reset_fields g)) (
        parse_options-ParsedSound p (drop 1 g.argv) failed (reset_fields g)
          (tt, start_sound (length g.argv == 1)))
