-- ===== src/Analysis/Simulations/Lines.antt =====
-- How the lines that the simulation scripts print move the scan of a log.
use v_swarm_u.Base.{suc, ◌≡◌, refl, Bool, true, false, List, [], ◌∷◌, ◌++◌, arith, if◌then◌else◌}
use mathlib.Core.List.{append_assoc}
use v_swarm_u.Base.Int.{ℤ, pos, ◌-ℤ◌}
use v_swarm_u.Base.Text.{Text, codes, show, in_text}
use v_swarm_u.Base.Text.Search.{show-Low, in_text-Low}
use v_swarm_u.Control.{
  Args, evaluation, ExitEvent, kind, Kind, begin_kind, end_kind, Action, say, Counters,
}
use v_swarm_u.Control.Actions.{is_work_end}
use v_swarm_u.Control.RunSim
use v_swarm_u.Analysis.Simulations.{Scan, is_done, is_end, note_command, scan_lines}

-- The lines that some actions print to the log.
abbrev pub printed : List Action → List Text
printed [] = []
printed (say line ∷ rest) = (line ++ (10 ∷ [])) ∷ printed rest
printed (_ ∷ rest) = printed rest

abbrev pub is_work : Kind → Bool
is_work begin_kind = true
is_work end_kind = true
is_work _ = false

-- Only work items.
abbrev pub AllWork : List ExitEvent → Type 0
AllWork [] = Unit
AllWork (e ∷ es) = (is_work (kind e.cause) ≡ true) × AllWork es

-- The tail of a coloured line with a number in it.
abbrev coloured : ℤ → Text
coloured id = (show id ++ (27 ∷ codes "[00m")) ++ (10 ∷ [])

coloured-done : (id : ℤ) → in_text (codes "Simulation done") (coloured id) ≡ false
unfolding in_text
coloured-done id =
    rw (append_assoc (show id) (27 ∷ codes "[00m") (10 ∷ []))
      (in_text-Low b'S' (codes "imulation done") (show id) _ (omega arith) (show-Low id))

coloured-end : (id : ℤ) → in_text (codes "End invokation:") (coloured id) ≡ false
unfolding in_text
coloured-end id =
    rw (append_assoc (show id) (27 ∷ codes "[00m") (10 ∷ []))
      (in_text-Low b'E' (codes "nd invokation:") (show id) _ (omega arith) (show-Low id))

start_line :
    (id : ℤ) (sc : Scan) (rest : List Text)
    → scan_lines sc (((27 ∷ codes "[93m Start invokation: ") ++ coloured id) ∷ rest)
      ≡ scan_lines sc rest
unfolding scan_lines is_done is_end note_command
start_line id sc rest = ground (arith, coloured-done id, coloured-end id)

end_line :
    (id : ℤ) (sc : Scan) (rest : List Text)
    → scan_lines sc (((27 ∷ codes "[93m End invokation: ") ++ coloured id) ∷ rest)
      ≡ scan_lines (record sc { count = suc sc.count }) rest
unfolding scan_lines is_done is_end note_command
end_line id sc rest = ground (arith, coloured-done id)

abbrev warming_done : Text
warming_done = (27 ∷ codes "[92m Warming done") ++ (27 ∷ codes "[00m") ++ (10 ∷ [])

abbrev measuring_done : Text
measuring_done = (27 ∷ codes "[92m Measuring done") ++ (27 ∷ codes "[00m") ++ (10 ∷ [])

abbrev simulation_starts : Text
simulation_starts = codes "Start simulation..." ++ (10 ∷ [])

pub const_lines :
    (sc : Scan) (rest : List Text)
    → (scan_lines sc (warming_done ∷ rest) ≡ scan_lines sc rest)
      × (scan_lines sc (measuring_done ∷ rest) ≡ scan_lines sc rest)
      × (scan_lines sc (simulation_starts ∷ rest) ≡ scan_lines sc rest)
unfolding scan_lines is_done is_end note_command
const_lines sc rest = (refl, refl, refl)

-- How a work item moves the scan.
abbrev pub counted : ExitEvent → Scan → Scan
counted e sc = record sc { count = if is_work_end e then suc sc.count else sc.count }

pub handle-scan :
    (args : Args) (e : ExitEvent) (s : Counters) (sc : Scan) (rest : List Text)
    → args.mode ≡ evaluation
    → is_work (kind e.cause) ≡ true
    → scan_lines sc (printed (RunSim.handle args e s).actions ++ rest)
      ≡ scan_lines (counted e sc) rest
unfolding RunSim.handle
handle-scan args e s sc rest m w =
    let id = e.code -ℤ pos 100 in
    ground (
      arith,
      start_line id sc rest,
      start_line id sc (warming_done ∷ rest),
      const_lines sc rest,
      end_line id sc rest,
      end_line id sc (measuring_done ∷ rest),
      const_lines (record sc { count = suc sc.count }) rest,
    )

pub printed-append : (xs ys : List Action) → printed (xs ++ ys) ≡ printed xs ++ printed ys
printed-append [] ys = refl
printed-append (say line ∷ xs) ys = ground (arith, printed-append xs ys)
printed-append (_ ∷ xs) ys = printed-append xs ys

-- Lines that end no loop over a log: what follows them is read with what they left.
pub scan_lines-append :
    (sc : Scan) (xs ys : List Text)
    → (scan_lines sc xs).success ≡ false
    → scan_lines sc (xs ++ ys) ≡ scan_lines (scan_lines sc xs) ys
unfolding scan_lines
scan_lines-append sc [] ys h = refl
scan_lines-append sc (line ∷ xs) ys h =
    let next : Scan = record sc {
      cmd = note_command sc.cmd line;
      count = if is_end line then suc sc.count else sc.count;
    } in
    ground (arith, h, scan_lines-append next xs ys)
