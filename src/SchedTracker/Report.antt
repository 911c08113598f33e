-- ===== src/SchedTracker/Report.antt =====
-- `retrieve_data` of time_tracker/sched_tracker.cpp, and what it keeps of a file `sched`.
use linux_scheduler_comparis.Base.{
  ℕ, ◌≡◌, Bool, true, false, Option, none, some, List, [], ◌∷◌, ◌++◌, Text, codes, ◌==◌,
  if◌then◌else◌, arith, Lacks,
}
use linux_scheduler_comparis.TimeTracker.Row.{starts_with_digit}
use linux_scheduler_comparis.Launcher.Split.Fields.{join}

-- A `std::ifstream`: the text that is left, and whether the next read still tries.
pub record Input : Type 0 where
  pub rest : Text
  pub good : Bool

abbrev push_line : ℕ → Text × Input → Text × Input
push_line c (line, input) = (c ∷ line, input)

-- The bytes up to the newline, which is taken too; the end of the text ends the line as well, and
-- then the next read fails.
pub take_line : Text → Text × Input
take_line [] = ([], record { rest = []; good = false })
take_line (c ∷ s) =
    let more = push_line c (take_line s) in
    if c == b'\n' then ([], record { rest = s; good = true }) else more

-- `std::getline(input, line)`: a read that does not try leaves `line` as it was.
abbrev getline_if : Bool → Text → Text → Text × Input
getline_if true rest line = take_line rest
getline_if false rest line = (line, record { rest = rest; good = false })

unfoldable pub getline : Input → Text → Text × Input
unfolding take_line
getline input line = getline_if input.good input.rest line

-- An entry of /proc: its name, its path as the stream prints it, and the text of its file `sched`,
-- if that opens. A stream that is open stays open, so the later tests of `is_open` pass.
pub record Entry : Type 0 where
  pub name : Text
  pub path : Text
  pub sched : Option Text

-- Five lines are read; the second is not written.
pub sched_lines : Text → Text
sched_lines text =
    let (line1, in1) = getline (record { rest = text; good = true }) [] in
    let (line2, in2) = getline in1 line1 in
    let (line3, in3) = getline in2 line2 in
    let (line4, in4) = getline in3 line3 in
    let (line5, in5) = getline in4 line4 in
    line1 ++ (b'\n' ∷ (line3 ++ (b'\n' ∷ (line4 ++ (b'\n' ∷ (line5 ++ (b'\n' ∷ [])))))))

abbrev lines_of : Option Text → Text
unfolding sched_lines
lines_of none = []
lines_of (some text) = sched_lines text

pub report_entries : List Entry → Text → Text
unfolding sched_lines
report_entries [] out = out
report_entries (e ∷ entries) out = report_entries entries (
    if starts_with_digit e.name then (out ++ (e.path ++ (b'\n' ∷ []))) ++ lines_of e.sched else out)

unfoldable pub retrieve_data : Text → List Entry → Text → Text
unfolding report_entries
retrieve_data uptime entries out =
    report_entries entries (out ++ (codes "[TIME] " ++ uptime)) ++ (b'\n' ∷ [])

abbrev newline : ℕ
newline = b'\n'

take_line-join :
    (line rest : Text)
    → Lacks newline line
    → take_line (line ++ (newline ∷ rest)) ≡ (line, record { rest = rest; good = true })
unfolding take_line
take_line-join [] rest h = ground arith
take_line-join (c ∷ line) rest h = ground (arith, take_line-join line rest)

-- Of a file that starts with five whole lines, the first and the third to the fifth are written,
-- each with a newline.
pub sched_lines-five :
    (l1 l2 l3 l4 l5 rest : Text)
    → Lacks newline l1
    → Lacks newline l2
    → Lacks newline l3
    → Lacks newline l4
    → Lacks newline l5
    → sched_lines (
        l1
        ++ (newline
            ∷ (l2 ++ (newline ∷ (l3 ++ (newline ∷ (l4 ++ (newline ∷ (l5 ++ (newline ∷ rest))))))))))
      ≡ join newline (l1 ∷ l3 ∷ l4 ∷ l5 ∷ [] ∷ [])
unfolding sched_lines getline
sched_lines-five l1 l2 l3 l4 l5 rest h1 h2 h3 h4 h5 = rw (
  take_line-join l1 _ h1,
  take_line-join l2 _ h2,
  take_line-join l3 _ h3,
  take_line-join l4 _ h4,
  take_line-join l5 _ h5,
)
