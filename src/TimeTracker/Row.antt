-- ===== src/TimeTracker/Row.antt =====
-- `retrieve_data` of time_tracker/time_tracker.cpp: the row of text that one sample appends.
use linux_scheduler_comparis.Base.{Bool, false, List, [], ◌∷◌, ◌++◌, Text, if◌then◌else◌}
use linux_scheduler_comparis.Text.Number.{is_digit}

-- An entry of /proc: its name, and the first line of its file `stat` (empty if it cannot be read).
pub record Entry : Type 0 where
  pub name : Text
  pub stat : Text

-- `std::isdigit(filename[0])`
abbrev pub starts_with_digit : Text → Bool
starts_with_digit [] = false
starts_with_digit (c ∷ s) = is_digit c

-- The loop over the directory, as what it adds to the output.
pub stat_fields : List Entry → Text → Text
stat_fields [] out = out
stat_fields (e ∷ entries) out =
    stat_fields entries (if starts_with_digit e.name then out ++ (b',' ∷ e.stat) else out)

unfoldable pub retrieve_data : Text → List Entry → Text → Text
unfolding stat_fields
retrieve_data uptime entries out = stat_fields entries (out ++ uptime) ++ (b'\n' ∷ [])

-- The lines of the processes, in order.
unfoldable pub process_lines : List Entry → List Text
process_lines [] = []
process_lines (e ∷ entries) =
    let rest = process_lines entries in if starts_with_digit e.name then e.stat ∷ rest else rest
