-- ===== src/Perftest/Report.antt =====
-- examples/perftest.cc: `reset_report` and `print_report`. The clock counts nanoseconds. The averages
-- of the final report are numbers with a decimal point, so it is kept as what they are made of.
use ucxpp.Base.{
  ℕ, ◌+◌, ◌-◌, ◌*◌, ◌/◌, ◌%◌, ◌^◌, ◌≤◌, List, [], ◌∷◌, ◌++◌, Bool, false, ltb, ltb→lt,
  if◌then◌else◌, length, length-append, Bool-cases, inl, inr, arith,
}

-- `g_counter`, `g_last_counter`, `g_last_tick` and `g_start`
pub record Report : Type 0 where
  pub counter : ℕ
  pub last_counter : ℕ
  pub last_tick : ℕ
  pub start : ℕ

pub data Line : Type 0 where
  rate : (counter per_second : ℕ) → Line
  averages : (elapsed counter message_size : ℕ) → Line

unfoldable pub reset_report : (now : ℕ) → Report → Report
reset_report now r = record r { counter = 0; last_counter = 0; last_tick = now }

-- `print_report`, with the time that it reads.
unfoldable pub print_report : (message_size now : ℕ) → (final : Bool) → Report → List Line × Report
print_report message_size now final r =
    let elapsed = now - r.last_tick in
    if final
    then (averages (now - r.start) r.counter message_size ∷ [], r)
    else if ltb 1000000000 elapsed
    then (
      rate r.counter
            ((r.counter + 2 ^ 64 - r.last_counter) % 2 ^ 64 * 1000000000 % 2 ^ 64 / elapsed)
          ∷ [],
      record r { last_counter = r.counter; last_tick = now },
    )
    else ([], r)

-- The reports of the tasks, by the counter and the time at each.
unfoldable pub report_run : (message_size : ℕ) → List (ℕ × ℕ) → Report → List Line × Report
unfolding print_report
report_run message_size [] r = ([], r)
report_run message_size ((counter, now) ∷ reports) r =
    let (l, r') = print_report message_size now false (record r { counter = counter }) in
    let (m, r'') = report_run message_size reports r' in (l ++ m, r'')

-- No report is later than `end`.
abbrev pub AreUntil : (end : ℕ) → List (ℕ × ℕ) → Type 0
AreUntil end [] = Unit
AreUntil end ((counter, now) ∷ reports) = (now ≤ end) × AreUntil end reports

print_report-tick :
    (message_size now end : ℕ) (r : Report)
    → now ≤ end
    → r.last_tick ≤ end
    → let (l, r') = print_report message_size now false r in
      (r.last_tick + length l * 1000000000 ≤ r'.last_tick) × (r'.last_tick ≤ end)
unfolding print_report
print_report-tick message_size now end r h k =
    elim (Bool-cases (ltb 1000000000 (now - r.last_tick))) [
      | inl late ↦ rw late (omega (arith, ltb→lt _ _ late), h)
      | inr early ↦ rw early (omega arith, k)
    ]

report_run-tick :
    (message_size end : ℕ) (reports : List (ℕ × ℕ)) (r : Report)
    → AreUntil end reports
    → r.last_tick ≤ end
    → r.last_tick + length (report_run message_size reports r).0 * 1000000000 ≤ end
unfolding report_run
report_run-tick message_size end [] r h k = omega arith
report_run-tick message_size end ((counter, now) ∷ reports) r h k =
    let r1 = record r { counter = counter } in
    let p = print_report message_size now false r1 in
    let (gap, late) = print_report-tick message_size now end r1 h.0 k in
    omega (
      arith,
      gap,
      report_run-tick message_size end reports p.1 h.1 late,
      length-append p.0 (report_run message_size reports p.1).0,
    )

-- However often the tasks report and whatever the counter is, behind `reset_report` at most one line
-- is printed for each second until the last report.
pub report_run-bounds :
    (message_size now end : ℕ) (reports : List (ℕ × ℕ)) (r : Report)
    → AreUntil end reports
    → now ≤ end
    → length (report_run message_size reports (reset_report now r)).0 * 1000000000 ≤ end - now
unfolding reset_report
report_run-bounds message_size now end reports r h k =
    omega (arith, report_run-tick message_size end reports (reset_report now r) h k)
