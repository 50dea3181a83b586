-- ===== src/Engine/Paper/Book.antt =====
-- engine/execution/paper.py: the book of the simulated exchange after an order.
use cryptoaibot.Common.{String, ◌≡◌, some}
use cryptoaibot.Exec.{Result}
use cryptoaibot.Decimal.{Decimal}
use cryptoaibot.Domain.Order.{Order}
use cryptoaibot.Domain.Events.{SubmitOutcome}
use cryptoaibot.Store.Tables.{PaperRecord}
use cryptoaibot.Engine.Executor.{Desk}
use cryptoaibot.Engine.Config.{Config}
use cryptoaibot.Engine.Paper.{find_record, report_of, fills_of}

-- What an acknowledgement leaves: a record with its report and its fills.
abbrev Booked : String → SubmitOutcome → Result SubmitOutcome × Desk → Type 0
Booked coid out p =
    (r : PaperRecord) × (out.report ≡ some (report_of r))
    × (out.fills ≡ fills_of r)
    × (find_record coid p.1 ≡ some r)
