-- ===== src/Intake/Counts.antt =====
-- Every element of a batch is accounted for.
use letopis.Prelude.{ℕ, ◌+◌, ◌≡◌, ◌≤◌, Str, Option, some, List, [], ◌∷◌, ◌++◌, length}
use letopis.Domain.Ticket
use letopis.Domain.Ticket.{Ticket}
use letopis.Plugin.Host.{Plugin}
use letopis.Tenant.Access.{Tenant}
use letopis.Worker.Process.{Task}
use letopis.Intake.Accept.{Wiring}
use letopis.Intake.Batch.{Site, Step, BatchEntry, BatchReject, BatchResult}
use letopis.Intake.Verdicts.{Judged}

-- The first of some rejected elements, if there is one, has an index from `i` on.
abbrev IsFrom : ℕ → List BatchReject → Type 0
IsFrom i [] = Unit {0}
IsFrom i (x ∷ xs) = i ≤ x.index

-- The indexes ascend.
abbrev pub IsOrdered : List BatchReject → Type 0
IsOrdered [] = Unit {0}
IsOrdered (x ∷ xs) = IsFrom x.index xs × IsOrdered xs

-- The same rejections in another order.
pub data IsReordered : List BatchReject → List BatchReject → Type 0 where
  all_placed : IsReordered [] []
  kept :
      {x : BatchReject} {xs ys : List BatchReject}
      → IsReordered xs ys
      → IsReordered (x ∷ xs) (x ∷ ys)
  swapped : {x y : BatchReject} {xs : List BatchReject} → IsReordered (x ∷ y ∷ xs) (y ∷ x ∷ xs)
  joined : {xs ys zs : List BatchReject} → IsReordered xs ys → IsReordered ys zs → IsReordered xs zs

-- the status of a receipt, by what was rejected
abbrev pub IsReceipt : List BatchReject → Ticket.TicketStatus → Type 0
IsReceipt [] status = status ≡ Ticket.accepted
IsReceipt (x ∷ xs) status = status ≡ Ticket.partial

module _ (encode : Task → Option Str) (format_float : ℕ → Str) (plugins : List Plugin) (w : Wiring)
    (t : Tenant) where
  abbrev total : BatchResult → ℕ
  total r = r.accepted + length r.rejected

  -- What a batch answers, and the receipt that it leaves.
  pub record IsAccountedFor (es : List (BatchEntry × Step)) (prior : List BatchReject) (s : Site)
      (id : Str) (r : BatchResult) (tickets : Ticket.Store) : Type 0 where
    pub rejections : List BatchReject
    pub judged : Judged encode format_float plugins w t id es s r.accepted rejections
    pub same : IsReordered r.rejected (prior ++ rejections)
    pub all_counted : r.accepted + length r.rejected ≡ length es + length prior
    pub ordered : IsOrdered r.rejected
    pub receipt : (x : Ticket) × (tickets id ≡ some x) × IsReceipt r.rejected x.status
