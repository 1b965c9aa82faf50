-- ===== src/Domain/Ticket.antt =====
-- internal/domain/ticket.go: the life of an asynchronously accepted write, and
-- internal/service/ticket.go: TicketService, over the store of one tenant.
pub mod Lifecycle
use native.Mathlib.Decide.{ℕ_discrete}
use letopis.Prelude.{
  ℕ, Str, str_eq, Bool, true, false, Option, none, some, List, [], ◌∷◌, ◌||◌, if◌then◌else◌,
}

-- `other` is any text that is no constant of the source.
pub data TicketStatus : Type 0 where
  accepted processing stored failed partial : TicketStatus
  other : Str → TicketStatus

unfoldable pub terminal : TicketStatus → Bool
terminal stored = true
terminal failed = true
terminal partial = true
terminal _ = false

unfoldable pub can_transition : TicketStatus → TicketStatus → Bool
can_transition accepted processing = true
can_transition accepted stored = true
can_transition accepted failed = true
can_transition processing stored = true
can_transition processing failed = true
can_transition _ _ = false

pub TicketStatus-discrete : Discrete TicketStatus
TicketStatus-discrete = hlevel ℕ_discrete

pub record Ticket : Type 0 where
  pub id : Str
  pub status : TicketStatus
  pub entity_collection : Str
  pub entity_id : Str
  pub error : Str
  pub created_at : ℕ
  pub updated_at : ℕ

-- What the store does in a call of Mark: it answers, its Get fails with an error that is not
-- ErrTicketNotFound, or its Save fails.
pub data Fault : Type 0 where
  no_fault get_fails save_fails : Fault

-- The tickets that have not expired. The store of one tenant is read by id.
abbrev pub Store : Type 0
Store = Str → Option Ticket

abbrev pub save : Store → Ticket → Store
save s t id = if str_eq id t.id then some t else s id

-- Open: a freshly accepted ticket
unfoldable pub open_ticket : ℕ → Store → Str → Str → Str → Store
open_ticket now s id collection entity_id = save s (record {
  id = id;
  status = accepted;
  entity_collection = collection;
  entity_id = entity_id;
  error = [];
  created_at = now;
  updated_at = now;
})

-- OpenBatch: the receipt of a batch
unfoldable pub open_batch : ℕ → Store → Str → TicketStatus → Store
open_batch now s id status = save s (record {
  id = id;
  status = status;
  entity_collection = [];
  entity_id = [];
  error = [];
  created_at = now;
  updated_at = now;
})

-- `t.Status == status || !CanTransition(t.Status, status)`
abbrev pub refuses : Ticket → TicketStatus → Bool
refuses t status = elim (TicketStatus-discrete t.status status) [
  | yes p ↦ true
  | no p ↦ if can_transition t.status status then false else true
]

-- The second component tells whether an error is returned.
abbrev pub save_unless : Fault → Store → Ticket → Store × Bool
save_unless save_fails s t = (s, true)
save_unless _ s t = (save s t, false)

abbrev pub advance : ℕ → Fault → Store → Ticket → TicketStatus → Str → Store × Bool
advance now fault s t status reason =
    if refuses t status
    then (s, false)
    else save_unless fault s (record t { status = status; error = reason; updated_at = now })

abbrev pub mark_found : ℕ → Fault → Store → Option Ticket → TicketStatus → Str → Store × Bool
mark_found now get_fails s found status reason = (s, true)
mark_found now fault s none status reason = (s, false)
mark_found now fault s (some t) status reason = advance now fault s t status reason

-- Mark
unfoldable pub mark : ℕ → Fault → Store → Str → TicketStatus → Str → Store × Bool
unfolding can_transition TicketStatus-discrete ℕ_discrete str_eq
mark now fault s [] status reason = (s, false)
mark now fault s (c ∷ cs) status reason = mark_found now fault s (s (c ∷ cs)) status reason
