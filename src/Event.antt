-- ===== src/Event.antt =====
-- QEvent: events, their queues, the event manager, and the message bus on top of it.
pub mod Queue
pub mod Immediate
pub mod Manager
pub mod Registry
pub mod Bus
use qaiosplus.Base.{ℕ, Bool, not, ◌==◌, bit_and}

-- What the queues and the manager read of an event, as the numbers of the enumerations in
-- QEvent/include/QKEventTypes.h; `body` stands for the rest of the union, which is only moved.
pub record Event : Type 0 where
  pub kind : ℕ
  pub category : ℕ
  pub priority : ℕ
  pub body : ℕ

abbrev pub low : ℕ
low = 0

abbrev pub normal : ℕ
normal = 1

abbrev pub immediate : ℕ
immediate = 4

pub has_category : ℕ → ℕ → Bool
has_category cats check = not (bit_and cats check == 0)
