-- ===== src/InputRing.antt =====
-- kernel-core/src/input_ring.rs: the bounded ring of input events, with its drop-oldest policy.
-- The lock around `push` and `pop` makes each one step; the clock's value is an argument of `push`.
-- `dx` and `dy` are the bit patterns of their i16.
pub mod Queue
pub mod Inv
pub mod Refine
pub mod Drops
use fantuan_kernel.Base.{
  ℕ, zero, suc, ◌+◌, ◌-◌, ◌%◌, ◌^◌, Bool, Option, none, some, List, [], ◌∷◌, if◌then◌else◌, ◌==◌,
  update,
}

abbrev pub ring_capacity : ℕ
ring_capacity = 64

abbrev pub kind_key : ℕ
kind_key = 1

abbrev pub kind_pointer : ℕ
kind_pointer = 2

pub record InputEvent : Type 0 where
  pub ts : ℕ
  pub kind : ℕ
  pub flags : ℕ
  pub set : ℕ
  pub scancode : ℕ
  pub ascii : ℕ
  pub buttons : ℕ
  pub dx : ℕ
  pub dy : ℕ

-- `InputEvent::key` and `InputEvent::pointer`; the reserved bytes are zero throughout.
pub key : ℕ → ℕ → Bool → ℕ → InputEvent
key set scancode pressed ascii = record {
  ts = 0;
  kind = kind_key;
  flags = if pressed then 1 else 0;
  set = set;
  scancode = scancode;
  ascii = ascii;
  buttons = 0;
  dx = 0;
  dy = 0;
}

pub pointer : ℕ → ℕ → ℕ → InputEvent
pointer dx dy buttons = record {
  ts = 0;
  kind = kind_pointer;
  flags = 0;
  set = 0;
  scancode = 0;
  ascii = 0;
  buttons = buttons;
  dx = dx;
  dy = dy;
}

-- RING with the counter DROPPED.
pub record Ring : Type 0 where
  pub events : ℕ → InputEvent
  pub head : ℕ
  pub tail : ℕ
  pub len : ℕ
  pub dropped : ℕ

-- The first half of `push`: make room, or count the new entry.
unfoldable pub make_room : Ring → Ring
make_room r =
    if r.len == ring_capacity
    then record r { tail = (r.tail + 1) % ring_capacity; dropped = (r.dropped + 1) % 2 ^ 64 }
    else record r { len = r.len + 1 }

unfoldable pub store : Ring → InputEvent → Ring
store r ev = record r { events = update r.events r.head ev; head = (r.head + 1) % ring_capacity }

-- `now` is what `time::now_ns` returns.
unfoldable pub push : ℕ → InputEvent → Ring → Ring
unfolding make_room store
push now ev r = store (make_room r) (record ev { ts = now })

unfoldable pub pop : Ring → Option InputEvent × Ring
pop r =
    if r.len == 0
    then (none, r)
    else (some (r.events r.tail), record r { tail = (r.tail + 1) % ring_capacity; len = r.len - 1 })

unfoldable pub push_key : ℕ → ℕ → ℕ → Bool → ℕ → Ring → Ring
push_key now scancode set pressed ascii = push now (key set scancode pressed ascii)

unfoldable pub push_pointer : ℕ → ℕ → ℕ → ℕ → Ring → Ring
push_pointer now dx dy buttons = push now (pointer dx dy buttons)

-- The calls of producers and of the consumer, in the order in which they take the lock.
pub data Call : Type 0 where
  pushes : ℕ → InputEvent → Call
  pops : Call

unfoldable pub run : List Call → Ring → List (Option InputEvent) × Ring
run [] r = ([], r)
run (pushes now ev ∷ cs) r = run cs (push now ev r)
run (pops ∷ cs) r = let (out, r') = pop r in let (outs, r'') = run cs r' in (out ∷ outs, r'')
