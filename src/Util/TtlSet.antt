-- ===== src/Util/TtlSet.antt =====
-- lib/util/ttlset.js: values that are dropped some time after their last bump. The items of the
-- doubly linked list are a store: an item is known by its number there, and none stands for null.
-- The current time is an argument, and emitted events are listed.
pub mod Bumps
mod Tests
use mercury_farm.Base.{
  ℕ, zero, suc, ◌+◌, ◌-◌, Bool, true, false, not, Option, none, some, List, [], ◌∷◌, ◌++◌, length,
  get_elem?, ltb, leb, ◌==◌, if◌then◌else◌,
}
use mercury_farm.Base.Text.{String, field, set_field, delete_field}

pub record Item : Type 0 where
  pub value : String
  pub time : ℕ
  pub prev : Option ℕ
  pub next : Option ℕ

pub data Event : Type 0 where
  inserts drops : String → Event

-- `timer` is the delay of the check that is scheduled.
pub record TtlSet : Type 0 where
  pub ttl : ℕ
  pub items : List Item
  pub head : Option ℕ
  pub tail : Option ℕ
  pub mapping : List (String × ℕ)
  pub timer : Option ℕ
  pub events : List Event

unfoldable pub new : ℕ → TtlSet
new ttl = record {
  ttl = ttl;
  items = [];
  head = none;
  tail = none;
  mapping = [];
  timer = none;
  events = [];
}

-- an assignment to a field of an item, which is left out on null
unfoldable pub assign : Option ℕ → (Item → Item) → List Item → List Item
assign none f items = items
assign (some i) f [] = []
assign (some zero) f (x ∷ items) = f x ∷ items
assign (some (suc i)) f (x ∷ items) = x ∷ assign (some i) f items

abbrev pub is_at : Option ℕ → ℕ → Bool
is_at none i = false
is_at (some j) i = j == i

abbrev pub set_next : Option ℕ → Item → Item
set_next next x = record x { next = next }

abbrev pub set_prev : Option ℕ → Item → Item
set_prev prev x = record x { prev = prev }

abbrev pub alone : Item → Item
alone x = record x { prev = none; next = none }

-- `remove(item)` on the item `x` with the number `i`
unfoldable pub unlinked : ℕ → Item → TtlSet → TtlSet
unlinked i x s = record s {
  items =
      assign (some i) alone
        (assign x.next (set_prev x.prev) (assign x.prev (set_next x.next) s.items));
  head = if is_at s.head i then x.next else s.head;
  tail = if is_at s.tail i then x.prev else s.tail;
}

abbrev pub at : Option ℕ → List Item → Option Item
at none items = none
at (some i) items = get_elem? items i

-- `scheduleCheck`; `Math.max(0, ttl - (now - time))`
abbrev pub delay_of : ℕ → ℕ → Option Item → Option ℕ
delay_of now ttl none = none
delay_of now ttl (some x) = some (ttl + x.time - now)

unfoldable pub schedule_check : ℕ → TtlSet → TtlSet
schedule_check now s = record s { timer = delay_of now s.ttl (at s.head s.items) }

-- `stop` clears the timer.
unfoldable pub stop : TtlSet → TtlSet
stop s = record s { timer = none }

-- `create`: the item, which is the last of the store, points back to the tail
unfoldable pub create : String → Bool → TtlSet → TtlSet
create value silent s = record s {
  items = s.items ++ record { value = value; time = 0; prev = s.tail; next = none } ∷ [];
  mapping = set_field s.mapping value (length s.items);
  events = if silent then s.events else s.events ++ inserts value ∷ [];
}

-- The rest of `bump`, for the item with the number `i`.
unfoldable pub link : ℕ → TtlSet → Option Item → TtlSet
link i s none = s
link i s (some x) = elim x.prev [
  | none ↦ record s { tail = some i; head = some i }
  | some p ↦ record s { tail = some i; items = assign (some p) (set_next (some i)) s.items }
]

unfoldable pub placed : ℕ → ℕ → TtlSet → TtlSet
placed i time s =
    let items = assign (some i) (λ (x : Item). record x { time = time }) s.items in
    link i (record s { items = items }) (get_elem? items i)

abbrev pub remove_at : ℕ → TtlSet → Option Item → TtlSet
remove_at i s none = s
remove_at i s (some x) = unlinked i x s

unfoldable pub bump_at : String → ℕ → Bool → TtlSet → Option ℕ → TtlSet
bump_at value time silent s none = placed (length s.items) time (create value silent s)
bump_at value time silent s (some i) = placed i time (remove_at i s (get_elem? s.items i))

-- `bump(value, time, flags)`; a time of 0 or none stands for the current one.
unfoldable pub bump : ℕ → String → ℕ → Bool → TtlSet → TtlSet
bump now value time silent s =
    schedule_check now
      (bump_at value (if time == 0 then now else time) silent s (field s.mapping value))

-- `_drop`
unfoldable pub drop_item : ℕ → Item → Bool → TtlSet → TtlSet
drop_item i x silent s =
    let removed = unlinked i x s in
    record removed {
      mapping = delete_field s.mapping x.value;
      events = if silent then s.events else s.events ++ drops x.value ∷ [];
    }

abbrev drop_at : Option ℕ → Bool → TtlSet → TtlSet
drop_at none silent s = s
drop_at (some i) silent s = elim (get_elem? s.items i) [
  | none ↦ s
  | some x ↦ drop_item i x silent s
]

unfoldable pub drop : String → Bool → TtlSet → TtlSet
drop value silent s = drop_at (field s.mapping value) silent s

-- `now - item.time > this.ttl`
abbrev pub is_old : ℕ → TtlSet → Item → Bool
is_old now s x = ltb (x.time + s.ttl) now

-- One round of the loop of `check`: the item at the head, if it is old.
pub data Round : Type 0 where
  stops : Round
  drops_head : ℕ → Item → Round

abbrev pub round_of : ℕ → TtlSet → ℕ → Option Item → Round
round_of now s i none = stops
round_of now s i (some x) = if is_old now s x then drops_head i x else stops

unfoldable pub round_at : ℕ → TtlSet → Option ℕ → Round
round_at now s none = stops
round_at now s (some i) = round_of now s i (get_elem? s.items i)

unfoldable pub follow : (TtlSet → TtlSet) → TtlSet → Round → TtlSet
follow loop s stops = s
follow loop s (drops_head i x) = loop (drop_item i x false s)

-- The loop, on fuel; each round takes an item out of the list.
unfoldable pub rounds : ℕ → ℕ → TtlSet → TtlSet
rounds zero now s = s
rounds (suc n) now s = follow (rounds n now) s (round_at now s s.head)

unfoldable pub check : ℕ → TtlSet → TtlSet
check now s = schedule_check now (rounds (length s.items) now s)
