-- ===== src/Util/TtlSet/Bumps.antt =====
-- What the bump of a value that is in the set does to the list.
use mathlib.Core.Path.{subst}
use mercury_farm.Base.{
  ℕ, zero, suc, ◌≡◌, ◌⊎◌, inl, inr, refl, sym, ap, ◌∙◌, Bool, false, Option, none, some, List, [],
  ◌∷◌, ◌++◌, arith, length, get_elem?, ◌==◌, if◌then◌else◌, if-cases,
}
use mercury_farm.Base.Text.{String, field}
use mercury_farm.Util.TtlSet.{
  Item, TtlSet, Event, drops, assign, unlinked, alone, schedule_check, link, placed, bump_at, bump,
  drop_item, remove_at, is_old, set_next, set_prev, stops, drops_head, round_at, round_of, follow,
  rounds, check,
}

get-assign :
    (i : ℕ) (f : Item → Item) (items : List Item) (x : Item)
    → get_elem? items i ≡ some x
    → get_elem? (assign (some i) f items) i ≡ some (f x)
unfolding assign
get-assign i f [] x e = absurd (ground arith)
get-assign zero f (y ∷ items) x e = ground arith
get-assign (suc i) f (y ∷ items) x e = get-assign i f items x e

-- an item that stands alone at both ends of the list
pub record Alone (s : TtlSet) (i : ℕ) : Type 0 where
  pub first : s.head ≡ some i
  pub last : s.tail ≡ some i
  pub item : Item
  pub found : get_elem? s.items i ≡ some item
  pub no_prev : item.prev ≡ none
  pub no_next : item.next ≡ none

some-assign :
    (o : Option ℕ) (f : Item → Item) (items : List Item) (i : ℕ) (x : Item)
    → get_elem? items i ≡ some x
    → (y : Item) × (get_elem? (assign o f items) i ≡ some y)
unfolding assign
some-assign none f items i x e = (x, e)
some-assign (some j) f [] i x e = (x, e)
some-assign (some zero) f (y ∷ items) zero x e = (f y, refl)
some-assign (some zero) f (y ∷ items) (suc i) x e = (x, e)
some-assign (some (suc j)) f (y ∷ items) zero x e = (x, e)
some-assign (some (suc j)) f (y ∷ items) (suc i) x e = some-assign (some j) f items i x e

-- an item without neighbours
record Cut (s : TtlSet) (i : ℕ) : Type 0 where
  item : Item
  found : get_elem? s.items i ≡ some item
  no_prev : item.prev ≡ none
  no_next : item.next ≡ none

unlinked-Cut :
    (i : ℕ) (x : Item) (s : TtlSet) → get_elem? s.items i ≡ some x → Cut (unlinked i x s) i
unfolding unlinked
unlinked-Cut i x s e =
    let (y, a) = some-assign x.prev (set_next x.next) s.items i x e in
    let (z, b) =
      some-assign x.next (set_prev x.prev) (assign x.prev (set_next x.next) s.items) i y a in
    record { item = alone z; found = get-assign i alone _ z b; no_prev = refl; no_next = refl }

link-Alone : (i : ℕ) (s : TtlSet) (c : Cut s i) → Alone (link i s (get_elem? s.items i)) i
unfolding link
link-Alone i s c =
    rw (c.found, c.no_prev)
      (record {
        first = refl;
        last = refl;
        item = c.item;
        found = c.found;
        no_prev = c.no_prev;
        no_next = c.no_next;
      })

placed-Alone : (i time : ℕ) (s : TtlSet) → Cut s i → Alone (placed i time s) i
unfolding placed
placed-Alone i time s c =
    let f : Item → Item = λ x. record x { time = time } in
    link-Alone i (record s { items = assign (some i) f s.items })
      (record {
        item = f c.item;
        found = get-assign i f s.items c.item c.found;
        no_prev = c.no_prev;
        no_next = c.no_next;
      })

scheduled-Alone : (now : ℕ) (s : TtlSet) (i : ℕ) → Alone s i → Alone (schedule_check now s) i
unfolding schedule_check
scheduled-Alone now s i a = record {
  first = a.first;
  last = a.last;
  item = a.item;
  found = a.found;
  no_prev = a.no_prev;
  no_next = a.no_next;
}

-- Where a value is bumped that is in the set already, its item becomes both ends of the list.
pub bump-Alone :
    (now : ℕ) (value : String) (time : ℕ) (silent : Bool) (s : TtlSet) (i : ℕ) (x : Item)
    → field s.mapping value ≡ some i
    → get_elem? s.items i ≡ some x
    → Alone (bump now value time silent s) i
unfolding bump bump_at
bump-Alone now value time silent s i x e f =
    let t : ℕ = if time == 0 then now else time in
    scheduled-Alone now (bump_at value t silent s (field s.mapping value)) i (
      subst (λ o. Alone (bump_at value t silent s o) i) (sym e)
        (subst (λ o. Alone (placed i t (remove_at i s o)) i) (sym f)
          (placed-Alone i t (unlinked i x s) (unlinked-Cut i x s f))))

rounds-none : (n now : ℕ) (s : TtlSet) → s.head ≡ none → rounds n now s ≡ s
unfolding rounds round_at follow
rounds-none zero now s e = refl
rounds-none (suc n) now s e = rw e refl

-- a list of events with one drop more, at most
abbrev pub AtMostOne : List Event → List Event → Type 0
AtMostOne before after = (after ≡ before) ⊎ ((v : String) × (after ≡ before ++ drops v ∷ []))

round-Alone :
    (now : ℕ) (s : TtlSet) (i : ℕ) (a : Alone s i)
    → round_at now s s.head ≡ (if is_old now s a.item then drops_head i a.item else stops)
unfolding round_at
round-Alone now s i a = ap (round_at now s) a.first ∙ ap (round_of now s i) a.found

drop-head : (s : TtlSet) (i : ℕ) (a : Alone s i) → (drop_item i a.item false s).head ≡ none
unfolding drop_item unlinked
drop-head s i a = ground (arith, a.first, a.no_next)

rounds-Alone :
    (n now : ℕ) (s : TtlSet) (i : ℕ) → Alone s i → AtMostOne s.events (rounds n now s).events
unfolding rounds follow drop_item
rounds-Alone zero now s i a = inl refl
rounds-Alone (suc n) now s i a =
    subst (λ r. AtMostOne s.events (follow (rounds n now) s r).events) (sym (round-Alone now s i a))
      (if-cases (λ r. AtMostOne s.events (follow (rounds n now) s r).events) (is_old now s a.item)
        (λ _. inr (
          a.item.value,
          ap (λ (t : TtlSet). t.events)
              (rounds-none n now (drop_item i a.item false s) (drop-head s i a)),
        ))
        (λ _. inl refl))

-- After the bump of a value that is in the set already, a check at any later time drops one value
-- at most, whatever the age of the others.
pub bump_hides :
    (now : ℕ) (value : String) (time : ℕ) (silent : Bool) (s : TtlSet) (i : ℕ) (x : Item)
    → field s.mapping value ≡ some i
    → get_elem? s.items i ≡ some x
    → (later : ℕ)
    → AtMostOne
        (bump now value time silent s).events
        (check later (bump now value time silent s)).events
unfolding check schedule_check
bump_hides now value time silent s i x e f later =
    let t : TtlSet = bump now value time silent s in
    rounds-Alone (length t.items) later t i (bump-Alone now value time silent s i x e f)
