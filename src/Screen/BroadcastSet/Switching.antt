-- ===== src/Screen/BroadcastSet/Switching.antt =====
-- The events `nonempty` and `empty` of broadcastset.js against who watches.
use mercury_farm.Base.{
  ℕ, zero, suc, ◌+◌, ◌-◌, ◌≡◌, ◌<◌, refl, ap, ◌∙◌, Bool, true, false, Option, none, some, List, [],
  ◌∷◌, ◌++◌, arith, length, length-append, ltb, ◌==◌, if◌then◌else◌, if-cases, is_some,
}
use mercury_farm.Base.Text.{String, str_eq, field, delete_field, eq_iff}
use mercury_farm.Screen.BroadcastSet.{
  Event, inserts, removes, nonempty, empty, BroadcastSet, new, has, insert, remove, Call, inserting,
  removing, run,
}

-- Whether somebody watches by the events, from oldest to newest; none is an event out of turn.
abbrev pub switched : Option Bool → Event → Option Bool
switched (some false) nonempty = some true
switched (some true) empty = some false
switched (some on) (inserts id) = some on
switched (some on) (removes id) = some on
switched _ _ = none

abbrev pub switching : Option Bool → List Event → Option Bool
switching o [] = o
switching o (e ∷ es) = switching (switched o e) es

switching-append :
    (o : Option Bool) (es fs : List Event) → switching o (es ++ fs) ≡ switching (switching o es) fs
switching-append o [] fs = refl
switching-append o (e ∷ es) fs = switching-append (switched o e) es fs

enters :
    (id : String) (n : ℕ)
    → switching (some (ltb 0 n)) (inserts id ∷ (if n + 1 == 1 then nonempty ∷ [] else []))
      ≡ some (ltb 0 (n + 1))
enters id zero = refl
enters id (suc n) = ground arith

leaves :
    (id : String) (n : ℕ)
    → 0 < n
    → switching (some (ltb 0 n)) (removes id ∷ (if n - 1 == 0 then empty ∷ [] else []))
      ≡ some (ltb 0 (n - 1))
leaves id zero h = absurd (omega arith)
leaves id (suc zero) h = refl
leaves id (suc (suc n)) h = ground arith

module _ {W : Type 0} where
  -- no id stands twice
  abbrev pub IsUnique : List (String × W) → Type 0
  IsUnique [] = Unit
  IsUnique (p ∷ ps) = (field ps p.0 ≡ none) × IsUnique ps

  pub record Inv (s : BroadcastSet W) : Type 0 where
    pub counted : s.count ≡ length s.set
    pub unique : IsUnique s.set
    pub turns : switching (some false) s.events ≡ some (ltb 0 s.count)

  field-append :
      (ps qs : List (String × W)) (id : String)
      → field ps id ≡ none
      → field (ps ++ qs) id ≡ field qs id
  unfolding field
  field-append [] qs id e = refl
  field-append (p ∷ ps) qs id e = ground (arith, field-append ps qs id)

  IsUnique-append :
      (ps : List (String × W)) (id : String) (ws : W)
      → field ps id ≡ none
      → IsUnique ps
      → IsUnique (ps ++ (id, ws) ∷ [])
  unfolding field
  IsUnique-append [] id ws e u = (refl, tt)
  IsUnique-append (p ∷ ps) id ws e u = (
    ground (arith, field-append ps ((id, ws) ∷ []) p.0 u.0, eq_iff p.0 id, eq_iff id p.0),
    IsUnique-append ps id ws (ground arith) u.1,
  )

  delete-absent :
      (ps : List (String × W)) (id : String) → field ps id ≡ none → delete_field ps id ≡ ps
  unfolding field delete_field
  delete-absent [] id e = refl
  delete-absent (p ∷ ps) id e = ground (arith, delete-absent ps id)

  length-delete :
      (ps : List (String × W)) (id : String)
      → IsUnique ps
      → is_some (field ps id) ≡ true
      → length (delete_field ps id) + 1 ≡ length ps
  unfolding field delete_field
  length-delete [] id u e = absurd (ground arith)
  length-delete (p ∷ ps) id u e =
      ground (arith, eq_iff p.0 id, ap (field ps), delete-absent ps id, length-delete ps id u.1)

  field-delete :
      (ps : List (String × W)) (id other : String)
      → field ps other ≡ none
      → field (delete_field ps id) other ≡ none
  unfolding field delete_field
  field-delete [] id other e = refl
  field-delete (p ∷ ps) id other e = ground (arith, field-delete ps id other)

  IsUnique-delete :
      (ps : List (String × W)) (id : String) → IsUnique ps → IsUnique (delete_field ps id)
  unfolding delete_field
  IsUnique-delete [] id u = tt
  IsUnique-delete (p ∷ ps) id u =
      if-cases IsUnique (str_eq p.0 id) (λ _. IsUnique-delete ps id u.1)
        (λ _. (field-delete ps id p.0 u.0, IsUnique-delete ps id u.1))

  insert-Inv : (id : String) (ws : W) (s : BroadcastSet W) → Inv s → Inv (insert id ws s)
  unfolding insert
  insert-Inv id ws s v =
      if-cases Inv (has id s) (λ _. v)
        (λ h. record {
          counted = omega (arith, v.counted, length-append s.set ((id, ws) ∷ []));
          unique = IsUnique-append s.set id ws (ground arith) v.unique;
          turns =
              switching-append (some false) s.events _
              ∙ ap
                  (λ o. switching o (inserts id ∷ (if s.count + 1 == 1 then nonempty ∷ [] else [])))
                  v.turns
              ∙ enters id s.count;
        })

  remove-Inv : (id : String) (s : BroadcastSet W) → Inv s → Inv (remove id s)
  unfolding remove
  remove-Inv id s v =
      if-cases Inv (has id s)
        (λ h.
          let fewer : length (delete_field s.set id) + 1 ≡ length s.set =
            length-delete s.set id v.unique h in
          record {
            counted = omega (arith, v.counted, fewer);
            unique = IsUnique-delete s.set id v.unique;
            turns =
                switching-append (some false) s.events _
                ∙ ap (λ o. switching o (removes id ∷ (if s.count - 1 == 0 then empty ∷ [] else [])))
                    v.turns
                ∙ leaves id s.count (omega (arith, v.counted, fewer));
          })
        (λ _. v)

  run-Inv : (calls : List (Call W)) (s : BroadcastSet W) → Inv s → Inv (run calls s)
  unfolding run
  run-Inv [] s v = v
  run-Inv (inserting id ws ∷ calls) s v = run-Inv calls (insert id ws s) (insert-Inv id ws s v)
  run-Inv (removing id ∷ calls) s v = run-Inv calls (remove id s) (remove-Inv id s v)

  -- After any calls on a new set the count is that of the watchers, `nonempty` and `empty` have
  -- been emitted in turns from `nonempty` on, and the last of them says whether anybody watches.
  pub run-switching :
      (calls : List (Call W))
      → ((run calls new).count ≡ length (run calls new).set)
        × (switching (some false) (run calls new).events
            ≡ some (ltb 0 (length (run calls new).set)))
  unfolding new
  run-switching calls =
      let v : Inv (run calls new) =
        run-Inv calls new (record { counted = refl; unique = tt; turns = refl }) in
      (v.counted, v.turns ∙ ap (λ n. some (ltb 0 n)) v.counted)
