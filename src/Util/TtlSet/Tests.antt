-- ===== src/Util/TtlSet/Tests.antt =====
-- Runs of the set, and its theorem on a set of two values.
use mercury_farm.Base.{◌≡◌, refl, true, none, some, [], ◌∷◌}
use mercury_farm.Base.Text.{field}
use mercury_farm.Util.TtlSet.{TtlSet, bump, check}
use mercury_farm.Util.TtlSet.Bumps.{AtMostOne, bump_hides}

abbrev two_devices : TtlSet
two_devices = record {
  ttl = 50;
  items =
      record { value = "a"; time = 10; prev = none; next = some 1 }
      ∷ record { value = "b"; time = 20; prev = some 0; next = none }
      ∷ [];
  head = some 0;
  tail = some 1;
  mapping = ("b", 1) ∷ ("a", 0) ∷ [];
  timer = some 40;
  events = [];
}

in_set : field two_devices.mapping "b" ≡ some 1
unfolding field
in_set = refl

bump_hides_example :
    AtMostOne
      (bump 30 "b" 0 true two_devices).events
      (check 1000 (bump 30 "b" 0 true two_devices)).events
bump_hides_example =
    bump_hides 30 "b" 0 true two_devices 1
      (record { value = "b"; time = 20; prev = some 0; next = none }) in_set refl 1000
