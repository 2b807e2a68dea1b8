-- ===== src/Groups/Quotas.antt =====
-- lib/db/models/user/model.js: the quotas of a user. An update that the database runs is one step, and
-- what it reports is whether the change handler, once it is set up, finds the user changed.
pub mod Bounds
mod Tests
use mercury_farm.Base.{
  ℕ, ◌+◌, ◌-◌, min, Bool, true, false, not, ◌&&◌, ◌||◌, Option, none, some, List, [], ◌∷◌, leb,
  ◌==◌, if◌then◌else◌,
}
use mercury_farm.Base.Int.{ℤ, pos, negsuc, ◌+ℤ◌, sub_ℕ, leb_ℤ}

pub record Quotas : Type 0 where
  pub allocated_number : ℕ
  pub allocated_duration : ℕ
  pub consumed_number : ℕ
  pub consumed_duration : ℤ
  pub repetitions : ℕ
  pub default_groups_number : ℕ
  pub default_groups_duration : ℕ
  pub default_groups_repetitions : ℕ

-- what the root group brings with it
pub record Env : Type 0 where
  pub groups_number : ℕ
  pub groups_duration : ℕ
  pub groups_repetitions : ℕ

-- `createUser`, given the quotas of the root group's owner
unfoldable pub create : Env → Option Quotas → Quotas
create env none = record {
  allocated_number = env.groups_number;
  allocated_duration = env.groups_duration;
  consumed_number = 0;
  consumed_duration = pos 0;
  repetitions = env.groups_repetitions;
  default_groups_number = env.groups_number;
  default_groups_duration = env.groups_duration;
  default_groups_repetitions = env.groups_repetitions;
}
create env (some a) = record {
  allocated_number = a.default_groups_number;
  allocated_duration = a.default_groups_duration;
  consumed_number = 0;
  consumed_duration = pos 0;
  repetitions = a.default_groups_repetitions;
  default_groups_number = 0;
  default_groups_duration = 0;
  default_groups_repetitions = 0;
}

-- `reserveUserGroupInstance`
unfoldable pub reserve : Quotas → Quotas
reserve q = record q { consumed_number = min (q.consumed_number + 1) q.allocated_number }

unfoldable pub is_reserved : Quotas → Bool
is_reserved q = not (min (q.consumed_number + 1) q.allocated_number == q.consumed_number)

-- `releaseUserGroupInstance`, at least 0
unfoldable pub release : Quotas → Quotas
release q = record q { consumed_number = q.consumed_number - 1 }

-- what would be consumed with a new duration in the place of an old one
abbrev pub charged : ℕ → ℕ → Quotas → ℤ
charged old new q = q.consumed_duration +ℤ sub_ℕ new old

abbrev pub affords : ℕ → ℕ → Quotas → Bool
affords old new q = leb_ℤ (charged old new q) (pos q.allocated_duration)

-- `updateUserGroupDuration`
unfoldable pub update_duration : ℕ → ℕ → Quotas → Quotas
update_duration old new q =
    if affords old new q then record q { consumed_duration = charged old new q } else q

unfoldable pub is_charged : ℕ → ℕ → Quotas → Bool
is_charged old new q = affords old new q && not (new == old)

abbrev given : ℕ → Bool
given n = not (n == 0)

abbrev pub takes_duration : ℕ → ℕ → Quotas → Bool
takes_duration duration number q =
    given duration
    && (leb_ℤ q.consumed_duration (pos duration)
        && (not (given number) || leb q.consumed_number number))

abbrev pub takes_number : ℕ → ℕ → Quotas → Bool
takes_number duration number q =
    given number
    && (leb q.consumed_number number
        && (not (given duration) || leb_ℤ q.consumed_duration (pos duration)))

-- `updateUserGroupsQuotas`, together with its read of the user; 0 is not given
unfoldable pub update_quotas : ℕ → ℕ → ℕ → Quotas → Quotas
update_quotas duration number repetitions q = record q {
  allocated_duration = if takes_duration duration number q then duration else q.allocated_duration;
  allocated_number = if takes_number duration number q then number else q.allocated_number;
  repetitions = if given repetitions then repetitions else q.repetitions;
}

abbrev or_else : Option ℕ → ℕ → ℕ
or_else none old = old
or_else (some new) old = new

-- `updateDefaultUserGroupsQuotas`
unfoldable pub update_defaults : Option ℕ → Option ℕ → Option ℕ → Quotas → Quotas
update_defaults duration number repetitions q = record q {
  default_groups_duration = or_else duration q.default_groups_duration;
  default_groups_number = or_else number q.default_groups_number;
  default_groups_repetitions = or_else repetitions q.default_groups_repetitions;
}

pub data Update : Type 0 where
  reserves : Update
  releases : Update
  -- the old and the new duration of a group
  charges : ℕ → ℕ → Update
  allocates : ℕ → ℕ → ℕ → Update
  sets_defaults : Option ℕ → Option ℕ → Option ℕ → Update

unfoldable pub update : Update → Quotas → Quotas
update reserves q = reserve q
update releases q = release q
update (charges old new) q = update_duration old new q
update (allocates duration number repetitions) q = update_quotas duration number repetitions q
update (sets_defaults duration number repetitions) q = update_defaults duration number repetitions q

unfoldable pub run : List Update → Quotas → Quotas
run [] q = q
run (u ∷ updates) q = run updates (update u q)
