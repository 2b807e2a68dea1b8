-- ===== src/Groups/Types.antt =====
-- Groups and their time windows. Times and durations are milliseconds.
use mercury_farm.Base.{ℕ, ◌*◌, Bool, Option, none, some, List}
use mercury_farm.Base.Text.{String}

-- `{start, stop}`
pub record Window : Type 0 where
  pub start : ℕ
  pub stop : ℕ

-- the keys of `CLASS_DURATION`
pub data GroupClass : Type 0 where
  once bookable standard hourly daily weekly monthly quaterly halfyearly yearly debug : GroupClass

pub record Group : Type 0 where
  pub id : String
  pub class : GroupClass
  pub owner : String
  pub dates : List Window
  pub duration : ℕ
  pub repetitions : ℕ
  pub devices : List String
  pub users : List String
  pub moderators : List String
  pub is_active : Bool

abbrev pub one_mn : ℕ
one_mn = 60 * 1000

abbrev pub one_hour : ℕ
one_hour = 3600 * 1000

abbrev pub one_day : ℕ
one_day = 24 * one_hour

abbrev pub one_month : ℕ
one_month = 30 * one_day

abbrev pub one_year : ℕ
one_year = 365 * one_day

-- `CLASS_DURATION`; none is Infinity
unfoldable pub class_duration : GroupClass → Option ℕ
class_duration once = none
class_duration bookable = none
class_duration standard = none
class_duration hourly = some one_hour
class_duration daily = some one_day
class_duration weekly = some (7 * one_day)
class_duration monthly = some one_month
class_duration quaterly = some (3 * one_month)
class_duration halfyearly = some (6 * one_month)
class_duration yearly = some one_year
class_duration debug = some (300 * 1000)
