-- ===== src/Device/Forward/Tests.antt =====
-- The writer and the reader of lib/units/device/plugins/forward/util on small inputs.
use mercury_farm.Base.{ℕ, ◌≡◌, refl, none, some, List, [], ◌∷◌, map, arith}
use mercury_farm.Device.Forward.{
  of_header, new, run, transform_read, rounds, round, copy, u16_at, headed_at,
}
use mercury_farm.Device.Forward.Pieces.{Piece, concat}
use mercury_farm.Device.Forward.RoundTrip.{received, sent, stream, run-stream}
use mercury_farm.Device.Forward.ShortChunks.{short-loses}

abbrev writes : List (List Piece)
writes = ((7, 1 ∷ 2 ∷ []) ∷ (8, 3 ∷ []) ∷ []) ∷ [] ∷ ((7, 4 ∷ []) ∷ (7, []) ∷ []) ∷ []

read_test :
    (run ((7 ∷ 0 ∷ 2 ∷ 0 ∷ 1 ∷ []) ∷ (2 ∷ 7 ∷ 0 ∷ 0 ∷ 0 ∷ []) ∷ []) new).emitted
    ≡ (7, some (1 ∷ [])) ∷ (7, some (2 ∷ [])) ∷ (7, none) ∷ []
unfolding run transform_read rounds round copy u16_at headed_at new
read_test = refl

-- the header of the second packet is split
split_test :
    (run ((7 ∷ 0 ∷ 1 ∷ 0 ∷ 9 ∷ 8 ∷ []) ∷ (0 ∷ 1 ∷ 0 ∷ 5 ∷ []) ∷ []) new).emitted
    ≡ (7, some (9 ∷ [])) ∷ (8, some (0 ∷ [])) ∷ []
unfolding run transform_read rounds round copy u16_at headed_at new
split_test = refl

run-stream_example : received 7 (run (map stream writes) new).emitted ≡ sent 7 (concat writes)
run-stream_example =
    run-stream writes 7
      ((omega arith, (omega arith, tt)), (tt, ((omega arith, (omega arith, tt)), tt)))

abbrev three : List ℕ
three = 1 ∷ 2 ∷ 3 ∷ []

short-loses_example :
    ((run ((7 ∷ 0 ∷ []) ∷ (1 ∷ 0 ∷ 9 ∷ []) ∷ []) new).emitted ≡ new.emitted)
    × ((run ((7 ∷ 0 ∷ []) ∷ (1 ∷ 0 ∷ 9 ∷ []) ∷ []) new).need ≡ of_header 4)
unfolding new
short-loses_example =
    short-loses ((7 ∷ 0 ∷ []) ∷ (1 ∷ 0 ∷ 9 ∷ []) ∷ []) new (omega arith, (omega arith, tt)) refl
