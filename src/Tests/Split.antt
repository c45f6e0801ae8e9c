-- ===== src/Tests/Split.antt =====
-- A witness for the writer with producers inside `TryPush` as `Close` begins.
use tri_drishti_chrono_cap.Common.{
  ℕ, arith, ◌≡◌, ◌≤◌, refl, false, some, List, [], ◌∷◌, ◌++◌, length, take,
}
use tri_drishti_chrono_cap.Ring.{fresh}
use tri_drishti_chrono_cap.Ring.Threads.{Producer, idle, act, enter_push}
use tri_drishti_chrono_cap.Ring.Threads.Safety.{NoneInside}
use tri_drishti_chrono_cap.Writer.Format.{file_bytes}
use tri_drishti_chrono_cap.Writer.Thread.{Session}
use tri_drishti_chrono_cap.Writer.Split.{
  Shared, Move, entering, advancing, ticking, halting, run_moves, close_split, claimed_in, HaveRoom,
}
use tri_drishti_chrono_cap.Writer.Split.Inv.{IsSettled}
use tri_drishti_chrono_cap.Writer.Split.Closing.{close_in_flight}
use tri_drishti_chrono_cap.Tests.Data.{
  joy, first_sample, second_sample, five_at_once, five_at_once-IsReliable,
}
use tri_drishti_chrono_cap.Tests.Writer.{begun, begun_lem}
use tri_drishti_chrono_cap.Tests.Writer

abbrev outside : ℕ → Producer
outside i = record { stage = idle; idx = 0; sample = first_sample }

-- Two producers claim; the second one publishes, while the first one is still inside.
abbrev one_inside : List Move
one_inside =
    entering 0 first_sample
    ∷ entering 1 second_sample
    ∷ advancing 1
    ∷ advancing 1
    ∷ advancing 1
    ∷ []

-- Beside `Close` the first one goes on.
abbrev beside : List Move
beside = ticking 10 ∷ advancing 0 ∷ ticking 11 ∷ []

abbrev begin : Shared
begin = record { session = begun; producers = outside }

one_inside-HaveRoom : HaveRoom five_at_once begin one_inside
unfolding act enter_push fresh
one_inside-HaveRoom =
    ((omega arith, omega arith, omega arith), ((omega arith, omega arith, omega arith), tt))

beside-HaveRoom :
    (s1 : Shared)
    → run_moves five_at_once begin one_inside ≡ some s1
    → HaveRoom five_at_once (halting s1) beside
beside-HaveRoom s1 e = λ s2 _ s3 _. tt

close_in_flight_example :
    (s1 : Shared) × (t : Session) × (n : ℕ) × (run_moves five_at_once begin one_inside ≡ some s1)
    × (close_split five_at_once (λ n. 12) beside s1 ≡ some t)
    × (t.writer.disk.bytes
        ≡ file_bytes 5 (joy ∷ []) (
            take n (
              claimed_in five_at_once begin one_inside
              ++ claimed_in five_at_once (halting s1) beside)))
    × (n
        ≤ length (
            claimed_in five_at_once begin one_inside
            ++ claimed_in five_at_once (halting s1) beside))
    × ((m : ℕ) → IsSettled m s1 → m ≤ n)
    × (NoneInside s1.producers → length (claimed_in five_at_once begin one_inside) ≤ n)
    × (t.writer.synced ≡ length t.writer.disk.bytes)
    × (t.writer.is_open ≡ false)
    × (t.writer.joinable ≡ false)
close_in_flight_example =
    close_in_flight five_at_once-IsReliable 5 6 (λ n. 12) Writer.idle begun (joy ∷ []) outside
      one_inside beside refl refl (λ i. refl) begun_lem one_inside-HaveRoom beside-HaveRoom
