-- ===== src/Tests/Threads.antt =====
-- Witnesses for the ring under interleaving, with two slots.
use tri_drishti_chrono_cap.Common.{
  ℕ, ◌+◌, ◌^◌, ◌≤◌, ◌≡◌, ◌≢◌, refl, arith, false, some, List, [], ◌∷◌, take, length,
}
use tri_drishti_chrono_cap.Ring.{empty_record, slot_index, fresh}
use tri_drishti_chrono_cap.Ring.Threads.{
  idle, Producer, System, Action, enter, advance, consume, cell, act, act_all, enter_push,
  advance_push, advance_pop, claims, deliveries, Spaced,
}
use tri_drishti_chrono_cap.Ring.Threads.Safety.{
  start, NoneInside, IsStoring, IsReading, deliveries_in_order, producers_apart, consumer_apart,
  quiet_delivers_all, lap_shares_slot,
}
use tri_drishti_chrono_cap.Ring.Threads.Inv.{holding}
use tri_drishti_chrono_cap.Ring.Threads.Stalled.{IsStopped, stalled_blocks}
use tri_drishti_chrono_cap.Tests.Data.{first_sample, second_sample}

abbrev outside : ℕ → Producer
outside i = record { stage = idle; idx = 0; sample = first_sample }

abbrev begin : System
begin = start 1 outside empty_record

outside-NoneInside : NoneInside outside
outside-NoneInside i = refl

-- Two producers claim; the second one is the first to publish, the consumer gets both.
abbrev crossed : List Action
crossed =
    enter 0 first_sample
    ∷ enter 1 second_sample
    ∷ advance 1
    ∷ advance 0
    ∷ advance 1
    ∷ advance 1
    ∷ consume
    ∷ advance 0
    ∷ advance 0
    ∷ consume
    ∷ consume
    ∷ consume
    ∷ consume
    ∷ consume
    ∷ consume
    ∷ []

crossed-Spaced : Spaced 1 begin crossed
unfolding act enter_push advance_push advance_pop fresh
crossed-Spaced = omega arith

deliveries_in_order_example :
    (deliveries 1 begin crossed
      ≡ take (act_all 1 begin crossed).ring.read_index (claims 1 begin crossed))
    × ((act_all 1 begin crossed).ring.read_index ≤ length (claims 1 begin crossed))
    × ((act_all 1 begin crossed).ring.dropped_count ≡ 0)
deliveries_in_order_example =
    deliveries_in_order 1 outside empty_record crossed outside-NoneInside crossed-Spaced

abbrev storing : List Action
storing = enter 0 first_sample ∷ enter 1 second_sample ∷ advance 1 ∷ advance 0 ∷ []

storing-Spaced : Spaced 1 begin storing
unfolding act enter_push advance_push advance_pop fresh
storing-Spaced = omega arith

abbrev stored_two : System
stored_two = act_all 1 begin storing

stored_two-IsStoring :
    IsStoring (stored_two.producers 0).stage × IsStoring (stored_two.producers 1).stage
unfolding act_all act enter_push advance_push advance_pop fresh
stored_two-IsStoring = (tt, tt)

producers_apart_example :
    slot_index 1 (stored_two.producers 0).idx ≢ slot_index 1 (stored_two.producers 1).idx
producers_apart_example =
    producers_apart 1 outside empty_record storing outside-NoneInside storing-Spaced 0 1
      stored_two-IsStoring.0 stored_two-IsStoring.1 (omega arith)

-- The first record is being copied while the second is being stored.
abbrev copied_while : List Action
copied_while =
    enter 0 first_sample
    ∷ advance 0
    ∷ advance 0
    ∷ advance 0
    ∷ consume
    ∷ enter 1 second_sample
    ∷ advance 1
    ∷ []

copied_while-Spaced : Spaced 1 begin copied_while
unfolding act enter_push advance_push advance_pop fresh
copied_while-Spaced = omega arith

abbrev copying_one : System
copying_one = act_all 1 begin copied_while

copying_one-IsStoring : IsStoring (copying_one.producers 1).stage × IsReading copying_one.phase
unfolding act_all act enter_push advance_push advance_pop fresh
copying_one-IsStoring = (tt, tt)

consumer_apart_example :
    slot_index 1 (copying_one.producers 1).idx ≢ slot_index 1 copying_one.ring.read_index
consumer_apart_example =
    consumer_apart 1 outside empty_record copied_while outside-NoneInside copied_while-Spaced 1
      copying_one-IsStoring.0 copying_one-IsStoring.1

-- The crossed schedule ends with no other producer inside.
crossed-quiet : NoneInside (act_all 1 begin crossed).producers
unfolding act_all act enter_push advance_push advance_pop fresh
crossed-quiet i = ground arith

crossed-empty :
    (cell 1 (act_all 1 begin crossed).ring (act_all 1 begin crossed).ring.read_index).ready ≡ false
unfolding act_all act enter_push advance_push advance_pop fresh
crossed-empty = refl

quiet_delivers_all_example : deliveries 1 begin crossed ≡ claims 1 begin crossed
quiet_delivers_all_example =
    quiet_delivers_all 1 outside empty_record crossed outside-NoneInside crossed-Spaced
      crossed-quiet crossed-empty

-- A producer is held up behind its test while another one fills the other slot.
abbrev held_up : List Action
held_up =
    enter 0 first_sample
    ∷ advance 0
    ∷ enter 1 second_sample
    ∷ advance 1
    ∷ advance 1
    ∷ advance 1
    ∷ []

held_up-Spaced : Spaced 1 begin held_up
unfolding act enter_push advance_push advance_pop fresh
held_up-Spaced = omega arith

abbrev lapped : System
lapped = act_all 1 (act_all 1 begin held_up) (enter 1 second_sample ∷ advance 1 ∷ [])

held_up_lem :
    IsStoring ((act_all 1 begin held_up).producers 0).stage
    × (((act_all 1 begin held_up).producers 1).stage ≡ idle)
    × ((act_all 1 begin held_up).ring.write_index
        ≡ ((act_all 1 begin held_up).producers 0).idx + 2 ^ 1)
unfolding act_all act enter_push advance_push advance_pop fresh
held_up_lem = (tt, refl, refl)

lap_shares_slot_example :
    IsStoring (lapped.producers 0).stage
    × IsStoring (lapped.producers 1).stage
    × (slot_index 1 (lapped.producers 0).idx ≡ slot_index 1 (lapped.producers 1).idx)
lap_shares_slot_example =
    let (storing_first, outside_second, round) = held_up_lem in
    lap_shares_slot 1 outside empty_record held_up outside-NoneInside held_up-Spaced 0 1
      second_sample storing_first outside_second (omega arith) round

-- The first producer stops behind its claim; the second one publishes, and the consumer polls twice.
abbrev one_claim : List Action
one_claim = enter 0 first_sample ∷ []

abbrev behind_it : List Action
behind_it = enter 1 second_sample ∷ advance 1 ∷ advance 1 ∷ advance 1 ∷ consume ∷ consume ∷ []

abbrev one_claimed : System
one_claimed = act_all 1 begin one_claim

one_claim-Spaced : Spaced 1 begin one_claim
unfolding act enter_push fresh
one_claim-Spaced = omega arith

one_claim-held : holding (one_claimed.producers 0) ≡ some one_claimed.ring.read_index
unfolding act_all act enter_push fresh
one_claim-held = refl

behind_it-IsStopped : IsStopped 0 behind_it
behind_it-IsStopped = omega arith

behind_it-Spaced : Spaced 1 one_claimed behind_it
unfolding act_all act enter_push advance_push advance_pop fresh
behind_it-Spaced = omega arith

stalled_blocks_example :
    (deliveries 1 one_claimed behind_it ≡ [])
    × ((act_all 1 one_claimed behind_it).ring.read_index ≡ one_claimed.ring.read_index)
stalled_blocks_example =
    stalled_blocks 1 0 outside empty_record one_claim behind_it outside-NoneInside one_claim-Spaced
      one_claim-held behind_it-IsStopped behind_it-Spaced
