-- ===== src/Writer/Split/Closing.antt =====
-- A whole session with producers inside `TryPush` at any time, also when `Close` begins.
use tri_drishti_chrono_cap.Common.{
  ℕ, zero, suc, ◌≤◌, ◌≡◌, refl, ap, sym, subst, ◌∙◌, arith, if◌then◌else◌, Bool, true, false,
  Option, none, some, List, [], ◌++◌, append-nil, append_assoc, length, take,
}
use tri_drishti_chrono_cap.Ring.Queue.{Item}
use tri_drishti_chrono_cap.Ring.Threads.{Producer}
use tri_drishti_chrono_cap.Ring.Threads.Inv.{holding, index_of}
use tri_drishti_chrono_cap.Ring.Threads.Inv
use tri_drishti_chrono_cap.Writer.{TopicInfo, sync}
use tri_drishti_chrono_cap.Writer.Output.{Descriptor, IsReliable}
use tri_drishti_chrono_cap.Writer.Format.{items_bytes}
use tri_drishti_chrono_cap.Writer.Records.{IsRecord}
use tri_drishti_chrono_cap.Writer.Thread.{Pc, at_final_flush, exited, Session}
use tri_drishti_chrono_cap.Writer.Thread.Inv.{in_hand, drained, final}
use tri_drishti_chrono_cap.Writer.Thread.Pieces.{Sound, nothing}
use tri_drishti_chrono_cap.Ring.{fresh}
use tri_drishti_chrono_cap.Ring.Threads.Safety.{NoneInside, start-Inv}
use tri_drishti_chrono_cap.Ring.Conserve.{held}
use tri_drishti_chrono_cap.Wire.Header.Layout.{file_header_bytes}
use tri_drishti_chrono_cap.Writer.Format.{topics_bytes, session_header, file_bytes}
use tri_drishti_chrono_cap.Writer.Thread.Dry.{IfSome, IsLooping}
use tri_drishti_chrono_cap.Writer.Lifecycle.{close_file, open_session, drive, close_fuel, finish}
use tri_drishti_chrono_cap.Writer.Lifecycle.Drain.{rank_le}
use tri_drishti_chrono_cap.Writer.Lifecycle.Lossless.{opened_lem, opened_bytes}
use tri_drishti_chrono_cap.Writer.Lifecycle.AnyClose.{drive-Sound, length-held}
use tri_drishti_chrono_cap.Writer.Split.{
  Shared, view, Move, run_moves, close_split, claimed_in, HaveRoom, halting,
}
use tri_drishti_chrono_cap.Writer.Split.Inv.{IsSettled, Kept}
use tri_drishti_chrono_cap.Writer.Split.Runs.{run-Ran, Ended, drive-Ended}

module _ {fd : Descriptor} (ok : IsReliable fd) (front : List ℕ) where
  close_split_path :
      (clock : ℕ → ℕ) (moves : List Move) (s s1 : Shared) (t : Session)
      → s.session.writer.joinable ≡ true
      → run_moves fd (halting s) moves ≡ some s1
      → drive fd close_fuel clock s1.session ≡ some t
      → t.writer.is_open ≡ true
      → close_split fd clock moves s
        ≡ some (record t { writer = record (sync t.writer) { joinable = false; is_open = false } })
  unfolding close_split
  close_split_path clock moves s s1 t j e1 e2 o =
      let closed : close_file (record t.writer { joinable = false })
          ≡ record (sync t.writer) { joinable = false; is_open = false } =
        ap
          (λ (b : Bool).
            if b
            then record (sync t.writer) { joinable = false; is_open = false }
            else record t.writer { joinable = false })
          o in
      ap
        (λ (b : Bool).
          if b
          then (elim (run_moves fd (halting s) moves) [
            | none ↦ none
            | some s' ↦ finish fd (drive fd close_fuel clock s'.session)
          ])
          else some (record s.session { writer = close_file s.session.writer }))
        j
      ∙ ap
          (λ (o : Option Shared). elim o [
            | none ↦ none
            | some s' ↦ finish fd (drive fd close_fuel clock s'.session)
          ])
          e1
      ∙ ap (finish fd) e2
      ∙ ap (λ x. some (record t { writer = x })) closed

  Kept-halting : {log : List Item} (s : Shared) → Kept front log s → Kept front log (halting s)
  Kept-halting s v = record {
    ring_ok = v.ring_ok;
    written = v.written;
    bytes = v.bytes;
    all = v.all;
    is_open = v.is_open;
    record_ok = v.record_ok;
    synced = v.synced;
  }

  -- The thread comes to its end, wherever the producers stand.
  drive_ends :
      (clock : ℕ → ℕ) (log : List Item) (s : Shared)
      → Kept front log s
      → s.session.writer.shutdown ≡ true
      → (t : Session) × (drive fd close_fuel clock s.session ≡ some t) × (t.pc ≡ exited)
  drive_ends clock log s v sh =
      let w = s.session.writer in
      let sound : Sound w.disk.bytes [] s.session = record {
        ring_ok = record { size = v.ring_ok.size; slots_ok = v.ring_ok.slots_ok };
        record_ok = v.record_ok;
        is_open = v.is_open;
        behind = [];
        bytes = sym (append-nil w.disk.bytes);
        pieces = nothing;
        synced = v.synced;
      } in
      let (t, more, e, vt, q, out) =
        drive-Sound ok.law w.disk.bytes close_fuel clock [] s.session sound sh (
          omega (
            arith,
            rank_le s.session.pc (length (held w.ring.slots)),
            length-held w.ring.slots,
            v.ring_ok.size,
          )) in
      (t, e, out)

  close_split_lem :
      (clock : ℕ → ℕ) (during : List Move) (log : List Item) (s : Shared)
      → Kept front log s
      → IsLooping s.session
      → s.session.writer.joinable ≡ true
      → HaveRoom fd (halting s) during
      → let all = log ++ claimed_in fd (halting s) during in
        (t : Session) × (n : ℕ) × (close_split fd clock during s ≡ some t)
        × (t.writer.disk.bytes ≡ front ++ items_bytes (take n all))
        × (n ≤ length all)
        × ((m : ℕ) → IsSettled m s → m ≤ n)
        × (t.writer.synced ≡ length t.writer.disk.bytes)
        × (t.writer.is_open ≡ false)
        × (t.writer.joinable ≡ false)
  close_split_lem clock during log s v l j room =
      let (s1, e1, r) = run-Ran ok front during log (halting s) (Kept-halting s v) room in
      let all = log ++ claimed_in fd (halting s) during in
      let (t, e2, out) = drive_ends clock all s1 r.kept r.shutdown in
      let ended : (m : ℕ) → IsSettled m (halting s) → Ended ok front all s1.producers m t = λ m st.
        subst (IfSome (Ended ok front all s1.producers m)) e2 (
          drive-Ended ok front close_fuel clock all s1.producers m s1.session r.kept
            (r.settled m st)
            (r.done m st (λ d. absurd (let q = sym (not_drained s.session.pc l) ∙ d in cc)))) in
      let (kept, done) =
        ended 0 (record { made = omega arith; published = λ i j h. omega arith }) in
      let written : kept.written ≡ take t.writer.ring.read_index all =
        sym (append-nil kept.written)
        ∙ ap (λ pc. kept.written ++ in_hand pc t.rec) (sym out)
        ∙ kept.all in
      (
        record t { writer = record (sync t.writer) { joinable = false; is_open = false } },
        t.writer.ring.read_index,
        close_split_path clock during s s1 t j e1 e2 kept.is_open,
        kept.bytes ∙ ap (λ l. front ++ items_bytes l) written,
        omega (arith, kept.ring_ok.behind, kept.ring_ok.recorded),
        λ m st. (ended m (record { made = st.made; published = st.published })).1 (ap drained out),
        refl,
        refl,
        refl,
      )
    where
      not_drained : (pc : Pc) → final pc ≡ false → drained pc ≡ false
      not_drained at_final_flush e = absurd cc
      not_drained exited e = absurd cc
      not_drained _ e = refl

take_nil : (n : ℕ) → take {A = Item} n [] ≡ []
take_nil zero = refl
take_nil (suc n) = refl

-- With no producer inside, no claim is in flight.
quiet-IsSettled :
    {front : List ℕ} {log : List Item} (s : Shared)
    → Kept front log s
    → NoneInside s.producers
    → IsSettled (length log) s
quiet-IsSettled s v quiet = record {
  made = omega (arith, v.ring_ok.recorded);
  published = λ i k h. absurd (let q = sym (outside i) ∙ h in cc);
}
  where
    outside : (i : ℕ) → holding (s.producers i) ≡ none
    outside i = ap (λ st. index_of st (s.producers i).idx) (quiet i)

-- A session whose `Open` gave true, on a disk whose writes do not fail, with a new ring and no thread at
-- first, and any number of producers, which enter `TryPush` and go on in it access by access between the
-- thread's calls, before `Close` begins and beside it, each claim being less than a round ahead of the
-- thread and below 2 ^ 64. Then no call hangs, `Close` returns, and its file, all of it passed to fsync,
-- is the header, the table and the records of the first `n` claims, in the order of the claims, each once.
-- Among them are all claims below which no producer is still inside `TryPush` as `Close` begins; so
-- all that were made before it, if none is inside. A record that was published behind an unfinished claim
-- need not be among them, although its `Push` has returned true.
pub close_in_flight :
    {fd : Descriptor}
    → IsReliable fd
    → (now steady : ℕ) (clock : ℕ → ℕ) (s s0 : Session) (topics : List TopicInfo)
      (producers : ℕ → Producer) (moves during : List Move)
    → s.writer.joinable ≡ false
    → s.writer.ring ≡ fresh 12
    → NoneInside producers
    → open_session fd true now steady s topics ≡ some (s0, true)
    → let begin : Shared = record { session = s0; producers = producers } in
      HaveRoom fd begin moves
      → ((s1 : Shared) → run_moves fd begin moves ≡ some s1 → HaveRoom fd (halting s1) during)
      → (s1 : Shared) × (t : Session) × (n : ℕ) × (run_moves fd begin moves ≡ some s1)
        × (close_split fd clock during s1 ≡ some t)
        × (t.writer.disk.bytes
            ≡ file_bytes now topics
                (take n (claimed_in fd begin moves ++ claimed_in fd (halting s1) during)))
        × (n ≤ length (claimed_in fd begin moves ++ claimed_in fd (halting s1) during))
        × ((m : ℕ) → IsSettled m s1 → m ≤ n)
        × (NoneInside s1.producers → length (claimed_in fd begin moves) ≤ n)
        × (t.writer.synced ≡ length t.writer.disk.bytes)
        × (t.writer.is_open ≡ false)
        × (t.writer.joinable ≡ false)
close_in_flight {fd} ok now steady clock s s0 topics producers moves during j ring none_inside
      opened room later =
    let front = file_header_bytes (session_header now topics) ++ topics_bytes topics in
    let begin : Shared = record { session = s0; producers = producers } in
    let result = opened_lem ok.law now steady s s0 topics j opened in
    let (pc, rec, sh, jn) = result.started in
    let at_start : Kept front [] begin = record {
      ring_ok =
          subst (λ r. Inv.Inv 12 [] (record (view begin) { ring = r })) (sym (result.ring ∙ ring))
            (start-Inv 12 producers s0.rec none_inside);
      written = [];
      bytes = opened_bytes result.file ∙ sym (append-nil _);
      all = ap (λ p. in_hand p s0.rec) pc ∙ sym (take_nil s0.writer.ring.read_index);
      is_open = result.is_open;
      record_ok = subst IsRecord (sym rec) (record { sized = refl; fits = omega arith });
      synced = omega (arith, result.synced);
    } in
    let (s1, e1, r) = run-Ran ok front moves [] begin at_start room in
    let (t, n, e2, bytes, few, settled, synced, shut, joined) =
      close_split_lem ok front clock during (claimed_in fd begin moves) s1 r.kept
        (r.looping sh (ap final pc)) (r.joinable ∙ jn) (later s1 e1) in
    (
      s1,
      t,
      n,
      e1,
      e2,
      bytes ∙ append_assoc (file_header_bytes (session_header now topics)) (topics_bytes topics) _,
      few,
      settled,
      λ quiet. settled (length (claimed_in fd begin moves)) (quiet-IsSettled s1 r.kept quiet),
      synced,
      shut,
      joined,
    )
