-- ===== src/Writer/Lifecycle/Closed.antt =====
-- What `Close` leaves, whatever the disk did: no open file and no thread; and `Close` again.
use tri_drishti_chrono_cap.Common.{
  ℕ, ◌≡◌, refl, ap, subst, ◌∙◌, if◌then◌else◌, Bool, true, false, Option, none, some,
}
use tri_drishti_chrono_cap.Writer.{sync}
use tri_drishti_chrono_cap.Writer.Output.{Descriptor}
use tri_drishti_chrono_cap.Writer.Thread.{Session}
use tri_drishti_chrono_cap.Writer.Lifecycle.{close_file, close_fuel, drive, finish, close}

pub record IsClosed (s : Session) : Type 0 where
  pub is_open : s.writer.is_open ≡ false
  pub joinable : s.writer.joinable ≡ false

abbrev pub Closes : Option Session → Type 0
Closes none = Unit
Closes (some s) = IsClosed s

close_file-IsClosed :
    (s : Session) (b : Bool) (j : s.writer.joinable ≡ false)
    → s.writer.is_open ≡ b
    → IsClosed
        (record s { writer = if b then record (sync s.writer) { is_open = false } else s.writer })
close_file-IsClosed s true j o = record { is_open = refl; joinable = j }
close_file-IsClosed s false j o = record { is_open = o; joinable = j }

finish-Closes : (fd : Descriptor) (o : Option Session) → Closes (finish fd o)
finish-Closes fd none = tt
finish-Closes fd (some s) =
    close_file-IsClosed (record s { writer = record s.writer { joinable = false } })
      s.writer.is_open refl refl

pub close-Closes : (fd : Descriptor) (clock : ℕ → ℕ) (s : Session) → Closes (close fd clock s)
unfolding close
close-Closes fd clock s = by_thread s.writer.joinable refl
  where
    by_thread :
        (b : Bool)
        → s.writer.joinable ≡ b
        → Closes (
            if b
            then finish fd (
                drive fd close_fuel clock
                  (record s { writer = record s.writer { shutdown = true } }))
            else some (record s { writer = close_file s.writer }))
    by_thread true j = finish-Closes fd _
    by_thread false j = close_file-IsClosed s s.writer.is_open j refl

-- `Close` on a session that is closed changes nothing.
pub close-IsClosed :
    (fd : Descriptor) (clock : ℕ → ℕ) (s : Session) → IsClosed s → close fd clock s ≡ some s
unfolding close
close-IsClosed fd clock s c =
    ap
      (λ (b : Bool).
        if b
        then finish fd
            (drive fd close_fuel clock (record s { writer = record s.writer { shutdown = true } }))
        else some (record s { writer = close_file s.writer }))
      c.joinable
    ∙ ap
        (λ (b : Bool). some (record s {
          writer = if b then record (sync s.writer) { is_open = false } else s.writer;
        }))
        c.is_open

-- Whatever the session and the disk: where `Close` returns, the file is closed and no thread is left,
-- and each further `Close` returns and changes nothing.
pub close_twice :
    (fd : Descriptor) (clock later : ℕ → ℕ) (s s1 : Session)
    → close fd clock s ≡ some s1
    → (s1.writer.is_open ≡ false) × (s1.writer.joinable ≡ false) × (close fd later s1 ≡ some s1)
close_twice fd clock later s s1 e =
    let c : IsClosed s1 = subst Closes e (close-Closes fd clock s) in
    (c.is_open, c.joinable, close-IsClosed fd later s1 c)
