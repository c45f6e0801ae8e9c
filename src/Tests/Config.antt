-- ===== src/Tests/Config.antt =====
-- Witnesses for the configuration.
use tri_drishti_chrono_cap.Common.{ℕ, ◌≡◌, refl, true, false, some, List, [], ◌∷◌, map}
use tri_drishti_chrono_cap.Config.{TopicConfig, loaded, load_from_file, is_enabled}
use tri_drishti_chrono_cap.Config.Enabled.{last_named, allowed, is_enabled-load_from_file}

abbrev joy_name : List ℕ
joy_name = b'/' ∷ b'j' ∷ b'o' ∷ b'y' ∷ []

-- Two entries for one topic, the first one disabled.
abbrev entries : List TopicConfig
entries =
    record { name = joy_name; struct_id = 4; enabled = false }
    ∷ record { name = []; struct_id = 0; enabled = true }
    ∷ record { name = joy_name; struct_id = 4; enabled = true }
    ∷ []

is_enabled-load_from_file_example :
    let (m, result) =
      load_from_file []
        (record { opens = true; parses = true; entries = some (map some entries) }) in
    (result ≡ loaded) × (is_enabled m joy_name 4 ≡ allowed (last_named joy_name entries) 4)
is_enabled-load_from_file_example = is_enabled-load_from_file [] entries joy_name 4 refl
