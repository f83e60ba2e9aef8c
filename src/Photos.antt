-- ===== src/Photos.antt =====
-- Evidence photos: backend/src/infrastructure/persistence/in_memory/photo_repository.py and
-- backend/src/application/services/photo_validation.py. A byte is a number.
pub mod Upload
pub mod Validate
pub mod Verdicts
pub mod Decision
pub mod Repeat
use superion.Prelude.{
  ℕ, zero, suc, ◌+◌, String, Bool, true, false, Option, none, some, List, [], ◌∷◌, nat_eq,
  string_eq, pair_eq, ◌==◌, ◌&&◌, ◌||◌, leb, length, take, drop, if◌then◌else◌,
}
use superion.Effect.{Exec, ok}
use superion.Dict.{Dict, get, put, values}
use superion.Domain.Photo.{Photo, PhotoStatus}
use superion.World.{World}

-- The index by event id, for a photo that has one
abbrev index_event :
    Photo → Option String → Dict (String × String) String → Dict (String × String) String
index_event p none index = index
index_event p (some id) index = put index (p.session_id, id) p.id

-- `save`
unfoldable pub save_photo : Photo → Exec World (Unit {0})
save_photo p w = (
  ok tt,
  record w { photos = put w.photos p.id p; photo_index = index_event p p.event_id w.photo_index },
)

-- `get_by_event_id`
unfoldable pub photo_of_event : World → String → String → Option Photo
photo_of_event w session_id event_id = elim (get w.photo_index (session_id, event_id)) [
  | none ↦ none
  | some photo_id ↦ get w.photos photo_id
]

-- `status in (PhotoStatus.REJECTED, PhotoStatus.ESCALATED)`
abbrev pub is_refused : PhotoStatus → Bool
is_refused PhotoStatus.pending = false
is_refused PhotoStatus.accepted = false
is_refused PhotoStatus.rejected = true
is_refused PhotoStatus.escalated = true

pub count_rejected : String → ℕ → List Photo → ℕ
count_rejected session_id step_index [] = 0
count_rejected session_id step_index (p ∷ photos) =
    let rest = count_rejected session_id step_index photos in
    if p.session_id == session_id && p.step_index == step_index && is_refused p.validation_status
    then rest + 1
    else rest

unfoldable pub count_rejected_for_step : World → String → ℕ → ℕ
unfolding count_rejected
count_rejected_for_step w session_id step_index =
    count_rejected session_id step_index (values w.photos)

-- `data.startswith(start)`
unfoldable pub starts_with : List ℕ → List ℕ → Bool
starts_with bytes [] = true
starts_with [] (b ∷ start) = false
starts_with (a ∷ bytes) (b ∷ start) =
    let rest = starts_with bytes start in if a == b then rest else false

abbrev jpeg_magic : List ℕ
jpeg_magic = 255 ∷ 216 ∷ 255 ∷ []

abbrev png_magic : List ℕ
png_magic = 137 ∷ 80 ∷ 78 ∷ 71 ∷ 13 ∷ 10 ∷ 26 ∷ 10 ∷ []

-- `b"WEBP"`
abbrev webp_mark : List ℕ
webp_mark = 87 ∷ 69 ∷ 66 ∷ 80 ∷ []

-- `data[0:1] in (b"A", b"R")`
abbrev starts_with_letter : List ℕ → Bool
starts_with_letter [] = false
starts_with_letter (b ∷ bytes) = b == 65 || b == 82

unfoldable pub validate_image_magic_bytes : List ℕ → String → Bool
unfolding starts_with
validate_image_magic_bytes [] content_type = false
validate_image_magic_bytes (b ∷ bytes) content_type =
    if content_type == "image/jpeg"
    then starts_with (b ∷ bytes) jpeg_magic || starts_with_letter (b ∷ bytes)
    else if content_type == "image/png"
    then starts_with (b ∷ bytes) png_magic || starts_with_letter (b ∷ bytes)
    else if content_type == "image/webp"
    then (leb 12 (length (b ∷ bytes)) && starts_with (take 4 (drop 8 (b ∷ bytes))) webp_mark)
      || starts_with_letter (b ∷ bytes)
    else false
