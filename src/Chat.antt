-- ===== src/Chat.antt =====
-- What is said and shown in a frame: ChatFrameInfo of sources/core/ChatFrameInfo.h and
-- ChatFrameInfo.cpp. A hash of vectors is a function, where a missing key has no entries. What
-- a hearer hears is answered as a list.
pub mod Frames
use griefly.Prelude.{ℕ, ◌==◌, Bool, true, false, ◌&&◌, if◌then◌else◌, List, [], ◌∷◌, ◌++◌}
use griefly.Prelude.Int.{◌==ℤ◌}
use griefly.Geometry.{Vector}

-- Position::operator==
abbrev pub same_position : Vector → Vector → Bool
same_position p q = (p.x ==ℤ q.x) && (p.y ==ℤ q.y) && (p.z ==ℤ q.z)

pub record ChatFrameInfo (Text Phrase : Type 0) : Type 0 where
  pub personal : ℕ → List Text
  pub visible : Vector → List Text
  pub hear : Vector → List Phrase

-- hash[key].append(value)
abbrev pub append_at {ℓ} :
    {K : Type ℓ} {V : Type 0} → (K → K → Bool) → K → V → (K → List V) → K → List V
append_at same key value hash other =
    if same other key then hash other ++ (value ∷ []) else hash other

module _ {Text Phrase : Type 0} where
  -- Reset
  unfoldable pub reset : ChatFrameInfo Text Phrase → ChatFrameInfo Text Phrase
  reset f = record { personal = λ id. []; visible = λ p. []; hear = λ p. [] }

  -- PostPersonal
  unfoldable pub post_personal : Text → ℕ → ChatFrameInfo Text Phrase → ChatFrameInfo Text Phrase
  post_personal text net_id f = record f { personal = append_at ◌==◌ net_id text f.personal }

  -- PostVisible
  unfoldable pub post_visible :
      Text → Vector → ChatFrameInfo Text Phrase → ChatFrameInfo Text Phrase
  post_visible text place f = record f { visible = append_at same_position place text f.visible }

  -- PostHear
  unfoldable pub post_hear : Phrase → Vector → ChatFrameInfo Text Phrase → ChatFrameInfo Text Phrase
  post_hear phrase place f = record f { hear = append_at same_position place phrase f.hear }

  -- GetPersonalTexts
  abbrev pub get_personal_texts : ℕ → ChatFrameInfo Text Phrase → List Text
  get_personal_texts net_id f = f.personal net_id

  -- AddFromVisibleToPersonal, the loops
  unfoldable pub texts_at : List Vector → ChatFrameInfo Text Phrase → List Text
  texts_at [] f = []
  texts_at (point ∷ points) f = f.visible point ++ texts_at points f

  -- AddFromVisibleToPersonal
  unfoldable pub add_from_visible_to_personal :
      List Vector → ℕ → ChatFrameInfo Text Phrase → ChatFrameInfo Text Phrase
  add_from_visible_to_personal points net_id f = record f {
    personal = λ other.
        if other == net_id then f.personal other ++ texts_at points f else f.personal other;
  }

  -- ApplyHear, for the hearer's points: the calls of Hear
  unfoldable pub apply_hear : List Vector → ChatFrameInfo Text Phrase → List Phrase
  apply_hear [] f = []
  apply_hear (point ∷ points) f = f.hear point ++ apply_hear points f
