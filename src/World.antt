-- ===== src/World.antt =====
-- The players and the hearers of the world: sources/core/CoreImplementation.cpp, and the mind of a mob in
-- sources/core/objects/mobs/Mob.cpp. The table of players is a sorted QMap from net ids to ids of mobs;
-- which ids lead to an object is an argument, and so are a hearer's points.
pub mod Hearers
pub mod Players
use griefly.Prelude.{
  ℕ, Bool, true, false, not, ltb, ◌==◌, if◌then◌else◌, Option, none, some, List, [], ◌∷◌, ◌++◌,
}
use griefly.Geometry.{Vector}
use griefly.Chat.{ChatFrameInfo, apply_hear, post_personal, texts_at, get_personal_texts}

abbrev pub Players : Type 0
Players = List (ℕ × ℕ)

-- SetPlayerId: players_table[net_id] = real_id
unfoldable pub set_player_id : ℕ → ℕ → Players → Players
set_player_id net_id real_id [] = (net_id, real_id) ∷ []
set_player_id net_id real_id ((key, value) ∷ rest) =
    let later = set_player_id net_id real_id rest in
    if key == net_id
    then (key, real_id) ∷ rest
    else if ltb net_id key
    then (net_id, real_id) ∷ (key, value) ∷ rest
    else (key, value) ∷ later

-- GetPlayerId
unfoldable pub get_player_id : ℕ → Players → ℕ
get_player_id net_id [] = 0
get_player_id net_id ((key, value) ∷ rest) =
    let later = get_player_id net_id rest in if key == net_id then value else later

-- GetNetId
unfoldable pub get_net_id : ℕ → Players → ℕ
get_net_id real_id [] = 0
get_net_id real_id ((key, value) ∷ rest) =
    let later = get_net_id real_id rest in if value == real_id then key else later

-- Mob::IsMinded
unfoldable pub mob_is_minded : ℕ → Players → Bool
mob_is_minded mob players = if get_net_id mob players == 0 then false else true

-- Mob::MoveMindTo; MindExit and MindEnter are the mobs'.
unfoldable pub move_mind_to : ℕ → ℕ → Players → Players
move_mind_to mob other players =
    let net_id = get_net_id mob players in
    if net_id == 0 then players else set_player_id net_id other players

-- ProcessInputMessage for a new client, with the id of the new LoginMob
unfoldable pub new_client : ℕ → ℕ → Players → Players
new_client new_id login_mob players =
    if get_player_id new_id players == 0 then set_player_id new_id login_mob players else players

-- std::find and erase
unfoldable pub erase_first : ℕ → List ℕ → List ℕ
erase_first id [] = []
erase_first id (x ∷ xs) = let rest = erase_first id xs in if x == id then xs else x ∷ rest

unfoldable pub erase_all : List ℕ → List ℕ → List ℕ
erase_all [] xs = xs
erase_all (id ∷ ids) xs = erase_all ids (erase_first id xs)

module _ {Text Phrase : Type 0} (is_valid : ℕ → Bool) (points_of : ℕ → List Vector) where
  -- The loop of ProcessHearers: the hearers that are not valid, and what each valid one hears.
  unfoldable pub hear_all : List ℕ → ChatFrameInfo Text Phrase → List ℕ × List (ℕ × List Phrase)
  hear_all [] frame = ([], [])
  hear_all (id ∷ ids) frame =
      let rest = hear_all ids frame in
      if is_valid id
      then (rest.0, (id, apply_hear (points_of id) frame) ∷ rest.1)
      else (id ∷ rest.0, rest.1)

  -- ProcessHearers: the hearers that are left, and what is heard
  unfoldable pub process_hearers :
      List ℕ → ChatFrameInfo Text Phrase → List ℕ × List (ℕ × List Phrase)
  process_hearers hearers frame =
      let heard = hear_all hearers frame in (erase_all heard.0 hearers, heard.1)

module _ {Text Phrase : Type 0} where
  -- PostOoc, for a text that is put together
  unfoldable pub post_ooc : Text → Players → ChatFrameInfo Text Phrase → ChatFrameInfo Text Phrase
  post_ooc text [] frame = frame
  post_ooc text ((key, value) ∷ rest) frame = post_ooc text rest (post_personal text key frame)

  -- AppendChatMessages: the texts in the order in which the frame gets them
  unfoldable pub append_chat_messages : List Vector → ℕ → ChatFrameInfo Text Phrase → List Text
  append_chat_messages points net_id frame =
      texts_at points frame ++ get_personal_texts net_id frame
