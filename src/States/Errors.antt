-- ===== src/States/Errors.antt =====
-- client/tetris/net/error_types.py: the numbers of the server's errors, each with a message. The text
-- of a message is left out, the error stands for it.
use project_tetris.Base.{ℕ, Option, none, some, List, [], ◌∷◌, ◌==◌, if◌then◌else◌}

pub data ErrorType : Type 0 where
  server_error invalid_request login_failed duplicate_login_id : ErrorType
  room_not_found room_full room_ingame not_found_joinable_room : ErrorType
  room_not_all_ready room_not_enough_players room_invalid_password : ErrorType
  user_not_found room_name_too_short room_password_too_short : ErrorType

unfoldable pub error_code : ErrorType → ℕ
error_code server_error = 1
error_code invalid_request = 2
error_code login_failed = 3
error_code duplicate_login_id = 4
error_code room_not_found = 10
error_code room_full = 11
error_code room_ingame = 12
error_code not_found_joinable_room = 13
error_code room_not_all_ready = 20
error_code room_not_enough_players = 21
error_code room_invalid_password = 22
error_code user_not_found = 30
error_code room_name_too_short = 40
error_code room_password_too_short = 41

-- The keys of `ERROR_MESSAGES`.
abbrev error_types : List ErrorType
error_types =
    server_error ∷ invalid_request ∷ login_failed ∷ duplicate_login_id ∷ room_not_found ∷ room_full
    ∷ room_ingame ∷ not_found_joinable_room ∷ room_not_all_ready ∷ room_not_enough_players
    ∷ room_invalid_password ∷ user_not_found ∷ room_name_too_short ∷ room_password_too_short ∷ []

unfoldable pub find_error : ℕ → List ErrorType → Option ErrorType
unfolding error_code
find_error code [] = none
find_error code (e ∷ es) =
    let rest = find_error code es in if error_code e == code then some e else rest

-- `ERROR_MESSAGES[error_code]`, where `none` is a missing key.
unfoldable pub error_type : ℕ → Option ErrorType
unfolding find_error
error_type code = find_error code error_types
