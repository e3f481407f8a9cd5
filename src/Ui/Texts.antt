-- ===== src/Ui/Texts.antt =====
-- The texts of buttons and tabs by which the client tells them apart, as code points.
use project_tetris.Base.{[], ◌∷◌}
use project_tetris.Python.Utf8.{Text}

-- 확인
abbrev pub confirm_text : Text
confirm_text = 0xD655 ∷ 0xC778 ∷ []

-- 재시도
abbrev pub retry_text : Text
retry_text = 0xC7AC ∷ 0xC2DC ∷ 0xB3C4 ∷ []

-- 종료
abbrev pub exit_text : Text
exit_text = 0xC885 ∷ 0xB8CC ∷ []

-- 로그인
abbrev pub login_text : Text
login_text = 0xB85C ∷ 0xADF8 ∷ 0xC778 ∷ []

-- 게임종료
abbrev pub quit_game_text : Text
quit_game_text = 0xAC8C ∷ 0xC784 ∷ 0xC885 ∷ 0xB8CC ∷ []

-- 계속하기
abbrev pub continue_text : Text
continue_text = 0xACC4 ∷ 0xC18D ∷ 0xD558 ∷ 0xAE30 ∷ []

-- 수락
abbrev pub accept_text : Text
accept_text = 0xC218 ∷ 0xB77D ∷ []

-- 닫기
abbrev pub close_text : Text
close_text = 0xB2EB ∷ 0xAE30 ∷ []

-- 참가
abbrev pub join_text : Text
join_text = 0xCC38 ∷ 0xAC00 ∷ []

-- 취소
abbrev pub cancel_text : Text
cancel_text = 0xCDE8 ∷ 0xC18C ∷ []

-- 성공
abbrev pub success_text : Text
success_text = 0xC131 ∷ 0xACF5 ∷ []

-- 만들기
abbrev pub make_text : Text
make_text = 0xB9CC ∷ 0xB4E4 ∷ 0xAE30 ∷ []

-- 유저
abbrev pub user_tab_name : Text
user_tab_name = 0xC720 ∷ 0xC800 ∷ []

-- 친구
abbrev pub friend_tab_name : Text
friend_tab_name = 0xCE5C ∷ 0xAD6C ∷ []

-- 빠른 싱글
abbrev pub quick_start_room_name : Text
quick_start_room_name = 0xBE60 ∷ 0xB978 ∷ 0x20 ∷ 0xC2F1 ∷ 0xAE00 ∷ []

-- 2인
abbrev pub two_players_text : Text
two_players_text = 0x32 ∷ 0xC778 ∷ []

-- 5인
abbrev pub five_players_text : Text
five_players_text = 0x35 ∷ 0xC778 ∷ []

-- 찾기
abbrev pub find_text : Text
find_text = 0xCC3E ∷ 0xAE30 ∷ []

-- 전체
abbrev pub all_text : Text
all_text = 0xC804 ∷ 0xCCB4 ∷ []

-- 공개
abbrev pub open_text : Text
open_text = 0xACF5 ∷ 0xAC1C ∷ []

-- 비공개
abbrev pub closed_text : Text
closed_text = 0xBE44 ∷ 0xACF5 ∷ 0xAC1C ∷ []

-- 싱글
abbrev pub single_text : Text
single_text = 0xC2F1 ∷ 0xAE00 ∷ []

-- 멀티
abbrev pub multi_text : Text
multi_text = 0xBA40 ∷ 0xD2F0 ∷ []

-- 마스터
abbrev pub master_text : Text
master_text = 0xB9C8 ∷ 0xC2A4 ∷ 0xD130 ∷ []

-- 배경음
abbrev pub music_text : Text
music_text = 0xBC30 ∷ 0xACBD ∷ 0xC74C ∷ []

-- 효과음
abbrev pub effect_text : Text
effect_text = 0xD6A8 ∷ 0xACFC ∷ 0xC74C ∷ []

-- 소리
abbrev pub sound_text : Text
sound_text = 0xC18C ∷ 0xB9AC ∷ []

-- 적용
abbrev pub apply_text : Text
apply_text = 0xC801 ∷ 0xC6A9 ∷ []
