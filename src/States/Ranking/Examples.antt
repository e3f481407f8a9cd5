-- ===== src/States/Ranking/Examples.antt =====
-- Witness: two packets of the ranking.
use project_tetris.Base.{ℕ, ◌<◌, ◌≡◌, some, [], ◌∷◌, ◌++◌, ◌+◌, get_elem?, length, pos}
use project_tetris.States.Fade.{new_base_state}
use project_tetris.Ui.Button.{new_button}
use project_tetris.Base.{true}
use project_tetris.States.Ranking.{RankingState, ranking_info}
use project_tetris.States.Ranking.Rows.{handle_all, infos, shown_as, ranking_rows}

abbrev asked : RankingState
asked = record {
  base = new_base_state;
  btn_back = new_button (λ _. true) [];
  rows = [];
  rankings = [];
  requests = [];
}

ranking_rows_example :
    let packets = ranking_info (97 ∷ []) (pos 900) ∷ ranking_info (98 ∷ []) (pos 800) ∷ [] in
    let shown = handle_all asked packets in
    (length shown.rows ≡ 10)
    × ((i : ℕ)
        → i < 10
        → get_elem? shown.rows i ≡ some (shown_as (i + 1) (get_elem? ([] ++ infos packets) i)))
ranking_rows_example =
    ranking_rows asked (97 ∷ []) (pos 900) (ranking_info (98 ∷ []) (pos 800) ∷ [])
