-- ===== src/States/Ranking.antt =====
-- client/tetris/states/ranking_state.py: the ten rows of the ranking and the way back to the lobby. A
-- row holds what its two texts say: the place and the nickname, and the score.
pub mod Rows
mod Examples
use project_tetris.Base.{
  ℕ, zero, suc, Bool, true, false, Option, none, some, List, [], ◌∷◌, ◌++◌, if◌then◌else◌,
  get_elem?, ℤ,
}
use project_tetris.Python.Exec.{Result, ok, err, system_exit}
use project_tetris.Python.Struct.{Bytes}
use project_tetris.Python.Utf8.{Text}
use project_tetris.Net.Builder.{build_request_ranking_pkt}
use project_tetris.States.Fade.{
  StateName, BaseState, lobby, new_base_state, queue_state, consume_state, update_fade,
}
use project_tetris.Ui.Event.{Event, Rect, quit}
use project_tetris.Ui.Button
use project_tetris.Ui.Button.{Button, new_button}

pub record RankingState : Type 0 where
  pub base : BaseState
  pub btn_back : Button
  pub rows : List (Option (ℕ × Text × ℤ))
  pub rankings : List (Text × ℤ)
  -- what was handed to `send_packet`
  pub requests : List Bytes

abbrev pub Outcome : Type 0
Outcome = Result (Unit {0}) × RankingState

abbrev pub row_count : ℕ
row_count = 10

abbrev pub row_of : ℕ → Option (Text × ℤ) → Option (ℕ × Text × ℤ)
row_of idx none = none
row_of idx (some (nickname, score)) = some (suc idx, nickname, score)

-- `for idx in range(row_count)`, from `idx` on for `n` rows
unfoldable pub make_rows : List (Text × ℤ) → ℕ → ℕ → List (Option (ℕ × Text × ℤ))
make_rows rankings idx zero = []
make_rows rankings idx (suc n) =
    row_of idx (get_elem? rankings idx) ∷ make_rows rankings (suc idx) n

unfoldable pub rebuild_rows : RankingState → RankingState
unfolding make_rows
rebuild_rows s = record s { rows = make_rows s.rankings 0 row_count }

abbrev request_ranking : RankingState → Result Bytes → Outcome
request_ranking s (ok packet) =
    (ok tt, record s { rankings = []; rows = []; requests = s.requests ++ (packet ∷ []) })
request_ranking s (err e) = (err e, record s { rankings = []; rows = [] })

-- The rows are built by `set_layout`, and are gone until the first packet.
unfoldable pub new_ranking : Rect → Text → Outcome
unfolding rebuild_rows
new_ranking back_rect back_text =
    request_ranking
      (rebuild_rows (record {
        base = new_base_state;
        btn_back = new_button back_rect back_text;
        rows = [];
        rankings = [];
        requests = [];
      }))
      build_request_ranking_pkt

pub data RankingPacket : Type 0 where
  ranking_info : Text → ℤ → RankingPacket
  unused_packet : RankingPacket

unfoldable pub handle_ranking_packet : RankingState → RankingPacket → RankingState
unfolding rebuild_rows
handle_ranking_packet s (ranking_info nickname score) =
    rebuild_rows (record s { rankings = s.rankings ++ ((nickname, score) ∷ []) })
handle_ranking_packet s unused_packet = s

abbrev click_back : RankingState → Button × Bool → Outcome
unfolding queue_state
click_back s (b, clicked) =
    let s' : RankingState = record s { btn_back = b } in
    (ok tt, if clicked then record s' { base = queue_state s'.base lobby } else s')

unfoldable pub handle_ranking_event : RankingState → Event → Outcome
unfolding click_back
handle_ranking_event s quit = (err system_exit, s)
handle_ranking_event s ev = click_back s (Button.handle_event s.btn_back ev)

-- An exception ends the loop over the events.
abbrev go_on : Outcome → Outcome → Outcome
go_on (ok _, s) rest = rest
go_on (err e, s) rest = (err e, s)

unfoldable pub handle_ranking_events : RankingState → List Event → Outcome
unfolding handle_ranking_event
handle_ranking_events s [] = (ok tt, s)
handle_ranking_events s (ev ∷ evs) =
    let o = handle_ranking_event s ev in go_on o (handle_ranking_events o.1 evs)

abbrev finish_frame : ℕ → Outcome → Result (Option StateName) × RankingState
finish_frame dt_ms (err e, s) = (err e, s)
finish_frame dt_ms (ok _, s) =
    let (next, base) = consume_state (update_fade s.base dt_ms) in
    (ok next, record s { base = base })

unfoldable pub update : RankingState → ℕ → List Event → Result (Option StateName) × RankingState
unfolding handle_ranking_events
update s dt_ms evs = finish_frame dt_ms (handle_ranking_events s evs)
