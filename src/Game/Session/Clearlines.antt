-- ===== src/Game/Session/Clearlines.antt =====
-- A run of cleared lines, as the server sends it after a fixed piece.
use project_tetris.Base.{
  ℕ, ◌<◌, ◌+ℤ◌, ◌*ℤ◌, Bool-cases, inl, inr, ◌≡◌, length, refl, sym, ap, ◌∙◌, true, some, List, [],
  ◌∷◌, ◌++◌, arith, All, if◌then◌else◌, ℤ, pos,
}
use mathlib.Core.Path.{subst}
use project_tetris.Python.Exec.{ok, err}
use project_tetris.Python.Index.{py_index, py_index-pos}
use project_tetris.Game.Combo.{make_combo}
use project_tetris.Game.Tetromino.{board_rows}
use project_tetris.Game.Board.{Board, clear_lines, animate_combo}
use project_tetris.Game.Board.Invariant.{IsBoard, clear_lines-IsBoard}
use project_tetris.Game.Session.{
  TetrisSession, Outcome, IngamePacket, clearline_packet, handle_packet, set_score, show_combo,
  is_first_clearline, on_board,
}
use project_tetris.Net.Registry.{s2c_clearline}

-- The packets of a session one after the other, until one raises.
unfoldable pub handle_packets : TetrisSession → List IngamePacket → Outcome
handle_packets s [] = (ok tt, s)
handle_packets s (p ∷ ps) =
    let (r, s') = handle_packet s p in
    let rest = handle_packets s' ps in elim r [ ok _ ↦ rest | err e ↦ (err e, s') ]

-- A cleared line: its row, the combo and the score.
abbrev pub clearline : ℕ × ℤ × ℤ → IngamePacket
clearline (line, combo, score) = clearline_packet (pos line) combo score

abbrev pub IsLine : ℕ × ℤ × ℤ → Type 0
IsLine (line, combo, score) = line < board_rows

abbrev pub clearlines : List (ℕ × ℤ × ℤ) → List IngamePacket
clearlines [] = []
clearlines (c ∷ cs) = clearline c ∷ clearlines cs

-- A board after a line is cleared, which shows the same effects at the same place.
abbrev LineCleared : Board → Board → Type 0
LineCleared b b' =
    IsBoard b'
    × (b'.combo_effects ≡ b.combo_effects)
    × (b'.full_grid_x ≡ b.full_grid_x)
    × (b'.full_grid_y ≡ b.full_grid_y)
    × (b'.cell_length ≡ b.cell_length)

line_lem :
    (b : Board) (line : ℕ)
    → IsBoard b
    → line < board_rows
    → (b' : Board) × (clear_lines b (pos line) ≡ (ok tt, b')) × LineCleared b b'
line_lem b line h lt =
    let at : py_index (length b.grid) (pos line) ≡ some line =
      py_index-pos (length b.grid) line (omega (arith, h.0)) in
    let kept = clear_lines-IsBoard b (pos line) h in
    (
      (clear_lines b (pos line)).1,
      unfold clear_lines in rw at refl,
      unfold clear_lines in (kept, rw at refl, rw at refl, rw at refl, rw at refl),
    )

-- The score is neither the board nor the last packet.
set_score_kept :
    (s : TetrisSession) (n : ℤ)
    → ((set_score s n).board ≡ s.board) × ((set_score s n).prev_packet_type ≡ s.prev_packet_type)
unfolding set_score
set_score_kept s n = elim (Bool-cases s.is_single) [
  | inl y ↦ rw y (refl, refl)
  | inr y ↦ rw y (refl, refl)
]

abbrev with_combo : TetrisSession → ℤ → ℤ → TetrisSession
with_combo s line combo = record s {
  prev_packet_type = some s2c_clearline;
  board = animate_combo s.board line combo;
}

shown_rest :
    (s : TetrisSession) (line combo : ℤ)
    → s.prev_packet_type ≡ some s2c_clearline
    → show_combo line combo s ≡ s
shown_rest s line combo h = ap (λ p. if is_first_clearline p then with_combo s line combo else s) h

shown_first :
    (s : TetrisSession) (line combo : ℤ)
    → is_first_clearline s.prev_packet_type ≡ true
    → show_combo line combo s ≡ with_combo s line combo
shown_first s line combo h = ap (λ v. if v then with_combo s line combo else s) h

-- The session after a cleared line.
abbrev after_line : TetrisSession → Board → ℤ → ℤ → ℤ → TetrisSession
after_line s b line combo score = show_combo line combo (set_score (record s { board = b }) score)

line_step :
    (s : TetrisSession) (line combo score : ℤ) (b : Board) (ps : List IngamePacket)
    → clear_lines s.board line ≡ (ok tt, b)
    → handle_packets s (clearline_packet line combo score ∷ ps)
      ≡ handle_packets (after_line s b line combo score) ps
unfolding handle_packets handle_packet
line_step s line combo score b ps e =
    let step : handle_packet s (clearline_packet line combo score)
        ≡ (ok tt, after_line s b line combo score) =
      ap (on_board s (λ s'. show_combo line combo (set_score s' score))) e in
    ap (λ (o : Outcome). elim o.0 [ ok _ ↦ handle_packets o.1 ps | err x ↦ (err x, o.1) ]) step

after_rest :
    (s : TetrisSession) (b : Board) (line combo score : ℤ)
    → s.prev_packet_type ≡ some s2c_clearline
    → let s' = after_line s b line combo score in
      (s'.board ≡ b) × (s'.prev_packet_type ≡ some s2c_clearline)
after_rest s b line combo score h =
    let s₁ = set_score (record s { board = b }) score in
    let (eb, ep) = set_score_kept (record s { board = b }) score in
    let same = shown_rest s₁ line combo (ep ∙ h) in
    (ap (λ v. v.board) same ∙ eb, ap (λ v. v.prev_packet_type) same ∙ ep ∙ h)

after_first :
    (s : TetrisSession) (b : Board) (line combo score : ℤ)
    → is_first_clearline s.prev_packet_type ≡ true
    → let s' = after_line s b line combo score in
      (s'.board ≡ animate_combo b line combo) × (s'.prev_packet_type ≡ some s2c_clearline)
after_first s b line combo score h =
    let s₁ = set_score (record s { board = b }) score in
    let (eb, ep) = set_score_kept (record s { board = b }) score in
    let new = shown_first s₁ line combo (ap is_first_clearline ep ∙ h) in
    (
      ap (λ v. v.board) new ∙ ap (λ v. animate_combo v line combo) eb,
      ap (λ v. v.prev_packet_type) new,
    )

-- The rest of a run shows no combo.
rest_lem :
    (cs : List (ℕ × ℤ × ℤ)) (s : TetrisSession)
    → IsBoard s.board
    → s.prev_packet_type ≡ some s2c_clearline
    → All IsLine cs
    → (s' : TetrisSession) × (handle_packets s (clearlines cs) ≡ (ok tt, s'))
      × (s'.board.combo_effects ≡ s.board.combo_effects)
rest_lem [] s h prev lines = (s, unfold handle_packets in refl, refl)
rest_lem ((line, combo, score) ∷ cs) s h prev (lt, lines) =
    let (b, e, (hb, eb, _, _, _)) = line_lem s.board line h lt in
    let (kept, last) = after_rest s b (pos line) combo score prev in
    let s₁ = after_line s b (pos line) combo score in
    let (s', e', ee) = rest_lem cs s₁ (subst IsBoard (sym kept) hb) last lines in
    (
      s',
      line_step s (pos line) combo score b (clearlines cs) e ∙ e',
      ee ∙ ap (λ v. v.combo_effects) kept ∙ eb,
    )

-- A run of cleared lines, the last packet before it not being one: it raises nothing, and shows the
-- combo once, that of the first line, at the first line's height on the board.
pub clearlines_lem :
    (s : TetrisSession) (line : ℕ) (combo score : ℤ) (cs : List (ℕ × ℤ × ℤ))
    → IsBoard s.board
    → is_first_clearline s.prev_packet_type ≡ true
    → All IsLine ((line, combo, score) ∷ cs)
    → let y = s.board.full_grid_y +ℤ pos s.board.cell_length *ℤ pos line in
      (s' : TetrisSession) × (handle_packets s (clearlines ((line, combo, score) ∷ cs))
        ≡ (ok tt, s'))
      × (s'.board.combo_effects
          ≡ s.board.combo_effects ++ (make_combo combo s.board.full_grid_x y ∷ []))
clearlines_lem s line combo score cs h first (lt, lines) =
    let (b, e, (hb, eb, ex, ey, ec)) = line_lem s.board line h lt in
    let (shown, last) = after_first s b (pos line) combo score first in
    let s₁ = after_line s b (pos line) combo score in
    let hs : IsBoard (animate_combo b (pos line) combo) = unfold animate_combo in hb in
    let (s', e', ee) = rest_lem cs s₁ (subst IsBoard (sym shown) hs) last lines in
    (
      s',
      line_step s (pos line) combo score b (clearlines cs) e ∙ e',
      ee ∙ ap (λ v. v.combo_effects) shown ∙ unfold animate_combo in rw (eb, ex, ey, ec) refl,
    )
