-- ===== src/States/Ranking/Rows.antt =====
-- What the rows of the ranking show.
use project_tetris.Base.{
  Option, none, ℕ, zero, suc, ◌+◌, ◌<◌, ◌≡◌, refl, sym, ap, ◌∙◌, some, List, [], ◌∷◌, ◌++◌, arith,
  get_elem?, length, ℤ,
}
use mathlib.Core.List.{append-nil, append_assoc}
use project_tetris.Python.Utf8.{Text}
use project_tetris.States.Ranking.{
  RankingState, RankingPacket, ranking_info, unused_packet, row_count, row_of, make_rows,
  rebuild_rows, handle_ranking_packet,
}

length-make_rows : (rankings : List (Text × ℤ)) (idx n : ℕ) → length (make_rows rankings idx n) ≡ n
unfolding make_rows
length-make_rows rankings idx zero = omega arith
length-make_rows rankings idx (suc n) = omega (arith, length-make_rows rankings (suc idx) n)

get_elem?-make_rows :
    (rankings : List (Text × ℤ)) (idx n i : ℕ)
    → i < n
    → get_elem? (make_rows rankings idx n) i
      ≡ some (row_of (idx + i) (get_elem? rankings (idx + i)))
unfolding make_rows
get_elem?-make_rows rankings idx zero i h = absurd (omega arith)
get_elem?-make_rows rankings idx (suc n) zero h =
    let same : idx ≡ idx + 0 = omega arith in ap (λ k. some (row_of k (get_elem? rankings k))) same
get_elem?-make_rows rankings idx (suc n) (suc i) h =
    let same : suc idx + i ≡ idx + suc i = omega arith in
    get_elem?-make_rows rankings (suc idx) n i (omega arith)
    ∙ ap (λ k. some (row_of k (get_elem? rankings k))) same

from_zero : (i : ℕ) → 0 + i ≡ i
from_zero i = omega arith

-- What the row of place `number` shows of an entry.
abbrev pub shown_as : ℕ → Option (Text × ℤ) → Option (ℕ × Text × ℤ)
shown_as number none = none
shown_as number (some (nickname, score)) = some (number, nickname, score)

row_of_lem : (i : ℕ) (e : Option (Text × ℤ)) → row_of i e ≡ shown_as (i + 1) e
row_of_lem i none = refl
row_of_lem i (some (nickname, score)) =
    let next : suc i ≡ i + 1 = omega arith in ap (λ k. some (k, nickname, score)) next

-- The texts and scores that the packets brought, in their order.
abbrev pub infos : List RankingPacket → List (Text × ℤ)
infos [] = []
infos (ranking_info nickname score ∷ ps) = (nickname, score) ∷ infos ps
infos (unused_packet ∷ ps) = infos ps

abbrev pub handle_all : RankingState → List RankingPacket → RankingState
handle_all s [] = s
handle_all s (p ∷ ps) = handle_all (handle_ranking_packet s p) ps

rankings_lem :
    (s : RankingState) (ps : List RankingPacket)
    → (handle_all s ps).rankings ≡ s.rankings ++ infos ps
unfolding handle_ranking_packet rebuild_rows
rankings_lem s [] = sym (append-nil s.rankings)
rankings_lem s (ranking_info nickname score ∷ ps) =
    rankings_lem (handle_ranking_packet s (ranking_info nickname score)) ps
    ∙ append_assoc s.rankings ((nickname, score) ∷ []) (infos ps)
rankings_lem s (unused_packet ∷ ps) = rankings_lem s ps

abbrev HasRows : RankingState → Type 0
HasRows s = s.rows ≡ make_rows s.rankings 0 row_count

kept_rows : (s : RankingState) (ps : List RankingPacket) → HasRows s → HasRows (handle_all s ps)
unfolding handle_ranking_packet rebuild_rows
kept_rows s [] h = h
kept_rows s (ranking_info nickname score ∷ ps) h =
    kept_rows (handle_ranking_packet s (ranking_info nickname score)) ps refl
kept_rows s (unused_packet ∷ ps) h = kept_rows s ps h

-- After a packet of the ranking and any packets behind it there are ten rows. The row at index `i`
-- shows the number `i + 1`, with the nickname and the score of that packet, in the order in which the packets
-- came since the ranking was asked for, or nothing where fewer have come.
pub ranking_rows :
    (s : RankingState) (nickname : Text) (score : ℤ) (ps : List RankingPacket)
    → let shown = handle_all s (ranking_info nickname score ∷ ps) in
      let all = s.rankings ++ infos (ranking_info nickname score ∷ ps) in
      (length shown.rows ≡ 10)
      × ((i : ℕ) → i < 10 → get_elem? shown.rows i ≡ some (shown_as (i + 1) (get_elem? all i)))
unfolding handle_ranking_packet rebuild_rows
ranking_rows s nickname score ps =
    let p = ranking_info nickname score in
    let rows = kept_rows (handle_ranking_packet s p) ps refl in
    let all = rankings_lem s (p ∷ ps) in
    (
      ap length rows ∙ length-make_rows (handle_all s (p ∷ ps)).rankings 0 row_count,
      λ i h.
          ap (λ rs. get_elem? rs i) rows
          ∙ get_elem?-make_rows (handle_all s (p ∷ ps)).rankings 0 row_count i h
          ∙ ap (λ k. some (row_of k (get_elem? (handle_all s (p ∷ ps)).rankings k))) (from_zero i)
          ∙ ap (λ r. some (row_of i (get_elem? r i))) all
          ∙ ap some (row_of_lem i (get_elem? (s.rankings ++ infos (p ∷ ps)) i)),
    )
