-- ===== src/Ui/ChatWindow/Wrapped.antt =====
-- What the lines of a message are.
use project_tetris.Base.{
  ℕ, zero, suc, ◌+◌, ◌-◌, ◌≤◌, ◌<◌, ◌≡◌, ◌⊎◌, inl, inr, refl, sym, ap, some, List, [], ◌∷◌, ◌++◌,
  ltb, leb, ltb→lt, arith, length, take, drop, Bool-cases, length-drop,
}
use project_tetris.Python.Utf8.{Text}
use project_tetris.Ui.ChatWindow.{
  optimized_offset, max_message_lines, long_steps, short_steps, at_least_one, line_offset, wrap,
  keep_last, full_text, add_new_message,
}

abbrev pub concat : List Text → Text
concat [] = []
concat (l ∷ ls) = l ++ concat ls

take-length : (s : Text) → take (length s) s ≡ s
take-length [] = refl
take-length (c ∷ s) = ap (◌∷◌ c) (take-length s)

drop-length : (s : Text) → drop (length s) s ≡ []
drop-length [] = refl
drop-length (c ∷ s) = drop-length s

take-drop : (k : ℕ) (s : Text) → take k s ++ drop k s ≡ s
take-drop zero s = refl
take-drop (suc k) [] = refl
take-drop (suc k) (c ∷ s) = ap (◌∷◌ c) (take-drop k s)

keep_last_lem :
    (texts : List Text) → keep_last texts ≡ drop (length texts - max_message_lines) texts
unfolding keep_last
keep_last_lem texts = elim (Bool-cases (ltb max_message_lines (length texts))) [
  | inl many ↦ rw many refl
  | inr few ↦
      let none_over : length texts - max_message_lines ≡ 0 = ground (arith, few) in
      rw (few, none_over) refl
]

module _ (width : Text → ℕ) (window_w : ℕ) where
  abbrev pub Fits : Text → Type 0
  Fits s = width s ≤ window_w

  abbrev pub TooWide : Text → Type 0
  TooWide s = window_w < width s

  -- A line is as long as fits, or one character that is too wide by itself.
  abbrev pub IsLine : ℕ → Text → Type 0
  IsLine k s =
      (Fits (take k s) × ((length s ≤ k) ⊎ TooWide (take (suc k) s)))
      ⊎ ((k ≡ 1) × TooWide (take 1 s))

  -- A prefix that fits, or none.
  abbrev Starts : ℕ → Text → Type 0
  Starts k s = (k ≡ 0) ⊎ Fits (take k s)

  long_steps_lem :
      (fuel : ℕ) (s : Text) (offset : ℕ)
      → length s < fuel + offset
      → Starts offset s
      → offset ≤ length s
      → (k : ℕ) × (long_steps width window_w fuel s offset ≡ some k) × Starts k s × (k ≤ length s)
  unfolding long_steps
  long_steps_lem zero s offset h st le = absurd (omega arith)
  long_steps_lem (suc fuel) s offset h st le =
      elim (Bool-cases (leb (length s) (offset + optimized_offset))) [
        | inl last ↦ (offset, rw last refl, st, le)
        | inr more ↦ elim (Bool-cases (ltb window_w (width (take (offset + optimized_offset) s)))) [
          | inl wide ↦ (offset, rw (more, wide) refl, st, le)
          | inr fit ↦
              let (k, e, st', le') =
                long_steps_lem fuel s (offset + optimized_offset) (omega arith)
                  (inr (ground (arith, fit))) (ground (arith, more)) in
              (k, rw (more, fit) e, st', le')
        ]
      ]

  -- The last prefix: a character more is too wide, or there is none.
  short_steps_lem :
      (fuel : ℕ) (s : Text) (offset : ℕ)
      → length s < fuel + offset
      → Starts offset s
      → offset ≤ length s
      → (k : ℕ) × (short_steps width window_w fuel s offset ≡ some k)
        × Starts k s
        × (k ≤ length s)
        × ((length s ≤ k) ⊎ TooWide (take (suc k) s))
  unfolding short_steps
  short_steps_lem zero s offset h st le = absurd (omega arith)
  short_steps_lem (suc fuel) s offset h st le = elim (Bool-cases (leb (length s) offset)) [
    | inl last ↦ (offset, rw last refl, st, le, inl (ground (arith, last)))
    | inr more ↦ elim (Bool-cases (ltb window_w (width (take (suc offset) s)))) [
      | inl wide ↦ (offset, rw (more, wide) refl, st, le, inr (ltb→lt _ _ wide))
      | inr fit ↦
          let (k, e, st', le', end) =
            short_steps_lem fuel s (suc offset) (omega arith) (inr (ground (arith, fit)))
              (ground (arith, more)) in
          (k, rw (more, fit) e, st', le', end)
    ]
  ]

  clamped :
      (k : ℕ) (c : ℕ) (s : Text)
      → Starts k (c ∷ s)
      → (length (c ∷ s) ≤ k) ⊎ TooWide (take (suc k) (c ∷ s))
      → k ≤ length (c ∷ s)
      → (1 ≤ at_least_one k) × (at_least_one k ≤ length (c ∷ s)) × IsLine (at_least_one k) (c ∷ s)
  clamped zero c s st (inl short) le = absurd (omega arith)
  clamped zero c s st (inr wide) le = (omega arith, omega arith, inr (refl, wide))
  clamped (suc k) c s (inl z) end le = absurd (omega arith)
  clamped (suc k) c s (inr fit) end le = (omega arith, le, inl (fit, end))

  line_offset_lem :
      (c : ℕ) (s : Text)
      → (k : ℕ) × (line_offset width window_w (c ∷ s) ≡ some k)
        × (1 ≤ k)
        × (k ≤ length (c ∷ s))
        × IsLine k (c ∷ s)
  unfolding line_offset
  line_offset_lem c s =
      let n = length (c ∷ s) in
      let (start, e, st, le) =
        long_steps_lem (suc n) (c ∷ s) 0 (omega arith) (inl refl) (omega arith) in
      let (k, e', st', le', end) = short_steps_lem (suc n) (c ∷ s) start (omega arith) st le in
      let (one, le'', line) = clamped k c s st' end le' in
      (at_least_one k, rw (e, e') refl, one, le'', line)

  -- A text as lines of it.
  abbrev pub IsWrapped : List Text → Text → Type 0
  IsWrapped [] s = s ≡ []
  IsWrapped (l ∷ ls) s = (k : ℕ) × (l ≡ take k s) × (1 ≤ k) × IsLine k s × IsWrapped ls (drop k s)

  wrap_lem :
      (fuel : ℕ) (s : Text)
      → length s ≤ fuel
      → (lines : List Text) × (wrap width window_w fuel s ≡ some lines) × IsWrapped lines s
  unfolding wrap
  wrap_lem fuel [] h = ([], refl, refl)
  wrap_lem zero (c ∷ s) h = absurd (omega arith)
  wrap_lem (suc fuel) (c ∷ s) h = elim (Bool-cases (leb (width (c ∷ s)) window_w)) [
    | inl fit ↦ (
      (c ∷ s) ∷ [],
      rw fit refl,
      (
        length (c ∷ s),
        sym (take-length (c ∷ s)),
        omega arith,
        inl (rw (take-length (c ∷ s)) (ground (arith, fit)), inl (omega arith)),
        drop-length (c ∷ s),
      ),
    )
    | inr wide ↦
        let (k, e, one, le, line) = line_offset_lem c s in
        let (lines, e', w) =
          wrap_lem fuel (drop k (c ∷ s)) (omega (arith, length-drop k (c ∷ s), h, one)) in
        (take k (c ∷ s) ∷ lines, rw (wide, e) (rw e' refl), (k, refl, one, line, w))
  ]

  concat_lem : (lines : List Text) (s : Text) → IsWrapped lines s → concat lines ≡ s
  concat_lem [] s w = sym w
  concat_lem (l ∷ ls) s (k, e, one, line, w) = rw (e, concat_lem ls (drop k s) w) (take-drop k s)

  -- A message is cut without end of fuel into lines that make it up: each has a character, and fits
  -- the window and takes as many characters as do, or is one character that is too wide by itself.
  -- Of the lines of the window and these the last hundred are kept.
  pub add_new_message_lem :
      (texts : List Text) (user_name new_message : Text)
      → let full = full_text user_name new_message in
        (lines : List Text) × (add_new_message width window_w texts user_name new_message
          ≡ some (drop (length (texts ++ lines) - max_message_lines) (texts ++ lines)))
        × IsWrapped lines full
        × (concat lines ≡ full)
        × (length (drop (length (texts ++ lines) - max_message_lines) (texts ++ lines))
            ≤ max_message_lines)
  unfolding add_new_message keep_last
  add_new_message_lem texts user_name new_message =
      let full = full_text user_name new_message in
      let (lines, e, w) = wrap_lem (length full) full (omega arith) in
      (
        lines,
        rw e (ap some (keep_last_lem (texts ++ lines))),
        w,
        concat_lem lines full w,
        omega (arith, length-drop (length (texts ++ lines) - max_message_lines) (texts ++ lines)),
      )
