-- ===== src/Ui/InputBox/Limit.antt =====
-- What a box that takes ASCII only can hold, whatever is typed.
use project_tetris.Base.{
  ℕ, suc, ◌+◌, ◌≤◌, ◌≡◌, refl, Bool, true, false, not, ◌&&◌, Option, none, some, [], ◌∷◌, ◌++◌,
  arith, ltb, leb, ◌==◌, length, length-append, All, All-append, if-both, if-cases, and-true,
  ltb→lt,
}
use mathlib.Core.List.{append-nil}
use project_tetris.Python.Exec.{ok, err}
use project_tetris.Python.Utf8.{Text}
use project_tetris.Python.Chars.{Unicode, is_ascii, is_printable, is_ascii_char, is_printable_char}
use project_tetris.Ui.Event.{
  Event, mouse_motion, mouse_button_down, mouse_button_up, text_editing, text_input, key_down,
  key_up, key_backspace, key_return, game_key, mouse_wheel, quit, other,
}
use project_tetris.Ui.InputBox.{
  InputBox, TextOutcome, get_total_text, extract_text, add_char, drop_last, delete_char,
  handle_event, update, blink, repeat_delete, cursor_blink_ms, backspace_repeat_time1,
  backspace_repeat_time2, is_full, is_empty_text, append_text, as_answer,
}

-- A printable character of ASCII.
abbrev pub IsTyped : ℕ → Type 0
IsTyped c = (32 ≤ c) × (c ≤ 126)

-- What the box allows, which is a limit of `n`, and holds, which is at most `m` characters.
pub record IsAsciiText (n m : ℕ) (limit : Option ℕ) (korean : Bool) (editing text : Text)
    : Type 0 where
  pub limited : limit ≡ some n
  pub ascii_only : korean ≡ false
  pub unedited : editing ≡ []
  pub short : length text ≤ m
  pub typed : All IsTyped text

abbrev pub IsAsciiBox : ℕ → ℕ → InputBox → Type 0
IsAsciiBox n m b = IsAsciiText n m b.max_input_len b.allow_korean b.editing_text b.text

-- The text of an event has at most `k` characters.
abbrev pub IsUpTo : ℕ → Event → Type 0
IsUpTo k (text_input s) = length s ≤ k
IsUpTo k _ = Unit

typed_char :
    (u : Unicode) (c : ℕ) → is_ascii_char c ≡ true → is_printable_char u c ≡ true → IsTyped c
typed_char u c a p = ground arith

all_typed : (u : Unicode) (s : Text) → is_ascii s ≡ true → is_printable u s ≡ true → All IsTyped s
all_typed u [] a p = tt
all_typed u (c ∷ s) a p =
    let (ac, as') = and-true (is_ascii_char c) (is_ascii s) a in
    let (pc, ps) = and-true (is_printable_char u c) (is_printable u s) p in
    (typed_char u c ac pc, all_typed u s as' ps)

drop_last-All : (s : Text) → All IsTyped s → All IsTyped (drop_last s)
unfolding drop_last
drop_last-All [] h = tt
drop_last-All (c ∷ []) h = tt
drop_last-All (c ∷ d ∷ s) h = (h.0, drop_last-All (d ∷ s) h.1)

length-drop_last : (s : Text) → length (drop_last s) ≤ length s
unfolding drop_last
length-drop_last [] = omega arith
length-drop_last (c ∷ []) = omega arith
length-drop_last (c ∷ d ∷ s) = omega (arith, length-drop_last (d ∷ s))

-- The limit is asked for before a text is added, and a text of `k` characters may pass it.
module _ (u : Unicode) (n m k : ℕ) (room_left : n + k ≤ suc m) where
  delete_char-IsAsciiBox : (b : InputBox) → IsAsciiBox n m b → IsAsciiBox n m (delete_char b)
  unfolding delete_char
  delete_char-IsAsciiBox b h =
      if-both (IsAsciiBox n m) b.active
        (record {
          limited = h.limited;
          ascii_only = h.ascii_only;
          unedited = h.unedited;
          short = omega (arith, length-drop_last b.text, h.short);
          typed = drop_last-All b.text h.typed;
        })
        h

  blink-IsAsciiBox : (b : InputBox) (dt : ℕ) → IsAsciiBox n m b → IsAsciiBox n m (blink b dt)
  blink-IsAsciiBox b dt h =
      if-both (IsAsciiBox n m) (leb cursor_blink_ms (b.cursor_timer_ms + dt)) h h

  repeat_delete-IsAsciiBox :
      (b : InputBox) (dt : ℕ) → IsAsciiBox n m b → IsAsciiBox n m (repeat_delete b dt)
  unfolding repeat_delete
  repeat_delete-IsAsciiBox b dt h =
      let t = b.backspace_repeat_timer + dt in
      if-both (IsAsciiBox n m) (b.backspace_repeat_time1_active && b.backspace_pressed)
        (if-both (IsAsciiBox n m) (leb backspace_repeat_time1 t) (delete_char-IsAsciiBox _ h) h)
        (if-both (IsAsciiBox n m) (b.backspace_repeat_time2_active && b.backspace_pressed)
          (if-both (IsAsciiBox n m) (leb backspace_repeat_time2 t) (delete_char-IsAsciiBox _ h) h)
          h)

  pub update-IsAsciiBox : (b : InputBox) (dt : ℕ) → IsAsciiBox n m b → IsAsciiBox n m (update b dt)
  unfolding update
  update-IsAsciiBox b dt h =
      if-both (IsAsciiBox n m) b.active
        (repeat_delete-IsAsciiBox (blink b dt) dt (blink-IsAsciiBox b dt h)) h

  append-IsAsciiBox :
      (b : InputBox) (s : Text)
      → length s ≤ k
      → is_printable u s ≡ true
      → (not b.allow_korean && not (is_ascii s)) ≡ false
      → is_full b.text b.max_input_len ≡ false
      → IsAsciiBox n m b
      → IsAsciiBox n m (append_text b s)
  append-IsAsciiBox b s one p a room h =
      let ascii : is_ascii s ≡ true = ground (arith, h.ascii_only) in
      let free : ltb (length b.text) n ≡ true = ground (arith, h.limited) in
      let more : IsAsciiText n m b.max_input_len b.allow_korean b.editing_text (b.text ++ s) =
        record {
          limited = h.limited;
          ascii_only = h.ascii_only;
          unedited = h.unedited;
          short =
              omega (arith, length-append b.text s, ltb→lt (length b.text) n free, one, room_left);
          typed = All-append IsTyped b.text s h.typed (all_typed u s ascii p);
        } in
      if-both (IsAsciiBox n m) (is_ascii s) more more

  add_char-IsAsciiBox :
      (b : InputBox) (s : Text) → length s ≤ k → IsAsciiBox n m b → IsAsciiBox n m (add_char u b s)
  unfolding add_char
  add_char-IsAsciiBox b s one h = if-both (IsAsciiBox n m) (not b.active) h (
      if-both (IsAsciiBox n m) (is_empty_text s) h (
        if-cases (IsAsciiBox n m) (not (is_printable u s)) (λ _. h)
          λ p.
            if-cases (IsAsciiBox n m) (not b.allow_korean && not (is_ascii s)) (λ _. h)
              λ a.
                if-cases (IsAsciiBox n m) (is_full b.text b.max_input_len) (λ _. h)
                  λ room. append-IsAsciiBox b s one (ground (arith, p)) a room h))

  -- What an event may answer: nothing, or a text that the box held.
  abbrev pub Answers : TextOutcome → Type 0
  Answers (ok none, b) = IsAsciiBox n m b
  Answers (ok (some s), b) = (length s ≤ m) × All IsTyped s × IsAsciiBox n m b
  Answers (err e, b) = ⊥

  get_total_text_lem : (b : InputBox) → IsAsciiBox n m b → get_total_text b ≡ ok b.text
  unfolding get_total_text
  get_total_text_lem b h =
      simp (h.limited, h.unedited, append-nil)
        (if-both (λ s. ok s ≡ ok b.text) (ltb (length b.text) n) refl refl)

  -- The box hands out its whole text.
  pub extract_text_lem :
      (b : InputBox)
      → IsAsciiBox n m b
      → (b' : InputBox) × (extract_text b ≡ (ok b.text, b')) × IsAsciiBox n m b'
  unfolding extract_text
  extract_text_lem b h = rw (get_total_text_lem b h) (
    _,
    refl,
    record {
      limited = h.limited;
      ascii_only = h.ascii_only;
      unedited = refl;
      short = omega arith;
      typed = tt;
    },
  )

  extract_text-Answers : (b : InputBox) → IsAsciiBox n m b → Answers (as_answer (extract_text b))
  extract_text-Answers b h = let (b', e, h') = extract_text_lem b h in rw e (h.short, h.typed, h')

  pub handle_event-Answers :
      (b : InputBox) (ev : Event) → IsUpTo k ev → IsAsciiBox n m b → Answers (handle_event u b ev)
  unfolding handle_event
  handle_event-Answers b (mouse_button_down button at) one h =
      if-both (IsAsciiBox n m) (button == 1) h h
  handle_event-Answers b (text_editing s) one h =
      if-cases (IsAsciiBox n m) (b.active && b.allow_korean)
        (λ t. cc (h.ascii_only, (and-true b.active b.allow_korean t).1)) (λ _. h)
  handle_event-Answers b (text_input s) one h = add_char-IsAsciiBox b s one h
  handle_event-Answers b (key_down key_backspace) one h = delete_char-IsAsciiBox b h
  handle_event-Answers b (key_down key_return) one h = extract_text-Answers b h
  handle_event-Answers b (key_down (game_key k)) one h = h
  handle_event-Answers b (key_up key_backspace) one h = h
  handle_event-Answers b (key_up key_return) one h = h
  handle_event-Answers b (key_up (game_key k)) one h = h
  handle_event-Answers b (mouse_motion at) one h = h
  handle_event-Answers b (mouse_button_up button at) one h = h
  handle_event-Answers b quit one h = h
  handle_event-Answers b other one h = h
  handle_event-Answers b (mouse_wheel y) one h = h
