-- ===== src/Ui/Button/Click.antt =====
-- What a click is, in the events alone.
use project_tetris.Base.{
  ℕ, ◌≡◌, refl, Bool, true, List, [], ◌∷◌, ◌++◌, arith, ◌==◌, ==_iff, All, if-cases, ap, ◌∙◌, sym,
}
use mathlib.Core.Path.{subst}
use project_tetris.Python.Utf8.{Text}
use project_tetris.Ui.Event.{
  Event, Rect, Point, mouse_motion, mouse_button_down, mouse_button_up, text_editing, text_input,
  key_down, key_up, mouse_wheel, quit, other,
}
use project_tetris.Ui.Button.{
  Button, ButtonState, idle, hover, press, new_button, handle_event, with_state, moved_in,
  pressed_in, released_in,
}

-- The button after some events, the latest of which stands first.
unfoldable pub after : List Event → Button → Button
after [] b = b
after (e ∷ es) b = (handle_event (after es b) e).0

-- The mouse does not leave the rectangle by this event.
abbrev pub Stays : Rect → Event → Type 0
Stays rect (mouse_motion at) = rect at ≡ true
Stays rect (mouse_button_down button at) = rect at ≡ true
Stays rect (mouse_button_up button at) = rect at ≡ true
Stays rect _ = Unit

-- The mouse came in, and has stayed.
pub record HasEntered (rect : Rect) (es : List Event) : Type 0 where
  pub later : List Event
  pub earlier : List Event
  pub at : Point
  pub split : es ≡ later ++ (mouse_motion at ∷ earlier)
  pub inside : rect at ≡ true
  pub stays : All (Stays rect) later

-- The first mouse button went down after that, and the mouse has stayed.
pub record WasPressed (rect : Rect) (es : List Event) : Type 0 where
  pub later : List Event
  pub earlier : List Event
  pub at : Point
  pub split : es ≡ later ++ (mouse_button_down 1 at ∷ earlier)
  pub inside : rect at ≡ true
  pub stays : All (Stays rect) later
  pub entered : HasEntered rect earlier

abbrev Since : Rect → ButtonState → List Event → Type 0
Since rect idle es = Unit
Since rect hover es = HasEntered rect es
Since rect press es = WasPressed rect es

entered_more :
    (rect : Rect) (es : List Event) (e : Event)
    → Stays rect e
    → HasEntered rect es
    → HasEntered rect (e ∷ es)
entered_more rect es e s h = record {
  later = e ∷ h.later;
  earlier = h.earlier;
  at = h.at;
  split = ap (◌∷◌ e) h.split;
  inside = h.inside;
  stays = (s, h.stays);
}

pressed_more :
    (rect : Rect) (es : List Event) (e : Event)
    → Stays rect e
    → WasPressed rect es
    → WasPressed rect (e ∷ es)
pressed_more rect es e s h = record {
  later = e ∷ h.later;
  earlier = h.earlier;
  at = h.at;
  split = ap (◌∷◌ e) h.split;
  inside = h.inside;
  stays = (s, h.stays);
  entered = h.entered;
}

since_more :
    (rect : Rect) (st : ButtonState) (es : List Event) (e : Event)
    → Stays rect e
    → Since rect st es
    → Since rect st (e ∷ es)
since_more rect idle es e s h = tt
since_more rect hover es e s h = entered_more rect es e s h
since_more rect press es e s h = pressed_more rect es e s h

module _ (rect : Rect) (es : List Event) (at : Point) (i : rect at ≡ true) (b : Button) where
  moved :
      (st : ButtonState)
      → Since rect st es
      → Since rect (moved_in st (with_state st b)).0.state (mouse_motion at ∷ es)
  moved idle h = record { later = []; earlier = es; at = at; split = refl; inside = i; stays = tt }
  moved hover h = entered_more rect es (mouse_motion at) i h
  moved press h = pressed_more rect es (mouse_motion at) i h

  pushed :
      (st : ButtonState)
      → Since rect st es
      → Since rect (pressed_in st (with_state st b)).0.state (mouse_button_down 1 at ∷ es)
  pushed idle h = tt
  pushed hover h = record {
    later = [];
    earlier = es;
    at = at;
    split = refl;
    inside = i;
    stays = tt;
    entered = h;
  }
  pushed press h = pressed_more rect es (mouse_button_down 1 at) i h

  released :
      (st : ButtonState)
      → Since rect st es
      → Since rect (released_in st (with_state st b)).0.state (mouse_button_up 1 at ∷ es)
  released idle h = tt
  released hover h = entered_more rect es (mouse_button_up 1 at) i h
  released press h = tt

step-Since :
    (b : Button) (es : List Event) (e : Event)
    → Since b.rect b.state es
    → Since b.rect (handle_event b e).0.state (e ∷ es)
unfolding handle_event
step-Since b es (mouse_motion at) h =
    if-cases (λ (r : Button × Bool). Since b.rect r.0.state (mouse_motion at ∷ es)) (b.rect at)
      (λ i. moved b.rect es at i b b.state h) (λ _. tt)
step-Since b es (mouse_button_down button at) h =
    if-cases (λ (r : Button × Bool). Since b.rect r.0.state (mouse_button_down button at ∷ es))
      (b.rect at)
      (λ i.
        if-cases (λ (r : Button × Bool). Since b.rect r.0.state (mouse_button_down button at ∷ es))
          (button == 1)
          (λ one.
            subst (λ n. Since b.rect (pressed_in b.state b).0.state (mouse_button_down n at ∷ es))
              (sym ((==_iff button 1).0 one)) (pushed b.rect es at i b b.state h))
          (λ _. since_more b.rect b.state es (mouse_button_down button at) i h))
      (λ _. tt)
step-Since b es (mouse_button_up button at) h =
    if-cases (λ (r : Button × Bool). Since b.rect r.0.state (mouse_button_up button at ∷ es))
      (b.rect at)
      (λ i.
        if-cases (λ (r : Button × Bool). Since b.rect r.0.state (mouse_button_up button at ∷ es))
          (button == 1)
          (λ one.
            subst (λ n. Since b.rect (released_in b.state b).0.state (mouse_button_up n at ∷ es))
              (sym ((==_iff button 1).0 one)) (released b.rect es at i b b.state h))
          (λ _. since_more b.rect b.state es (mouse_button_up button at) i h))
      (λ _. tt)
step-Since b es (text_editing s) h = since_more b.rect b.state es (text_editing s) tt h
step-Since b es (text_input s) h = since_more b.rect b.state es (text_input s) tt h
step-Since b es (key_down k) h = since_more b.rect b.state es (key_down k) tt h
step-Since b es (key_up k) h = since_more b.rect b.state es (key_up k) tt h
step-Since b es quit h = since_more b.rect b.state es quit tt h
step-Since b es other h = since_more b.rect b.state es other tt h
step-Since b es (mouse_wheel y) h = since_more b.rect b.state es (mouse_wheel y) tt h

rect_kept : (b : Button) (e : Event) → (handle_event b e).0.rect ≡ b.rect
unfolding handle_event
rect_kept b (mouse_motion at) = ground arith
rect_kept b (mouse_button_down button at) = ground arith
rect_kept b (mouse_button_up button at) = ground arith
rect_kept b _ = refl

after-Since :
    (es : List Event) (rect : Rect) (text : Text)
    → ((after es (new_button rect text)).rect ≡ rect)
      × Since rect (after es (new_button rect text)).state es
unfolding after
after-Since [] rect text = (refl, tt)
after-Since (e ∷ es) rect text =
    let b = after es (new_button rect text) in
    let (same, h) = after-Since es rect text in
    (
      rect_kept b e ∙ same,
      subst (λ r. Since r (handle_event b e).0.state (e ∷ es)) same
          (step-Since b es e (subst (λ r. Since r b.state es) (sym same) h)),
    )

-- What a true answer says of the last event and of the state before it.
abbrev Answered : Button → Event → Type 0
Answered b e = (at : Point) × (e ≡ mouse_button_up 1 at) × (b.rect at ≡ true) × (b.state ≡ press)

answered_up :
    (b : Button) (n : ℕ) (at : Point)
    → (handle_event b (mouse_button_up n at)).1 ≡ true
    → (n ≡ 1) × (b.rect at ≡ true) × (b.state ≡ press)
unfolding handle_event
answered_up b n at t = (ground arith, ground arith, ground arith)

answered : (b : Button) (e : Event) → (handle_event b e).1 ≡ true → Answered b e
unfolding handle_event
answered b (mouse_motion at) t = absurd (ground arith)
answered b (mouse_button_down n at) t = absurd (ground arith)
answered b (mouse_button_up n at) t =
    let (one, i, p) = answered_up b n at t in (at, ap (λ k. mouse_button_up k at) one, i, p)
answered b (text_editing s) t = cc
answered b (text_input s) t = cc
answered b (key_down k) t = cc
answered b (key_up k) t = cc
answered b quit t = cc
answered b other t = cc
answered b (mouse_wheel y) t = cc

-- A button answers true only where the first mouse button goes up in it, went down in it before that,
-- and the mouse came in before that, without leaving it in between.
pub click_lem :
    (es : List Event) (e : Event) (rect : Rect) (text : Text)
    → (handle_event (after es (new_button rect text)) e).1 ≡ true
    → (at : Point) × (e ≡ mouse_button_up 1 at) × (rect at ≡ true) × WasPressed rect es
click_lem es e rect text t =
    let b = after es (new_button rect text) in
    let (at, up, i, p) = answered b e t in
    let (same, h) = after-Since es rect text in
    (at, up, ap (λ (r : Rect). r at) (sym same) ∙ i, subst (λ st. Since rect st es) p h)
