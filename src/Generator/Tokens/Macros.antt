-- ===== src/Generator/Tokens/Macros.antt =====
-- The JSON of a macro says what the macro does.
use Prim.Native.String.{◌++◌ as append}
use qmk_web_app.Common.{
  All-imply, ◌≤◌, sym, ◌≡◌, refl, ap, subst, arith, String, true, Bool-cases, inl, inr, List, [],
  ◌∷◌, map, ltb, All,
}
use qmk_web_app.Common.Slices.{prefix-slice}
use qmk_web_app.Common.Texts.{slice_from, text_length, all, all-imply}
use qmk_web_app.Common.Attempt.{
  done, bind-done, Returns, map_each, map_each-Returns, Pointwise, map_each-Pointwise,
  Pointwise-imply,
}
use qmk_web_app.Domain.Keycodes.{is_supported_keycode}
use qmk_web_app.Domain.Keycodes.Named.{is_supported_keycode-prefix}
use qmk_web_app.Domain.Configuration.{MacroStep, tap, key_down, key_up, delay, Macro}
use qmk_web_app.Domain.Schema.Fields.{step_fields, macro_fields}
use qmk_web_app.Generator.Tokens.{
  assert_keycode, send_string_name, RenderedStep, tap_action, down_action, up_action, delay_action,
  render_macro_step, render_macros,
}

-- What QMK makes of a step: it puts the prefix back in front of the name.
unfoldable pub read_step : RenderedStep → MacroStep
read_step (tap_action n) = tap (append "KC_" n)
read_step (down_action n) = key_down (append "KC_" n)
read_step (up_action n) = key_up (append "KC_" n)
read_step (delay_action d) = delay d

unfoldable pub read_steps : List RenderedStep → List MacroStep
read_steps = map read_step

send_string_name-read : (k n : String) → send_string_name k ≡ done n → append "KC_" n ≡ k
unfolding send_string_name assert_keycode text_length
send_string_name-read k n e = elim (Bool-cases (is_supported_keycode k)) [
  | inr other ↦ absurd (ground arith)
  | inl known ↦
      let prefixed = is_supported_keycode-prefix k known in
      let cut : slice_from 3 k ≡ n = ground arith in
      subst (λ m. append "KC_" m ≡ k) cut (prefix-slice "KC_" k prefixed)
]

send_string_name-Returns :
    (k : String) → is_supported_keycode k ≡ true → Returns (send_string_name k)
unfolding send_string_name assert_keycode
send_string_name-Returns k e = (slice_from 3 k, rw e (rw (is_supported_keycode-prefix k e) refl))

render_macro_step-read :
    (s : MacroStep) (r : RenderedStep) → render_macro_step s ≡ done r → read_step r ≡ s
unfolding render_macro_step read_step
render_macro_step-read (tap k) r e =
    let (n, e', e'') = bind-done (send_string_name k) _ e in
    let same : tap_action n ≡ r = cc in
    subst (λ x. read_step x ≡ tap k) same (ap tap (send_string_name-read k n e'))
render_macro_step-read (key_down k) r e =
    let (n, e', e'') = bind-done (send_string_name k) _ e in
    let same : down_action n ≡ r = cc in
    subst (λ x. read_step x ≡ key_down k) same (ap key_down (send_string_name-read k n e'))
render_macro_step-read (key_up k) r e =
    let (n, e', e'') = bind-done (send_string_name k) _ e in
    let same : up_action n ≡ r = cc in
    subst (λ x. read_step x ≡ key_up k) same (ap key_up (send_string_name-read k n e'))
render_macro_step-read (delay ms) r e = elim (Bool-cases (ltb ms 1)) [
  | inl none_at_all ↦ absurd (ground arith)
  | inr some_time ↦
      let same : delay_action ms ≡ r = ground arith in subst (λ x. read_step x ≡ delay ms) same refl
]

Pointwise-map :
    {A B : Type 0} (f : B → A) (xs : List A) (ys : List B)
    → Pointwise (λ x y. f y ≡ x) xs ys
    → map f ys ≡ xs
Pointwise-map f [] [] h = refl
Pointwise-map f [] (y ∷ ys) h = absurd h
Pointwise-map f (x ∷ xs) [] h = absurd h
Pointwise-map f (x ∷ xs) (y ∷ ys) (e, h) = rw (e, Pointwise-map f xs ys h) refl

steps-read :
    (ss : List MacroStep) (rs : List RenderedStep)
    → map_each render_macro_step ss ≡ done rs
    → read_steps rs ≡ ss
unfolding read_steps
steps-read ss rs e = Pointwise-map read_step ss rs (
    Pointwise-imply (λ s r. render_macro_step s ≡ done r) (λ s r. read_step r ≡ s)
      render_macro_step-read ss rs (map_each-Pointwise render_macro_step ss rs e))

of_steps :
    (ms : List Macro) (rendered : List (List RenderedStep))
    → Pointwise (λ m rs. map_each render_macro_step m.steps ≡ done rs) ms rendered
    → Pointwise (λ ss rs. read_steps rs ≡ ss) (map (λ m. m.steps) ms) rendered
of_steps [] [] h = tt
of_steps [] (r ∷ rs) h = absurd h
of_steps (m ∷ ms) [] h = absurd h
of_steps (m ∷ ms) (r ∷ rs) (e, h) = (steps-read m.steps r e, of_steps ms rs h)

-- A step that QMK can run: its keycode is one of the product's, or it waits for some time.
abbrev pub Runnable : MacroStep → Type 0
Runnable (tap k) = is_supported_keycode k ≡ true
Runnable (key_down k) = is_supported_keycode k ≡ true
Runnable (key_up k) = is_supported_keycode k ≡ true
Runnable (delay ms) = 1 ≤ ms

send_string_name-supported :
    (k n : String) → send_string_name k ≡ done n → is_supported_keycode k ≡ true
unfolding send_string_name assert_keycode
send_string_name-supported k n e = ground arith

render_macro_step-Runnable :
    (s : MacroStep) (r : RenderedStep) → render_macro_step s ≡ done r → Runnable (read_step r)
unfolding render_macro_step
render_macro_step-Runnable s r e = subst Runnable (sym (render_macro_step-read s r e)) (runs s r e)
  where
    runs : (s : MacroStep) (r : RenderedStep) → render_macro_step s ≡ done r → Runnable s
    runs (tap k) r e =
        let (n, e', e'') = bind-done (send_string_name k) _ e in send_string_name-supported k n e'
    runs (key_down k) r e =
        let (n, e', e'') = bind-done (send_string_name k) _ e in send_string_name-supported k n e'
    runs (key_up k) r e =
        let (n, e', e'') = bind-done (send_string_name k) _ e in send_string_name-supported k n e'
    runs (delay ms) r e = ground arith

Pointwise-right :
    {A B : Type 0} (R : A → B → Type 0) (Q : B → Type 0)
    → ((x : A) (y : B) → R x y → Q y)
    → (xs : List A) (ys : List B) → Pointwise R xs ys
    → All Q ys
Pointwise-right R Q f [] [] h = tt
Pointwise-right R Q f [] (y ∷ ys) h = absurd h
Pointwise-right R Q f (x ∷ xs) [] h = absurd h
Pointwise-right R Q f (x ∷ xs) (y ∷ ys) (r, h) = (f x y r, Pointwise-right R Q f xs ys h)

-- The rendered macros, read back with the prefix in front of each name, are the steps of the macros in
-- order, each action and each delay. Every name with its prefix is one of the product's keycodes, and
-- every delay is positive.
pub render_macros-read :
    (macros : List Macro) (rendered : List (List RenderedStep))
    → render_macros macros ≡ done rendered
    → (map read_steps rendered ≡ map (λ m. m.steps) macros)
      × All (All (λ r. Runnable (read_step r))) rendered
unfolding render_macros read_steps
render_macros-read macros rendered e =
    let each = map_each-Pointwise (λ m. map_each render_macro_step m.steps) macros rendered e in
    (
      Pointwise-map read_steps (map (λ m. m.steps) macros) rendered (of_steps macros rendered each),
      Pointwise-right (λ m rs. map_each render_macro_step m.steps ≡ done rs)
          (All (λ r. Runnable (read_step r)))
          (λ m rs e.
            Pointwise-right (λ s r. render_macro_step s ≡ done r) (λ r. Runnable (read_step r))
              render_macro_step-Runnable m.steps rs
              (map_each-Pointwise render_macro_step m.steps rs e))
          macros rendered each,
    )

render_macro_step-Returns : (s : MacroStep) → step_fields s ≡ true → Returns (render_macro_step s)
unfolding render_macro_step step_fields
render_macro_step-Returns (tap k) e =
    let (n, e') = send_string_name-Returns k e in (tap_action n, rw (e', render_macro_step) refl)
render_macro_step-Returns (key_down k) e =
    let (n, e') = send_string_name-Returns k e in (down_action n, rw (e', render_macro_step) refl)
render_macro_step-Returns (key_up k) e =
    let (n, e') = send_string_name-Returns k e in (up_action n, rw (e', render_macro_step) refl)
render_macro_step-Returns (delay ms) e = (delay_action ms, ground arith)

macro-steps : (m : Macro) → macro_fields m ≡ true → all step_fields m.steps ≡ true
unfolding macro_fields
macro-steps m e = ground arith

steps-Returns :
    (ss : List MacroStep) → all step_fields ss ≡ true → Returns (map_each render_macro_step ss)
steps-Returns ss e =
    map_each-Returns render_macro_step ss
      (all-imply step_fields (λ s. Returns (render_macro_step s)) render_macro_step-Returns ss e)

pub render_macros-Returns :
    (macros : List Macro) → All (λ m. macro_fields m ≡ true) macros → Returns (render_macros macros)
unfolding render_macros
render_macros-Returns macros h =
    map_each-Returns (λ m. map_each render_macro_step m.steps) macros
      (All-imply (λ m. macro_fields m ≡ true) (λ m. Returns (map_each render_macro_step m.steps))
        (λ m h. steps-Returns m.steps (macro-steps m h)) macros h)
