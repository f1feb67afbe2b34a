-- ===== src/Domain/Schema/Macros.antt =====
-- What the rule of macros gives: no key stays pressed.
use qmk_web_app.Common.{
  append-nil, ℕ, suc, ◌≤◌, ◌≡◌, refl, sym, ap, ◌∙◌, arith, String, ◌===◌, Bool, true, false, ◌||◌,
  ◌&&◌, not, Bool-cases, inl, inr, List, [], ◌∷◌, ◌++◌, map, if◌then◌else◌, ltb,
}
use qmk_web_app.Common.Dict.{has, add}
use qmk_web_app.Domain.Limits.{max_macro_total_delay_ms}
use qmk_web_app.Domain.Configuration.{MacroStep, tap, key_down, key_up, delay, Macro}
use qmk_web_app.Domain.Schema.{delay_too_long, left_down, total_delay, without, play, macro_issues}

-- One key of the keyboard: whether it is pressed after the steps.
unfoldable pub pressed : String → Bool → List MacroStep → Bool
pressed k down [] = down
pressed k down (tap j ∷ ss) = pressed k down ss
pressed k down (delay ms ∷ ss) = pressed k down ss
pressed k down (key_down j ∷ ss) = pressed k (j === k || down) ss
pressed k down (key_up j ∷ ss) = pressed k (not (j === k) && down) ss

-- Every release of the key finds it pressed.
unfoldable pub matched : String → Bool → List MacroStep → Bool
matched k down [] = true
matched k down (tap j ∷ ss) = matched k down ss
matched k down (delay ms ∷ ss) = matched k down ss
matched k down (key_down j ∷ ss) = matched k (j === k || down) ss
matched k down (key_up j ∷ ss) = (not (j === k) || down) && matched k (not (j === k) && down) ss

pub has-append : (k j : String) (ks : List String) → has k (ks ++ j ∷ []) ≡ j === k || has k ks
unfolding has
has-append k j [] = ground arith
has-append k j (i ∷ is) = ground (arith, has-append k j is)

pub has-add : (k j : String) (ks : List String) → has k (add j ks) ≡ j === k || has k ks
unfolding add
has-add k j ks = elim (Bool-cases (has j ks)) [
  | inr new ↦ rw new (has-append k j ks)
  | inl old ↦
      rw old (elim (Bool-cases (j === k)) [ inr other ↦ ground arith | inl hit ↦ ground arith ])
]

has-without : (k j : String) (ks : List String) → has k (without j ks) ≡ not (j === k) && has k ks
unfolding has without
has-without k j [] = ground arith
has-without k j (i ∷ is) = ground (arith, has-without k j is)

play-pressed :
    (k : String) (i : ℕ) (ss : List MacroStep) (held : List String)
    → has k (play i ss held).0 ≡ pressed k (has k held) ss
unfolding play pressed
play-pressed k i [] held = refl
play-pressed k i (tap j ∷ ss) held = play-pressed k (suc i) ss held
play-pressed k i (delay ms ∷ ss) held = play-pressed k (suc i) ss held
play-pressed k i (key_down j ∷ ss) held =
    play-pressed k (suc i) ss (add j held) ∙ ap (λ b. pressed k b ss) (has-add k j held)
play-pressed k i (key_up j ∷ ss) held =
    play-pressed k (suc i) ss (without j held) ∙ ap (λ b. pressed k b ss) (has-without k j held)

play-matched :
    (k : String) (i : ℕ) (ss : List MacroStep) (held : List String)
    → (play i ss held).1 ≡ []
    → matched k (has k held) ss ≡ true
unfolding play matched
play-matched k i [] held e = refl
play-matched k i (tap j ∷ ss) held e = play-matched k (suc i) ss held e
play-matched k i (delay ms ∷ ss) held e = play-matched k (suc i) ss held e
play-matched k i (key_down j ∷ ss) held e =
    sym (ap (λ b. matched k b ss) (has-add k j held)) ∙ play-matched k (suc i) ss (add j held) e
play-matched k i (key_up j ∷ ss) held e =
    ground (arith, has-without k j held, play-matched k (suc i) ss (without j held))

map-nil : (ks : List String) → map left_down ks ≡ [] → ks ≡ []
map-nil [] e = refl
map-nil (k ∷ ks) e = cc

-- A macro without an issue waits no longer in total than the limit, every release of a key finds
-- the key pressed, and after the macro no key is pressed.
pub macro_issues_lem :
    (m : Macro)
    → macro_issues m ≡ []
    → (total_delay m.steps ≤ max_macro_total_delay_ms)
      × ((k : String) → matched k false m.steps ≡ true)
      × ((k : String) → pressed k false m.steps ≡ false)
unfolding macro_issues has
macro_issues_lem m e =
    let total = total_delay m.steps in
    let played = play 0 m.steps [] in
    let too_long = if ltb max_macro_total_delay_ms total then delay_too_long total ∷ [] else [] in
    let (e', left) = append-nil (too_long ++ played.1) (map left_down played.0) e in
    let (short, paired) = append-nil too_long played.1 e' in
    let released = map-nil played.0 left in
    (
      ground (arith, short),
      λ k. play-matched k 0 m.steps [] paired,
      λ k. sym (play-pressed k 0 m.steps []) ∙ ap (has k) released,
    )
