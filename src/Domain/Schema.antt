-- ===== src/Domain/Schema.antt =====
-- packages/domain/src/configuration.ts: the rules of the schemas that look at several fields, the
-- bodies of their `superRefine`.
pub mod Macros
pub mod Fields
use qmk_web_app.Common.{
  ℕ, zero, suc, ◌+◌, String, ◌===◌, Bool, true, false, not, ◌&&◌, Option, none, some, List, [], ◌∷◌,
  ◌++◌, map, ltb, leb, ◌==◌, if◌then◌else◌, length, filter,
}
use qmk_web_app.Common.Dict.{Dict, has, add}
use qmk_web_app.Common.Sort.{sort}
use qmk_web_app.Domain.Limits.{max_macro_total_delay_ms}
use qmk_web_app.Domain.Configuration.{
  Binding, macro, Layer, MacroStep, tap, key_down, key_up, delay, Macro, Directions, target,
}

-- The issues, with the part of the path that varies.
pub data Issue : Type 0 where
  delay_too_long : (total : ℕ) → Issue
  up_without_down : (step : ℕ) → String → Issue
  left_down : String → Issue
  positions_repeat : Issue
  layer_indices : Issue
  macro_ids_repeat : Issue
  unknown_layer : (layer : ℕ) (position : String) (named : ℕ) → Issue
  unknown_macro : (layer : ℕ) (position id : String) → Issue

unfoldable pub step_delay : MacroStep → ℕ
step_delay (delay ms) = ms
step_delay _ = 0

unfoldable pub total_delay : List MacroStep → ℕ
total_delay [] = 0
total_delay (s ∷ ss) = step_delay s + total_delay ss

-- `held.delete(keycode)`, of which the code also reads whether it was there.
unfoldable pub without : String → List String → List String
without k held = filter (λ j. not (j === k)) held

-- The loop over the steps: the keys that are held after it, and the issues.
unfoldable pub play : (step : ℕ) → List MacroStep → List String → List String × List Issue
play step [] held = (held, [])
play step (tap k ∷ ss) held = play (suc step) ss held
play step (delay ms ∷ ss) held = play (suc step) ss held
play step (key_down k ∷ ss) held = play (suc step) ss (add k held)
play step (key_up k ∷ ss) held =
    let (after, issues) = play (suc step) ss (without k held) in
    (after, if has k held then issues else up_without_down step k ∷ issues)

unfoldable pub macro_issues : Macro → List Issue
macro_issues m =
    let total = total_delay m.steps in
    let (held, issues) = play 0 m.steps [] in
    (if ltb max_macro_total_delay_ms total then delay_too_long total ∷ [] else [])
    ++ issues
    ++ map left_down held

-- `new Set(list)`, filled in order.
unfoldable pub set_of : List String → List String → List String
set_of seen [] = seen
set_of seen (x ∷ xs) = set_of (add x seen) xs

unfoldable pub apart : ℕ → List ℕ → Bool
apart p [] = true
apart p (q ∷ qs) = not (p == q) && apart p qs

-- The rule of `socdConfigurationSchema`, by the positions in order.
unfoldable pub socd_issues : Directions ℕ → List Issue
socd_issues keys =
    if apart keys.up (keys.down ∷ keys.left ∷ keys.right ∷ [])
      && apart keys.down (keys.left ∷ keys.right ∷ [])
      && apart keys.left (keys.right ∷ [])
    then []
    else positions_repeat ∷ []

-- The numbers from one on, so many of them.
unfoldable pub counted : (from count : ℕ) → List ℕ
counted from zero = []
counted from (suc n) = from ∷ counted (suc from) n

-- Two lists of numbers, compared by their texts in the code.
unfoldable pub same_numbers : List ℕ → List ℕ → Bool
same_numbers [] [] = true
same_numbers (x ∷ xs) (y ∷ ys) = x == y && same_numbers xs ys
same_numbers [] (y ∷ ys) = false
same_numbers (x ∷ xs) [] = false

unfoldable pub index_issues : List Layer → List Issue
index_issues layers =
    let indices = sort ltb (map (λ l. l.index) layers) in
    if same_numbers indices (counted 0 (length indices)) then [] else layer_indices ∷ []

unfoldable pub layer_issue : (layer_count li : ℕ) → String → Binding → List Issue
layer_issue layer_count li position b = elim (target b) [
  | none ↦ []
  | some l ↦ if leb layer_count l then unknown_layer li position l ∷ [] else []
]

unfoldable pub macro_issue : List String → (li : ℕ) → String → Binding → List Issue
macro_issue known li position (macro id) =
    if has id known then [] else unknown_macro li position id ∷ []
macro_issue known li position _ = []

unfoldable pub binding_issues :
    (layer_count : ℕ) (known : List String) (li : ℕ) → Dict Binding → List Issue
binding_issues layer_count known li [] = []
binding_issues layer_count known li ((p, b) ∷ m) =
    layer_issue layer_count li p b
    ++ macro_issue known li p b
    ++ binding_issues layer_count known li m

unfoldable pub layers_issues :
    (layer_count : ℕ) (known : List String) (li : ℕ) → List Layer → List Issue
layers_issues layer_count known li [] = []
layers_issues layer_count known li (l ∷ ls) =
    binding_issues layer_count known li l.bindings ++ layers_issues layer_count known (suc li) ls

-- The rule of `configurationSchema`.
unfoldable pub configuration_issues : List Layer → List Macro → List Issue
configuration_issues layers macros =
    let known = set_of [] (map (λ m. m.id) macros) in
    index_issues layers
    ++ (if length known == length macros then [] else macro_ids_repeat ∷ [])
    ++ layers_issues (length layers) known 0 layers
