-- ===== src/Editor/Structure/Edits.antt =====
-- Layers after a write to one of them, and after a layer is added.
use qmk_web_app.Common.{
  ℕ, suc, ◌+◌, ◌≤◌, ◌≡◌, refl, ◌∙◌, arith, String, List, [], ◌∷◌, ◌++◌, length, All, Bool-cases,
  inl, inr, ◌==◌,
}
use qmk_web_app.Common.Dict.{All-put, All-delete}
use qmk_web_app.Common.Decimal.{decimal}
use qmk_web_app.Domain.Configuration.{
  Binding, keycode, transparent, no_op, layer_momentary, layer_toggle, layer_tap, mod_tap, macro,
  Layer, SocdConfiguration,
}
use qmk_web_app.Editor.Layers.{update_layer, bind, unbind, bind_directions}
use qmk_web_app.Editor.Structure.{Indexed, Refers, LayerRefers}

module _ (i : ℕ) (change : Layer → Layer) where
  pub length-update_layer : (ls : List Layer) → length (update_layer i change ls) ≡ length ls
  unfolding update_layer
  length-update_layer [] = refl
  length-update_layer (l ∷ ls) = ground (arith, length-update_layer ls)

  pub update_layer-Indexed :
      ((l : Layer) → (change l).index ≡ l.index)
      → (k : ℕ) (ls : List Layer) → Indexed k ls
      → Indexed k (update_layer i change ls)
  unfolding update_layer
  update_layer-Indexed keeps k [] h = h
  update_layer-Indexed keeps k (l ∷ ls) (e, h) = elim (Bool-cases (l.index == i)) [
    | inl hit ↦ rw hit (keeps l ∙ e, h)
    | inr miss ↦ rw miss (e, update_layer-Indexed keeps (suc k) ls h)
  ]

  pub update_layer-All :
      (P : Layer → Type 0)
      → ((l : Layer) → P l → P (change l))
      → (ls : List Layer) → All P ls
      → All P (update_layer i change ls)
  unfolding update_layer
  update_layer-All P keeps [] h = h
  update_layer-All P keeps (l ∷ ls) (p, h) = elim (Bool-cases (l.index == i)) [
    | inl hit ↦ rw hit (keeps l p, h)
    | inr miss ↦ rw miss (p, update_layer-All P keeps ls h)
  ]

pub append-Indexed :
    (k : ℕ) (ls : List Layer) (l : Layer)
    → Indexed k ls
    → l.index ≡ k + length ls
    → Indexed k (ls ++ l ∷ [])
append-Indexed k [] l h e = (omega (arith, e), tt)
append-Indexed k (x ∷ ls) l (p, h) e = (p, append-Indexed (suc k) ls l h (omega (arith, e)))

-- More layers or other macros, as long as those that are named stay.
pub Refers-mono :
    (n m : ℕ) (known : List String) (b : Binding) → n ≤ m → Refers n known b → Refers m known b
Refers-mono n m known (layer_momentary l) h r = omega arith
Refers-mono n m known (layer_toggle l) h r = omega arith
Refers-mono n m known (layer_tap l k) h r = omega arith
Refers-mono n m known (macro id) h r = r
Refers-mono n m known (keycode k) h r = tt
Refers-mono n m known transparent h r = tt
Refers-mono n m known no_op h r = tt
Refers-mono n m known (mod_tap a b) h r = tt

pub All-append {ℓ κ} :
    {A : Type ℓ} (P : A → Type κ) (xs : List A) (x : A) → All P xs → P x → All P (xs ++ x ∷ [])
All-append P [] x h p = (p, tt)
All-append P (y ∷ xs) x (q, h) p = (q, All-append P xs x h p)

module _ (n : ℕ) (known : List String) where
  pub bind-LayerRefers :
      (p : ℕ) (b : Binding)
      → Refers n known b
      → (l : Layer) → LayerRefers n known l
      → LayerRefers n known (bind p b l)
  bind-LayerRefers p b r l h = All-put (Refers n known) (decimal p) b l.bindings r h

  pub unbind-LayerRefers :
      (p : ℕ) (l : Layer) → LayerRefers n known l → LayerRefers n known (unbind p l)
  unbind-LayerRefers p l h = All-delete (Refers n known) (decimal p) l.bindings h

  pub bind_directions-LayerRefers :
      (socd : SocdConfiguration) (l : Layer)
      → LayerRefers n known l
      → LayerRefers n known (bind_directions socd l)
  unfolding bind_directions
  bind_directions-LayerRefers socd l h =
      let keys = socd.directional_keys in
      let codes = socd.directional_keycodes in
      let l₁ = bind keys.up (keycode codes.up) l in
      let l₂ = bind keys.down (keycode codes.down) l₁ in
      let l₃ = bind keys.left (keycode codes.left) l₂ in
      bind-LayerRefers keys.right (keycode codes.right) tt l₃ (
        bind-LayerRefers keys.left (keycode codes.left) tt l₂ (
          bind-LayerRefers keys.down (keycode codes.down) tt l₁
            (bind-LayerRefers keys.up (keycode codes.up) tt l h)))
