-- ===== src/Editor/Structure/Macros.antt =====
-- The macros after one is replaced or removed, and the bindings that are kept.
use qmk_web_app.Common.{
  ℕ, suc, ◌<◌, ◌≡◌, ◌≢◌, refl, ap, arith, String, true, false, Option, some, Option-cases, List, [],
  ◌∷◌, ◌++◌, length, All, Bool-cases, inl, inr, ◌===◌, map, ◌||◌, subst,
}
use qmk_web_app.Common.Dict.{Dict, values}
use qmk_web_app.Domain.Configuration.{
  Binding, keycode, transparent, no_op, layer_momentary, layer_toggle, layer_tap, mod_tap, macro,
  Macro,
}
use qmk_web_app.Editor.Layers.{
  retarget, remap_binding, filter_map_bindings, drop_macro, replace_macro, splice_macro,
}
use qmk_web_app.Domain.Configuration.{target}
use qmk_web_app.Editor.Structure.{Refers, ids, has_id, Unique}

-- `update_macro` keeps the ids, in their order.
pub ids-replace_macro :
    (m : Macro) (ms : List Macro) {ms' : List Macro}
    → replace_macro m ms ≡ some ms'
    → ids ms' ≡ ids ms
unfolding replace_macro
ids-replace_macro m [] e = cc
ids-replace_macro m (n ∷ ns) {ms'} e = elim (Option-cases (replace_macro m ns)) [
  | inl e' ↦ ground arith
  | inr (ns', e') ↦ ground (arith, ids-replace_macro m ns {ms' = ns'} e')
]

-- The ids that stay when one is taken out.
pub record Spliced (id : String) (ms ms' : List Macro) : Type 0 where
  pub fewer : suc (length ms') ≡ length ms
  pub subset : (x : String) → has_id x (ids ms') ≡ true → has_id x (ids ms) ≡ true
  pub stays : (x : String) → x ≢ id → has_id x (ids ms) ≡ true → has_id x (ids ms') ≡ true
  pub unique : Unique (ids ms) → Unique (ids ms')

splice_head : (id : String) (n : Macro) (ns : List Macro) → n.id ≡ id → Spliced id (n ∷ ns) ns
splice_head id n ns e = record {
  fewer = refl;
  subset = λ x h. ground arith;
  stays = λ x h k. ground arith;
  unique = λ u. u.1;
}

splice_tail :
    (id : String) (n : Macro) (ns ns' : List Macro)
    → Spliced id ns ns'
    → Spliced id (n ∷ ns) (n ∷ ns')
splice_tail id n ns ns' s = record {
  fewer = ap suc s.fewer;
  subset = λ x h. ground (arith, s.subset x);
  stays = λ x h k. ground (arith, s.stays x h);
  unique = λ u. (ground (arith, s.subset n.id), s.unique u.1);
}

pub splice_macro-Spliced :
    (id : String) (ms : List Macro) {ms' : List Macro}
    → splice_macro id ms ≡ some ms'
    → Spliced id ms ms'
unfolding splice_macro
splice_macro-Spliced id [] e = cc
splice_macro-Spliced id (n ∷ ns) {ms'} e = elim (Bool-cases (n.id === id)) [
  | inl hit ↦ subst (Spliced id (n ∷ ns)) (ground arith) (splice_head id n ns (ground arith))
  | inr miss ↦ elim (Option-cases (splice_macro id ns)) [
    | inl e' ↦ absurd (ground arith)
    | inr (ns', e') ↦
        subst (Spliced id (n ∷ ns)) (ground arith)
          (splice_tail id n ns ns' (splice_macro-Spliced id ns e'))
  ]
]

-- What the bindings that a loop keeps satisfy.
pub All-filter_map_bindings :
    (P Q : Binding → Type 0) (f : Binding → Option Binding)
    → ((b b' : Binding) → P b → f b ≡ some b' → Q b')
    → (m : Dict Binding) → All P (values m)
    → All Q (values (filter_map_bindings f m))
unfolding filter_map_bindings
All-filter_map_bindings P Q f good [] h = tt
All-filter_map_bindings P Q f good ((k, b) ∷ m) (p, h) = elim (Option-cases (f b)) [
  | inl e ↦ rw e (All-filter_map_bindings P Q f good m h)
  | inr (b', e) ↦ rw e (good b b' p e, All-filter_map_bindings P Q f good m h)
]

-- A binding that is kept does not name the macro that went.
pub drop_macro-Refers :
    (n : ℕ) (id : String) (ms ms' : List Macro)
    → Spliced id ms ms'
    → (b b' : Binding) → Refers n (ids ms) b
    → drop_macro id b ≡ some b'
    → Refers n (ids ms') b'
unfolding drop_macro
drop_macro-Refers n id ms ms' s b b' r e =
    let same : b ≡ b' = ground arith in
    subst (Refers n (ids ms')) same (kept b r (λ m h. ground arith))
  where
    kept :
        (c : Binding)
        → Refers n (ids ms) c
        → ((m : String) → c ≡ macro m → m ≢ id)
        → Refers n (ids ms') c
    kept (layer_momentary l) h other = h
    kept (layer_toggle l) h other = h
    kept (layer_tap l k) h other = h
    kept (macro m) h other = s.stays m (other m refl) h
    kept (keycode k) h other = tt
    kept transparent h other = tt
    kept no_op h other = tt
    kept (mod_tap h' k) h other = tt

-- A binding that is kept names the layer's new place.
pub remap_binding-Refers :
    (n n' : ℕ) (known : List String) (places : ℕ → Option ℕ)
    → ((l t : ℕ) → places l ≡ some t → t < n')
    → (b b' : Binding) → Refers n known b
    → remap_binding places b ≡ some b'
    → Refers n' known b'
unfolding remap_binding target retarget
remap_binding-Refers n n' known places bound (layer_momentary l) b' r e =
    elim (Option-cases (places l)) [
      | inl gone ↦ absurd (ground arith)
      | inr (t, at) ↦ subst (Refers n' known) {x = layer_momentary t} (ground arith) (bound l t at)
    ]
remap_binding-Refers n n' known places bound (layer_toggle l) b' r e =
    elim (Option-cases (places l)) [
      | inl gone ↦ absurd (ground arith)
      | inr (t, at) ↦ subst (Refers n' known) {x = layer_toggle t} (ground arith) (bound l t at)
    ]
remap_binding-Refers n n' known places bound (layer_tap l k) b' r e =
    elim (Option-cases (places l)) [
      | inl gone ↦ absurd (ground arith)
      | inr (t, at) ↦ subst (Refers n' known) {x = layer_tap t k} (ground arith) (bound l t at)
    ]
remap_binding-Refers n n' known places bound (macro m) b' r e =
    subst (Refers n' known) {x = macro m} (ground arith) r
remap_binding-Refers n n' known places bound (keycode k) b' r e =
    subst (Refers n' known) {x = keycode k} (ground arith) tt
remap_binding-Refers n n' known places bound transparent b' r e =
    subst (Refers n' known) {x = transparent} (ground arith) tt
remap_binding-Refers n n' known places bound no_op b' r e =
    subst (Refers n' known) {x = no_op} (ground arith) tt
remap_binding-Refers n n' known places bound (mod_tap h k) b' r e =
    subst (Refers n' known) {x = mod_tap h k} (ground arith) tt

pub length-ids : (ms : List Macro) → length (ids ms) ≡ length ms
length-ids [] = refl
length-ids (m ∷ ms) = ap suc (length-ids ms)

pub length-map {ℓ κ} :
    {A : Type ℓ} {B : Type κ} (f : A → B) (xs : List A) → length (map f xs) ≡ length xs
length-map f [] = refl
length-map f (x ∷ xs) = ap suc (length-map f xs)

pub All-map {ℓ κ λ'} :
    {A : Type ℓ} (P : A → Type κ) (Q : A → Type λ') (f : A → A)
    → ((a : A) → P a → Q (f a))
    → (xs : List A) → All P xs
    → All Q (map f xs)
All-map P Q f good [] h = tt
All-map P Q f good (x ∷ xs) (p, h) = (good x p, All-map P Q f good xs h)

has_id-append :
    (x : String) (m : Macro) (ms : List Macro)
    → has_id x (ids (ms ++ m ∷ [])) ≡ has_id x (ids ms) || m.id === x
has_id-append x m [] = ground arith
has_id-append x m (n ∷ ms) = ground (arith, has_id-append x m ms)

pub append-Unique :
    (m : Macro) (ms : List Macro)
    → has_id m.id (ids ms) ≡ false
    → Unique (ids ms)
    → Unique (ids (ms ++ m ∷ []))
append-Unique m [] fresh u = (refl, tt)
append-Unique m (n ∷ ms) fresh (e, u) =
    (ground (arith, has_id-append n.id m ms), append-Unique m ms (ground arith) u)

pub Refers-append :
    (n : ℕ) (m : Macro) (ms : List Macro) (b : Binding)
    → Refers n (ids ms) b
    → Refers n (ids (ms ++ m ∷ [])) b
Refers-append n m ms (layer_momentary l) r = r
Refers-append n m ms (layer_toggle l) r = r
Refers-append n m ms (layer_tap l k) r = r
Refers-append n m ms (macro id) r = ground (arith, has_id-append id m ms)
Refers-append n m ms (keycode k) r = tt
Refers-append n m ms transparent r = tt
Refers-append n m ms no_op r = tt
Refers-append n m ms (mod_tap h k) r = tt
