-- ===== src/Editor/Structure/Accepted.antt =====
-- The documents of the editor pass the server's rules on references.
use qmk_web_app.Common.{
  ℕ, zero, suc, ◌+◌, ◌≤◌, ◌≡◌, refl, ap, ◌∙◌, arith, String, true, false, ◌||◌, List, [], ◌∷◌, ◌++◌,
  map, length, length-append, ltb, ◌==◌, All,
}
use qmk_web_app.Common.Dict.{Dict, values, has, add}
use qmk_web_app.Common.Sort.{IsSorted, sort_of_IsSorted}
use qmk_web_app.Domain.Configuration.{
  Binding, keycode, transparent, no_op, layer_momentary, layer_toggle, layer_tap, mod_tap, macro,
  Layer, Macro, target,
}
use qmk_web_app.Domain.Schema.{
  set_of, counted, same_numbers, index_issues, layer_issue, macro_issue, binding_issues,
  layers_issues, configuration_issues,
}
use qmk_web_app.Domain.Schema.Macros.{has-append, has-add}
use qmk_web_app.Editor.State.{EditorDocument}
use qmk_web_app.Editor.Structure.{Indexed, Refers, LayerRefers, ids, has_id, Unique, ValidDocument}

indices : (k : ℕ) (ls : List Layer) → Indexed k ls → map (λ l. l.index) ls ≡ counted k (length ls)
unfolding counted
indices k [] v = refl
indices k (l ∷ ls) (e, v) = rw (e, indices (suc k) ls v) refl

counted-above : (k j n : ℕ) → j ≤ k → All (λ x. ltb x j ≡ false) (counted k n)
unfolding counted
counted-above k j zero h = tt
counted-above k j (suc n) h = (ground arith, counted-above (suc k) j n (omega arith))

counted-IsSorted : (k n : ℕ) → IsSorted ltb (counted k n)
unfolding counted
counted-IsSorted k zero = tt
counted-IsSorted k (suc n) = (counted-above (suc k) k n (omega arith), counted-IsSorted (suc k) n)

same_numbers_refl : (xs : List ℕ) → same_numbers xs xs ≡ true
unfolding same_numbers
same_numbers_refl [] = refl
same_numbers_refl (x ∷ xs) = ground (arith, same_numbers_refl xs)

length-counted : (k n : ℕ) → length (counted k n) ≡ n
unfolding counted
length-counted k zero = refl
length-counted k (suc n) = ap suc (length-counted (suc k) n)

index_issues-none : (ls : List Layer) → Indexed 0 ls → index_issues ls ≡ []
unfolding index_issues
index_issues-none ls v =
    rw
      (
        indices 0 ls v,
        sort_of_IsSorted ltb (counted 0 (length ls)) (counted-IsSorted 0 (length ls)),
        length-counted 0 (length ls),
        same_numbers_refl (counted 0 (length ls)),
      )
      refl

has-has_id : (x : String) (xs : List String) → has x xs ≡ has_id x xs
unfolding has
has-has_id x [] = refl
has-has_id x (y ∷ ys) = ground (arith, has-has_id x ys)

absent-append :
    (x : String) (seen ys : List String)
    → has_id x ys ≡ false
    → All (λ y. has y seen ≡ false) ys
    → All (λ y. has y (seen ++ x ∷ []) ≡ false) ys
absent-append x seen [] e h = tt
absent-append x seen (y ∷ ys) e (new, h) =
    (ground (arith, has-append y x seen), absent-append x seen ys (ground arith) h)

length-set_of :
    (seen xs : List String)
    → Unique xs
    → All (λ x. has x seen ≡ false) xs
    → length (set_of seen xs) ≡ length seen + length xs
unfolding set_of add
length-set_of seen [] u h = omega arith
length-set_of seen (x ∷ xs) (once, u) (new, h) = rw new (
    length-set_of (seen ++ x ∷ []) xs u (absent-append x seen xs once h)
    ∙ omega (arith, length-append seen (x ∷ [])))

pub has-set_of :
    (x : String) (seen xs : List String) → has x (set_of seen xs) ≡ has x seen || has_id x xs
unfolding set_of
has-set_of x seen [] = ground arith
has-set_of x seen (y ∷ ys) = ground (arith, has-set_of x (add y seen) ys, has-add x y seen)

All-absent : (xs : List String) → All (λ x. has x [] ≡ false) xs
unfolding has
All-absent [] = tt
All-absent (x ∷ xs) = (refl, All-absent xs)

length-ids : (ms : List Macro) → length (ids ms) ≡ length ms
length-ids [] = refl
length-ids (m ∷ ms) = ap suc (length-ids ms)

module _ (n : ℕ) (known : List String) where
  named-none :
      (li : ℕ) (p : String) (b : Binding)
      → Refers n known b
      → (layer_issue n li p b ≡ []) × (macro_issue (set_of [] known) li p b ≡ [])
  unfolding layer_issue macro_issue target has
  named-none li p (layer_momentary l) r = (ground arith, refl)
  named-none li p (layer_toggle l) r = (ground arith, refl)
  named-none li p (layer_tap l k) r = (ground arith, refl)
  named-none li p (macro id) r = (refl, ground (arith, has-set_of id [] known))
  named-none li p (keycode k) r = (refl, refl)
  named-none li p transparent r = (refl, refl)
  named-none li p no_op r = (refl, refl)
  named-none li p (mod_tap a b) r = (refl, refl)

  binding_issues-none :
      (li : ℕ) (m : Dict Binding)
      → All (Refers n known) (values m)
      → binding_issues n (set_of [] known) li m ≡ []
  unfolding binding_issues
  binding_issues-none li [] h = refl
  binding_issues-none li ((p, b) ∷ m) (r, h) =
      let (no_layer, no_macro) = named-none li p b r in
      rw (no_layer, no_macro) (binding_issues-none li m h)

  layers_issues-none :
      (li : ℕ) (ls : List Layer)
      → All (LayerRefers n known) ls
      → layers_issues n (set_of [] known) li ls ≡ []
  unfolding layers_issues
  layers_issues-none li [] h = refl
  layers_issues-none li (l ∷ ls) (r, h) =
      rw (binding_issues-none li l.bindings r) (layers_issues-none (suc li) ls h)

-- A valid document of the editor has no issue by the server's rules on layer indices, macro ids
-- and references.
pub configuration_issues-none :
    (d : EditorDocument) → ValidDocument d → configuration_issues d.layers d.macros ≡ []
unfolding configuration_issues
configuration_issues-none d v =
    let known = set_of [] (ids d.macros) in
    let once : (length known == length d.macros) ≡ true = ground (
      arith,
      length-set_of [] (ids d.macros) v.unique (All-absent (ids d.macros)),
      length-ids d.macros,
    ) in
    rw
      (
        index_issues-none d.layers v.indexed,
        once,
        layers_issues-none (length d.layers) (ids d.macros) 0 d.layers v.refer,
      )
      refl
