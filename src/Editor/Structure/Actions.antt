-- ===== src/Editor/Structure/Actions.antt =====
-- The edits that one action makes keep every document of the editor valid.
use qmk_web_app.Common.{
  ℕ, zero, suc, ◌+◌, ◌-◌, ◌≤◌, ◌<◌, ◌≡◌, refl, ap, ◌∙◌, arith, String, ◌===◌, false, Option,
  Option-cases, List, [], ◌∷◌, ◌++◌, length, All, Bool-cases, inl, inr, leb, ltb, drop, ◌==◌, ◌||◌,
}
use qmk_web_app.Common.Dict.{get}
use qmk_web_app.Common.Decimal.{decimal}
use qmk_web_app.Domain.Limits.{max_layers}
use qmk_web_app.Domain.Configuration.{Layer, SocdConfiguration}
use qmk_web_app.Editor.State.{
  EditorDocument, EditorState, with_history, bounded, layer_at, max_history,
}
use qmk_web_app.Editor.Layers.{unbind, splice_macro, remaining_layers}
use qmk_web_app.Editor.Reducer.{
  edit_layer, clear_binding_at, rename_layer_at, add_layer_to, new_layer, remove_layer_from,
  remove_macro_from,
}
use qmk_web_app.Editor.Structure.{Indexed, LayerRefers, ids, ValidDocument}
use qmk_web_app.Editor.Structure.Edits.{unbind-LayerRefers, All-append}
use qmk_web_app.Editor.Structure.Removal.{remaining_layers_lem, others}
use qmk_web_app.Editor.Structure.Validity.{
  update_layer-ValidDocument, append-ValidDocument, without_layer-ValidDocument,
  splice_macro-ValidDocument,
}

-- The document and every document that undo and redo can bring back.
pub record ValidState (s : EditorState) : Type 0 where
  pub current : ValidDocument s.document
  pub past : All ValidDocument s.past
  pub future : All ValidDocument s.future

All-drop : (n : ℕ) (ds : List EditorDocument) → All ValidDocument ds → All ValidDocument (drop n ds)
All-drop zero ds h = h
All-drop (suc n) [] h = tt
All-drop (suc n) (d ∷ ds) h = All-drop n ds h.1

pub All-unappend :
    (P : EditorDocument → Type 0) (ds : List EditorDocument) (d : EditorDocument)
    → All P (ds ++ d ∷ [])
    → All P ds × P d
All-unappend P [] d (p, h) = (tt, p)
All-unappend P (c ∷ ds) d (p, h) = let r = All-unappend P ds d h in ((p, r.0), r.1)

bounded-All : (ds : List EditorDocument) → All ValidDocument ds → All ValidDocument (bounded ds)
unfolding bounded
bounded-All ds h = elim (Bool-cases (ltb max_history (length ds))) [
  | inl e ↦ rw e (All-drop (length ds - max_history) ds h)
  | inr e ↦ rw e h
]

-- An edit to a valid document.
pub edited :
    (s : EditorState) (d : EditorDocument)
    → ValidDocument d
    → ValidState s
    → ValidState (with_history s d)
unfolding with_history
edited s d v h = record {
  current = v;
  past =
      bounded-All (s.past ++ s.document ∷ [])
        (All-append ValidDocument s.past s.document h.past h.current);
  future = tt;
}

pub edit_layer-ValidState :
    (s : EditorState) (i : ℕ) (change : Layer → Layer)
    → ((l : Layer) → (change l).index ≡ l.index)
    → ((l : Layer)
        → LayerRefers (length s.document.layers) (ids s.document.macros) l
        → LayerRefers (length s.document.layers) (ids s.document.macros) (change l))
    → ValidState s
    → ValidState (edit_layer s i change)
edit_layer-ValidState s i change keeps refers h =
    elim (Option-cases (layer_at s.document.layers i)) [
      | inl e ↦ rw (e, edit_layer) h
      | inr (l, e) ↦
          rw (e, edit_layer)
            (edited s _ (update_layer-ValidDocument i change s.document keeps refers h.current) h)
    ]

pub same_layers :
    (d : EditorDocument) (socd : Option SocdConfiguration)
    → ValidDocument d
    → ValidDocument (record d { socd = socd })
same_layers d socd v = record {
  indexed = v.indexed;
  some_layer = v.some_layer;
  few_layers = v.few_layers;
  few_macros = v.few_macros;
  unique = v.unique;
  refer = v.refer;
}

pub renamed :
    (d : EditorDocument) (name : String)
    → ValidDocument d
    → ValidDocument (record d { name = name })
renamed d name v = record {
  indexed = v.indexed;
  some_layer = v.some_layer;
  few_layers = v.few_layers;
  few_macros = v.few_macros;
  unique = v.unique;
  refer = v.refer;
}

pub clear_binding_at-ValidState :
    (s : EditorState) (i p : ℕ) → ValidState s → ValidState (clear_binding_at s i p)
unfolding clear_binding_at
clear_binding_at-ValidState s i p h = elim (Option-cases (layer_at s.document.layers i)) [
  | inl e ↦ rw (e, clear_binding_at) h
  | inr (l, e) ↦
      rw (e, clear_binding_at)
        (elim (Option-cases (get (decimal p) l.bindings)) [
          | inl e' ↦ rw e' h
          | inr (b, e') ↦ rw e' (
              edited s _
                (update_layer-ValidDocument i (unbind p) s.document (λ x. refl)
                  (unbind-LayerRefers _ _ p) h.current)
                h)
        ])
]

pub rename_layer_at-ValidState :
    (s : EditorState) (i : ℕ) (name : String) → ValidState s → ValidState (rename_layer_at s i name)
unfolding rename_layer_at
rename_layer_at-ValidState s i name h = elim (Option-cases (layer_at s.document.layers i)) [
  | inl e ↦ rw (e, rename_layer_at) h
  | inr (l, e) ↦
      rw (e, rename_layer_at)
        (elim (Bool-cases (l.name === name)) [
          | inl same ↦ rw same h
          | inr differs ↦ rw differs (
              edited s _
                (update_layer-ValidDocument i _ s.document (λ x. refl) (λ x r. r) h.current) h)
        ])
]

-- The active layer does not matter here.
pub activated :
    (s : EditorState) (i : ℕ) → ValidState s → ValidState (record s { active_layer_index = i })
activated s i h = record { current = h.current; past = h.past; future = h.future }

pub add_layer_to-ValidState :
    (s : EditorState) (id : String) → ValidState s → ValidState (add_layer_to s id)
unfolding add_layer_to new_layer
add_layer_to-ValidState s id h = elim (Bool-cases (leb max_layers (length s.document.layers))) [
  | inl full ↦ rw full h
  | inr room ↦ rw room (
      activated _ _
        (edited s _ (append-ValidDocument _ s.document refl refl (ground arith) h.current) h))
]

-- Only a layer that is there can go.
others-same :
    (i : ℕ) (k : ℕ) (ls : List Layer) → Indexed k ls → k + length ls ≤ i → others i ls ≡ ls
others-same i k [] v h = refl
others-same i k (l ∷ ls) (e, v) h = ground (arith, others-same i (suc k) ls v)

below :
    (i : ℕ) (ls : List Layer)
    → Indexed 0 ls
    → 0 < i
    → (length (remaining_layers i ls) == length ls) ≡ false
    → i < length ls
below i ls v pos fewer = elim (Bool-cases (ltb i (length ls))) [
  | inl under ↦ ground arith
  | inr over ↦
      let same = remaining_layers_lem i 0 ls v ∙ others-same i 0 ls v (ground arith) in
      absurd (ground (arith, ap length same))
]

pub remove_layer_from-ValidState :
    (s : EditorState) (i : ℕ) → ValidState s → ValidState (remove_layer_from s i)
unfolding remove_layer_from
remove_layer_from-ValidState s i h =
    let layers = s.document.layers in
    elim (Bool-cases (i == 0 || leb (length layers) 1)) [
      | inl stays ↦ rw stays h
      | inr one ↦ rw one (elim (Bool-cases (length (remaining_layers i layers) == length layers)) [
        | inl same ↦ rw same h
        | inr fewer ↦ rw fewer (
            activated _ _ (
              edited s _
                (without_layer-ValidDocument i s.document (ground arith)
                  (below i layers h.current.indexed (ground arith) (ground arith)) h.current)
                h))
      ])
    ]

pub remove_macro_from-ValidState :
    (s : EditorState) (id : String) → ValidState s → ValidState (remove_macro_from s id)
unfolding remove_macro_from
remove_macro_from-ValidState s id h = elim (Option-cases (splice_macro id s.document.macros)) [
  | inl e ↦ rw (e, remove_macro_from) h
  | inr (ms, e) ↦
      rw (e, remove_macro_from)
        (edited s _ (splice_macro-ValidDocument id s.document e h.current) h)
]
