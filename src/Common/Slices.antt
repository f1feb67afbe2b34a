-- ===== src/Common/Slices.antt =====
-- Slices of a text that was put together.
use Prim.Native.Nat.{ℕ, zero, suc}
use Prim.Native.Char.{Char}
use Prim.Native.String.{String, ◌++◌ as append}
use Prim.Native.String.append.{cons as append_step, nil as append_nil}
use text.Mathlib.TextEquality.{Char-path}
use mathlib.Core.Path.{◌≡◌, refl, ap, ◌∙◌}
use mathlib.Core.Bool.{true}
use native.Mathlib.Omega.{arith}
use qmk_web_app.Common.Texts.{starts_with, slice_from, slice_to, text_length}

abbrev pub append-cons :
    (c : Char) (s t : String) → append (String.◌∷◌ c s) t ≡ String.◌∷◌ c (append s t)
append-cons c s t = λ i. append_step c s t i

abbrev pub append-empty : (t : String) → append String.[] t ≡ t
append-empty t = λ i. append_nil t i

-- A prefix and what stands behind it are the text.
pub prefix-slice :
    (p t : String) → starts_with p t ≡ true → append p (slice_from (text_length p) t) ≡ t
unfolding starts_with slice_from text_length
prefix-slice String.[] t e = append-empty t
prefix-slice (String.◌∷◌ c p) String.[] e = absurd cc
prefix-slice (String.◌∷◌ c p) (String.◌∷◌ d t) e =
    let same : c ≡ d = Char-path c d (ground arith) in
    append-cons c p (slice_from (text_length p) t)
    ∙ (λ i. String.◌∷◌ (same i) (prefix-slice p t (ground arith) i))

pub slices : (n : ℕ) (t : String) → append (slice_to n t) (slice_from n t) ≡ t
unfolding slice_to slice_from
slices zero t = append-empty t
slices (suc n) String.[] = append-empty String.[]
slices (suc n) (String.◌∷◌ c t) =
    append-cons c (slice_to n t) (slice_from n t) ∙ ap (String.◌∷◌ c) (slices n t)

pub starts_with-append : (p t : String) → starts_with p (append p t) ≡ true
unfolding starts_with
starts_with-append String.[] t = refl
starts_with-append (String.◌∷◌ c p) t =
    ap (starts_with (String.◌∷◌ c p)) (append-cons c p t) ∙ ground (arith, starts_with-append p t)

pub slice_from-append : (p t : String) → slice_from (text_length p) (append p t) ≡ t
unfolding slice_from text_length
slice_from-append String.[] t = append-empty t
slice_from-append (String.◌∷◌ c p) t =
    ap (slice_from (suc (text_length p))) (append-cons c p t) ∙ slice_from-append p t

pub slice_to-append : (p t : String) → slice_to (text_length p) (append p t) ≡ p
unfolding slice_to text_length
slice_to-append String.[] t = refl
slice_to-append (String.◌∷◌ c p) t =
    ap (slice_to (suc (text_length p))) (append-cons c p t)
    ∙ ap (String.◌∷◌ c) (slice_to-append p t)
