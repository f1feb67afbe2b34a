-- ===== src/Editor/Structure/Removal.antt =====
-- The layers after one is removed.
use qmk_web_app.Common.{
  ℕ, suc, ◌+◌, ◌-◌, ◌≤◌, ◌<◌, ◌≡◌, refl, ap, ◌∙◌, arith, false, not, ◌&&◌, Option, none, some, List,
  [], ◌∷◌, length, All, Bool-cases, inl, inr, ◌==◌, ltb, leb, if◌then◌else◌, filter, map,
}
use qmk_web_app.Common.Sort.{IsSorted, filter-IsSorted, sort_of_IsSorted}
use qmk_web_app.Domain.Configuration.{Binding, Layer}
use qmk_web_app.Editor.Layers.{
  remap, renumber, remap_binding, rebind, by_index, remaining_layers, without_layer,
}
use qmk_web_app.Editor.Structure.{Indexed}

abbrev pub others : ℕ → List Layer → List Layer
others i = filter (λ l. not (l.index == i))

Indexed-above :
    (k : ℕ) (ls : List Layer) (b : ℕ) → b ≤ k → Indexed k ls → All (λ l. ltb l.index b ≡ false) ls
Indexed-above k [] b h s = tt
Indexed-above k (l ∷ ls) b h (e, s) = (ground arith, Indexed-above (suc k) ls b (omega arith) s)

Indexed-IsSorted : (k : ℕ) (ls : List Layer) → Indexed k ls → IsSorted by_index ls
Indexed-IsSorted k [] s = tt
Indexed-IsSorted k (l ∷ ls) (e, s) =
    (Indexed-above (suc k) ls l.index (omega arith) s, Indexed-IsSorted (suc k) ls s)

-- The sort finds the layers in order.
pub remaining_layers_lem :
    (i k : ℕ) (ls : List Layer) → Indexed k ls → remaining_layers i ls ≡ others i ls
unfolding remaining_layers
remaining_layers_lem i k ls s =
    sort_of_IsSorted by_index (others i ls)
      (filter-IsSorted by_index (λ l. not (l.index == i)) ls (Indexed-IsSorted k ls s))

others_below : (i k : ℕ) (ls : List Layer) → Indexed k ls → i < k → others i ls ≡ ls
others_below i k [] s h = refl
others_below i k (l ∷ ls) (e, s) h = ground (arith, others_below i (suc k) ls s)

pub length-others :
    (i k : ℕ) (ls : List Layer)
    → Indexed k ls
    → k ≤ i
    → i < k + length ls
    → suc (length (others i ls)) ≡ length ls
length-others i k [] s h h' = absurd (omega arith)
length-others i k (l ∷ ls) (e, s) h h' = elim (Bool-cases (l.index == i)) [
  | inl hit ↦ rw hit (ap (λ x. suc (length x)) (others_below i (suc k) ls s (ground arith)))
  | inr miss ↦ rw miss (ap suc (length-others i (suc k) ls s (ground arith) (omega arith)))
]

remap_all :
    (k place j : ℕ) (ls : List Layer)
    → Indexed k ls
    → remap place ls j ≡ (if leb k j && ltb j (k + length ls) then some (place + (j - k)) else none)
unfolding remap
remap_all k place j [] s = ground arith
remap_all k place j (l ∷ ls) (e, s) = ground (arith, remap_all (suc k) (suc place) j ls s)

-- Where the layer of an index goes when layer `i` of the `n` from `k` on is taken out.
abbrev pub closed_up_from : (k n place i j : ℕ) → Option ℕ
closed_up_from k n place i j =
    if j == i
    then none
    else if leb k j && ltb j (k + n)
    then some (if ltb j i then place + (j - k) else place + (j - k) - 1)
    else none

remap-others :
    (k place i j : ℕ) (ls : List Layer)
    → Indexed k ls
    → k ≤ i
    → remap place (others i ls) j ≡ closed_up_from k (length ls) place i j
unfolding remap
remap-others k place i j [] s h = ground arith
remap-others k place i j (l ∷ ls) (e, s) h = elim (Bool-cases (l.index == i)) [
  | inl hit ↦
      rw (hit, others_below i (suc k) ls s (ground arith))
        (remap_all (suc k) place j ls s ∙ ground arith)
  | inr miss ↦ rw miss (ground (arith, remap-others (suc k) (suc place) i j ls s))
]

-- The removed layer has no place; those below it keep theirs, those above it move down by one.
abbrev pub closed_up : (n i j : ℕ) → Option ℕ
closed_up n i j =
    if j == i then none else if ltb j n then some (if ltb j i then j else j - 1) else none

pub remap_remaining :
    (i j : ℕ) (ls : List Layer)
    → Indexed 0 ls
    → remap 0 (remaining_layers i ls) j ≡ closed_up (length ls) i j
remap_remaining i j ls s =
    rw (remaining_layers_lem i 0 ls s) (remap-others 0 0 i j ls s (omega arith) ∙ ground arith)

pub renumber-Indexed : (k : ℕ) (ls : List Layer) → Indexed k (renumber k ls)
unfolding renumber
renumber-Indexed k [] = tt
renumber-Indexed k (l ∷ ls) = (refl, renumber-Indexed (suc k) ls)

pub rebind-Indexed :
    (f : Binding → Option Binding) (k : ℕ) (ls : List Layer)
    → Indexed k ls
    → Indexed k (map (rebind f) ls)
rebind-Indexed f k [] s = tt
rebind-Indexed f k (l ∷ ls) (e, s) = (e, rebind-Indexed f (suc k) ls s)

pub length-without_layer :
    (i : ℕ) (ls : List Layer) → length (without_layer i ls) ≡ length (remaining_layers i ls)
unfolding without_layer renumber
length-without_layer i ls = mapped 0 (remaining_layers i ls)
  where
    mapped :
        (k : ℕ) (rs : List Layer)
        → length (map (rebind (remap_binding (remap 0 (remaining_layers i ls)))) (renumber k rs))
          ≡ length rs
    mapped k [] = refl
    mapped k (r ∷ rs) = ap suc (mapped (suc k) rs)
