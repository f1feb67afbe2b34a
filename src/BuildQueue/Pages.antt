-- ===== src/BuildQueue/Pages.antt =====
-- The pages of a listing.
use qmk_web_app.Common.{
  ℕ, zero, suc, ◌+◌, ◌-◌, ◌*◌, ◌/◌, ◌≤◌, ◌<◌, min, max, ◌≡◌, refl, sym, ap, ◌∙◌, arith, List, [],
  ◌∷◌, ◌++◌, length, drop, take, subst, length-take, length-drop, take-append-drop, drop_all,
}
use native.Mathlib.Nat.{div-add-mod', mod-lt}
use qmk_web_app.BuildQueue.Store.{page_count, paginate}

ceil_covers : (n d : ℕ) → 0 < d → n ≤ (n + d - 1) / d * d
ceil_covers n d h = omega (arith, div-add-mod' (n + d - 1) d, mod-lt (n + d - 1) h)

mul_mono : (a b d : ℕ) → a ≤ b → a * d ≤ b * d
mul_mono a b d h = grind arith

page_count_covers : (n page_size : ℕ) → 0 < page_size → n ≤ page_count n page_size * page_size
unfolding page_count
page_count_covers n d h =
    omega (
      arith,
      ceil_covers n d h,
      mul_mono ((n + d - 1) / d) (max ((n + d - 1) / d) 1) d (omega arith),
    )

suc_mul : (k d : ℕ) → suc k * d ≡ k * d + d
suc_mul k d = grind arith

-- Each page but the last one is full.
page_count_full :
    (n page_size k : ℕ) → 0 < page_size → k < page_count n page_size → k * page_size ≤ n
unfolding page_count
page_count_full n d zero h below = omega arith
page_count_full n d (suc k) h below = omega (
  arith,
  div-add-mod' (n + d - 1) d,
  suc_mul (suc k) d,
  mul_mono (suc (suc k)) ((n + d - 1) / d) d (omega arith),
)

module _ {A : Type 0} where
  drop-nil : (n : ℕ) → drop {A = A} n [] ≡ []
  drop-nil zero = refl
  drop-nil (suc n) = refl

  drop-drop : (m n k : ℕ) (xs : List A) → k ≡ n + m → drop m (drop n xs) ≡ drop k xs
  drop-drop m zero k xs e = let same : m ≡ k = omega arith in ap (λ i. drop i xs) same
  drop-drop m (suc n) k [] e = drop-nil m ∙ sym (drop-nil k)
  drop-drop m (suc n) zero (x ∷ xs) e = absurd (omega arith)
  drop-drop m (suc n) (suc k) (x ∷ xs) e = drop-drop m n k xs (omega arith)

  -- The pages from one on, so many of them.
  abbrev pub pages_from : (page_size page count : ℕ) → List A → List A
  pages_from page_size page zero xs = []
  pages_from page_size page (suc count) xs =
      (paginate xs page page_size).items ++ pages_from page_size (suc page) count xs

  -- With a positive page size, the page shown is in range, and is the one asked for if that is; the
  -- pages have room for the whole list; and the page's items are those of the list that stand behind
  -- the items of the pages before it, in order, as many as the page size or as are left.
  pub paginate_bounds :
      (xs : List A) (page page_size : ℕ)
      → 0 < page_size
      → let p = paginate xs page page_size in
        (1 ≤ p.page)
        × (p.page ≤ p.total_pages)
        × (1 ≤ page → page ≤ p.total_pages → p.page ≡ page)
        × (length xs ≤ p.total_pages * page_size)
        × ((before : List A) × (after : List A) × (xs ≡ before ++ (p.items ++ after))
            × (length before ≡ (p.page - 1) * page_size)
            × (length p.items ≡ min page_size (length xs - length before)))
  unfolding paginate page_count
  paginate_bounds xs page page_size h =
      let total = page_count (length xs) page_size in
      let shown = min (max page 1) total in
      let start = (shown - 1) * page_size in
      let fits : start ≤ length xs =
        page_count_full (length xs) page_size (shown - 1) h (omega arith) in
      let placed : length (take start xs) ≡ start = omega (arith, length-take start xs) in
      (
        omega arith,
        omega arith,
        (λ low high. omega arith),
        page_count_covers (length xs) page_size h,
        (
          take start xs,
          drop page_size (drop start xs),
          sym (
              ap (λ rest. take start xs ++ rest) (take-append-drop page_size (drop start xs))
              ∙ take-append-drop start xs),
          placed,
          rw placed (length-take page_size _ ∙ ap (min page_size) (length-drop start xs)),
        ),
      )

  pages_from_lem :
      (page_size k count : ℕ) (xs : List A)
      → 0 < page_size
      → k + count ≡ page_count (length xs) page_size
      → pages_from page_size (suc k) count xs ≡ drop (k * page_size) xs
  unfolding paginate
  pages_from_lem page_size k zero xs h e =
      let last : page_count (length xs) page_size ≡ k = omega arith in
      sym (
        drop_all (k * page_size) xs
          (subst (λ t. length xs ≤ t * page_size) last (page_count_covers (length xs) page_size h)))
  pages_from_lem page_size k (suc count) xs h e =
      let start : min (max (suc k) 1) (page_count (length xs) page_size) - 1 ≡ k = omega arith in
      rw (start, pages_from_lem page_size (suc k) count xs h (omega arith))
        (rw (← drop-drop page_size (k * page_size) (suc k * page_size) xs (omega arith))
          (take-append-drop page_size (drop (k * page_size) xs)))

  -- With a positive page size, the pages one after another are the list: no item is left out,
  -- shown twice or out of order.
  pub pages_complete :
      (xs : List A) (page_size : ℕ)
      → 0 < page_size
      → pages_from page_size 1 (page_count (length xs) page_size) xs ≡ xs
  pages_complete xs page_size h =
      let none_before : 0 * page_size ≡ 0 = omega arith in
      pages_from_lem page_size 0 (page_count (length xs) page_size) xs h (omega arith)
      ∙ ap (λ n. drop n xs) none_before
