-- ===== src/Server/Consumers/Pages.antt =====
-- The pages of `ListConsumers` of internal/testserver/testserver.go.
use hush_hush_cli.Prelude.{
  ℕ, String, ◌≡◌, refl, sym, ap, ◌∙◌, ◌+◌, ◌-◌, ◌*◌, ◌≤◌, ◌<◌, true, Option, some, List, arith,
  length, take, drop, map, min, leb, Bool-cases, inl, inr, drop_all, take-min, length-drop,
}
use hush_hush_cli.Prelude.Int.{pos, negsuc, wrap, ◌-ℤ◌, ◌*ℤ◌, ◌+ℤ◌, min_ℤ}
use hush_hush_cli.Server.Types.{Store}
use hush_hush_cli.Server.Consumers.{
  paged, panicked, slice_between, page_bounds, list_page, capped_size, consumer_entry, page_of,
  page_between,
}

pub wrap_small : (n : ℕ) → n < 2147483648 → wrap 32 (pos n) ≡ pos n
unfolding wrap
wrap_small n h = ground arith

sub_pos : (a b : ℕ) → b ≤ a → pos a -ℤ pos b ≡ pos (a - b)
unfolding ◌-ℤ◌
sub_pos a b h = ground arith

pub add_pos : (a b : ℕ) → pos a +ℤ pos b ≡ pos (a + b)
unfolding ◌+ℤ◌
add_pos a b = ground arith

mul_pos : (a b : ℕ) → pos a *ℤ pos b ≡ pos (a * b)
unfolding ◌*ℤ◌
mul_pos a b = ground arith

min_pos : (a b : ℕ) → min_ℤ (pos a) (pos b) ≡ pos (min a b)
min_pos a b = ground arith

pub page_bounds-pos :
    (page size len : ℕ)
    → 1 ≤ page
    → page ≤ 2147483648
    → (page - 1) * size < 2147483648
    → page_bounds (pos page) (pos size) len
      ≡ (pos (min ((page - 1) * size) len), pos (min (min ((page - 1) * size) len + size) len))
unfolding page_bounds
page_bounds-pos page size len first word fits =
    rw
      (
        sub_pos page 1 first,
        wrap_small (page - 1) (omega arith),
        mul_pos (page - 1) size,
        wrap_small ((page - 1) * size) fits,
        min_pos ((page - 1) * size) len,
        add_pos (min ((page - 1) * size) len) size,
        min_pos (min ((page - 1) * size) len + size) len,
      )
      refl

drop-min {ℓ} : {A : Type ℓ} (a : ℕ) (xs : List A) → drop (min a (length xs)) xs ≡ drop a xs
drop-min a xs = elim (Bool-cases (leb a (length xs))) [
  | inl le ↦ ap (λ n. drop n xs) {x = min a (length xs)} {y = a} (ground arith)
  | inr gt ↦
      ap (λ n. drop n xs) {x = min a (length xs)} {y = length xs} (ground arith)
      ∙ drop_all (length xs) xs (omega arith)
      ∙ sym (drop_all a xs (ground arith))
]

-- A window cut to the length of the list is the window.
window-cut {ℓ} :
    {A : Type ℓ} (a z : ℕ) (xs : List A)
    → take
        (min (min a (length xs) + z) (length xs) - min a (length xs))
        (drop (min a (length xs)) xs)
      ≡ take z (drop a xs)
window-cut a z xs =
    ap (take _) (drop-min a xs) ∙ take-min _ z (drop a xs) (omega (arith, length-drop a xs))

pub slice_window :
    (a z : ℕ) (xs : List String)
    → slice_between (pos (min a (length xs))) (pos (min (min a (length xs) + z) (length xs))) xs
      ≡ some (take z (drop a xs))
unfolding slice_between
slice_window a z xs =
    let ordered : leb (min a (length xs)) (min (min a (length xs) + z) (length xs)) ≡ true =
      ground arith in
    rw ordered (ap some (window-cut a z xs))

capped_size-pos : (size : ℕ) → capped_size (some (pos size)) ≡ pos (min size 100)
capped_size-pos size = ground arith

-- A page from the first on, of a size that is capped at 100, is that window of the sorted names, as
-- long as its start is an `int32`; the count is that of all the names.
pub list_page-window :
    (q : Option String) (page size : ℕ) (matched : List String) (s : Store)
    → 1 ≤ page
    → page ≤ 2147483648
    → (page - 1) * min size 100 < 2147483648
    → list_page (record { q = q; page = some (pos page); page_size = some (pos size) }) matched s
      ≡ paged (record {
        consumers =
            map
              (λ name. consumer_entry name s)
              (take (min size 100) (drop ((page - 1) * min size 100) matched));
        total = wrap 32 (pos (length matched));
      })
unfolding list_page page_between page_of
list_page-window q page size matched s first word fits =
    ap (λ z. page_between s matched (page_bounds (pos page) z (length matched)))
      (capped_size-pos size)
    ∙ ap (page_between s matched)
        (page_bounds-pos page (min size 100) (length matched) first word fits)
    ∙ ap (page_of s matched) (slice_window ((page - 1) * min size 100) (min size 100) matched)

minus_one : wrap 32 (pos 0 -ℤ pos 1) ≡ negsuc 0
unfolding wrap ◌-ℤ◌
minus_one = refl

mul_minus_one : (n : ℕ) → 1 ≤ n → negsuc 0 *ℤ pos n ≡ negsuc (n - 1)
unfolding ◌*ℤ◌
mul_minus_one n h = ground arith

wrap_small_neg : (n : ℕ) → n < 100 → wrap 32 (negsuc n) ≡ negsuc n
unfolding wrap
wrap_small_neg n h = ground arith

min_negsuc : (n m : ℕ) → min_ℤ (negsuc n) (pos m) ≡ negsuc n
min_negsuc n m = ground arith

page_bounds-zero :
    (size len : ℕ)
    → 1 ≤ size
    → size ≤ 100
    → page_bounds (pos 0) (pos size) len
      ≡ (negsuc (size - 1), min_ℤ (negsuc (size - 1) +ℤ pos size) (pos len))
unfolding page_bounds
page_bounds-zero size len some_size small =
    ap (λ start. (start, min_ℤ (start +ℤ pos size) (pos len)))
      (ap (λ z. min_ℤ (wrap 32 (z *ℤ pos size)) (pos len)) minus_one
        ∙ ap (λ z. min_ℤ (wrap 32 z) (pos len)) (mul_minus_one size some_size)
        ∙ ap (λ z. min_ℤ z (pos len)) (wrap_small_neg (size - 1) (omega arith))
        ∙ min_negsuc (size - 1) len)

-- Page zero panics for every size above zero, whatever the names.
pub list_page-zero :
    (q : Option String) (size : ℕ) (matched : List String) (s : Store)
    → 1 ≤ size
    → list_page (record { q = q; page = some (pos 0); page_size = some (pos size) }) matched s
      ≡ panicked
unfolding list_page page_between slice_between page_of
list_page-zero q size matched s some_size =
    ap (λ z. page_between s matched (page_bounds (pos 0) z (length matched))) (capped_size-pos size)
    ∙ ap (page_between s matched)
        (page_bounds-zero (min size 100) (length matched) (omega arith) (omega arith))
