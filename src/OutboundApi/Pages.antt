-- ===== src/OutboundApi/Pages.antt =====
-- A page of a list.
use singboxconfig.Prelude.{
  ℕ, ◌+◌, ◌*◌, ◌-◌, ◌<◌, ltb, leb, Bool, true, false, List, [], ◌∷◌, some, ◌≡◌, refl, ◌∙◌, sym, ap,
  arith, length, if◌then◌else◌,
}
use singboxconfig.Prelude.Int.{pos, ltb_ℤ}
use singboxconfig.Cache.{to_int64}
use singboxconfig.OutboundApi.{drop, take, slice, paged, paginate_outbounds}

to_int64_small : (n : ℕ) → n < 9223372036854775808 → to_int64 n ≡ pos n
to_int64_small n h = ground arith

ltb_pos : (a b : ℕ) → ltb_ℤ (pos a) (pos b) ≡ ltb a b
ltb_pos a b = ground arith

module _ {A : Type 0} where
  drop_all : (n : ℕ) (xs : List A) → (leb (length xs) n ≡ true) → drop n xs ≡ []
  unfolding drop
  drop_all n [] h = refl
  drop_all n (x ∷ xs) h = ground (arith, drop_all (n - 1) xs)

  take_all : (n : ℕ) (xs : List A) → (leb (length xs) n ≡ true) → take n xs ≡ xs
  unfolding take
  take_all n [] h = refl
  take_all n (x ∷ xs) h = ground (arith, take_all (n - 1) xs)

  length-drop : (n : ℕ) (xs : List A) → length (drop n xs) ≡ length xs - n
  unfolding drop
  length-drop n [] = ground arith
  length-drop n (x ∷ xs) = ground (arith, length-drop (n - 1) xs)

  slice_pos :
      (items : List A) (start end : ℕ)
      → leb start end ≡ true
      → slice items start (pos end) ≡ some (take (end - start) (drop start items))
  unfolding slice
  slice_pos items start end h = ground arith

  -- up to the end of the list, or of the page
  slice_page :
      (items : List A) (limit start : ℕ) (b : Bool)
      → leb start (length items) ≡ true
      → ltb (length items) (start + limit) ≡ b
      → slice items start (if b then pos (length items) else pos (start + limit))
        ≡ some (take limit (drop start items))
  slice_page items limit start true h e =
      slice_pos items start (length items) h
      ∙ ap some (
          take_all (length items - start) (drop start items)
            (ground (arith, length-drop start items))
          ∙ sym (take_all limit (drop start items) (ground (arith, length-drop start items))))
  slice_page items limit start false h e =
      slice_pos items start (start + limit) (ground arith)
      ∙ ap (λ n. some (take n (drop start items))) (omega arith)

  paged_pos :
      (items : List A) (limit start : ℕ)
      → leb start (length items) ≡ true
      → start + limit < 9223372036854775808
      → paged items limit (pos start) ≡ some (take limit (drop start items))
  unfolding paged
  paged_pos items limit start h k =
      ap
        (λ end.
          slice items start (if ltb_ℤ (pos (length items)) end then pos (length items) else end))
        (to_int64_small (start + limit) k)
      ∙ ap (λ b. slice items start (if b then pos (length items) else pos (start + limit)))
          (ltb_pos (length items) (start + limit))
      ∙ slice_page items limit start (ltb (length items) (start + limit)) h refl

  started :
      (items : List A) (limit start : ℕ) (b : Bool)
      → ltb (length items) start ≡ b
      → length items + limit < 9223372036854775808
      → paged items limit (if b then pos (length items) else pos start)
        ≡ some (take limit (drop start items))
  started items limit start true e k =
      paged_pos items limit (length items) (ground arith) k
      ∙ ap (λ xs. some (take limit xs))
          (drop_all (length items) items (ground arith) ∙ sym (drop_all start items (ground arith)))
  started items limit start false e k = paged_pos items limit start (ground arith) (ground arith)

  -- A page has the items after those of the pages before it, up to its limit, and none beyond the
  -- end of the list, as long as the numbers stay within 63 bits.
  pub paginate_outbounds_lem :
      (items : List A) (page limit : ℕ)
      → (page - 1) * limit < 9223372036854775808
      → length items + limit < 9223372036854775808
      → paginate_outbounds items page limit ≡ some (take limit (drop ((page - 1) * limit) items))
  unfolding paginate_outbounds
  paginate_outbounds_lem items page limit h k =
      let start = (page - 1) * limit in
      ap (λ n. paged items limit (if ltb_ℤ (pos (length items)) n then pos (length items) else n))
        (to_int64_small start h)
      ∙ ap (λ b. paged items limit (if b then pos (length items) else pos start))
          (ltb_pos (length items) start)
      ∙ started items limit start (ltb (length items) start) refl k
