-- ===== src/Pages/Walk.antt =====
-- A client that follows `next_cursor` from the first page on.
use multi_tenant_saas.Base.{
  ℕ, zero, suc, ◌+◌, ◌≤◌, ◌<◌, ◌≡◌, refl, sym, ap, ◌∙◌, fun_ext, Bool, true, false, ◌&&◌, Option,
  none, some, List, [], ◌∷◌, ◌++◌, arith, inl, inr, ltb, filter, take, take_all, length, get_last?,
  All, Unique, filter-Unique, Bool-cases,
}
use multi_tenant_saas.Pages.{
  Position, CursorCodec, order_by, past, list_cursor, cursor_page, next_of, cursor_data_of, walk,
}
use multi_tenant_saas.Pages.Sorted.{
  KeysetOrder, IsSorted, order_by-filter, order_by-IsSorted, length-filter-order_by,
}

module _ {A : Type 0} where
  get_last?-append : (xs : List A) (x : A) → get_last? (xs ++ x ∷ []) ≡ some x
  get_last?-append [] x = refl
  get_last?-append (y ∷ []) x = refl
  get_last?-append (y ∷ z ∷ xs) x = get_last?-append (z ∷ xs) x

  append_assoc : (xs ys zs : List A) → (xs ++ ys) ++ zs ≡ xs ++ (ys ++ zs)
  append_assoc [] ys zs = refl
  append_assoc (x ∷ xs) ys zs = ap (◌∷◌ x) (append_assoc xs ys zs)

  -- A list longer than a page is the page, which has a last row, and a shorter rest.
  cut_page :
      (k : ℕ) (xs : List A)
      → suc k < length xs
      → (before : List A) × (last : A) × (rest : List A) × (take (suc k) xs ≡ before ++ last ∷ [])
        × (xs ≡ before ++ last ∷ rest)
        × (length rest < length xs)
  cut_page k [] h = absurd (omega arith)
  cut_page zero (x ∷ xs) h = ([], x, xs, refl, refl, omega arith)
  cut_page (suc k) (x ∷ xs) h =
      let (before, last, rest, e, f, g) = cut_page k xs (omega arith) in
      (x ∷ before, last, rest, ap (◌∷◌ x) e, ap (◌∷◌ x) f, omega (arith, g))

  take-take : (k : ℕ) (xs : List A) → take k (take (suc k) xs) ≡ take k xs
  take-take zero xs = refl
  take-take (suc k) [] = refl
  take-take (suc k) (x ∷ xs) = ap (◌∷◌ x) (take-take k xs)

  has_more_lem : (k : ℕ) (xs : List A) → ltb k (length (take (suc k) xs)) ≡ ltb k (length xs)
  has_more_lem zero [] = refl
  has_more_lem zero (x ∷ xs) = ground arith
  has_more_lem (suc k) [] = refl
  has_more_lem (suc k) (x ∷ xs) = ground (arith, has_more_lem k xs)

  filter-and : (p q : A → Bool) (xs : List A) → filter (λ x. p x && q x) xs ≡ filter q (filter p xs)
  filter-and p q [] = refl
  filter-and p q (x ∷ xs) = ground (arith, filter-and p q xs)

  filter_all : (p : A → Bool) (xs : List A) → All (λ x. p x ≡ true) xs → filter p xs ≡ xs
  filter_all p [] h = refl
  filter_all p (x ∷ xs) h = ground (arith, h.0, filter_all p xs h.1)

module _ {A : Type 0} (position : A → Position) (after : Position → Position → Bool)
    (order : KeysetOrder after) where
  open order use {irreflexive, transitive}

  -- In a sorted listing, the rows that come after one of them are those that follow it.
  following :
      (before : List A) (row : A) (rest : List A)
      → IsSorted position after order (before ++ row ∷ rest)
      → filter (past position after (some (position row))) (before ++ row ∷ rest) ≡ rest
  following [] row rest s =
      rw (irreflexive (position row))
        (filter_all (past position after (some (position row))) rest s.0)
  following (x ∷ before) row rest s =
      let passed : after (position row) (position x) ≡ false = ground (
        arith,
        transitive (position x) (position row) (position x),
        irreflexive (position x),
        first_of before row rest x s.0,
      ) in
      rw passed (following before row rest s.1)
    where
      first_of :
          (xs : List A) (r : A) (ys : List A) (z : A)
          → All (λ y. after (position z) (position y) ≡ true) (xs ++ r ∷ ys)
          → after (position z) (position r) ≡ true
      first_of [] r ys z h = h.0
      first_of (_ ∷ xs) r ys z h = first_of xs r ys z h.1

  module _ (codec : CursorCodec) (criteria : A → Bool) (k : ℕ) (rows : List A)
      (u : Unique (λ r. (position r).1) rows) where
    open codec use {Cursor, encode_cursor, decode_cursor, decode_cursor-encode_cursor}

    abbrev listing : List A
    listing = order_by position after (filter criteria rows)

    abbrev remaining : Option Position → List A
    remaining c = order_by position after (filter (λ r. criteria r && past position after c r) rows)

    remaining_lem : (c : Option Position) → remaining c ≡ filter (past position after c) listing
    remaining_lem c =
        ap (order_by position after) (filter-and criteria (past position after c) rows)
        ∙ order_by-filter position after order (past position after c) (filter criteria rows)
            (filter-Unique (λ r. (position r).1) criteria rows u)

    one_more : suc k + 1 ≡ suc (suc k)
    one_more = omega arith

    page_lem :
        (c : Option Position)
        → list_cursor position after criteria c (suc k) rows
          ≡ (take (suc k) (remaining c), ltb (suc k) (length (remaining c)))
    unfolding list_cursor
    page_lem c =
        rw (one_more, take-take (suc k) (remaining c), has_more_lem (suc k) (remaining c)) refl

    abbrev walk_on : ℕ → Option Cursor → List A
    walk_on = walk position after codec criteria (suc k) rows

    no_next : (items : List A) → next_of position after items false ≡ none
    no_next items =
        elim (get_last? items)
          as (λ o.
            elim o as (λ _. Option Position) [ none ↦ none | some last_item ↦ none ] ≡ none) [
              | none ↦ refl
              | some _ ↦ refl
            ]

    next_some :
        (items : List A) (last : A)
        → next_of position after (items ++ last ∷ []) true ≡ some (position last)
    next_some items last = ground (arith, get_last?-append items last)

    abbrev resume : ℕ → List A → Option Position → List A
    resume n items none = items
    resume n items (some p) = items ++ walk_on n (some (encode_cursor p))

    abbrev step : ℕ → List A × Bool → List A
    step n page = resume n page.0 (next_of position after page.0 page.1)

    walk_step :
        (n : ℕ) (cursor : Option Cursor)
        → let c = cursor_data_of position after codec cursor in
          walk_on (suc n) cursor
          ≡ resume n (take (suc k) (remaining c)) (
              next_of position after
                (take (suc k) (remaining c))
                (ltb (suc k) (length (remaining c))))
    unfolding walk cursor_page
    walk_step n cursor = ap (step n) (page_lem (cursor_data_of position after codec cursor))

    -- The last page.
    walk_ends :
        (n : ℕ) (cursor : Option Cursor)
        → (length (remaining (cursor_data_of position after codec cursor)) ≤ suc k)
        → walk_on (suc n) cursor ≡ remaining (cursor_data_of position after codec cursor)
    walk_ends n cursor h =
        let left = remaining (cursor_data_of position after codec cursor) in
        let none_left : ltb (suc k) (length left) ≡ false = ground arith in
        rw (walk_step n cursor, none_left, no_next (take (suc k) left)) (take_all (suc k) left h)

    -- A page that is not the last.
    walk_continues :
        (n : ℕ) (cursor : Option Cursor) (items : List A) (last : A)
        → ltb (suc k) (length (remaining (cursor_data_of position after codec cursor))) ≡ true
        → take (suc k) (remaining (cursor_data_of position after codec cursor)) ≡ items ++ last ∷ []
        → walk_on (suc n) cursor
          ≡ (items ++ last ∷ []) ++ walk_on n (some (encode_cursor (position last)))
    walk_continues n cursor items last more e =
        rw (walk_step n cursor, more, e, next_some items last) refl

    walk_from :
        (n : ℕ) (cursor : Option Cursor) (before left : List A)
        → listing ≡ before ++ left
        → remaining (cursor_data_of position after codec cursor) ≡ left
        → length left ≤ n
        → walk_on (suc n) cursor ≡ left
    walk_from zero cursor before left e r h = walk_ends zero cursor (rw r (omega arith)) ∙ r
    walk_from (suc n) cursor before left e r h = elim (Bool-cases (ltb (suc k) (length left))) [
      | inr last_page ↦ walk_ends (suc n) cursor (rw r (ground arith)) ∙ r
      | inl more ↦
          let (items, last, rest, cut, parts, fewer) = cut_page k left (ground arith) in
          let sorted =
            order_by-IsSorted position after order (filter criteria rows)
              (filter-Unique (λ x. (position x).1) criteria rows u) in
          let split : listing ≡ (before ++ items) ++ last ∷ rest =
            e ∙ (ap (◌++◌ before) parts ∙ sym (append_assoc before items (last ∷ rest))) in
          let next_left : remaining
                (cursor_data_of position after codec (some (encode_cursor (position last))))
              ≡ rest =
            rw (decode_cursor-encode_cursor (position last)) (
              remaining_lem (some (position last))
              ∙ (ap (filter (past position after (some (position last)))) split
                  ∙ following (before ++ items) last rest (rw (sym split) sorted))) in
          let so_far : listing ≡ (before ++ (items ++ last ∷ [])) ++ rest =
            split
            ∙ (append_assoc before items (last ∷ rest)
                ∙ (ap (◌++◌ before) (sym (append_assoc items (last ∷ []) rest))
                    ∙ sym (append_assoc before (items ++ last ∷ []) rest))) in
          walk_continues (suc n) cursor items last (rw r more) (ap (take (suc k)) r ∙ cut)
          ∙ (ap (◌++◌ (items ++ last ∷ [])) (
                walk_from n (some (encode_cursor (position last))) (before ++ (items ++ last ∷ []))
                  rest so_far next_left (omega arith))
              ∙ (append_assoc items (last ∷ []) rest ∙ sym parts))
    ]

    from_start : remaining none ≡ listing
    from_start =
        ap (λ (p : A → Bool). order_by position after (filter p rows)) (fun_ext (λ r. ground arith))

    abbrev pub seen_rows : List A
    seen_rows = walk_on (suc (length listing)) none

    -- Let a page hold one row at least, the rows have distinct keys, and a cursor decode to the
    -- position that it encodes. Then a client that follows the cursors from the first page on, for
    -- as many pages as there are selected rows and one more, collects exactly the selected rows,
    -- each once, in the order of the listing.
    pub walk_covers :
        IsSorted position after order seen_rows
        × ((p : A → Bool) → length (filter p seen_rows) ≡ length (filter p (filter criteria rows)))
    walk_covers = rw (walk_from (length listing) none [] listing refl from_start (omega arith)) (
      order_by-IsSorted position after order (filter criteria rows)
          (filter-Unique (λ x. (position x).1) criteria rows u),
      λ p. length-filter-order_by position after order p (filter criteria rows),
    )
