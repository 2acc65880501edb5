-- ===== src/Server/Listing/Pages.antt =====
-- The pages of the listing: each against the whole listing, and all of them together.
use native.Mathlib.Decide.{dec_lt}
use go_sdk.Prelude.{
  ℕ, zero, suc, ◌+◌, ◌≤◌, ◌<◌, ◌≡◌, ◌≢◌, refl, ap, sym, ◌∙◌, Bool, true, false, ◌&&◌, List, [], ◌∷◌,
  ◌++◌, some, arith, Text, nat_beq, ltb, if◌then◌else◌, length, take, drop, keep, take-append-drop,
  text_beq, text_beq_iff, text_eq, beq_of_ne, ◌↔◌, length-drop, length-take, take-short,
  take-take-suc, keep-keep, drop-drop,
}
use go_sdk.Strings.{has_byte, index}
use go_sdk.Strings.Search.{index_byte_complete, take-length, drop-after}
use go_sdk.Server.Listing.{
  Decimals, JobInfo, Filter, unset, after, bar, job_less, after_cursor, encode_cursor,
  decode_cursor, decode_at, composite, sort_onto, heap_root, wanted, next_cursor, page_of,
  list_jobs,
}
use go_sdk.Server.Listing.Strict.{
  DistinctIds, IsStrict, sort_onto-IsStrict, keep-DistinctIds, keep-rest,
}
use go_sdk.Server.Listing.Sorting.{root-take, keep-sort_onto, scan_lem}

-- What strconv says of a number's decimals.
pub record IsDecimal (D : Decimals) : Type 0 where
  pub parse-format : (n : ℕ) → D.parse_int (D.format_int n) ≡ some n
  pub format-plain : (n : ℕ) → has_byte bar (D.format_int n) ≡ false

wanted-after :
    (r : JobInfo) (filter : Filter) (principal : Text) (info : JobInfo)
    → wanted (after r.created_at r.id) filter principal info
      ≡ (wanted unset filter principal info && job_less r info)
unfolding wanted after_cursor job_less
wanted-after r filter principal info = ground arith

append-ne_nil : (s : Text) (c : ℕ) (t : Text) → s ++ c ∷ t ≢ []
append-ne_nil [] c t h = cc
append-ne_nil (x ∷ s) c t h = cc

module _ ⦃D : Decimals⦄ where
  decode_cursor-at :
      (cursor : Text)
      → cursor ≢ []
      → decode_cursor cursor ≡ decode_at cursor (index cursor (bar ∷ []))
  unfolding decode_cursor
  decode_cursor-at [] h = absurd (h refl)
  decode_cursor-at (c ∷ cursor) h = refl

  decode_cursor-nil : decode_cursor [] ≡ unset
  unfolding decode_cursor
  decode_cursor-nil = refl

  -- Reading a cursor gives back the place that it was made for.
  pub decode_cursor-encode_cursor :
      IsDecimal D
      → (info : JobInfo) → decode_cursor (encode_cursor info) ≡ after info.created_at info.id
  unfolding encode_cursor decode_at composite
  decode_cursor-encode_cursor d info =
      let ts : Text = D.format_int info.created_at in
      rw
        (
          decode_cursor-at (ts ++ bar ∷ info.id) (append-ne_nil ts bar info.id),
          index_byte_complete bar ts info.id (d.format-plain info.created_at),
          take-length ts (bar ∷ info.id),
          drop-after ts bar info.id,
          d.parse-format info.created_at,
        )
        refl

  encode_cursor-ne_nil : (info : JobInfo) → encode_cursor info ≢ []
  unfolding encode_cursor
  encode_cursor-ne_nil info = append-ne_nil (D.format_int info.created_at) bar info.id

  whole : List JobInfo → Text → Filter → Text → List JobInfo
  whole jobs principal filter cursor =
      sort_onto [] (keep (wanted (decode_cursor cursor) filter principal) jobs)

  list_jobs-whole :
      (jobs : List JobInfo) (principal : Text) (filter : Filter) (cursor : Text)
      → (list_jobs jobs principal filter 0 cursor).0 ≡ whole jobs principal filter cursor
  unfolding list_jobs whole
  list_jobs-whole jobs principal filter cursor = refl

  page_of-take :
      (limit : ℕ) (all : List JobInfo)
      → page_of limit (take (suc limit) all) ≡ (
        take limit all,
        (if ltb limit (length all) then next_cursor (heap_root (take limit all)) else []),
      )
  unfolding page_of
  page_of-take limit all = elim (dec_lt limit (length all)) [
    | yes h ↦
        let more : ltb limit (length (take (suc limit) all)) ≡ true =
          ground (arith, length-take (suc limit) all) in
        let more_all : ltb limit (length all) ≡ true = ground arith in
        rw (more, more_all, take-take-suc limit all) refl
    | no h ↦
        let done : ltb limit (length all) ≡ false = ground arith in
        rw (take-short (suc limit) all (omega arith), take-short limit all (omega arith), done) refl
  ]

  list_jobs-page :
      (jobs : List JobInfo) (principal : Text) (filter : Filter) (l : ℕ) (cursor : Text)
      → list_jobs jobs principal filter (suc l) cursor
        ≡ page_of (suc l) (take (suc (suc l)) (whole jobs principal filter cursor))
  unfolding list_jobs whole
  list_jobs-page jobs principal filter l cursor =
      let some_limit : nat_beq (suc l) 0 ≡ false = ground arith in
      rw (some_limit, scan_lem (suc l) (wanted (decode_cursor cursor) filter principal) jobs) refl

  whole-after :
      (jobs : List JobInfo) (principal : Text) (filter : Filter) (r : JobInfo)
      → IsDecimal D
      → whole jobs principal filter (encode_cursor r)
        ≡ keep (job_less r) (whole jobs principal filter [])
  unfolding whole
  whole-after jobs principal filter r d =
      let from : JobInfo → Bool = wanted (after r.created_at r.id) filter principal in
      let seen : List JobInfo = keep (wanted unset filter principal) jobs in
      rw (decode_cursor-encode_cursor d r, decode_cursor-nil)
        (ap (sort_onto []) (
            sym (
              keep-keep (job_less r) (wanted unset filter principal) from jobs
                (wanted-after r filter principal)))
          ∙ sym (keep-sort_onto (job_less r) [] seen tt))

  -- The pages that a client gets that asks for the next one as long as there is a cursor.
  unfoldable pub walk : List JobInfo → Text → Filter → ℕ → ℕ → Text → List JobInfo
  walk jobs principal filter limit zero cursor = []
  walk jobs principal filter limit (suc n) cursor =
      let r : List JobInfo × Text = list_jobs jobs principal filter limit cursor in
      let rest : List JobInfo = walk jobs principal filter limit n r.1 in
      if text_beq r.1 [] then r.0 else r.0 ++ rest

  next_page : ℕ → List JobInfo → List JobInfo × Text
  next_page l left = (
    take (suc l) left,
    (if ltb (suc l) (length left) then next_cursor (heap_root (take (suc l) left)) else []),
  )

  page-left :
      (jobs : List JobInfo) (principal : Text) (filter : Filter) (l : ℕ) (cursor : Text)
      (left : List JobInfo)
      → whole jobs principal filter cursor ≡ left
      → list_jobs jobs principal filter (suc l) cursor ≡ next_page l left
  unfolding next_page
  page-left jobs principal filter l cursor left at =
      list_jobs-page jobs principal filter l cursor
      ∙ ap (λ all. page_of (suc l) (take (suc (suc l)) all)) at
      ∙ page_of-take (suc l) left

  next_page-last :
      (l : ℕ) (left : List JobInfo) → length left ≤ suc l → next_page l left ≡ (left, [])
  unfolding next_page
  next_page-last l left h =
      let done : ltb (suc l) (length left) ≡ false = ground arith in
      rw (done, take-short (suc l) left h) refl

  next_page-more :
      (l : ℕ) (left : List JobInfo) (r : JobInfo)
      → suc l < length left
      → heap_root (take (suc l) left) ≡ some r
      → next_page l left ≡ (take (suc l) left, encode_cursor r)
  unfolding next_page next_cursor
  next_page-more l left r h root =
      let more : ltb (suc l) (length left) ≡ true = ground arith in rw (more, root) refl

  walk-drop :
      (jobs : List JobInfo) (principal : Text) (filter : Filter) (l n k : ℕ) (cursor : Text)
      → IsDecimal D
      → IsStrict (whole jobs principal filter [])
      → whole jobs principal filter cursor ≡ drop k (whole jobs principal filter [])
      → length (drop k (whole jobs principal filter [])) < n
      → walk jobs principal filter (suc l) n cursor ≡ drop k (whole jobs principal filter [])
  unfolding walk
  walk-drop jobs principal filter l zero k cursor d s at fuel = absurd (omega arith)
  walk-drop jobs principal filter l (suc n) k cursor d s at fuel =
      let all : List JobInfo = whole jobs principal filter [] in
      let left : List JobInfo = drop k all in
      let page : list_jobs jobs principal filter (suc l) cursor ≡ next_page l left =
        page-left jobs principal filter l cursor left at in
      elim (dec_lt (suc l) (length left)) [
        | no h ↦
            let at_end : text_beq [] [] ≡ true = (text_beq_iff [] []).1 refl in
            rw (page, next_page-last l left (omega arith), at_end) refl
        | yes h ↦
            let (r, root) = root-take l left (omega arith) in
            let not_end : text_beq (encode_cursor r) [] ≡ false =
              beq_of_ne (encode_cursor r) [] (encode_cursor-ne_nil r) in
            let later : whole jobs principal filter (encode_cursor r) ≡ drop (k + suc l) all =
              whole-after jobs principal filter r d
              ∙ keep-rest k l r all s root
              ∙ drop-drop k (suc l) all in
            let rest : walk jobs principal filter (suc l) n (encode_cursor r) ≡ drop (suc l) left =
              walk-drop jobs principal filter l n (k + suc l) (encode_cursor r) d s later
                (omega (arith, ap length (drop-drop k (suc l) all), length-drop (suc l) left))
              ∙ sym (drop-drop k (suc l) all) in
            rw (page, next_page-more l left r h root, not_end, rest) (take-append-drop (suc l) left)
      ]

  -- A bounded page has the first `limit` of the jobs that the whole listing from its cursor has, in
  -- the same order, and it comes with no next cursor exactly if these are all of them. The limit is
  -- above 0.
  pub list_jobs-take :
      (jobs : List JobInfo) (principal : Text) (filter : Filter) (limit : ℕ) (cursor : Text)
      → 0 < limit
      → ((list_jobs jobs principal filter limit cursor).0
          ≡ take limit (list_jobs jobs principal filter 0 cursor).0)
        × (((list_jobs jobs principal filter limit cursor).1 ≡ [])
            ↔ (length (list_jobs jobs principal filter 0 cursor).0 ≤ limit))
  list_jobs-take jobs principal filter zero cursor pos = absurd (omega arith)
  list_jobs-take jobs principal filter (suc l) cursor pos =
      let all : List JobInfo = whole jobs principal filter cursor in
      rw
        (
          list_jobs-whole jobs principal filter cursor,
          page-left jobs principal filter l cursor all refl,
        )
        (elim (dec_lt (suc l) (length all)) [
          | no h ↦
              rw (next_page-last l all (omega arith))
                (sym (take-short (suc l) all (omega arith)), (λ e. omega arith, λ le. refl))
          | yes h ↦
              let (r, root) = root-take l all (omega arith) in
              rw (next_page-more l all r h root)
                (refl, (λ e. absurd (encode_cursor-ne_nil r e), λ le. absurd (omega arith)))
        ])

  -- A client that follows the cursors from the start to the end gets every job of the whole listing,
  -- once each and in its order, whatever the limit above 0. No two jobs have the same id, the jobs do
  -- not change between the requests, and it makes more requests than there are jobs listed.
  pub walk_complete :
      (jobs : List JobInfo) (principal : Text) (filter : Filter) (limit n : ℕ)
      → IsDecimal D
      → DistinctIds jobs
      → 0 < limit
      → length (list_jobs jobs principal filter 0 []).0 < n
      → walk jobs principal filter limit n [] ≡ (list_jobs jobs principal filter 0 []).0
  unfolding whole
  walk_complete jobs principal filter zero n d distinct pos fuel = absurd (omega arith)
  walk_complete jobs principal filter (suc l) n d distinct pos fuel =
      rw (list_jobs-whole jobs principal filter []) (
        walk-drop jobs principal filter l n 0 [] d
          (sort_onto-IsStrict (keep (wanted (decode_cursor []) filter principal) jobs)
            (keep-DistinctIds (wanted (decode_cursor []) filter principal) jobs distinct))
          refl (omega (arith, ap length (list_jobs-whole jobs principal filter []))))
