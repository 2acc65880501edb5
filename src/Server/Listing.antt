-- ===== src/Server/Listing.antt =====
-- server/server.go: `listJobs`, its filter, its cursor and its bounded heap. An instant is its
-- UnixNano. The jobs are the registry's at one moment, in the order in which the map is visited, and
-- a job's snapshot is the job.
pub mod Sorting
pub mod Strict
pub mod Pages
mod Samples
use go_sdk.Prelude.{
  ℕ, zero, suc, ◌+◌, Bool, true, false, not, ◌&&◌, ◌||◌, List, [], ◌∷◌, ◌++◌, Option, none, some,
  Text, text_beq, text_eq, contains, ltb, nat_beq, if◌then◌else◌, length, take, drop, keep,
}
use go_sdk.Strings.{index, text_less}

-- strconv.FormatInt and strconv.ParseInt at base ten.
pub record Decimals : Type 0 where
  pub format_int : ℕ → Text
  pub parse_int : Text → Option ℕ

-- `JobInfo`, in the fields that the listing reads.
pub record JobInfo : Type 0 where
  pub id : Text
  pub principal : Text
  pub agent : Text
  pub status : Text
  pub created_at : ℕ

pub record Filter : Type 0 where
  pub status : List Text
  pub agent : Text
  pub created_after : Option ℕ
  pub created_before : Option ℕ

-- `jobEntryLess`
unfoldable pub job_less : JobInfo → JobInfo → Bool
job_less a b =
    if nat_beq a.created_at b.created_at then text_less a.id b.id else ltb a.created_at b.created_at

not_before : ℕ → Option ℕ → Bool
not_before t none = true
not_before t (some bound) = not (ltb t bound)

not_after : ℕ → Option ℕ → Bool
not_after t none = true
not_after t (some bound) = not (ltb bound t)

is_empty : List Text → Bool
is_empty [] = true
is_empty (s ∷ ss) = false

-- The function `matches` of `listJobs`.
unfoldable pub filter_match : Filter → JobInfo → Bool
unfolding not_before not_after is_empty
filter_match f info =
    if not (text_beq f.agent []) && not (text_beq info.agent f.agent)
    then false
    else if not (not_before info.created_at f.created_after)
    then false
    else if not (not_after info.created_at f.created_before)
    then false
    else is_empty f.status || contains info.status f.status

pub data Cursor : Type 0 where
  unset : Cursor
  legacy : Text → Cursor
  after : ℕ → Text → Cursor

-- `afterCursor`, with `true` for a cursor that is not set.
unfoldable pub after_cursor : Cursor → JobInfo → Bool
after_cursor unset info = true
after_cursor (legacy legacy_id) info = text_less legacy_id info.id
after_cursor (after ts id) info =
    ltb ts info.created_at || (nat_beq info.created_at ts && text_less id info.id)

abbrev pub bar : ℕ
bar = b'|'

module _ ⦃D : Decimals⦄ where
  unfoldable pub encode_cursor : JobInfo → Text
  encode_cursor info = D.format_int info.created_at ++ bar ∷ info.id

  composite : Option ℕ → Text → Cursor
  composite none id = unset
  composite (some ts) id = after ts id

  decode_at : Text → Option ℕ → Cursor
  unfolding composite
  decode_at cursor none = legacy cursor
  decode_at cursor (some sep) = composite (D.parse_int (take sep cursor)) (drop (sep + 1) cursor)

  unfoldable pub decode_cursor : Text → Cursor
  unfolding decode_at composite
  decode_cursor [] = unset
  decode_cursor (c ∷ cursor) = decode_at (c ∷ cursor) (index (c ∷ cursor) (bar ∷ []))

-- sort.Slice by `job_less`, as the insertion sort that Go runs on short slices: each element is put
-- in its place among those before it.
unfoldable pub insert_job : JobInfo → List JobInfo → List JobInfo
insert_job e [] = e ∷ []
insert_job e (x ∷ xs) = if job_less e x then e ∷ x ∷ xs else x ∷ insert_job e xs

unfoldable pub sort_onto : List JobInfo → List JobInfo → List JobInfo
sort_onto sorted [] = sorted
sort_onto sorted (e ∷ es) = sort_onto (insert_job e sorted) es

-- container/heap over `maxJobHeap`, as what it holds in ascending order: the root is the last one.
-- `heap.Push` puts an entry in its place, `heap.Pop` takes the root, and `heap.Fix` at the root
-- after it is overwritten leaves the new entry in its place among the others.
unfoldable pub heap_root : List JobInfo → Option JobInfo
heap_root [] = none
heap_root (x ∷ []) = some x
heap_root (x ∷ y ∷ h) = heap_root (y ∷ h)

unfoldable pub without_root : List JobInfo → List JobInfo
without_root [] = []
without_root (x ∷ []) = []
without_root (x ∷ y ∷ h) = x ∷ without_root (y ∷ h)

replace_root : JobInfo → List JobInfo → Option JobInfo → List JobInfo
replace_root e h none = h
replace_root e h (some root) = if job_less e root then insert_job e (without_root h) else h

-- One turn of the scan: `bound` is limit + 1.
unfoldable pub offer : ℕ → JobInfo → List JobInfo → List JobInfo
unfolding replace_root
offer bound e h = if ltb (length h) bound then insert_job e h else replace_root e h (heap_root h)

wanted : Cursor → Filter → Text → JobInfo → Bool
wanted cur filter principal info =
    text_beq info.principal principal && after_cursor cur info && filter_match filter info

unfoldable pub scan : ℕ → (JobInfo → Bool) → List JobInfo → List JobInfo → List JobInfo
scan bound want h [] = h
scan bound want h (e ∷ es) = scan bound want (if want e then offer bound e h else h) es

module _ ⦃D : Decimals⦄ where
  -- The loop over the drained page, which points the cursor at the last entry before the limit.
  next_cursor : Option JobInfo → Text
  next_cursor none = []
  next_cursor (some info) = encode_cursor info

  page_of : ℕ → List JobInfo → List JobInfo × Text
  unfolding next_cursor
  page_of limit page =
      if ltb limit (length page)
      then (take limit page, next_cursor (heap_root (take limit page)))
      else (page, [])

  -- The jobs of the page and the next cursor. A limit of 0 stands for every one that is not positive.
  unfoldable pub list_jobs : List JobInfo → Text → Filter → ℕ → Text → List JobInfo × Text
  unfolding page_of wanted next_cursor
  list_jobs jobs principal filter limit cursor =
      let want : JobInfo → Bool = wanted (decode_cursor cursor) filter principal in
      if nat_beq limit 0
      then (sort_onto [] (keep want jobs), [])
      else page_of limit (scan (suc limit) want [] jobs)
