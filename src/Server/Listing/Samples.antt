-- ===== src/Server/Listing/Samples.antt =====
-- Three jobs of one principal, listed by pages of one, with numbers written in unary.
use go_sdk.Prelude.{
  ℕ, zero, suc, ◌<◌, ◌≤◌, ◌≡◌, ◌↔◌, refl, ap, false, List, [], ◌∷◌, none, some, Text, text_beq,
  text_eq, ne_of_beq, codes, length, take, arith,
}
use go_sdk.Strings.{has_byte, text_less}
use go_sdk.Server.Listing.{
  Decimals, JobInfo, Filter, bar, decode_cursor, list_jobs, job_less, sort_onto, insert_job, wanted,
  decode_at, after_cursor, not_before, not_after, is_empty, filter_match,
}
use go_sdk.Server.Listing.Strict.{DistinctIds}
use go_sdk.Server.Listing.Pages.{IsDecimal, walk, list_jobs-take, walk_complete}

ones : ℕ → Text
ones zero = []
ones (suc n) = b'1' ∷ ones n

unary : Decimals
unary = record { format_int = ones; parse_int = λ s. some (length s) }

length-ones : (n : ℕ) → length (ones n) ≡ n
unfolding ones
length-ones zero = refl
length-ones (suc n) = ap suc (length-ones n)

ones-plain : (n : ℕ) → has_byte bar (ones n) ≡ false
unfolding ones has_byte
ones-plain zero = refl
ones-plain (suc n) = ones-plain n

unary-IsDecimal : IsDecimal unary
unfolding unary
unary-IsDecimal = record { parse-format = λ n. ap some (length-ones n); format-plain = ones-plain }

abbrev job : Text → ℕ → JobInfo
job id created_at = record {
  id = id;
  principal = codes "p";
  agent = codes "a";
  status = codes "running";
  created_at = created_at;
}

abbrev three_jobs : List JobInfo
three_jobs = job (codes "c") 3 ∷ job (codes "a") 1 ∷ job (codes "b") 1 ∷ []

abbrev no_filter : Filter
no_filter = record { status = []; agent = []; created_after = none; created_before = none }

three_jobs-DistinctIds : DistinctIds three_jobs
unfolding text_beq
three_jobs-DistinctIds = (
  (ne_of_beq (codes "c") (codes "a") refl, (ne_of_beq (codes "c") (codes "b") refl, tt)),
  ((ne_of_beq (codes "a") (codes "b") refl, tt), (tt, tt)),
)

list_jobs-take_example :
    ((list_jobs ⦃D = unary⦄ three_jobs (codes "p") no_filter 2 []).0
      ≡ take 2 (list_jobs ⦃D = unary⦄ three_jobs (codes "p") no_filter 0 []).0)
    × (((list_jobs ⦃D = unary⦄ three_jobs (codes "p") no_filter 2 []).1 ≡ [])
        ↔ (length (list_jobs ⦃D = unary⦄ three_jobs (codes "p") no_filter 0 []).0 ≤ 2))
list_jobs-take_example =
    list_jobs-take ⦃D = unary⦄ three_jobs (codes "p") no_filter 2 [] (omega arith)

few_jobs : length (list_jobs ⦃D = unary⦄ three_jobs (codes "p") no_filter 0 []).0 < 5
unfolding list_jobs job_less filter_match unary ones text_beq text_less sort_onto insert_job wanted
    decode_cursor decode_at after_cursor not_before not_after is_empty
few_jobs = omega arith

walk_complete_example :
    walk ⦃D = unary⦄ three_jobs (codes "p") no_filter 1 5 []
    ≡ (list_jobs ⦃D = unary⦄ three_jobs (codes "p") no_filter 0 []).0
walk_complete_example =
    walk_complete ⦃D = unary⦄ three_jobs (codes "p") no_filter 1 5 unary-IsDecimal
      three_jobs-DistinctIds (omega arith) few_jobs
