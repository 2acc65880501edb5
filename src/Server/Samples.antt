-- ===== src/Server/Samples.antt =====
-- Agents, a disconnected session, the race of a job's timers with its agent, and a write in chunks.
use go_sdk.Server.Tools.{
  validate_tool_result, tool_result_body, tool_error_body, validate_tool_result-bodies,
}
use go_sdk.Prelude.{
  ℕ, suc, ◌+◌, ◌≤◌, ◌<◌, ◌≡◌, ◌≢◌, ◌↔◌, inr, refl, true, false, List, [], ◌∷◌, ◌++◌, none, some,
  Text, codes, text_beq, text_eq, ne_of_beq, length, keep, All, lookup, delete, arith,
  if◌then◌else◌, UniqueKeys,
}
use go_sdk.Errors.{err, timeout, structured, unauthenticated}
use go_sdk.EventLog.{Entry, entries_of, is_after, oldest}
use go_sdk.EventLog.Order.{Ascending}
use go_sdk.Agent.{AgentRef}
use go_sdk.Server.Agents.{Atoi}
use go_sdk.Server.Resume.{
  ResumeEntry, ResumeRequest, Resumed, Streams, ok, is_live, stash_resume, claim_resume,
  resume_handshake, replay_buffered, alloc_for, purge_lazily, buffer_gap,
}
use go_sdk.Server.Resume.Claim.{
  Owns, refusal, claimable, claim_resume_iff, claim_resume_hostile, claim_resume-stash_resume,
}
use go_sdk.Server.Resume.Lossless.{resume_handshake_lossless}
use go_sdk.Server.Job.{
  Runtime, Event, Racing, returned, new_job, run, steps, raw, expiry_fires, run_looks, run_starts,
  new_race, agent_ends, winner_finishes, status_error,
}
use go_sdk.Server.Job.Once.{IsEnded, terminal_once, status_settled, run_ends}
use go_sdk.Server.Stream.{Codec, Stream, utf8, write}
use go_sdk.Server.Stream.Collect.{concat_bytes, numbered, write-segments}

abbrev no_numbers : Atoi
no_numbers = record { atoi = λ t. none }

version_given : codes "2.0" ≢ []
unfolding text_beq
version_given = ne_of_beq (codes "2.0") [] refl

abbrev pinned : AgentRef
pinned = record { name = codes "review"; version = codes "2.0" }

abbrev event : ℕ → Entry ℕ
event n = record {
  session_id = codes "s";
  event_seq = n;
  job_id = codes "j";
  stored_at = 1;
  envelope = n;
}

abbrev entry : ResumeEntry
entry = record {
  session_id = codes "s";
  principal = codes "ann";
  features = [];
  seq = 3;
  resume_token = codes "t";
  expires_at = 90;
}

abbrev streams : Streams ℕ
streams = record {
  resumes = (codes "s", entry) ∷ [];
  seq_allocs = [];
  log = record { by_sess = (codes "s", event 2 ∷ event 3 ∷ []) ∷ []; max = 2 };
  resume_window = 60;
}

abbrev request : ResumeRequest
request = record { session_id = codes "s"; resume_token = codes "t"; last_event_seq = 1 }

unique : UniqueKeys streams.resumes
unique = (unfold lookup in refl, tt)

claim_resume_iff_example : ((claim_resume streams 50 request (codes "ann")).1 ≡ ok entry) ↔ (
    (lookup (codes "s") streams.resumes ≡ some entry)
    × ((is_live 50 entry ≡ true) × Owns request (codes "ann") entry))
claim_resume_iff_example = claim_resume_iff streams 50 request (codes "ann") entry unique

stashed : lookup (codes "s") streams.resumes ≡ some entry
unfolding lookup text_beq
stashed = refl

principals_differ : codes "ann" ≢ codes "eve"
unfolding text_beq
principals_differ = ne_of_beq (codes "ann") (codes "eve") refl

claim_resume_hostile_example :
    (refusal (claim_resume streams 50 request (codes "eve")).1 ≡ some unauthenticated)
    × (claimable (claim_resume streams 50 request (codes "eve")).0 60 (codes "s")
        ≡ claimable streams 60 (codes "s"))
claim_resume_hostile_example =
    claim_resume_hostile streams 50 60 request (codes "eve") entry (codes "s") unique (omega arith)
      stashed refl (inr principals_differ)

claim_resume-stash_resume_example :
    (claim_resume
      (stash_resume streams 30 (codes "r") (codes "ann") [] 4 (codes "t"))
      90
      (record { session_id = codes "r"; resume_token = codes "t"; last_event_seq = 4 })
      (codes "ann")).1
    ≡ ok (record {
      session_id = codes "r";
      principal = codes "ann";
      features = [];
      seq = 4;
      resume_token = codes "t";
      expires_at = 90;
    })
claim_resume-stash_resume_example =
    claim_resume-stash_resume streams 30 90 4 4 (codes "r") (codes "ann") (codes "t") [] unique
      (omega arith)

abbrev resumed : Resumed
resumed = record { entry = entry; seq = 3; replay_from = 1 }

accepted : (resume_handshake streams 50 request (codes "ann")).1 ≡ ok resumed
unfolding resume_handshake claim_resume purge_lazily buffer_gap oldest entries_of lookup text_beq
    delete alloc_for
accepted = refl

retained :
    entries_of (resume_handshake streams 50 request (codes "ann")).0.log (codes "s")
    ≡ event 2 ∷ event 3 ∷ []
unfolding resume_handshake claim_resume purge_lazily buffer_gap oldest entries_of lookup text_beq
    delete
retained = refl

some_retained :
    0 < length (entries_of (resume_handshake streams 50 request (codes "ann")).0.log (codes "s"))
some_retained = rw retained (omega arith)

abbrev history : List (Entry ℕ)
history = event 1 ∷ event 2 ∷ event 3 ∷ []

history-Ascending : Ascending history
history-Ascending = ((omega arith, (omega arith, tt)), ((omega arith, tt), (tt, tt)))

resume_handshake_lossless_example :
    replay_buffered (resume_handshake streams 50 request (codes "ann")).0.log (codes "s") 1
    ≡ keep (is_after 1) history
resume_handshake_lossless_example =
    resume_handshake_lossless streams 50 request (codes "ann") resumed 1 history accepted
      (omega arith) history-Ascending some_retained retained

abbrev env : Runtime Text
env = record { marshal = λ t. raw t; is_canceled = λ e. false; provisioner = true }

-- The lease expires between the two parts of the start, and the agent's step comes between
-- the two parts of the expiry.
abbrev race : List (Event Text)
race =
    run_looks
    ∷ expiry_fires
    ∷ run_starts
    ∷ agent_ends none (returned (some (codes "42")) none)
    ∷ winner_finishes
    ∷ winner_finishes
    ∷ []

terminal_once_example :
    length (steps env (new_race (new_job 5)) race).job.sent
    ≤ (if (steps env (new_race (new_job 5)) race).job.terminal then 1 else 0)
terminal_once_example = terminal_once env 5 race

abbrev ended : Racing
ended = record {
  job = record (new_job 5) { terminal = true; status_v = status_error };
  works = [];
  starting = true;
}

status_settled_example : IsEnded status_error (steps env ended (run_starts ∷ race))
status_settled_example = status_settled env ended (run_starts ∷ race) status_error (refl, refl)

run_ends_example :
    ((run env (new_job 5) none (returned (some (codes "42")) none)).terminal ≡ true)
    × (length (run env (new_job 5) none (returned (some (codes "42")) none)).sent ≡ suc 0)
run_ends_example = run_ends env (new_job 5) none (returned (some (codes "42")) none) refl

abbrev plain : Codec
plain = record { encode = λ e bytes. bytes; decode = λ e text. some text }

abbrev stream : Stream
stream = record {
  result_id = codes "r";
  encoding = utf8;
  seq = 0;
  size = 0;
  max = 10;
  chunk_size = 2;
  closed = false;
  chunks = [];
}

write-segments_example :
    (parts : List (List ℕ)) × ((concat_bytes ⦃C = plain⦄ parts ≡ codes "hello")
      × (All (λ x. length x ≤ 2) parts)
      × ((write ⦃C = plain⦄ stream (codes "hello")).1 ≡ none)
      × ((write ⦃C = plain⦄ stream (codes "hello")).0.chunks
          ≡ [] ++ numbered ⦃C = plain⦄ stream 0 parts)
      × ((write ⦃C = plain⦄ stream (codes "hello")).0.size ≡ 0 + length (codes "hello"))
      × ((write ⦃C = plain⦄ stream (codes "hello")).0.seq ≡ 0 + length parts))
write-segments_example =
    write-segments ⦃C = plain⦄ stream (codes "hello") refl (omega arith) (inr (omega arith))

validate_tool_result-bodies_example :
    ((validate_tool_result (tool_result_body (codes "c") (some (codes "7"))) ≡ none)
      ↔ ((some (codes "7") ≢ some []) × (some (codes "7") ≢ some (codes "null"))))
    × (validate_tool_result (tool_error_body (codes "c") (structured (err timeout))) ≡ none)
validate_tool_result-bodies_example =
    validate_tool_result-bodies (codes "c") (some (codes "7")) (structured (err timeout))
